-- ===== src/Schema/Mapped.antt =====
-- backend/db/models/base.py, and SQLAlchemy's reading of a `mapped_column`: what a declaration says
-- of the table.
use aerp.Prelude.{
  String, ◌<>◌, Bool, true, false, not, ◌&&◌, Option, none, some, List, [], ◌∷◌, ◌++◌, map, keep,
  if◌then◌else◌,
}
use aerp.Schema.{ColumnType, timestamp, Column, OnDelete, ForeignKey, Table, Index}

pub record MappedColumn : Type 0 where
  pub column : Column
  pub index : Bool
  pub unique : Bool
  pub foreign_key : Option (String × String × OnDelete)

module _ (name : String) (column_type : ColumnType) where
  abbrev pub required : MappedColumn
  required = record {
    column = record {
      name = name;
      column_type = column_type;
      nullable = false;
      server_default = none;
    };
    index = false;
    unique = false;
    foreign_key = none;
  }

  abbrev pub optional : MappedColumn
  optional = record required { column = record required.column { nullable = true } }

-- `server_default=func.now()`
abbrev pub stamped : String → MappedColumn
stamped name =
    let c = required name timestamp in
    record c { column = record c.column { server_default = some "now()" } }

-- `index=True`
abbrev pub indexed : MappedColumn → MappedColumn
indexed c = record c { index = true }

-- `unique=True`
abbrev pub unique_one : MappedColumn → MappedColumn
unique_one c = record c { unique = true }

-- `ForeignKey("table.column", ondelete=…)`
abbrev pub refer : String → String → OnDelete → MappedColumn → MappedColumn
refer target target_column on_delete c = record c {
  foreign_key = some (target, target_column, on_delete);
}

pub record Model : Type 0 where
  pub tablename : String
  pub mapped : List MappedColumn
  pub table_args : List (List String)

-- The columns of `TimestampMixin`.
abbrev pub timestamps : List MappedColumn
timestamps = stamped "created_at" ∷ stamped "updated_at" ∷ []

abbrev pub key_of : MappedColumn → List ForeignKey
key_of c = elim c.foreign_key [
  | none ↦ []
  | some (target, target_column, on_delete) ↦
      record {
        column = c.column.name;
        target = target;
        target_column = target_column;
        on_delete = on_delete;
      }
      ∷ []
]

abbrev pub keys_of : List MappedColumn → List ForeignKey
keys_of [] = []
keys_of (c ∷ columns) = key_of c ++ keys_of columns

-- `unique=True` is a constraint of the table, or of the index where there is one.
abbrev pub uniques_of : List MappedColumn → List (List String)
uniques_of [] = []
uniques_of (c ∷ columns) =
    (if c.unique && not c.index then (c.column.name ∷ []) ∷ [] else []) ++ uniques_of columns

unfoldable pub to_table : Model → Table
to_table m = record {
  name = m.tablename;
  columns = map (λ (c : MappedColumn). c.column) (m.mapped ++ timestamps);
  foreign_keys = keys_of m.mapped;
  primary_key = "id";
  uniques = uniques_of m.mapped ++ m.table_args;
}

-- The index of a column is named after the table and the column.
abbrev pub index_of : String → MappedColumn → Index
index_of tablename c = record {
  name = "ix_" <> tablename <> "_" <> c.column.name;
  table = tablename;
  columns = c.column.name ∷ [];
  unique = c.unique;
  method = none;
}

unfoldable pub to_indexes : Model → List Index
to_indexes m = map (index_of m.tablename) (keep (λ (c : MappedColumn). c.index) m.mapped)

unfoldable pub tables_of : List Model → List Table
unfolding to_table
tables_of models = map to_table models

unfoldable pub indexes_of : List Model → List Index
unfolding to_indexes
indexes_of [] = []
indexes_of (m ∷ models) = to_indexes m ++ indexes_of models
