-- ===== src/Schema.antt =====
-- The tables of the database: backend/db/migrations, which make them, and backend/db/models, which
-- declare them. Comments on columns are left out. What a statement needs of the schema that it meets
-- is PostgreSQL's documented behaviour.
pub mod Mapped
pub mod Declared
pub mod Initial
pub mod Versions
pub mod Seed
pub mod Created
pub mod Steps
pub mod Laws
pub mod Downgrades
use aerp.Prelude.{
  ℕ, String, str_eq, contains, Bool, true, not, ◌&&◌, ◌||◌, Option, none, some, List, [], ◌∷◌,
  any_of, find_first, keep, if◌then◌else◌, is_some,
}

pub data ColumnType : Type 0 where
  uuid text boolean integer float timestamp jsonb : ColumnType
  string : Option ℕ → ColumnType
  vector : ℕ → ColumnType

pub record Column : Type 0 where
  pub name : String
  pub column_type : ColumnType
  pub nullable : Bool
  pub server_default : Option String

pub data OnDelete : Type 0 where
  cascade set_null : OnDelete

-- A column, and the table and the column that it refers to.
pub record ForeignKey : Type 0 where
  pub column : String
  pub target : String
  pub target_column : String
  pub on_delete : OnDelete

pub record Table : Type 0 where
  pub name : String
  pub columns : List Column
  pub foreign_keys : List ForeignKey
  pub primary_key : String
  pub uniques : List (List String)

-- An index of a method other than the default has its name and its operator class, if it is given.
pub record Index : Type 0 where
  pub name : String
  pub table : String
  pub columns : List String
  pub unique : Bool
  pub method : Option (String × Option String)

pub record Schema : Type 0 where
  pub extensions : List String
  pub tables : List Table
  pub indexes : List Index

-- The calls of `op` in the migrations.
pub data Op : Type 0 where
  create_extension : String → Op  -- IF NOT EXISTS
  create_table : Table → Op
  create_index : Index → Op
  drop_index : String → Op
  drop_table : String → Op
  insert_into : String → List String → Op  -- the table and the columns of the rows

abbrev pub has_table : String → List Table → Bool
has_table name tables = any_of (λ (t : Table). str_eq t.name name) tables

abbrev pub has_index : String → List Index → Bool
has_index name indexes = any_of (λ (i : Index). str_eq i.name name) indexes

abbrev pub find_table : String → List Table → Option Table
find_table name tables = find_first (λ (t : Table). str_eq t.name name) tables

abbrev pub has_column : List Column → String → Bool
has_column columns name = any_of (λ (c : Column). str_eq c.name name) columns

abbrev pub has_columns : List Column → List String → Bool
has_columns columns [] = true
has_columns columns (name ∷ names) = has_column columns name && has_columns columns names

-- The referred table is there, or is the new one.
abbrev pub refers : Table → List Table → List ForeignKey → Bool
refers t tables [] = true
refers t tables (k ∷ keys) =
    (str_eq k.target t.name || has_table k.target tables) && refers t tables keys

abbrev pub refers_to : String → Table → Bool
refers_to name t =
    not (str_eq t.name name) && any_of (λ (k : ForeignKey). str_eq k.target name) t.foreign_keys

abbrev pub in_table : Option Table → List String → Bool
in_table none names = Bool.false
in_table (some t) names = has_columns t.columns names

-- Whether a row that gives the named columns only is taken: the others may be null or have a default.
abbrev pub gives : List String → List Column → Bool
gives names [] = true
gives names (c ∷ columns) =
    (contains names c.name || c.nullable || is_some c.server_default) && gives names columns

abbrev pub takes_row : Option Table → List String → Bool
takes_row none names = Bool.false
takes_row (some t) names = has_columns t.columns names && gives names t.columns

abbrev pub with_extension : String → List String → List String
with_extension name names = if contains names name then names else name ∷ names

abbrev pub then_run : Option Schema → (Schema → Option Schema) → Option Schema
then_run none k = none
then_run (some s) k = k s

-- `has_default_class` says which index methods have a default operator class for vectors.
module _ (has_default_class : String → Bool) where
  abbrev pub has_class : Option (String × Option String) → Bool
  has_class none = true
  has_class (some (method, some operator_class)) = true
  has_class (some (method, none)) = has_default_class method

  -- `none` where the database refuses the statement. A table takes its indexes with it.
  unfoldable pub apply : Op → Schema → Option Schema
  apply (create_extension name) s =
      some (record s { extensions = with_extension name s.extensions })
  apply (create_table t) s =
      if not (has_table t.name s.tables) && refers t s.tables t.foreign_keys
      then some (record s { tables = t ∷ s.tables })
      else none
  apply (create_index i) s =
      if not (has_index i.name s.indexes)
        && in_table (find_table i.table s.tables) i.columns
        && has_class i.method
      then some (record s { indexes = i ∷ s.indexes })
      else none
  apply (drop_index name) s =
      if has_index name s.indexes
      then some (record s { indexes = keep (λ (i : Index). not (str_eq i.name name)) s.indexes })
      else none
  apply (drop_table name) s =
      if has_table name s.tables && not (any_of (refers_to name) s.tables)
      then some (record s {
        tables = keep (λ (t : Table). not (str_eq t.name name)) s.tables;
        indexes = keep (λ (i : Index). not (str_eq i.table name)) s.indexes;
      })
      else none
  apply (insert_into name columns) s =
      if takes_row (find_table name s.tables) columns then some s else none

  unfoldable pub run : List Op → Schema → Option Schema
  unfolding apply
  run [] s = some s
  run (op ∷ ops) s = then_run (apply op s) (run ops)
