-- ===== src/Schema/Steps.antt =====
-- A run of statements, each of which the database takes.
use aerp.Prelude.{
  ◌≡◌, refl, ap, str_eq, not, any_of, keep, Bool-cases, inl, inr, String, Bool, true, false, some,
  List, [], ◌∷◌,
}
use aerp.Schema.{
  Table, Index, Schema, Op, create_extension, create_table, create_index, insert_into, drop_index,
  drop_table, has_table, has_index, has_class, with_extension, find_table, in_table, takes_row,
  refers, apply, run, refers_to,
}

keep-none :
    {A : Type 0} (p : A → Bool) (xs : List A) → any_of p xs ≡ false → keep (λ x. not (p x)) xs ≡ xs
keep-none p [] h = refl
keep-none {A} p (x ∷ xs) h = elim (Bool-cases (p x)) [
  | inl e ↦ let no : true ≡ false = rw e at h in absurd cc
  | inr e ↦
      let none_left : any_of p xs ≡ false = rw e at h in
      rw e (ap (λ (rest : List A). x ∷ rest) (keep-none p xs none_left))
]

abbrev pub is_on : String → Index → Bool
is_on name i = str_eq i.table name

-- The database takes the statements, and is `r` after them.
pub record Runs (has_default_class : String → Bool) (ops : List Op) (s r : Schema) : Type 0 where
  pub result : run has_default_class ops s ≡ some r

module _ {has_default_class : String → Bool} where
  pub by_extension :
      {name : String} {ops : List Op} {s r : Schema}
      → Runs has_default_class ops (record s { extensions = with_extension name s.extensions }) r
      → Runs has_default_class (create_extension name ∷ ops) s r
  unfolding run apply
  by_extension h = record { result = h.result }

  pub by_table :
      {t : Table} {ops : List Op} {s r : Schema}
      → has_table t.name s.tables ≡ false
      → refers t s.tables t.foreign_keys ≡ true
      → Runs has_default_class ops (record s { tables = t ∷ s.tables }) r
      → Runs has_default_class (create_table t ∷ ops) s r
  unfolding run apply
  by_table new there h = record { result = rw (new, there) h.result }

  pub by_index :
      {i : Index} {ops : List Op} {s r : Schema}
      → has_index i.name s.indexes ≡ false
      → in_table (find_table i.table s.tables) i.columns ≡ true
      → has_class has_default_class i.method ≡ true
      → Runs has_default_class ops (record s { indexes = i ∷ s.indexes }) r
      → Runs has_default_class (create_index i ∷ ops) s r
  unfolding run apply
  by_index new there class h = record { result = rw (new, there, class) h.result }

  pub by_insert :
      {name : String} {columns : List String} {ops : List Op} {s r : Schema}
      → takes_row (find_table name s.tables) columns ≡ true
      → Runs has_default_class ops s r
      → Runs has_default_class (insert_into name columns ∷ ops) s r
  unfolding run apply
  by_insert there h = record { result = rw there h.result }

  pub by_drop_index :
      {name : String} {i : Index} {ops : List Op} {extensions : List String} {tables : List Table}
      {rest : List Index} {r : Schema}
      → str_eq i.name name ≡ true
      → has_index name rest ≡ false
      → Runs has_default_class ops
          (record { extensions = extensions; tables = tables; indexes = rest })
          r
      → Runs has_default_class
          (drop_index name ∷ ops)
          (record { extensions = extensions; tables = tables; indexes = i ∷ rest })
          r
  unfolding run apply
  by_drop_index {name} {rest = rest} here gone h = record {
    result = rw (here, keep-none (λ (i : Index). str_eq i.name name) rest gone) h.result;
  }

  -- Under an index of another name.
  pub by_drop_index_under :
      {name : String} {j i : Index} {ops : List Op} {extensions : List String} {tables : List Table}
      {rest : List Index} {r : Schema}
      → str_eq j.name name ≡ false
      → str_eq i.name name ≡ true
      → has_index name rest ≡ false
      → Runs has_default_class ops
          (record { extensions = extensions; tables = tables; indexes = j ∷ rest })
          r
      → Runs has_default_class
          (drop_index name ∷ ops)
          (record { extensions = extensions; tables = tables; indexes = j ∷ i ∷ rest })
          r
  unfolding run apply
  by_drop_index_under {name} {rest = rest} other here gone h = record {
    result = rw (other, here, keep-none (λ (i : Index). str_eq i.name name) rest gone) h.result;
  }

  -- An index of the table goes with it.
  pub by_drop_table_with :
      {name : String} {t : Table} {i : Index} {ops : List Op} {extensions : List String}
      {rest : List Table} {indexes : List Index} {r : Schema}
      → str_eq t.name name ≡ true
      → str_eq i.table name ≡ true
      → has_table name rest ≡ false
      → any_of (refers_to name) rest ≡ false
      → any_of (is_on name) indexes ≡ false
      → Runs has_default_class ops
          (record { extensions = extensions; tables = rest; indexes = indexes })
          r
      → Runs has_default_class
          (drop_table name ∷ ops)
          (record { extensions = extensions; tables = t ∷ rest; indexes = i ∷ indexes })
          r
  unfolding run apply
  by_drop_table_with {name} {rest = rest} {indexes = indexes} here on gone free bare h = record {
    result =
        rw
          (
            here,
            on,
            free,
            keep-none (λ (t : Table). str_eq t.name name) rest gone,
            keep-none (is_on name) indexes bare,
          )
          h.result;
  }

  pub by_drop_table :
      {name : String} {t : Table} {ops : List Op} {extensions : List String} {rest : List Table}
      {indexes : List Index} {r : Schema}
      → str_eq t.name name ≡ true
      → has_table name rest ≡ false
      → any_of (refers_to name) rest ≡ false
      → any_of (is_on name) indexes ≡ false
      → Runs has_default_class ops
          (record { extensions = extensions; tables = rest; indexes = indexes })
          r
      → Runs has_default_class
          (drop_table name ∷ ops)
          (record { extensions = extensions; tables = t ∷ rest; indexes = indexes })
          r
  unfolding run apply
  by_drop_table {name} {rest = rest} {indexes = indexes} here gone free bare h = record {
    result =
        rw
          (
            here,
            free,
            keep-none (λ (t : Table). str_eq t.name name) rest gone,
            keep-none (is_on name) indexes bare,
          )
          h.result;
  }

  pub at_end : {s : Schema} → Runs has_default_class [] s s
  unfolding run
  at_end = record { result = refl }
