-- ===== src/Dict.antt =====
-- A Python dict with `str` keys, in insertion order.
use aerp.Prelude.{
  ◌+◌, String, str_eq, eq_iff, ◌≡◌, refl, Bool, true, false, not, Option, none, some, List, [], ◌∷◌,
  length, arith, if◌then◌else◌,
}

abbrev pub Dict : Type 0 → Type 0
Dict V = List (String × V)

module _ {V : Type 0} where
  abbrev pub lookup : String → Dict V → Option V
  lookup k [] = none
  lookup k ((j, v) ∷ d) = let rest = lookup k d in if str_eq j k then some v else rest

  -- `d[k] = v`
  abbrev pub insert : String → V → Dict V → Dict V
  insert k v [] = (k, v) ∷ []
  insert k v ((j, w) ∷ d) =
      let rest = insert k v d in if str_eq j k then (j, v) ∷ d else (j, w) ∷ rest

  -- `[k for k, v in d.items() if p(v)]`
  abbrev pub keys_where : (V → Bool) → Dict V → List String
  keys_where p [] = []
  keys_where p ((k, v) ∷ d) = let rest = keys_where p d in if p v then k ∷ rest else rest

  -- `any(p(v) for v in d.values())`
  abbrev pub any_value : (V → Bool) → Dict V → Bool
  any_value p [] = false
  any_value p ((k, v) ∷ d) = let rest = any_value p d in if p v then true else rest

  pub lookup-insert :
      (k j : String) (v : V) (d : Dict V)
      → lookup j (insert k v d) ≡ (if str_eq k j then some v else lookup j d)
  lookup-insert k j v [] = refl
  lookup-insert k j v ((i, w) ∷ d) =
      ground (arith, eq_iff k j, eq_iff i k, eq_iff i j, lookup-insert k j v d)

  -- The keys split into those that pass the test and those that do not.
  pub length-keys_where :
      (p : V → Bool) (d : Dict V)
      → length (keys_where p d) + length (keys_where (λ v. not (p v)) d) ≡ length d
  length-keys_where p [] = omega arith
  length-keys_where p ((k, v) ∷ d) = ground (arith, length-keys_where p d)
