-- ===== src/Prelude/Sort.antt =====
-- Rows in the order of a query: `ORDER BY` with a test of two rows. Rows that are alike keep their
-- places here, which SQL leaves open.
use Prim.Native.Nat.{ℕ, zero, suc, min}
use mathlib.Core.Path.{◌≡◌, refl, ap, ◌∙◌}
use mathlib.Core.Logic.{inl, inr}
use mathlib.Core.Bool.{Bool, true, false}
use mathlib.Core.List.{List, [], ◌∷◌, ◌++◌, Perm}
use mathlib.Core.List.Perm
use native.Mathlib.Omega.{arith}
use package.aerp.Prelude.Tests.{if◌then◌else◌, Bool-cases}
use package.aerp.Prelude.Lists.{All, take, drop, take_append_drop, length, length-take}

module _ {A : Type 0} (before : A → A → Bool) where
  -- `x` goes in front of the first row that it is not after.
  unfoldable pub place : A → List A → List A
  place x [] = x ∷ []
  place x (y ∷ ys) = let rest = place x ys in if before x y then x ∷ y ∷ ys else y ∷ rest

  unfoldable pub order_by : List A → List A
  unfolding place
  order_by [] = []
  order_by (x ∷ xs) = place x (order_by xs)

  -- Each row is before all that follow.
  abbrev pub IsOrdered : List A → Type 0
  IsOrdered [] = Unit
  IsOrdered (x ∷ xs) = All (λ y. before x y ≡ true) xs × IsOrdered xs

  pub place-perm : (x : A) (ys : List A) → Perm (place x ys) (x ∷ ys)
  unfolding place
  place-perm x [] = Perm.refl (x ∷ [])
  place-perm x (y ∷ ys) = elim (Bool-cases (before x y)) [
    | inl e ↦ rw e (Perm.refl (x ∷ y ∷ ys))
    | inr e ↦ rw e (Perm.trans (Perm.cons y (place-perm x ys)) (Perm.swap x y ys))
  ]

  pub order_by-perm : (xs : List A) → Perm (order_by xs) xs
  unfolding order_by
  order_by-perm [] = Perm.refl []
  order_by-perm (x ∷ xs) = Perm.trans (place-perm x (order_by xs)) (Perm.cons x (order_by-perm xs))

  All-take : (P : A → Type 0) (k : ℕ) (xs : List A) → All P xs → All P (take k xs)
  All-take P zero xs h = tt
  All-take P (suc k) [] h = tt
  All-take P (suc k) (x ∷ xs) h = (h.0, All-take P k xs h.1)

  All-drop : (P : A → Type 0) (k : ℕ) (xs : List A) → All P xs → All P (drop k xs)
  All-drop P zero xs h = h
  All-drop P (suc k) [] h = tt
  All-drop P (suc k) (x ∷ xs) h = All-drop P k xs h.1

  -- The first `k` rows are each before every row that is left out.
  pub IsOrdered-take-drop :
      (k : ℕ) (xs : List A)
      → IsOrdered xs
      → All (λ x. All (λ y. before x y ≡ true) (drop k xs)) (take k xs)
  IsOrdered-take-drop zero xs h = tt
  IsOrdered-take-drop (suc k) [] h = tt
  IsOrdered-take-drop (suc k) (x ∷ xs) h = (All-drop _ k xs h.0, IsOrdered-take-drop k xs h.1)

  length-place : (x : A) (ys : List A) → length (place x ys) ≡ suc (length ys)
  unfolding place
  length-place x [] = refl
  length-place x (y ∷ ys) = ground (arith, length-place x ys)

  length-order_by : (xs : List A) → length (order_by xs) ≡ length xs
  unfolding order_by
  length-order_by [] = refl
  length-order_by (x ∷ xs) =
      length-place x (order_by xs) ∙ ap (λ (n : ℕ). suc n) (length-order_by xs)

  pub length-take-order_by :
      (k : ℕ) (xs : List A) → length (take k (order_by xs)) ≡ min k (length xs)
  length-take-order_by k xs =
      length-take k (order_by xs) ∙ ap (λ (n : ℕ). min k n) (length-order_by xs)

  module _ (total : (x y : A) → before x y ≡ false → before y x ≡ true)
      (chain : (x y z : A) → before x y ≡ true → before y z ≡ true → before x z ≡ true) where
    All-weaken :
        (x y : A) (zs : List A)
        → before x y ≡ true
        → All (λ z. before y z ≡ true) zs
        → All (λ z. before x z ≡ true) zs
    All-weaken x y [] e h = tt
    All-weaken x y (z ∷ zs) e h = (chain x y z e h.0, All-weaken x y zs e h.1)

    All-place : (P : A → Type 0) (x : A) (ys : List A) → P x → All P ys → All P (place x ys)
    unfolding place
    All-place P x [] p h = (p, tt)
    All-place P x (y ∷ ys) p h = elim (Bool-cases (before x y)) [
      | inl e ↦ rw e (p, h)
      | inr e ↦ rw e (h.0, All-place P x ys p h.1)
    ]

    place-IsOrdered : (x : A) (ys : List A) → IsOrdered ys → IsOrdered (place x ys)
    unfolding place
    place-IsOrdered x [] h = (tt, tt)
    place-IsOrdered x (y ∷ ys) h = elim (Bool-cases (before x y)) [
      | inl e ↦ rw e ((e, All-weaken x y ys e h.0), h)
      | inr e ↦
          rw e (All-place (λ z. before y z ≡ true) x ys (total x y e) h.0, place-IsOrdered x ys h.1)
    ]

    pub order_by-IsOrdered : (xs : List A) → IsOrdered (order_by xs)
    unfolding order_by
    order_by-IsOrdered [] = tt
    order_by-IsOrdered (x ∷ xs) = place-IsOrdered x (order_by xs) (order_by-IsOrdered xs)

    -- `LIMIT k`: the rows are those that are taken and those that are left out, and each that is
    -- taken is before each that is left out.
    pub order_by-take-drop :
        (k : ℕ) (xs : List A)
        → Perm (take k (order_by xs) ++ drop k (order_by xs)) xs
          × All (λ x. All (λ y. before x y ≡ true) (drop k (order_by xs))) (take k (order_by xs))
    order_by-take-drop k xs = (
      rw (take_append_drop k (order_by xs)) (order_by-perm xs),
      IsOrdered-take-drop k (order_by xs) (order_by-IsOrdered xs),
    )
