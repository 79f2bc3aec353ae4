-- ===== src/Database/Tables.antt =====
-- Queries and writes on a table, by a test on its rows, and their laws.
use aerp.Prelude.{
  ◌≡◌, refl, Bool, true, false, none, some, List, [], ◌∷◌, ◌++◌, find_first, length, arith,
  if◌then◌else◌,
}

module _ {ℓ} {A : Type ℓ} where
  -- The rows that pass the test are changed.
  abbrev pub update_where : (A → Bool) → (A → A) → List A → List A
  update_where p f [] = []
  update_where p f (x ∷ xs) = (if p x then f x else x) ∷ update_where p f xs

  -- The rows that pass the test are deleted.
  abbrev pub delete_where : (A → Bool) → List A → List A
  delete_where p [] = []
  delete_where p (x ∷ xs) = let rest = delete_where p xs in if p x then rest else x ∷ rest

  pub length-update_where :
      (p : A → Bool) (f : A → A) (xs : List A) → length (update_where p f xs) ≡ length xs
  length-update_where p f [] = refl
  length-update_where p f (x ∷ xs) = ground (arith, length-update_where p f xs)

  -- A row that is found is found changed, where the change keeps the test.
  pub find_first-update_self :
      (p : A → Bool) (f : A → A) (xs : List A) (a : A)
      → ((x : A) → p (f x) ≡ p x)
      → find_first p xs ≡ some a
      → find_first p (update_where p f xs) ≡ some (f a)
  find_first-update_self p f [] a keeps h = cc
  find_first-update_self p f (x ∷ xs) a keeps h =
      ground (arith, keeps x, find_first-update_self p f xs a keeps)

  -- A row that no test of the write meets is found as it was.
  pub find_first-update_other :
      (p q : A → Bool) (f : A → A) (xs : List A)
      → ((x : A) → p x ≡ true → q x ≡ false)
      → ((x : A) → q (f x) ≡ q x)
      → find_first q (update_where p f xs) ≡ find_first q xs
  find_first-update_other p q f [] apart keeps = refl
  find_first-update_other p q f (x ∷ xs) apart keeps =
      ground (arith, apart x, keeps x, find_first-update_other p q f xs apart keeps)

  -- A row that is found is found again, changed if it passes the test of the write.
  pub find_first-update :
      (p q : A → Bool) (f : A → A) (xs : List A) (a : A)
      → ((x : A) → q (f x) ≡ q x)
      → find_first q xs ≡ some a
      → find_first q (update_where p f xs) ≡ some (if p a then f a else a)
  find_first-update p q f [] a keeps h = cc
  find_first-update p q f (x ∷ xs) a keeps h =
      ground (arith, keeps x, find_first-update p q f xs a keeps)

  pub find_first-delete_self :
      (p : A → Bool) (xs : List A) → find_first p (delete_where p xs) ≡ none
  find_first-delete_self p [] = refl
  find_first-delete_self p (x ∷ xs) = ground (arith, find_first-delete_self p xs)

  pub find_first-delete_other :
      (p q : A → Bool) (xs : List A)
      → ((x : A) → p x ≡ true → q x ≡ false)
      → find_first q (delete_where p xs) ≡ find_first q xs
  find_first-delete_other p q [] apart = refl
  find_first-delete_other p q (x ∷ xs) apart =
      ground (arith, apart x, find_first-delete_other p q xs apart)

  pub find_first-append :
      (p : A → Bool) (xs : List A) (y : A)
      → find_first p xs ≡ none
      → p y ≡ true
      → find_first p (xs ++ y ∷ []) ≡ some y
  find_first-append p [] y absent here = ground arith
  find_first-append p (x ∷ xs) y absent here = ground (arith, find_first-append p xs y)

  pub find_first-append_other :
      (p : A → Bool) (xs : List A) (y : A)
      → find_first p xs ≡ none
      → p y ≡ false
      → find_first p (xs ++ y ∷ []) ≡ none
  find_first-append_other p [] y absent other = ground arith
  find_first-append_other p (x ∷ xs) y absent other = ground (arith, find_first-append_other p xs y)

  -- What is not found is not found after a deletion.
  pub find_first-delete :
      (p q : A → Bool) (xs : List A)
      → find_first q xs ≡ none
      → find_first q (delete_where p xs) ≡ none
  find_first-delete p q [] absent = refl
  find_first-delete p q (x ∷ xs) absent = ground (arith, find_first-delete p q xs)
