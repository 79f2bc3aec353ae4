-- ===== src/Prelude/Raising.antt =====
-- A call that may raise, over a state that it mutates. What was written before a raise stays
-- written, so the state comes back beside the failure too.
use Prim.Native.Nat.{ℕ}
use Prim.Native.String.{String}
use mathlib.Core.Bool.{Bool}
use mathlib.Core.Option.{Option, none, some}
use mathlib.Core.Path.{◌≡◌, refl}
use package.aerp.Prelude.Tests.{if◌then◌else◌}

-- `http` is FastAPI's `HTTPException(status_code, detail)`; `error` is any other exception, with
-- its text.
pub data Failure : Type 0 where
  http : ℕ → String → Failure
  error : String → Failure

pub data Result {ℓ} (A : Type ℓ) : Type ℓ where
  ok : A → Result A
  err : Failure → Result A

abbrev pub Exec : Type 0 → Type 0 → Type 0
Exec S A = S → Result A × S

module _ {S A : Type 0} where
  abbrev pub pure : A → Exec S A
  pure a s = (ok a, s)

  abbrev pub raise : Failure → Exec S A
  raise e s = (err e, s)

  abbrev pub lift : Result A → Exec S A
  lift r s = (r, s)

  abbrev pub gets : (S → A) → Exec S A
  gets f s = (ok (f s), s)

  abbrev pub or_raise : Option A → Failure → Exec S A
  or_raise none e = raise e
  or_raise (some a) e = pure a

module _ {S : Type 0} where
  abbrev pub modify : (S → S) → Exec S (Unit {0})
  modify f s = (ok tt, f s)

  abbrev pub raise_if : Bool → Failure → Exec S (Unit {0})
  raise_if c e s = (if c then err e else ok tt, s)

abbrev continue : {S A B : Type 0} → Result A → (A → Exec S B) → Exec S B
continue (ok a) f s = f a s
continue (err e) f s = (err e, s)

infixl 5 ◌>>=◌ ◌>>◌
abbrev pub ◌>>=◌ : {S A B : Type 0} → Exec S A → (A → Exec S B) → Exec S B
◌>>=◌ m f s = let (r, s') = m s in continue r f s'

abbrev pub ◌>>◌ : {S A B : Type 0} → Exec S A → Exec S B → Exec S B
m >> k = m >>= λ _. k

continue-eq-ok :
    {S A B : Type 0} (r : Result A) (s : S) (f : A → Exec S B) (b : B)
    → (continue r f s).0 ≡ ok b
    → (a : A) × (r ≡ ok a) × ((f a s).0 ≡ ok b)
continue-eq-ok (ok a) s f b h = (a, refl, h)
continue-eq-ok (err e) s f b h = cc

-- A chain that returned has returned at each step.
pub >>=-eq-ok :
    {S A B : Type 0} (m : Exec S A) (f : A → Exec S B) (s : S) (b : B)
    → ((m >>= f) s).0 ≡ ok b
    → (a : A) × ((m s).0 ≡ ok a) × ((f a (m s).1).0 ≡ ok b)
>>=-eq-ok m f s b h = continue-eq-ok (m s).0 (m s).1 f b h

continue-at-ok :
    {S A B : Type 0} (r : Result A) (s : S) (f : A → Exec S B) (a : A)
    → r ≡ ok a
    → continue r f s ≡ f a s
continue-at-ok (ok b) s f a h = cc
continue-at-ok (err e) s f a h = cc

-- Past a step that returned, a chain is its rest.
pub >>=-at-ok :
    {S A B : Type 0} (m : Exec S A) (f : A → Exec S B) (s : S) (a : A)
    → (m s).0 ≡ ok a
    → (m >>= f) s ≡ f a (m s).1
>>=-at-ok m f s a h = continue-at-ok (m s).0 (m s).1 f a h
