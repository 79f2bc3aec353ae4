-- ===== src/Prelude/Text.antt =====
-- Texts. A text that the program only compares or joins is a native `String`; where it walks over
-- the characters the text is the list of its code points.
use Prim.Native.Nat.{ℕ, ◌+◌}
use Prim.Native.Char.{code}
use Prim.Native.String
use Prim.Native.String.{String}
use mathlib.Core.Bool.{Bool, true, false, ◌&&◌}
use mathlib.Core.List.{List, [], ◌∷◌}
use text.Mathlib.Text
use package.aerp.Prelude.Tests.{leb, ◌==◌, if◌then◌else◌}
pub use Prim.Native.String.{String}
pub use text.Mathlib.TextEquality.{eq_iff}
pub use text.Mathlib.TextPositions.{eq_refl}

-- Python's `==` on `str`.
abbrev pub str_eq : String → String → Bool
str_eq s t = Text.◌==◌ s t

infixr 65 ◌<>◌
abbrev pub ◌<>◌ : String → String → String
s <> t = String.◌++◌ s t

-- Python's truth of a `str`.
abbrev pub is_truthy : String → Bool
is_truthy s = if str_eq s "" then false else true

-- `x in xs`, for a list of `str`.
abbrev pub contains : List String → String → Bool
contains [] a = false
contains (x ∷ xs) a = let rest = contains xs a in if str_eq x a then true else rest

abbrev pub codes : String → List ℕ
codes String.[] = []
codes (String.◌∷◌ c s) = code c ∷ codes s

-- `s.lower()`, on the ASCII letters.
abbrev pub lower : List ℕ → List ℕ
lower [] = []
lower (c ∷ s) = (if leb b'A' c && leb c b'Z' then c + 32 else c) ∷ lower s

-- `s.startswith(t)`
abbrev pub starts : List ℕ → List ℕ → Bool
starts s [] = true
starts [] (d ∷ t) = false
starts (c ∷ s) (d ∷ t) = let rest = starts s t in if c == d then rest else false

-- `t in s`
abbrev pub has : List ℕ → List ℕ → Bool
has [] t = starts [] t
has (c ∷ s) t = let rest = has s t in if starts (c ∷ s) t then true else rest

-- `sep.join(xs)`
abbrev pub join : String → List String → String
join sep [] = ""
join sep (x ∷ []) = x
join sep (x ∷ y ∷ xs) = x <> sep <> join sep (y ∷ xs)

-- `s == t`, over code points.
abbrev pub same : List ℕ → List ℕ → Bool
same [] [] = true
same [] (d ∷ t) = false
same (c ∷ s) [] = false
same (c ∷ s) (d ∷ t) = let rest = same s t in if c == d then rest else false

-- `s.endswith(t)`
abbrev pub ends : List ℕ → List ℕ → Bool
ends [] t = same [] t
ends (c ∷ s) t = let rest = ends s t in if same (c ∷ s) t then true else rest

abbrev pub has_code : ℕ → List ℕ → Bool
has_code d [] = false
has_code d (c ∷ s) = let rest = has_code d s in if c == d then true else rest

-- What is left of `rest` behind its last separator, or `part` if it has none.
abbrev pub after_last : ℕ → List ℕ → List ℕ → List ℕ
after_last d part [] = part
after_last d part (c ∷ rest) = after_last d (if c == d then rest else part) rest
