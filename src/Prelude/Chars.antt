-- ===== src/Prelude/Chars.antt =====
-- Python's string methods that walk over a text, by recursion on the native `String`.
use Prim.Native.Nat.{ℕ, zero, suc, ◌+◌, ◌-◌, ◌*◌, ◌/◌}
use Prim.Native.Char.{Char, code}
use Prim.Native.String.{String}
use text.Mathlib.Text
use mathlib.Core.Bool.{Bool, true, false, ◌&&◌, ◌||◌}
use mathlib.Core.Option.{Option, none, some}
use mathlib.Core.List.{List, [], ◌∷◌}
use package.aerp.Prelude.Tests.{leb, ◌==◌, if◌then◌else◌}

abbrev pub count_chars : String → ℕ
count_chars String.[] = 0
count_chars (String.◌∷◌ c s) = suc (count_chars s)

-- `s[:n]`
abbrev pub take_chars : ℕ → String → String
take_chars zero s = ""
take_chars (suc n) String.[] = ""
take_chars (suc n) (String.◌∷◌ c s) = String.◌∷◌ c (take_chars n s)

-- `s[n:]`
abbrev pub drop_chars : ℕ → String → String
drop_chars zero s = s
drop_chars (suc n) String.[] = ""
drop_chars (suc n) (String.◌∷◌ c s) = drop_chars n s

abbrev pub begins : String → String → Bool
begins s String.[] = true
begins String.[] (String.◌∷◌ d t) = false
begins (String.◌∷◌ c s) (String.◌∷◌ d t) =
    let rest = begins s t in if code c == code d then rest else false

-- `t in s`
abbrev pub has_text : String → String → Bool
has_text String.[] t = begins "" t
has_text (String.◌∷◌ c s) t =
    let rest = has_text s t in if begins (String.◌∷◌ c s) t then true else rest

abbrev prepend : Char → List String → List String
prepend c [] = String.◌∷◌ c "" ∷ []
prepend c (w ∷ ws) = String.◌∷◌ c w ∷ ws

-- `s.split(sep)`, for a separator that is not empty. `skip` counts the characters of a separator
-- that are still to be passed over.
abbrev split_from : String → ℕ → String → List String
split_from sep skip String.[] = "" ∷ []
split_from sep (suc skip) (String.◌∷◌ c s) = split_from sep skip s
split_from sep zero (String.◌∷◌ c s) =
    let found = begins (String.◌∷◌ c s) sep in
    let rest = split_from sep (if found then count_chars sep - 1 else 0) s in
    if found then "" ∷ rest else prepend c rest

abbrev pub split_text : String → String → List String
split_text s sep = split_from sep 0 s

abbrev pub is_space : ℕ → Bool
is_space c = c == 32 || (leb 9 c && leb c 13) || (leb 28 c && leb c 31)

abbrev pub strip_left : String → String
strip_left String.[] = ""
strip_left (String.◌∷◌ c s) =
    let rest = strip_left s in if is_space (code c) then rest else String.◌∷◌ c s

-- The text without the characters at its end that pass the test.
abbrev pub strip_right : (ℕ → Bool) → String → String
strip_right p String.[] = ""
strip_right p (String.◌∷◌ c s) = elim (strip_right p s) [
  | String.[] ↦ if p (code c) then "" else String.◌∷◌ c ""
  | String.◌∷◌ d t ↦ String.◌∷◌ c (String.◌∷◌ d t)
]

-- `s.strip()`, on the ASCII white space.
abbrev pub strip : String → String
strip s = strip_right is_space (strip_left s)

abbrev digits : ℕ → String → Option ℕ
digits n String.[] = some n
digits n (String.◌∷◌ c s) =
    let rest = digits (n * 10 + (code c - 48)) s in
    if leb 48 (code c) && leb (code c) 57 then rest else none

-- `int(s)` of a text of ASCII digits. Other spellings that Python accepts (a sign, underscores,
-- white space around) are not modelled; here they are refused.
abbrev pub parse_int : String → Option ℕ
parse_int String.[] = none
parse_int (String.◌∷◌ c s) = digits 0 (String.◌∷◌ c s)

-- `xs[-1 - i]`
abbrev last_from : {A : Type 0} → List A → List A → List A
last_from acc [] = acc
last_from acc (x ∷ xs) = last_from (x ∷ acc) xs

abbrev nth : {A : Type 0} → ℕ → List A → Option A
nth n [] = none
nth zero (x ∷ xs) = some x
nth (suc n) (x ∷ xs) = nth n xs

abbrev pub from_end : {A : Type 0} → ℕ → List A → Option A
from_end i xs = nth i (last_from [] xs)

abbrev capitals : List Char
capitals =
    "A" ∷ "B" ∷ "C" ∷ "D" ∷ "E" ∷ "F" ∷ "G" ∷ "H" ∷ "I" ∷ "J" ∷ "K" ∷ "L" ∷ "M" ∷ "N" ∷ "O" ∷ "P"
    ∷ "Q" ∷ "R" ∷ "S" ∷ "T" ∷ "U" ∷ "V" ∷ "W" ∷ "X" ∷ "Y" ∷ "Z" ∷ []

abbrev or_char : Char → Option Char → Char
or_char d none = d
or_char d (some c) = c

-- `s.upper()`, on the ASCII letters.
abbrev pub upper : String → String
upper String.[] = ""
upper (String.◌∷◌ c s) =
    String.◌∷◌
      (if leb 97 (code c) && leb (code c) 122 then or_char c (nth (code c - 97) capitals) else c)
      (upper s)

-- `s.replace(a, b)` of single characters.
abbrev pub replace_char : Char → Char → String → String
replace_char a b String.[] = ""
replace_char a b (String.◌∷◌ c s) =
    String.◌∷◌ (if code c == code a then b else c) (replace_char a b s)

abbrev smalls : List Char
smalls =
    "a" ∷ "b" ∷ "c" ∷ "d" ∷ "e" ∷ "f" ∷ "g" ∷ "h" ∷ "i" ∷ "j" ∷ "k" ∷ "l" ∷ "m" ∷ "n" ∷ "o" ∷ "p"
    ∷ "q" ∷ "r" ∷ "s" ∷ "t" ∷ "u" ∷ "v" ∷ "w" ∷ "x" ∷ "y" ∷ "z" ∷ []

abbrev is_small : Char → Bool
is_small c = leb 97 (code c) && leb (code c) 122

abbrev pub is_capital : Char → Bool
is_capital c = leb 65 (code c) && leb (code c) 90

abbrev title_char : Bool → Char → Char
title_char inside c =
    if inside
    then (if is_capital c then or_char c (nth (code c - 65) smalls) else c)
    else (if is_small c then or_char c (nth (code c - 97) capitals) else c)

abbrev title_from : Bool → String → String
title_from inside String.[] = ""
title_from inside (String.◌∷◌ c s) =
    String.◌∷◌ (title_char inside c) (title_from (is_small c || is_capital c) s)

-- `s.title()`, on the ASCII letters: each letter that follows no letter becomes a capital.
abbrev pub title : String → String
title s = title_from false s

abbrev digit_chars : List Char
digit_chars = "0" ∷ "1" ∷ "2" ∷ "3" ∷ "4" ∷ "5" ∷ "6" ∷ "7" ∷ "8" ∷ "9" ∷ []

-- The digits of `n` in front of a text. The fuel bounds the number of digits; `n` has at most
-- `suc n` of them.
abbrev digits_before : ℕ → ℕ → String → String
digits_before zero n s = s
digits_before (suc fuel) n s =
    let here = String.◌∷◌ (or_char "0" (nth (n - n / 10 * 10) digit_chars)) s in
    let more = digits_before fuel (n / 10) here in if leb 10 n then more else here

-- `str(n)`
abbrev pub decimal : ℕ → String
decimal n = digits_before (suc n) n ""

-- `s[s.find(d):]`, where `d` is in `s`.
abbrev pub from_char : ℕ → String → Option String
from_char d String.[] = none
from_char d (String.◌∷◌ c s) =
    let rest = from_char d s in if code c == d then some (String.◌∷◌ c s) else rest

-- `s[: s.rfind(d) + 1]`, where `d` is in `s`.
abbrev pub up_to_last : ℕ → String → Option String
up_to_last d String.[] = none
up_to_last d (String.◌∷◌ c s) = elim (up_to_last d s) [
  | some t ↦ some (String.◌∷◌ c t)
  | none ↦ if code c == d then some (String.◌∷◌ c "") else none
]

-- `s.removeprefix(t)`
abbrev pub remove_prefix : String → String → String
remove_prefix t s = if begins s t then drop_chars (count_chars t) s else s

-- `s.removesuffix(t)`, for a suffix that is not empty.
abbrev pub remove_suffix : String → String → String
remove_suffix t String.[] = ""
remove_suffix t (String.◌∷◌ c s) =
    let rest = remove_suffix t s in if Text.◌==◌ (String.◌∷◌ c s) t then "" else String.◌∷◌ c rest

-- `s.lower()`, on the ASCII letters.
abbrev pub lower_text : String → String
lower_text String.[] = ""
lower_text (String.◌∷◌ c s) =
    String.◌∷◌ (if is_capital c then or_char c (nth (code c - 65) smalls) else c) (lower_text s)
