-- ===== src/Common/Text.antt =====
-- Python's `str` methods that the program uses, over the characters of a text.
use Prim.Native.Nat.{ℕ, ◌+◌}
use Prim.Native.Char.{Char, code}
use Prim.Native.String.{String}
use mathlib.Core.Path.{◌≡◌, refl, ap}
use mathlib.Core.Bool.{Bool, true, false, not, ◌&&◌, ◌||◌}
use mathlib.Core.Logic.{inl, inr}
use text.Mathlib.Text.{◌==◌}
use text.Mathlib.TextEquality.{eq_iff}
use native.Mathlib.Omega.{arith}
use wazo_call_logd.Common.Lists.{length}
use mathlib.Core.Option.{Option, none, some}
use mathlib.Core.List.{List, [], ◌∷◌, reverse}
use wazo_call_logd.Common.Tests.{filled, Bool-cases, leb, eqb, if◌then◌else◌}

abbrev pub chars : String → List Char
chars String.[] = []
chars (String.◌∷◌ c s) = c ∷ chars s

abbrev pub string : List Char → String
string [] = String.[]
string (c ∷ cs) = String.◌∷◌ c (string cs)

pub string-chars : (s : String) → string (chars s) ≡ s
string-chars String.[] = refl
string-chars (String.◌∷◌ c s) = ap (String.◌∷◌ c) (string-chars s)

-- Python's white space, restricted to ASCII
abbrev pub is_space : ℕ → Bool
is_space n = eqb n 32 || leb 9 n && leb n 13 || leb 28 n && leb n 31

-- `text.lstrip()`
unfoldable pub drop_spaces : List Char → List Char
drop_spaces [] = []
drop_spaces (c ∷ cs) = let rest = drop_spaces cs in if is_space (code c) then rest else c ∷ cs

-- `text.strip()`
unfoldable pub strip : List Char → List Char
unfolding drop_spaces
strip cs = reverse (drop_spaces (reverse (drop_spaces cs)))

-- Leading characters with the code `n` are dropped.
unfoldable pub drop_code : ℕ → List Char → List Char
drop_code n [] = []
drop_code n (c ∷ cs) = let rest = drop_code n cs in if eqb (code c) n then rest else c ∷ cs

-- `text.rstrip(",")` at the code of the comma
unfoldable pub rstrip : ℕ → List Char → List Char
unfolding drop_code
rstrip n cs = reverse (drop_code n (reverse cs))

-- The characters before the first one with the code `n`, and those behind it if there is one.
unfoldable pub cut : ℕ → List Char → List Char × Option (List Char)
cut n [] = ([], none)
cut n (c ∷ cs) =
    let (before, after) = cut n cs in if eqb (code c) n then ([], some cs) else (c ∷ before, after)

-- `text.split(sep, 1)[0]` for a separator of one character
unfoldable pub before_code : ℕ → List Char → List Char
unfolding cut
before_code n cs = (cut n cs).0

-- `text.partition(sep)`, its first and third part
unfoldable pub partition : ℕ → List Char → List Char × List Char
unfolding cut
partition n cs =
    let (before, after) = cut n cs in
    elim after [ none ↦ (before, []) | some rest ↦ (before, rest) ]

-- One more character in front of the parts of the text behind it.
split_at : ℕ → Char → List (List Char) → List (List Char)
split_at n c [] = []
split_at n c (part ∷ parts) = if eqb (code c) n then [] ∷ part ∷ parts else (c ∷ part) ∷ parts

-- `text.split(sep)` for a separator of one character: never empty
unfoldable pub split : ℕ → List Char → List (List Char)
unfolding split_at
split n [] = [] ∷ []
split n (c ∷ cs) = split_at n c (split n cs)

-- What follows `prefix`, where the text starts with it.
unfoldable pub after_prefix : List Char → List Char → Option (List Char)
after_prefix [] cs = some cs
after_prefix (p ∷ ps) [] = none
after_prefix (p ∷ ps) (c ∷ cs) =
    let rest = after_prefix ps cs in if eqb (code p) (code c) then rest else none

-- `text.startswith(prefix)`
unfoldable pub starts_with : List Char → List Char → Bool
unfolding after_prefix
starts_with prefix cs = elim (after_prefix prefix cs) [ none ↦ false | some _ ↦ true ]

-- `text.split(sep)` for a separator of several characters, as its first two parts: what stands
-- before the first separator, and, if there is one, all that follows it.
unfoldable pub cut_at : List Char → List Char → List Char × Option (List Char)
unfolding after_prefix
cut_at sep [] = ([], after_prefix sep [])
cut_at sep (c ∷ cs) =
    let (before, after) = cut_at sep cs in
    elim (after_prefix sep (c ∷ cs)) [ some rest ↦ ([], some rest) | none ↦ (c ∷ before, after) ]

-- The code of the small letter, for ASCII.
unfoldable pub lower_code : ℕ → ℕ
lower_code n = if leb 65 n && leb n 90 then n + 32 else n

unfoldable pub lower_codes : List Char → List ℕ
unfolding lower_code
lower_codes [] = []
lower_codes (c ∷ cs) = lower_code (code c) ∷ lower_codes cs

pub chars-string : (cs : List Char) → chars (string cs) ≡ cs
chars-string [] = refl
chars-string (c ∷ cs) = ap (◌∷◌ c) (chars-string cs)

pub filled-string : (c : Char) (cs : List Char) → filled (string (c ∷ cs)) ≡ true
filled-string c cs = elim (Bool-cases (string (c ∷ cs) == "")) [
  | inl e ↦
      let sizes = ap (λ t. length (chars t)) ((eq_iff (string (c ∷ cs)) "").0 e) in
      absurd (omega (arith, sizes))
  | inr e ↦ ap not e
]
