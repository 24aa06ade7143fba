-- ===== src/Regex.antt =====
-- The regular expressions that the program uses, as sequences of items, and `re.match` with its
-- order of attempts: a greedy item takes a further character first, a lazy one stops first.
use wazo_call_logd.Common.{
  ℕ, zero, suc, Bool, true, false, not, ◌&&◌, ◌||◌, Option, none, some, List, [], ◌∷◌, ◌++◌, String,
  eqb, leb, if◌then◌else◌,
}
use wazo_call_logd.Common.Text.{chars, string, is_space, after_prefix}
use Prim.Native.Char.{Char, code}

pub data Item : Type 0 where
  one : (ℕ → Bool) → Item
  many : (ℕ → Bool) → Item
  few : (ℕ → Bool) → Item
  group_start group_end : Item
  either : List Char → List Char → Item
  finish : Item

-- The groups that are closed, and the one that is open.
pub record Groups : Type 0 where
  pub closed : List String
  pub current : Option (List Char)

abbrev pub no_groups : Groups
no_groups = record { closed = []; current = none }

unfoldable pub push : Char → Groups → Groups
push c g = elim g.current [
  | none ↦ g
  | some cs ↦ record { closed = g.closed; current = some (cs ++ c ∷ []) }
]

unfoldable pub start : Groups → Groups
start g = record { closed = g.closed; current = some [] }

unfoldable pub close : Groups → Groups
close g = elim g.current [
  | none ↦ g
  | some cs ↦ record { closed = g.closed ++ string cs ∷ []; current = none }
]

abbrev at_finish : List Char → Bool
at_finish [] = true
at_finish (c ∷ []) = eqb (code c) 10
at_finish _ = false

-- A match at the start of the text: the groups, and what follows the match.
unfoldable pub match_items : List Item → List Char → Groups → Option (Groups × List Char)
unfolding push start close after_prefix
match_items [] cs g = some (g, cs)
match_items (one p ∷ is) [] g = none
match_items (one p ∷ is) (c ∷ cs) g =
    let rest = match_items is cs (push c g) in if p (code c) then rest else none
match_items (many p ∷ is) [] g = match_items is [] g
match_items (many p ∷ is) (c ∷ cs) g =
    let here = match_items is (c ∷ cs) g in
    let more = match_items (many p ∷ is) cs (push c g) in
    elim (p (code c)) [ true ↦ elim more [ none ↦ here | some r ↦ some r ] | false ↦ here ]
match_items (few p ∷ is) [] g = match_items is [] g
match_items (few p ∷ is) (c ∷ cs) g =
    let here = match_items is (c ∷ cs) g in
    let more = match_items (few p ∷ is) cs (push c g) in
    elim here [ some r ↦ some r | none ↦ elim (p (code c)) [ true ↦ more | false ↦ none ] ]
match_items (group_start ∷ is) cs g = match_items is cs (start g)
match_items (group_end ∷ is) cs g = match_items is cs (close g)
match_items (either a b ∷ is) cs g =
    let first : Option (Groups × List Char) = elim (after_prefix a cs) [
      | none ↦ none
      | some r ↦ match_items is r g
    ] in
    let second : Option (Groups × List Char) = elim (after_prefix b cs) [
      | none ↦ none
      | some r ↦ match_items is r g
    ] in
    elim first [ some r ↦ some r | none ↦ second ]
match_items (finish ∷ is) cs g =
    let rest = match_items is cs g in if at_finish cs then rest else none

-- `re.match(pattern, text)`: the groups of a match that begins where the text begins.
unfoldable pub match_groups : List Item → String → Option (List String)
unfolding match_items
match_groups is s = elim (match_items is (chars s) no_groups) [
  | none ↦ none
  | some (g, rest) ↦ some g.closed
]

-- A match at the start of the text: its groups, and the text behind it.
unfoldable pub match_rest : List Item → List Char → Option (List String × List Char)
unfolding match_items
match_rest is cs = elim (match_items is cs no_groups) [
  | none ↦ none
  | some (g, rest) ↦ some (g.closed, rest)
]

abbrev literal_chars : List Char → List Item
literal_chars [] = []
literal_chars (c ∷ cs) = one (eqb (code c)) ∷ literal_chars cs

-- a text that stands for itself
abbrev pub literal : String → List Item
literal s = literal_chars (chars s)

-- `\S`
abbrev pub non_space : ℕ → Bool
non_space n = not (is_space n)

-- `.`
abbrev pub any_char : ℕ → Bool
any_char n = not (eqb n 10)

-- `\w`, for ASCII
abbrev pub word_char : ℕ → Bool
word_char n = leb 48 n && leb n 57 || leb 65 n && leb n 90 || leb 97 n && leb n 122 || eqb n 95

-- `[0-9a-f]`
abbrev pub hex_digit : ℕ → Bool
hex_digit n = leb 48 n && leb n 57 || leb 97 n && leb n 102

-- `class{n}`
abbrev pub times : ℕ → (ℕ → Bool) → List Item
times zero p = []
times (suc n) p = one p ∷ times n p
