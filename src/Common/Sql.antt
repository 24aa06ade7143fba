-- ===== src/Common/Sql.antt =====
-- The SQL that the queries of the program build: NULL is `none`, a condition is true, false or
-- NULL, and WHERE keeps the rows whose condition is true.
use mathlib.Core.Bool.{Bool, true, false, not}
use mathlib.Core.Option.{Option, none, some}
use mathlib.Core.List.{List, [], ◌∷◌}
use Prim.Native.Nat.{ℕ, zero, suc, ◌≤◌}
use native.Mathlib.Omega.{arith}
use wazo_call_logd.Common.Lists.{length, All}

abbrev pub Truth : Type 0
Truth = Option Bool

abbrev pub selects : Truth → Bool
selects none = false
selects (some b) = b

abbrev pub sql_and : Truth → Truth → Truth
sql_and (some true) b = b
sql_and (some false) b = some false
sql_and none (some false) = some false
sql_and none (some true) = none
sql_and none none = none

abbrev pub sql_or : Truth → Truth → Truth
sql_or (some true) b = some true
sql_or (some false) b = b
sql_or none (some true) = some true
sql_or none (some false) = none
sql_or none none = none

-- `column IS TRUE`, `column IS FALSE`
abbrev pub is_true : Option Bool → Truth
is_true none = some false
is_true (some b) = some b

abbrev pub is_false : Option Bool → Truth
is_false none = some false
is_false (some b) = some (not b)

module _ {ℓ} {A : Type ℓ} where
  abbrev pub is_null : Option A → Truth
  is_null none = some true
  is_null (some a) = some false

  abbrev pub is_not_null : Option A → Truth
  is_not_null none = some false
  is_not_null (some a) = some true

  -- a comparison of a column; NULL compares to NULL
  abbrev pub compared : (A → Bool) → Option A → Truth
  compared test none = none
  compared test (some a) = some (test a)

  -- `LIMIT n` and `OFFSET n`
  abbrev pub take : ℕ → List A → List A
  take zero xs = []
  take (suc n) [] = []
  take (suc n) (x ∷ xs) = x ∷ take n xs

  abbrev pub drop : ℕ → List A → List A
  drop zero xs = xs
  drop (suc n) [] = []
  drop (suc n) (x ∷ xs) = drop n xs

module _ {ℓ} {A : Type ℓ} where
  pub take-All {κ} : (P : A → Type κ) (n : ℕ) (xs : List A) → All P xs → All P (take n xs)
  take-All P zero xs h = tt
  take-All P (suc n) [] h = tt
  take-All P (suc n) (x ∷ xs) (hx, h) = (hx, take-All P n xs h)

  pub drop-All {κ} : (P : A → Type κ) (n : ℕ) (xs : List A) → All P xs → All P (drop n xs)
  drop-All P zero xs h = h
  drop-All P (suc n) [] h = tt
  drop-All P (suc n) (x ∷ xs) (hx, h) = drop-All P n xs h

  pub length-take_le :
      (n : ℕ) (xs : List A) → (length (take n xs) ≤ n) × (length (take n xs) ≤ length xs)
  length-take_le zero xs = (omega arith, omega arith)
  length-take_le (suc n) [] = (omega arith, omega arith)
  length-take_le (suc n) (x ∷ xs) =
      (omega (arith, (length-take_le n xs).0), omega (arith, (length-take_le n xs).1))

  pub length-drop_le : (n : ℕ) (xs : List A) → length (drop n xs) ≤ length xs
  length-drop_le zero xs = omega arith
  length-drop_le (suc n) [] = omega arith
  length-drop_le (suc n) (x ∷ xs) = omega (arith, length-drop_le n xs)
