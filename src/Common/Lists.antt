-- ===== src/Common/Lists.antt =====
-- Lists with native lengths, comprehensions and searches with Boolean tests.
use Prim.Native.Nat.{ℕ, zero, suc, ◌+◌, ◌≤◌}
use Prim.Native.String.{String}
use mathlib.Core.Path.{◌≡◌, refl, ap}
use mathlib.Core.Bool.{Bool, true, false, ◌&&◌, ◌||◌}
use mathlib.Core.Option.{Option, none, some}
use mathlib.Core.List.{List, [], ◌∷◌, ◌++◌, map}
use native.Mathlib.Omega.{arith}
use text.Mathlib.Text.{◌==◌}
use text.Mathlib.TextEquality.{eq_iff}
use wazo_call_logd.Common.Tests.{if◌then◌else◌, Bool-cases, eqb}
use mathlib.Core.Logic.{inl, inr}

module _ {ℓ} {A : Type ℓ} where
  abbrev pub length : List A → ℕ
  length [] = 0
  length (x ∷ xs) = suc (length xs)

  abbrev pub head? : List A → Option A
  head? [] = none
  head? (x ∷ xs) = some x

  abbrev pub tail : List A → List A
  tail [] = []
  tail (x ∷ xs) = xs

  abbrev pub last? : List A → Option A
  last? [] = none
  last? (x ∷ []) = some x
  last? (x ∷ y ∷ xs) = last? (y ∷ xs)

  -- all but the last element
  abbrev pub init : List A → List A
  init [] = []
  init (x ∷ []) = []
  init (x ∷ y ∷ xs) = x ∷ init (y ∷ xs)

  abbrev pub get_elem? : List A → ℕ → Option A
  get_elem? [] i = none
  get_elem? (x ∷ xs) zero = some x
  get_elem? (x ∷ xs) (suc i) = get_elem? xs i

  abbrev pub is_empty : List A → Bool
  is_empty [] = true
  is_empty (x ∷ xs) = false

  -- every element satisfies `P`
  abbrev pub All {κ} : (A → Type κ) → List A → Type κ
  All P [] = Unit
  All P (x ∷ xs) = P x × All P xs

  pub length-append : (xs ys : List A) → length (xs ++ ys) ≡ length xs + length ys
  length-append [] ys = omega arith
  length-append (x ∷ xs) ys = omega (arith, length-append xs ys)

module _ {ℓ} {A : Type ℓ} where
  pub init-append : (xs : List A) (x : A) → init (xs ++ x ∷ []) ≡ xs
  init-append [] x = refl
  init-append (y ∷ []) x = refl
  init-append (y ∷ z ∷ xs) x = ap (◌∷◌ y) (init-append (z ∷ xs) x)

  pub last?-append : (xs : List A) (x : A) → last? (xs ++ x ∷ []) ≡ some x
  last?-append [] x = refl
  last?-append (y ∷ []) x = refl
  last?-append (y ∷ z ∷ xs) x = last?-append (z ∷ xs) x

  pub All-append {κ} :
      (P : A → Type κ) (front back : List A) → All P front → All P back → All P (front ++ back)
  All-append P [] ys hx hy = hy
  All-append P (x ∷ xs) ys hx hy = (hx.0, All-append P xs ys hx.1 hy)

module _ {ℓ} {A : Type ℓ} (p : A → Bool) where
  -- `[x for x in xs if p(x)]`
  abbrev pub keep : List A → List A
  keep [] = []
  keep (x ∷ xs) = let rest = keep xs in if p x then x ∷ rest else rest

  -- `next(x for x in xs if p(x))`, `find` of utils.py
  abbrev pub find : List A → Option A
  find [] = none
  find (x ∷ xs) = let rest = find xs in if p x then some x else rest

  abbrev pub any : List A → Bool
  any [] = false
  any (x ∷ xs) = p x || any xs

  abbrev pub all : List A → Bool
  all [] = true
  all (x ∷ xs) = p x && all xs

  pub find-some : (xs : List A) (x : A) → find xs ≡ some x → p x ≡ true
  find-some [] x h = cc
  find-some (y ∷ xs) x h = ground (arith, find-some xs x)

  pub keep-All : (xs : List A) → All (λ x. p x ≡ true) (keep xs)
  keep-All [] = tt
  keep-All (x ∷ xs) = ground (arith, keep-All xs)

module _ {ℓ} {A : Type ℓ} where
  pub any-append : (p : A → Bool) (xs ys : List A) → any p (xs ++ ys) ≡ (any p xs || any p ys)
  any-append p [] ys = refl
  any-append p (x ∷ xs) ys = ground (arith, any-append p xs ys)

  pub All-map {κ μ} :
      (P : A → Type κ) (Q : A → Type μ) (xs : List A) → ((x : A) → P x → Q x) → All P xs → All Q xs
  All-map P Q [] f h = tt
  All-map P Q (x ∷ xs) f h = (f x h.0, All-map P Q xs f h.1)

pub keep-keep {ℓ} :
    {A : Type ℓ} (p q : A → Bool) (xs : List A) → keep q (keep p xs) ≡ keep (λ x. p x && q x) xs
keep-keep p q [] = refl
keep-keep p q (x ∷ xs) = ground (arith, keep-keep p q xs)

pub keep_cong {ℓ} :
    {A : Type ℓ} (p q : A → Bool) (xs : List A) → ((x : A) → p x ≡ q x) → keep p xs ≡ keep q xs
keep_cong p q [] h = refl
keep_cong p q (x ∷ xs) h = ground (arith, h x, keep_cong p q xs h)

pub keep_all {ℓ} :
    {A : Type ℓ} (p : A → Bool) (xs : List A) → ((x : A) → p x ≡ true) → keep p xs ≡ xs
keep_all p [] h = refl
keep_all p (x ∷ xs) h = ground (arith, h x, keep_all p xs h)

pub length-keep_le {ℓ} :
    {A : Type ℓ} (p q : A → Bool) (xs : List A)
    → ((x : A) → p x ≡ true → q x ≡ true)
    → length (keep p xs) ≤ length (keep q xs)
length-keep_le p q [] h = omega arith
length-keep_le p q (x ∷ xs) h = elim (Bool-cases (p x)) [
  | inl e ↦ ground (arith, e, h x e, length-keep_le p q xs h)
  | inr e ↦ ground (arith, e, length-keep_le p q xs h)
]

pub keep-All_of {ℓ κ} :
    {A : Type ℓ} (P : A → Type κ) (p : A → Bool) (xs : List A) → All P xs → All P (keep p xs)
keep-All_of P p [] h = tt
keep-All_of P p (x ∷ xs) (hx, h) = elim (Bool-cases (p x)) [
  | inl e ↦ rw e (hx, keep-All_of P p xs h)
  | inr e ↦ rw e (keep-All_of P p xs h)
]

pub All-map_of {ℓ μ κ ν} :
    {A : Type ℓ} {B : Type μ} (P : A → Type κ) (Q : B → Type ν) (f : A → B) (xs : List A)
    → ((x : A) → P x → Q (f x))
    → All P xs
    → All Q (map f xs)
All-map_of P Q f [] h k = tt
All-map_of P Q f (x ∷ xs) h (kx, k) = (h x kx, All-map_of P Q f xs h k)

pub eqb→eq : (m n : ℕ) → eqb m n ≡ true → m ≡ n
eqb→eq m n h = ground arith

pub eqb_refl : (n : ℕ) → eqb n n ≡ true
eqb_refl n = ground arith

-- `text in texts`
abbrev pub elem : String → List String → Bool
elem s [] = false
elem s (t ∷ ts) = t == s || elem s ts

-- a set with one more member, in the order of insertion
abbrev pub insert : String → List String → List String
insert s ts = if elem s ts then ts else ts ++ s ∷ []

abbrev pub insert_all : List String → List String → List String
insert_all [] ts = ts
insert_all (s ∷ ss) ts = insert_all ss (insert s ts)

pub elem-append : (s : String) (xs ys : List String) → elem s (xs ++ ys) ≡ (elem s xs || elem s ys)
elem-append s [] ys = refl
elem-append s (x ∷ xs) ys = ground (arith, elem-append s xs ys)

pub elem-insert : (s t : String) (ts : List String) → elem s (insert t ts) ≡ (t == s || elem s ts)
elem-insert s t ts = ground (arith, elem-append s ts (t ∷ []), eq_iff t s)

pub elem-insert_all :
    (s : String) (xs ts : List String) → elem s (insert_all xs ts) ≡ (elem s xs || elem s ts)
elem-insert_all s [] ts = refl
elem-insert_all s (x ∷ xs) ts =
    ground (arith, elem-insert_all s xs (insert x ts), elem-insert s x ts)
