-- ===== src/Common/Sums.antt =====
-- SQL's SUM, COUNT and GROUP BY over lists of rows.
use Prim.Native.Nat.{ℕ, ◌+◌}
use mathlib.Core.Path.{◌≡◌, refl, subst}
use mathlib.Core.Bool.{Bool, true, false, not, ◌&&◌, ◌||◌}
use mathlib.Core.List.{List, [], ◌∷◌, ◌++◌, map}
use mathlib.Core.Logic.{inl, inr}
use native.Mathlib.Omega.{arith}
use wazo_call_logd.Common.Tests.{if◌then◌else◌, eqb, Bool-cases}
use wazo_call_logd.Common.Lists.{any, keep, length, eqb→eq, eqb_refl, All}

module _ {ℓ} {A : Type ℓ} where
  abbrev pub sum_of : (A → ℕ) → List A → ℕ
  sum_of f [] = 0
  sum_of f (x ∷ xs) = f x + sum_of f xs

  abbrev pub count : (A → Bool) → List A → ℕ
  count p xs = sum_of (λ x. if p x then 1 else 0) xs

  pub sum_of-append : (f : A → ℕ) (xs ys : List A) → sum_of f (xs ++ ys) ≡ sum_of f xs + sum_of f ys
  sum_of-append f [] ys = omega arith
  sum_of-append f (x ∷ xs) ys = omega (arith, sum_of-append f xs ys)

  pub sum_of_cong : (f g : A → ℕ) (xs : List A) → ((x : A) → f x ≡ g x) → sum_of f xs ≡ sum_of g xs
  sum_of_cong f g [] h = refl
  sum_of_cong f g (x ∷ xs) h = omega (arith, h x, sum_of_cong f g xs h)

  pub sum_of_add :
      (f g : A → ℕ) (xs : List A) → sum_of (λ x. f x + g x) xs ≡ sum_of f xs + sum_of g xs
  sum_of_add f g [] = omega arith
  sum_of_add f g (x ∷ xs) = omega (arith, sum_of_add f g xs)

  pub sum_of-zero : (xs : List A) → sum_of (λ _. 0) xs ≡ 0
  sum_of-zero [] = refl
  sum_of-zero (x ∷ xs) = omega (arith, sum_of-zero xs)

  pub sum_of-keep :
      (f : A → ℕ) (p : A → Bool) (xs : List A)
      → sum_of f (keep p xs) ≡ sum_of (λ x. if p x then f x else 0) xs
  sum_of-keep f p [] = refl
  sum_of-keep f p (x ∷ xs) = ground (arith, sum_of-keep f p xs)

  pub length-keep-eq-count : (p : A → Bool) (xs : List A) → length (keep p xs) ≡ count p xs
  length-keep-eq-count p [] = refl
  length-keep-eq-count p (x ∷ xs) = ground (arith, length-keep-eq-count p xs)

module _ {ℓ κ} {A : Type ℓ} {B : Type κ} where
  pub sum_of-map :
      (f : B → ℕ) (g : A → B) (xs : List A) → sum_of f (map g xs) ≡ sum_of (λ x. f (g x)) xs
  sum_of-map f g [] = refl
  sum_of-map f g (x ∷ xs) = omega (arith, sum_of-map f g xs)

  -- Two sums change places.
  pub sum_of_comm :
      (f : A → B → ℕ) (xs : List A) (ys : List B)
      → sum_of (λ x. sum_of (f x) ys) xs ≡ sum_of (λ y. sum_of (λ x. f x y) xs) ys
  sum_of_comm f [] ys = rw (sum_of-zero ys) refl
  sum_of_comm f (x ∷ xs) ys =
      omega (arith, sum_of_comm f xs ys, sum_of_add (f x) (λ y. sum_of (λ z. f z y) xs) ys)

-- `number in numbers`
abbrev pub mem : ℕ → List ℕ → Bool
mem n ns = any (eqb n) ns

-- The different numbers of a list.
unfoldable pub distinct : List ℕ → List ℕ
distinct [] = []
distinct (n ∷ ns) = n ∷ keep (λ m. not (eqb n m)) (distinct ns)

-- No number stands twice.
abbrev pub IsDistinct : List ℕ → Type 0
IsDistinct [] = Unit
IsDistinct (n ∷ ns) = (mem n ns ≡ false) × IsDistinct ns

pub mem-keep : (n : ℕ) (p : ℕ → Bool) (ns : List ℕ) → mem n (keep p ns) ≡ (p n && mem n ns)
mem-keep n p [] = ground arith
mem-keep n p (m ∷ ns) = elim (Bool-cases (eqb n m)) [
  | inl e ↦ let same : n ≡ m = ground arith in rw same (ground (arith, mem-keep m p ns))
  | inr e ↦ ground (arith, e, mem-keep n p ns)
]

pub keep-IsDistinct : (p : ℕ → Bool) (ns : List ℕ) → IsDistinct ns → IsDistinct (keep p ns)
keep-IsDistinct p [] h = tt
keep-IsDistinct p (n ∷ ns) (hn, h) = ground (arith, mem-keep n p ns, keep-IsDistinct p ns h)

pub distinct-IsDistinct : (ns : List ℕ) → IsDistinct (distinct ns)
unfolding distinct
distinct-IsDistinct [] = tt
distinct-IsDistinct (n ∷ ns) = ground (
  arith,
  mem-keep n (λ m. not (eqb n m)) (distinct ns),
  keep-IsDistinct (λ m. not (eqb n m)) (distinct ns) (distinct-IsDistinct ns),
)

pub mem-distinct : (n : ℕ) (ns : List ℕ) → mem n (distinct ns) ≡ mem n ns
unfolding distinct
mem-distinct n [] = refl
mem-distinct n (m ∷ ns) =
    ground (arith, mem-keep n (λ k. not (eqb m k)) (distinct ns), mem-distinct n ns)

-- Among different numbers the weight of one number is met once or never.
pub sum_of-at :
    (n w : ℕ) (ns : List ℕ)
    → IsDistinct ns
    → sum_of (λ k. if eqb n k then w else 0) ns ≡ (if mem n ns then w else 0)
sum_of-at n w [] h = refl
sum_of-at n w (m ∷ ns) (hm, h) = elim (Bool-cases (eqb n m)) [
  | inl e ↦
      let absent : mem n ns ≡ false =
        subst (λ k. mem k ns ≡ false) (eqb→eq m n (ground arith)) hm in
      ground (arith, e, absent, sum_of-at n w ns h)
  | inr e ↦ ground (arith, e, sum_of-at n w ns h)
]

pub mem-append : (n : ℕ) (xs ys : List ℕ) → mem n (xs ++ ys) ≡ (mem n xs || mem n ys)
mem-append n [] ys = refl
mem-append n (x ∷ xs) ys = ground (arith, mem-append n xs ys)

-- The numbers of the second list that are new, behind the first list.
pub IsDistinct-append :
    (xs ys : List ℕ)
    → IsDistinct xs
    → IsDistinct ys
    → IsDistinct (xs ++ keep (λ k. not (mem k xs)) ys)
IsDistinct-append xs ys hx hy =
    go xs (keep (λ k. not (mem k xs)) ys) hx (keep-IsDistinct (λ k. not (mem k xs)) ys hy)
      (λ n e. ground (arith, mem-keep n (λ k. not (mem k xs)) ys))
  where
    go :
        (front back : List ℕ)
        → IsDistinct front
        → IsDistinct back
        → ((n : ℕ) → mem n front ≡ true → mem n back ≡ false)
        → IsDistinct (front ++ back)
    go [] back h k d = k
    go (n ∷ front) back (hn, h) k d = (
      ground (arith, mem-append n front back, d n, eqb_refl n),
      go front back h k (λ m e. d m (ground (arith, e))),
    )

pub mem-append_new :
    (n : ℕ) (xs ys : List ℕ) → mem n (xs ++ keep (λ k. not (mem k xs)) ys) ≡ (mem n xs || mem n ys)
mem-append_new n xs ys =
    ground
      (arith, mem-append n xs (keep (λ k. not (mem k xs)) ys), mem-keep n (λ k. not (mem k xs)) ys)

module _ {ℓ} {A : Type ℓ} where
  pub sum_of-All : (f g : A → ℕ) (xs : List A) → All (λ x. f x ≡ g x) xs → sum_of f xs ≡ sum_of g xs
  sum_of-All f g [] h = refl
  sum_of-All f g (x ∷ xs) (hx, h) = omega (arith, sum_of-All f g xs h)

  pub length-eq-sum_of : (xs : List A) → length xs ≡ sum_of (λ _. 1) xs
  length-eq-sum_of [] = refl
  length-eq-sum_of (x ∷ xs) = omega (arith, length-eq-sum_of xs)
