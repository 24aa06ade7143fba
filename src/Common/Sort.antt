-- ===== src/Common/Sort.antt =====
-- `sorted(items, key=...)`: a stable sort, and the order of texts by code points.
use Prim.Native.Nat.{compare, Ordering, suc}
use Prim.Native.Char.{code}
use mathlib.Core.Bool.{Bool, true, false, ◌||◌}
use mathlib.Core.List.{List, [], ◌∷◌, Perm}
use mathlib.Core.List.Perm
use native.Mathlib.Omega.{arith}
use Prim.Native.String.{String}
use wazo_call_logd.Common.Tests.{if◌then◌else◌, Bool-cases}
use mathlib.Core.Logic.{inl, inr}
use wazo_call_logd.Common.Lists.{any, length, All, All-map, keep, keep-All_of}
use mathlib.Core.Path.{◌≡◌, refl}

-- `s <= t` for texts
unfoldable pub text_leb : String → String → Bool
text_leb String.[] t = true
text_leb (String.◌∷◌ c s) String.[] = false
text_leb (String.◌∷◌ c s) (String.◌∷◌ d t) =
    let rest = text_leb s t in
    elim (compare (code c) (code d)) [
      | Ordering.lt ↦ true
      | Ordering.eq ↦ rest
      | Ordering.gt ↦ false
    ]

module _ {ℓ} {A : Type ℓ} (le : A → A → Bool) where
  -- `x` goes before the first item that it is not above, so equal items keep their order
  unfoldable pub insert_sorted : A → List A → List A
  insert_sorted x [] = x ∷ []
  insert_sorted x (y ∷ ys) = if le x y then x ∷ y ∷ ys else y ∷ insert_sorted x ys

  unfoldable pub sort : List A → List A
  unfolding insert_sorted
  sort [] = []
  sort (x ∷ xs) = insert_sorted x (sort xs)

  insert_sorted-perm : (x : A) (ys : List A) → Perm (insert_sorted x ys) (x ∷ ys)
  unfolding insert_sorted
  insert_sorted-perm x [] = Perm.refl _
  insert_sorted-perm x (y ∷ ys) =
      let swapped = Perm.trans (Perm.cons y (insert_sorted-perm x ys)) (Perm.swap x y ys) in
      ground (arith, swapped, Perm.refl (x ∷ y ∷ ys))

  pub sort-perm : (xs : List A) → Perm (sort xs) xs
  unfolding sort
  sort-perm [] = Perm.refl []
  sort-perm (x ∷ xs) = Perm.trans (insert_sorted-perm x (sort xs)) (Perm.cons x (sort-perm xs))

  any-insert_sorted :
      (p : A → Bool) (x : A) (ys : List A) → any p (insert_sorted x ys) ≡ (p x || any p ys)
  unfolding insert_sorted
  any-insert_sorted p x [] = refl
  any-insert_sorted p x (y ∷ ys) = ground (arith, any-insert_sorted p x ys)

  pub any-sort : (p : A → Bool) (xs : List A) → any p (sort xs) ≡ any p xs
  unfolding sort
  any-sort p [] = refl
  any-sort p (x ∷ xs) = ground (arith, any-insert_sorted p x (sort xs), any-sort p xs)

  length-insert_sorted : (x : A) (ys : List A) → length (insert_sorted x ys) ≡ suc (length ys)
  unfolding insert_sorted
  length-insert_sorted x [] = refl
  length-insert_sorted x (y ∷ ys) = ground (arith, length-insert_sorted x ys)

  pub length-sort : (xs : List A) → length (sort xs) ≡ length xs
  unfolding sort
  length-sort [] = refl
  length-sort (x ∷ xs) = omega (arith, length-insert_sorted x (sort xs), length-sort xs)

  pub sort-All {κ} : (P : A → Type κ) (xs : List A) → All P xs → All P (sort xs)
  unfolding sort insert_sorted
  sort-All P [] h = tt
  sort-All P (x ∷ xs) (hx, h) = go (sort xs) (sort-All P xs h)
    where
      go : (ys : List A) → All P ys → All P (insert_sorted x ys)
      go [] k = (hx, tt)
      go (y ∷ ys) (hy, k) =
          elim (le x y) as (λ b. All P (if b then x ∷ y ∷ ys else y ∷ insert_sorted x ys)) [
            | true ↦ (hx, (hy, k))
            | false ↦ (hy, go ys k)
          ]

  -- every item goes before all that follow it
  abbrev pub IsSorted : List A → Type ℓ
  IsSorted [] = Unit
  IsSorted (x ∷ xs) = All (λ y. le x y ≡ true) xs × IsSorted xs

  module _ (total : (x y : A) → (le x y || le y x) ≡ true)
      (trans : (x y z : A) → le x y ≡ true → le y z ≡ true → le x z ≡ true) where
    insert_sorted-All :
        (z x : A) (ys : List A)
        → le z x ≡ true
        → All (λ y. le z y ≡ true) ys
        → All (λ y. le z y ≡ true) (insert_sorted x ys)
    unfolding insert_sorted
    insert_sorted-All z x [] h hs = (h, tt)
    insert_sorted-All z x (y ∷ ys) h (hy, hs) = elim (Bool-cases (le x y)) [
      | inl e ↦ rw e (h, (hy, hs))
      | inr e ↦ rw e (hy, insert_sorted-All z x ys h hs)
    ]

    insert_sorted-IsSorted : (x : A) (ys : List A) → IsSorted ys → IsSorted (insert_sorted x ys)
    unfolding insert_sorted
    insert_sorted-IsSorted x [] h = (tt, tt)
    insert_sorted-IsSorted x (y ∷ ys) (hy, h) = elim (Bool-cases (le x y)) [
      | inl e ↦ rw e (
        (e, All-map (λ z. le y z ≡ true) (λ z. le x z ≡ true) ys (λ z k. trans x y z e k) hy),
        (hy, h),
      )
      | inr e ↦ rw e (
        insert_sorted-All y x ys (ground (arith, e, total x y)) hy,
        insert_sorted-IsSorted x ys h,
      )
    ]

    pub sort-IsSorted : (xs : List A) → IsSorted (sort xs)
    unfolding sort
    sort-IsSorted [] = tt
    sort-IsSorted (x ∷ xs) = insert_sorted-IsSorted x (sort xs) (sort-IsSorted xs)

  pub keep-IsSorted : (p : A → Bool) (xs : List A) → IsSorted xs → IsSorted (keep p xs)
  keep-IsSorted p [] h = tt
  keep-IsSorted p (x ∷ xs) (hx, h) = elim (Bool-cases (p x)) [
    | inl e ↦ rw e (keep-All_of (λ y. le x y ≡ true) p xs hx, keep-IsSorted p xs h)
    | inr e ↦ rw e (keep-IsSorted p xs h)
  ]
