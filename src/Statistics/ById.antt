-- ===== src/Statistics/ById.antt =====
-- The dicts by id that the services load rows into.
use wazo_call_logd.Common.{
  ℕ, ◌≡◌, ◌≢◌, refl, ◌∙◌, ap, Bool, true, false, Option, none, some, List, [], ◌∷◌, map, eqb,
  eqb→eq, mem, distinct, mem-distinct, All, arith, sym, if◌then◌else◌,
}
use wazo_call_logd.Statistics.Service.{last_with, dict_values, by_id, or_else_some, cons_some}

module _ {ℓ} {A : Type ℓ} (id_of : A → ℕ) where
  abbrev HoldsOf {κ} : (A → Type κ) → Option A → Type κ
  HoldsOf P none = Unit
  HoldsOf P (some x) = P x

  HoldsOf-or_else_some {κ} :
      (P : A → Type κ) (o p : Option A) → HoldsOf P o → HoldsOf P p → HoldsOf P (or_else_some o p)
  HoldsOf-or_else_some P none p h k = k
  HoldsOf-or_else_some P (some x) p h k = h

  HoldsOf-if {κ} :
      (P : A → Type κ) (b : Bool) (x : A)
      → (b ≡ true → P x)
      → HoldsOf P (if b then some x else none)
  HoldsOf-if P true x h = h refl
  HoldsOf-if P false x h = tt

  -- An entry that is found under a key has the key, and whatever all entries have.
  last_with-HoldsOf {κ} :
      (P : A → Type κ) (xs : List A) (k : ℕ)
      → All P xs
      → HoldsOf (λ x. (id_of x ≡ k) × P x) (last_with id_of xs k)
  unfolding last_with
  last_with-HoldsOf P [] k h = tt
  last_with-HoldsOf P (x ∷ xs) k (hx, h) =
      let Q : A → Type _ = λ y. (id_of y ≡ k) × P y in
      HoldsOf-or_else_some Q (last_with id_of xs k) (if eqb (id_of x) k then some x else none)
        (last_with-HoldsOf P xs k h)
        (HoldsOf-if Q (eqb (id_of x) k) x (λ e. (eqb→eq (id_of x) k e, hx)))

  last_with-none :
      (xs : List A) (k : ℕ) → last_with id_of xs k ≡ none → mem k (map id_of xs) ≡ false
  unfolding last_with
  last_with-none [] k h = refl
  last_with-none (x ∷ xs) k h = ground (arith, last_with-none xs k)

  cons_some-All {κ} :
      (P : A → Type κ) (k : ℕ) (o : Option A) (xs : List A)
      → HoldsOf (λ x. (id_of x ≡ k) × P x) o
      → All P xs
      → All P (cons_some o xs)
  cons_some-All P k none xs h hs = hs
  cons_some-All P k (some x) xs h hs = (h.1, hs)

  pub dict_values-All {κ} :
      (P : A → Type κ) (ks : List ℕ) (xs : List A) → All P xs → All P (dict_values id_of ks xs)
  unfolding dict_values
  dict_values-All P [] xs h = tt
  dict_values-All P (k ∷ ks) xs h =
      cons_some-All P k (last_with id_of xs k) (dict_values id_of ks xs)
        (last_with-HoldsOf P xs k h) (dict_values-All P ks xs h)

  ids-cons_some :
      (k : ℕ) (o : Option A) (xs : List A)
      → HoldsOf (λ x. (id_of x ≡ k) × Unit {0}) o
      → o ≢ none
      → map id_of (cons_some o xs) ≡ k ∷ map id_of xs
  ids-cons_some k none xs h n = absurd (n refl)
  ids-cons_some k (some x) xs h n = ap (λ i. i ∷ map id_of xs) h.0

  All-Unit : (xs : List A) → All (λ _. Unit {0}) xs
  All-Unit [] = tt
  All-Unit (x ∷ xs) = (tt, All-Unit xs)

  ids-dict_values :
      (ks : List ℕ) (xs : List A)
      → All (λ k. mem k (map id_of xs) ≡ true) ks
      → map id_of (dict_values id_of ks xs) ≡ ks
  unfolding dict_values
  ids-dict_values [] xs h = refl
  ids-dict_values (k ∷ ks) xs (hk, h) =
      ids-cons_some k (last_with id_of xs k) (dict_values id_of ks xs)
        (last_with-HoldsOf (λ _. Unit {0}) xs k (All-Unit xs)) (λ e. cc (last_with-none xs k e))
      ∙ ap (◌∷◌ k) (ids-dict_values ks xs h)

  -- The dict has the ids of its rows, each once.
  pub ids-by_id : (xs : List A) → map id_of (by_id id_of xs) ≡ distinct (map id_of xs)
  unfolding by_id
  ids-by_id xs =
      ids-dict_values (distinct (map id_of xs)) xs
        (All-members (distinct (map id_of xs)) (λ k h. sym (mem-distinct k (map id_of xs)) ∙ h))
    where
      All-members :
          (ks : List ℕ)
          → ((k : ℕ) → mem k ks ≡ true → mem k (map id_of xs) ≡ true)
          → All (λ k. mem k (map id_of xs) ≡ true) ks
      All-members [] h = tt
      All-members (k ∷ ks) h = (h k (ground arith), All-members ks (λ j e. h j (ground (arith, e))))
