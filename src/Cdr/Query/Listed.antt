-- ===== src/Cdr/Query/Listed.antt =====
-- What `find_all_in_period` lists, and in which order.
use wazo_call_logd.Common.{
  ℕ, zero, suc, ◌≡◌, refl, Bool, true, false, not, ◌||◌, Option, none, some, List, [], ◌∷◌, String,
  inl, inr, keep, keep-All_of, All, All-append, eqb, Bool-cases, ok, if◌then◌else◌,
}
use wazo_call_logd.Common.Sql.{take, drop, take-All, drop-All}
use wazo_call_logd.Common.Sort.{sort, IsSorted, sort-IsSorted, keep-IsSorted, sort-All}
use wazo_call_logd.Cdr.Rows.{Cdr}
use wazo_call_logd.Cdr.Filters.{Database, ListParams, OrderField}
use wazo_call_logd.Cdr.Order.{row_le, row_le_total, row_le_trans}
use wazo_call_logd.Cdr.Query.{
  PeerGroup, copies, join_max, max_ids, participant_rows, unique, limited, skipped, page,
  candidates, matches, list_query, ordered, find_all_in_period,
}

module _ {κ} (P : Cdr → Type κ) where
  unique-All : (xs : List Cdr) → All P xs → All P (unique xs)
  unfolding unique
  unique-All [] h = tt
  unique-All (x ∷ xs) (hx, h) =
      (hx, keep-All_of P (λ d. not (eqb x.id d.id)) (unique xs) (unique-All xs h))

  limited-All : (limit : Option ℕ) (xs : List Cdr) → All P xs → All P (limited limit xs)
  limited-All none xs h = h
  limited-All (some n) xs h = elim (eqb n 0) as (λ b. All P (if b then xs else take n xs)) [
    | true ↦ h
    | false ↦ take-All P n xs h
  ]

  skipped-All : (offset : Option ℕ) (xs : List Cdr) → All P xs → All P (skipped offset xs)
  skipped-All none xs h = h
  skipped-All (some n) xs h = elim (eqb n 0) as (λ b. All P (if b then xs else drop n xs)) [
    | true ↦ h
    | false ↦ drop-All P n xs h
  ]

  pub listed-All :
      (params : ListParams) (xs : List Cdr) → All P xs → All P (unique (page params xs))
  unfolding page
  listed-All params xs h =
      let rest = skipped params.offset xs in
      unique-All (limited params.limit rest)
        (limited-All params.limit rest (skipped-All params.offset xs h))

module _ (le : Cdr → Cdr → Bool) where
  take-IsSorted : (n : ℕ) (xs : List Cdr) → IsSorted le xs → IsSorted le (take n xs)
  take-IsSorted zero xs h = tt
  take-IsSorted (suc n) [] h = tt
  take-IsSorted (suc n) (x ∷ xs) (hx, h) =
      (take-All (λ y. le x y ≡ true) n xs hx, take-IsSorted n xs h)

  drop-IsSorted : (n : ℕ) (xs : List Cdr) → IsSorted le xs → IsSorted le (drop n xs)
  drop-IsSorted zero xs h = h
  drop-IsSorted (suc n) [] h = tt
  drop-IsSorted (suc n) (x ∷ xs) (hx, h) = drop-IsSorted n xs h

  unique-IsSorted : (xs : List Cdr) → IsSorted le xs → IsSorted le (unique xs)
  unfolding unique
  unique-IsSorted [] h = tt
  unique-IsSorted (x ∷ xs) (hx, h) =
      let kept = unique-All (λ y. le x y ≡ true) xs hx in
      (
        keep-All_of (λ y. le x y ≡ true) (λ d. not (eqb x.id d.id)) (unique xs) kept,
        keep-IsSorted le (λ d. not (eqb x.id d.id)) (unique xs) (unique-IsSorted xs h),
      )

  limited-IsSorted :
      (limit : Option ℕ) (xs : List Cdr) → IsSorted le xs → IsSorted le (limited limit xs)
  limited-IsSorted none xs h = h
  limited-IsSorted (some n) xs h =
      elim (eqb n 0) as (λ b. IsSorted le (if b then xs else take n xs)) [
        | true ↦ h
        | false ↦ take-IsSorted n xs h
      ]

  skipped-IsSorted :
      (offset : Option ℕ) (xs : List Cdr) → IsSorted le xs → IsSorted le (skipped offset xs)
  skipped-IsSorted none xs h = h
  skipped-IsSorted (some n) xs h =
      elim (eqb n 0) as (λ b. IsSorted le (if b then xs else drop n xs)) [
        | true ↦ h
        | false ↦ drop-IsSorted n xs h
      ]

  listed-IsSorted :
      (params : ListParams) (xs : List Cdr) → IsSorted le xs → IsSorted le (unique (page params xs))
  unfolding page
  listed-IsSorted params xs h =
      let rest = skipped params.offset xs in
      unique-IsSorted (limited params.limit rest)
        (limited-IsSorted params.limit rest (skipped-IsSorted params.offset xs h))

join_max-All {κ} :
    (P : Cdr → Type κ) (table : List Cdr) (maxima : List (PeerGroup × ℕ))
    → All P table
    → All P (join_max table maxima)
join_max-All P [] maxima h = tt
join_max-All P (c ∷ cs) maxima (hc, h) =
    All-append P (copies c maxima) (join_max cs maxima) (go maxima) (join_max-All P cs maxima h)
  where
    go : (ms : List (PeerGroup × ℕ)) → All P (copies c ms)
    go [] = tt
    go ((g, m) ∷ ms) =
        elim (eqb c.id m) as (λ b. All P (if b then c ∷ copies c ms else copies c ms)) [
          | true ↦ (hc, go ms)
          | false ↦ go ms
        ]

module _ (db : Database) (table : List Cdr) (params : ListParams) where
  candidates-All {κ} : (P : Cdr → Type κ) → All P table → All P (candidates table params)
  unfolding candidates
  candidates-All P h =
      elim params.distinct_peer_exten
        as (λ b. All P (if b then join_max table (max_ids (participant_rows table)) else table)) [
          | true ↦ join_max-All P table (max_ids (participant_rows table)) h
          | false ↦ h
        ]

  list_query-All {κ} :
      (P : Cdr → Type κ)
      → All P table
      → All (λ c. P c × (matches db params c ≡ true)) (list_query db table params)
  unfolding list_query
  list_query-All P h = go (candidates table params) (candidates-All P h)
    where
      go :
          (xs : List Cdr)
          → All P xs
          → All (λ c. P c × (matches db params c ≡ true)) (keep (matches db params) xs)
      go [] k = tt
      go (x ∷ xs) (hx, k) = elim (Bool-cases (matches db params x)) [
        | inl e ↦ rw e ((hx, e), go xs k)
        | inr e ↦ rw e (go xs k)
      ]

  -- A list in an order does not fail. It is in that order, and it has rows of the table only, which
  -- all match the parameters; `P` stands for any fact about the rows of the table. The collation is
  -- a total order up to equivalence.
  pub find_all_in_period_lem {κ} :
      (P : Cdr → Type κ) (field : OrderField)
      → params.order ≡ some field
      → ((s t : String) → (db.text_le s t || db.text_le t s) ≡ true)
      → ((r s t : String) → db.text_le r s ≡ true → db.text_le s t ≡ true → db.text_le r t ≡ true)
      → All P table
      → (items : List Cdr) × (find_all_in_period db table params ≡ ok items)
        × IsSorted (row_le db field params.direction) items
        × All (λ c. P c × (matches db params c ≡ true)) items
  unfolding find_all_in_period ordered
  find_all_in_period_lem P field o total trans h =
      let le = row_le db field params.direction in
      let rows = list_query db table params in
      (
        unique (page params (sort le rows)),
        rw o refl,
        listed-IsSorted le params (sort le rows) (
            sort-IsSorted le (λ x y. row_le_total db field params.direction x y total)
              (λ x y z. row_le_trans db field params.direction x y z trans) rows),
        listed-All (λ c. P c × (matches db params c ≡ true)) params (sort le rows)
            (sort-All le (λ c. P c × (matches db params c ≡ true)) rows (list_query-All P h)),
      )
