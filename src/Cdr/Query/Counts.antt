-- ===== src/Cdr/Query/Counts.antt =====
-- What `count_in_period` counts: `filtered` against the list, and against `total`.
use wazo_call_logd.Common.{
  ℕ, ◌+◌, ◌≤◌, ◌≡◌, refl, sym, ◌∙◌, ap, Bool, true, false, not, ◌&&◌, none, some, List, elem, all,
  any, [], ◌∷◌, ◌++◌, inl, inr, keep, keep-keep, keep_cong, keep_all, length-keep_le, length, eqb,
  Bool-cases, arith, ok, if◌then◌else◌,
}
use wazo_call_logd.Common.Sort.{sort, insert_sorted}
use wazo_call_logd.Cdr.Rows.{Cdr, Party}
use wazo_call_logd.Cdr.Filters.{
  Database, ListParams, apply_filters, apply_user_filter, match_call, match_texts, match_parties,
  match_state, OrderField, when_any, when_text, has_user, terminal_user,
}
use wazo_call_logd.Cdr.Order.{row_le}
use wazo_call_logd.Cdr.Query.{
  requested_internal, PeerGroup, copies, join_max, unique, candidates, matches, list_query,
  find_all_in_period, count_params, set_default_status, count_in_period, ordered, page, max_ids,
  participant_rows,
}

-- How many ids of a kind the rows have.
abbrev ids : (ℕ → Bool) → List Cdr → ℕ
ids q xs = length (keep (λ d. q d.id) (unique xs))

ids_cong : (q r : ℕ → Bool) (xs : List Cdr) → ((n : ℕ) → q n ≡ r n) → ids q xs ≡ ids r xs
ids_cong q r xs h = ap length (keep_cong (λ d. q d.id) (λ d. r d.id) (unique xs) (λ d. h d.id))

ids-cons :
    (q : ℕ → Bool) (x : Cdr) (xs : List Cdr)
    → ids q (x ∷ xs) ≡ (if q x.id then 1 else 0) + ids (λ n. not (eqb x.id n) && q n) xs
unfolding unique
ids-cons q x xs =
    ground (arith, keep-keep (λ (d : Cdr). not (eqb x.id d.id)) (λ (d : Cdr). q d.id) (unique xs))

and_swap : (a b c : Bool) → (a && (b && c)) ≡ (b && (a && c))
and_swap a b c = ground arith

ones-swap :
    (q : ℕ → Bool) (m n : ℕ)
    → (if q m then 1 else 0) + (if not (eqb m n) && q n then 1 else 0)
      ≡ (if q n then 1 else 0) + (if not (eqb n m) && q m then 1 else 0)
ones-swap q m n = elim (Bool-cases (eqb m n)) [
  | inl e ↦ let same_id : m ≡ n = ground (arith, e) in ground (arith, e, ap q same_id, same_id)
  | inr e ↦ ground (arith, e)
]

-- two rows in either order
ids-swap : (q : ℕ → Bool) (x y : Cdr) (xs : List Cdr) → ids q (x ∷ y ∷ xs) ≡ ids q (y ∷ x ∷ xs)
ids-swap q x y xs = omega (
  arith,
  ids-cons q x (y ∷ xs),
  ids-cons (λ n. not (eqb x.id n) && q n) y xs,
  ids-cons q y (x ∷ xs),
  ids-cons (λ n. not (eqb y.id n) && q n) x xs,
  ones-swap q x.id y.id,
  ids_cong (λ n. not (eqb y.id n) && (not (eqb x.id n) && q n))
      (λ n. not (eqb x.id n) && (not (eqb y.id n) && q n)) xs
      (λ n. and_swap (not (eqb y.id n)) (not (eqb x.id n)) (q n)),
)

ids-insert_sorted :
    (le : Cdr → Cdr → Bool) (q : ℕ → Bool) (x : Cdr) (ys : List Cdr)
    → ids q (insert_sorted le x ys) ≡ ids q (x ∷ ys)
unfolding insert_sorted
ids-insert_sorted le q x [] = refl
ids-insert_sorted le q x (y ∷ ys) =
    let stepped =
      ids-cons q y (insert_sorted le x ys)
      ∙ ap (λ n. (if q y.id then 1 else 0) + n)
          (ids-insert_sorted le (λ n. not (eqb y.id n) && q n) x ys)
      ∙ sym (ids-cons q y (x ∷ ys))
      ∙ ids-swap q y x ys in
    elim (Bool-cases (le x y)) [ inl e ↦ rw e refl | inr e ↦ rw e stepped ]

ids-sort : (le : Cdr → Cdr → Bool) (q : ℕ → Bool) (xs : List Cdr) → ids q (sort le xs) ≡ ids q xs
unfolding sort
ids-sort le q [] = refl
ids-sort le q (x ∷ xs) =
    ids-insert_sorted le q x (sort le xs)
    ∙ ids-cons q x (sort le xs)
    ∙ ap (λ n. (if q x.id then 1 else 0) + n) (ids-sort le (λ n. not (eqb x.id n) && q n) xs)
    ∙ sym (ids-cons q x xs)

length-unique : (xs : List Cdr) → ids (λ n. true) xs ≡ length (unique xs)
length-unique xs = ap length (keep_all (λ (d : Cdr). true) (unique xs) (λ d. refl))

ids_le :
    (q r : ℕ → Bool) (xs : List Cdr) → ((n : ℕ) → q n ≡ true → r n ≡ true) → ids q xs ≤ ids r xs
ids_le q r xs h = length-keep_le (λ d. q d.id) (λ d. r d.id) (unique xs) (λ d. h d.id)

not_self : (n : ℕ) (b : Bool) → (not (eqb n n) && b) ≡ false
not_self n b = ground arith

and_right : (a b : Bool) → (a && b) ≡ true → b ≡ true
and_right a b h = ground arith

-- All copies of a call count once.
ids-copies_le :
    (m : Cdr → Bool) (q : ℕ → Bool) (c : Cdr) (maxima : List (PeerGroup × ℕ)) (rest : List Cdr)
    → ids q (keep m (copies c maxima ++ rest))
      ≤ (if m c && q c.id then 1 else 0) + ids q (keep m rest)
ids-copies_le m q c [] rest = omega arith
ids-copies_le m q c ((g, n) ∷ maxima) rest =
    let others = λ (k : ℕ). not (eqb c.id k) && q k in
    ground (
      arith,
      ids-copies_le m q c maxima rest,
      ids-copies_le m others c maxima rest,
      ids-cons q c (keep m (copies c maxima ++ rest)),
      not_self c.id (q c.id),
      ids_le others q (keep m rest) (λ k. and_right (not (eqb c.id k)) (q k)),
    )

ids-join_max_le :
    (m : Cdr → Bool) (q : ℕ → Bool) (table : List Cdr) (maxima : List (PeerGroup × ℕ))
    → ids q (keep m (join_max table maxima)) ≤ length (keep m table)
unfolding unique
ids-join_max_le m q [] maxima = omega arith
ids-join_max_le m q (c ∷ cs) maxima =
    ground (arith, ids-copies_le m q c maxima (join_max cs maxima), ids-join_max_le m q cs maxima)

length-unique_le : (xs : List Cdr) → length (unique xs) ≤ length xs
unfolding unique
length-unique_le [] = omega arith
length-unique_le (x ∷ xs) = omega (
  arith,
  length-unique_le xs,
  length-keep_le (λ (d : Cdr). not (eqb x.id d.id)) (λ d. true) (unique xs) (λ d h. refl),
  ap length (keep_all (λ (d : Cdr). true) (unique xs) (λ d. refl)),
)

second_third : (a b c d e : Bool) → (a && b && c && d && e) ≡ true → (b && c) ≡ true
second_third a b c d e h = ground arith

parties_part : (r u a b p s : Bool) → (r && u && (a && b && p && s)) ≡ true → p ≡ true
parties_part r u a b p s h = ground arith

module _ (db : Database) (table : List Cdr) (params : ListParams) where
  -- the rows that the total counts
  abbrev scope : Cdr → Bool
  scope c = apply_user_filter db params c && apply_filters db (count_params db params) c

  scope_lem :
      (c : Cdr)
      → scope c ≡ (
          when_any params.tenant_uuids (elem c.tenant_uuid)
          && when_text params.me_user_uuid (has_user c))
  unfolding apply_user_filter apply_filters match_call match_texts match_parties match_state
      count_params
  scope_lem c = ground arith

  parties-scope :
      (other : ListParams) (c : Cdr)
      → other.tenant_uuids ≡ params.tenant_uuids
      → other.me_user_uuid ≡ params.me_user_uuid
      → match_parties db other c ≡ true
      → scope c ≡ true
  unfolding match_parties
  parties-scope other c e f h =
      let own =
        second_third (all (λ tag. any (λ (p : Party). elem tag p.tags) c.participants) other.tags)
          (when_any other.tenant_uuids (elem c.tenant_uuid))
          (when_text other.me_user_uuid (has_user c)) (when_any other.user_uuids (any (has_user c)))
          (when_any other.terminal_user_uuids (λ uuids. terminal_user uuids c)) h in
      rw (scope_lem c, sym e, sym f) own

  matches-scope :
      (other : ListParams) (c : Cdr)
      → other.tenant_uuids ≡ params.tenant_uuids
      → other.me_user_uuid ≡ params.me_user_uuid
      → matches db other c ≡ true
      → scope c ≡ true
  unfolding matches apply_filters
  matches-scope other c e f h = parties-scope other c e f (
      parties_part (requested_internal other c) (apply_user_filter db other c)
        (match_call db other c) (match_texts db other c) (match_parties db other c)
        (match_state db other c) h)

  default_scope :
      let p = set_default_status db params in
      (p.tenant_uuids ≡ params.tenant_uuids) × (p.me_user_uuid ≡ params.me_user_uuid)
  unfolding set_default_status
  default_scope = ground arith

  listed_le :
      (m : Cdr → Bool) (other : ListParams)
      → length (unique (keep m (candidates table other))) ≤ length (keep m table)
  unfolding candidates
  listed_le m other =
      let joined = join_max table (max_ids (participant_rows table)) in
      elim (Bool-cases other.distinct_peer_exten) [
        | inl e ↦ rw e (
            omega (
              arith,
              length-unique (keep m joined),
              ids-join_max_le m (λ n. true) table (max_ids (participant_rows table)),
            ))
        | inr e ↦ rw e (length-unique_le (keep m table))
      ]

  -- No more calls are filtered than there are in total, whatever the parameters.
  pub filtered_le_total :
      let (total, filtered, _) = count_in_period db table params in filtered ≤ total
  unfolding count_in_period list_query
  filtered_le_total =
      let used = set_default_status db params in
      omega (
        arith,
        listed_le (matches db used) used,
        length-keep_le (matches db used) scope table
            (λ c. matches-scope used c default_scope.0 default_scope.1),
        ap length (
            keep-keep (apply_user_filter db params) (apply_filters db (count_params db params))
              table),
      )

  find_all_in_period-sort :
      (other : ListParams) (field : OrderField)
      → other.order ≡ some field
      → other.limit ≡ none
      → other.offset ≡ none
      → find_all_in_period db table other
        ≡ ok (unique (sort (row_le db field other.direction) (list_query db table other)))
  unfolding find_all_in_period page ordered
  find_all_in_period-sort other field o l f = rw (o, l, f) refl

  default_page :
      let p = set_default_status db params in
      (p.order ≡ params.order) × (p.limit ≡ params.limit) × (p.offset ≡ params.offset)
  unfolding set_default_status
  default_page = ground arith

  -- Without a page, and in any order, the list has as many calls as are filtered.
  pub length-find_all_in_period :
      (field : OrderField)
      → params.order ≡ some field
      → params.limit ≡ none
      → params.offset ≡ none
      → let (total, filtered, shared) = count_in_period db table params in
        (items : List Cdr) × (find_all_in_period db table shared ≡ ok items)
        × (length items ≡ filtered)
  unfolding count_in_period
  length-find_all_in_period field o l f =
      let shared = set_default_status db params in
      let rows = list_query db table shared in
      let le = row_le db field shared.direction in
      let (same_order, same_limit, same_offset) = default_page in
      (
        unique (sort le rows),
        find_all_in_period-sort shared field (same_order ∙ o) (same_limit ∙ l) (same_offset ∙ f),
        sym (length-unique (sort le rows)) ∙ ids-sort le (λ n. true) rows ∙ length-unique rows,
      )
