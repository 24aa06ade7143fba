-- ===== src/Transcription/Listing/Counts.antt =====
-- What `find_all` lists and counts.
use wazo_call_logd.Common.{
  ℕ, ◌≤◌, ◌≡◌, sym, subst, Bool, true, Option, none, some, List, [], ◌∷◌, String, keep, length, All,
  All-map, Bool-cases, inl, inr, arith,
}
use wazo_call_logd.Common.Sql.{drop, take-All, drop-All, length-take_le, length-drop_le}
use wazo_call_logd.Common.Sort.{sort-All, length-sort}
use wazo_call_logd.Cdr.Filters.{Database, OrderDirection, asc, desc}
use wazo_call_logd.Transcription.{Transcription, State, in_tenants}
use wazo_call_logd.Transcription.Listing.{
  OrderColumn, Params, column_le, ordered_rows, skipped_rows, limited_rows, matches_params,
  find_all,
}

keep-length_le :
    (p : Transcription → Bool) (rows : List Transcription) → length (keep p rows) ≤ length rows
keep-length_le p [] = omega arith
keep-length_le p (r ∷ rs) = ground (arith, keep-length_le p rs)

keep-both {κ} :
    (P : Transcription → Type κ) (p : Transcription → Bool) (rows : List Transcription)
    → All P rows
    → All (λ r. P r × (p r ≡ true)) (keep p rows)
keep-both P p [] h = tt
keep-both P p (r ∷ rs) (hr, h) = elim (Bool-cases (p r)) [
  | inl e ↦ rw e ((hr, e), keep-both P p rs h)
  | inr e ↦ rw e (keep-both P p rs h)
]

units : (rows : List Transcription) → All (λ r. Unit {0}) rows
units [] = tt
units (r ∷ rs) = (tt, units rs)

module _ {κ} (db : Database) (P : Transcription → Type κ) where
  ordered_rows-All :
      (column : OrderColumn) (direction : OrderDirection) (rows : List Transcription)
      → All P rows
      → All P (ordered_rows db column direction rows)
  unfolding ordered_rows
  ordered_rows-All column asc rows h = sort-All (column_le db column) P rows h
  ordered_rows-All column desc rows h = sort-All (λ a b. column_le db column b a) P rows h

  paged-All :
      (limit offset : Option ℕ) (rows : List Transcription)
      → All P rows
      → All P (limited_rows limit (skipped_rows offset rows))
  paged-All none none rows h = h
  paged-All none (some m) rows h = drop-All P m rows h
  paged-All (some n) none rows h = take-All P n rows h
  paged-All (some n) (some m) rows h = take-All P n (drop m rows) (drop-All P m rows h)

length-ordered_rows :
    (db : Database) (column : OrderColumn) (direction : OrderDirection) (rows : List Transcription)
    → length (ordered_rows db column direction rows) ≡ length rows
unfolding ordered_rows
length-ordered_rows db column asc rows = length-sort (column_le db column) rows
length-ordered_rows db column desc rows = length-sort (λ a b. column_le db column b a) rows

length-skipped_le :
    (offset : Option ℕ) (rows : List Transcription)
    → length (skipped_rows offset rows) ≤ length rows
length-skipped_le none rows = omega arith
length-skipped_le (some m) rows = length-drop_le m rows

length-limited_le :
    (limit : Option ℕ) (rows : List Transcription) → length (limited_rows limit rows) ≤ length rows
length-limited_le none rows = omega arith
length-limited_le (some n) rows = (length-take_le n rows).1

-- The items are of the tenants and match the parameters; there are no more of them than are
-- counted as filtered, and no more of these than the total.
pub find_all_lem :
    (db : Database) (tenants : Option (List String)) (params : Params) (s : State)
    → let page = find_all db tenants params s in
      All (λ r. (in_tenants tenants r ≡ true) × (matches_params db params r ≡ true)) page.items
      × (length page.items ≤ page.filtered)
      × (page.filtered ≤ page.total)
unfolding find_all
find_all_lem db tenants params s =
    let visible = keep (in_tenants tenants) s.rows in
    let matching = keep (matches_params db params) visible in
    let in_order = ordered_rows db params.order params.direction matching in
    let P : Transcription → Type 0 =
      λ r. (in_tenants tenants r ≡ true) × (matches_params db params r ≡ true) in
    let kept =
      keep-both (λ r. in_tenants tenants r ≡ true) (matches_params db params) visible
        (All-map (λ r. Unit {0} × (in_tenants tenants r ≡ true)) (λ r. in_tenants tenants r ≡ true)
          visible (λ r (u, e). e)
          (keep-both (λ r. Unit {0}) (in_tenants tenants) s.rows (units s.rows))) in
    (
      paged-All db P params.limit params.offset in_order
          (ordered_rows-All db P params.order params.direction matching kept),
      omega (
        arith,
        length-limited_le params.limit (skipped_rows params.offset in_order),
        length-skipped_le params.offset in_order,
        length-ordered_rows db params.order params.direction matching,
      ),
      keep-length_le (matches_params db params) visible,
    )

-- A limit bounds the number of items, 0 included.
pub length-find_all_le :
    (db : Database) (tenants : Option (List String)) (params : Params) (s : State) (n : ℕ)
    → params.limit ≡ some n
    → length (find_all db tenants params s).items ≤ n
unfolding find_all
length-find_all_le db tenants params s n h =
    let visible = keep (in_tenants tenants) s.rows in
    let matching = keep (matches_params db params) visible in
    let rest =
      skipped_rows params.offset (ordered_rows db params.order params.direction matching) in
    subst (λ (o : Option ℕ). length (limited_rows o rest) ≤ n) (sym h) (length-take_le n rest).0
