-- ===== src/Storage/Cels.antt =====
-- database/queries/cel.py: the CELs that a run of the generator starts from.
pub mod Correlated
use wazo_call_logd.Common.{
  ℕ, Bool, not, ◌&&◌, Option, none, some, List, [], String, ◌==◌, map, leb, eqb, elem, insert_all,
  keep, if◌then◌else◌,
}
use wazo_call_logd.Common.Sort.{sort}
use wazo_call_logd.Common.Sql.{take, selects, is_null}
use wazo_call_logd.Cel.{Cel, datetime, iso}

-- The column eventtime is a datetime; no row holds a text.
abbrev pub row_time : Cel → ℕ
row_time c = elim c.eventtime [ datetime t ↦ t | iso s ↦ 0 ]

-- `order_by(CEL.eventtime.asc())`, `order_by(CEL.eventtime.desc())`
abbrev pub earlier : Cel → Cel → Bool
earlier a b = leb (row_time a) (row_time b)

abbrev pub later : Cel → Cel → Bool
later a b = leb (row_time b) (row_time a)

-- the links of the rows with one of the unique ids
unfoldable pub correlated_linkedids : List Cel → List String → List String
correlated_linkedids table uniqueids =
    insert_all (map (λ c. c.linkedid) (keep (λ c. elem c.uniqueid uniqueids) table)) []

-- `_correlated_cels_by_uniqueid`
unfoldable pub correlated_cels_by_uniqueid : List Cel → List String → List Cel
unfolding correlated_linkedids sort
correlated_cels_by_uniqueid table uniqueids =
    let linkedids = correlated_linkedids table uniqueids in
    sort earlier (keep (λ c. elem c.linkedid linkedids) table)

-- not processed yet, and not a chat message
abbrev pub is_unprocessed : Cel → Bool
is_unprocessed c = selects (is_null c.call_log_id) && not (c.channame == "Message/ast_msg_queue")

-- the limit, or else the time; a limit of 0 is not set
abbrev pub restricted : Option ℕ → Option ℕ → List Cel → List Cel
restricted none none rows = rows
restricted none (some older) rows = keep (λ c. leb older (row_time c)) rows
restricted (some n) older rows =
    let unlimited : List Cel = elim older [
      | none ↦ rows
      | some t ↦ keep (λ c. leb t (row_time c)) rows
    ] in
    if eqb n 0 then unlimited else take n rows

unfoldable pub find_last_unprocessed : List Cel → Option ℕ → Option ℕ → List Cel
unfolding correlated_cels_by_uniqueid sort
find_last_unprocessed table limit older =
    let rows = restricted limit older (sort later (keep is_unprocessed table)) in
    correlated_cels_by_uniqueid table (insert_all (map (λ c. c.uniqueid) rows) [])

unfoldable pub find_from_linked_id : List Cel → String → List Cel
unfolding correlated_cels_by_uniqueid
find_from_linked_id table linked_id =
    correlated_cels_by_uniqueid table
      (insert_all (map (λ c. c.uniqueid) (keep (λ c. c.linkedid == linked_id) table)) [])
