-- ===== src/Statistics/Hourly.antt =====
-- The queries of `QueueStatisticsService.get` over the hours of a period and over the period.
pub mod Items
pub mod AddsUp
use wazo_call_logd.Common.{
  ℕ, ◌≤◌, ◌≡◌, refl, Bool, true, ◌&&◌, Option, none, some, List, [], ◌∷◌, String, map, ltb, leb,
  eqb, find, is_empty, count, sum_of, sum_of-map, arith, Bool-cases, inl, inr, if◌then◌else◌,
}
use wazo_call_logd.Statistics.{Zone}
use wazo_call_logd.Statistics.Periods.{Chain}
use wazo_call_logd.Statistics.Rows.{StatQueue, QueueCounts, StatQueuePeriodic, StatTables, Filters}
use wazo_call_logd.Statistics.QueueRows.{QueueStatRow, sum_counts, periodics_of, group_queues}
use wazo_call_logd.Statistics.Service.{QueueItem}

Chain-le : (a b : ℕ) (parts : List (ℕ × ℕ)) → Chain a parts b → a ≤ b
Chain-le a b [] h = omega arith
Chain-le a b ((s, e) ∷ parts) (hs, lt, h) = omega (arith, Chain-le e b parts h)

-- A moment in the period lies in exactly one part of its chain, and any other in none.
pub sum_of-Chain :
    (t w a b : ℕ) (parts : List (ℕ × ℕ))
    → Chain a parts b
    → sum_of (λ p. if leb p.0 t && ltb t p.1 then w else 0) parts
      ≡ (if leb a t && ltb t b then w else 0)
sum_of-Chain t w a b [] h = ground arith
sum_of-Chain t w a b ((s, e) ∷ parts) (hs, lt, h) =
    ground (arith, sum_of-Chain t w e b parts h, Chain-le e b parts h)

-- What a column counts in the row of a query, if there is one.
abbrev pub row_count : (QueueCounts → ℕ) → Option QueueStatRow → ℕ
row_count col none = 0
row_count col (some row) = col row.counts

-- What a column counts in an item; an item without statistics counts zero.
abbrev pub count_of : {D : Type 0} → (QueueCounts → ℕ) → QueueItem D → ℕ
count_of col item = elim item.stats [ none ↦ 0 | some s ↦ col s.basic.counts ]

module _ (zone : Zone) (tables : StatTables zone.Datetime) (tenant_uuids : Option (List String))
    (queue_id : ℕ) (col : QueueCounts → ℕ)
    (adds : (rows : List QueueCounts) → col (sum_counts rows) ≡ sum_of col rows) where
  open zone use {Datetime, utc}

  abbrev pub is_the_queue : StatQueue → Bool
  is_the_queue q = eqb q.queue_id queue_id

  abbrev pub rows_count : Filters Datetime → StatQueue → ℕ
  rows_count f q = sum_of (λ p. col p.counts) (periodics_of zone tables f tenant_uuids q)

  none_left :
      (f : Filters Datetime) (qs : List StatQueue)
      → count is_the_queue qs ≡ 0
      → (row_count col
            (find (λ r. eqb r.queue_id queue_id) (group_queues zone tables f tenant_uuids qs))
          ≡ 0)
        × (sum_of (λ q. if is_the_queue q then rows_count f q else 0) qs ≡ 0)
  unfolding group_queues
  none_left f [] h = (refl, refl)
  none_left f (q ∷ qs) h = elim (Bool-cases (is_the_queue q)) [
    | inl e ↦ absurd (ground (arith, e))
    | inr e ↦ ground (arith, e, none_left f qs)
  ]

  sum_of-is_empty :
      (rows : List (StatQueuePeriodic Datetime))
      → is_empty rows ≡ true
      → sum_of (λ p. col p.counts) rows ≡ 0
  sum_of-is_empty [] h = refl
  sum_of-is_empty (p ∷ rows) h = cc

  -- With one queue of the id, the first group of the id sums all rows of the id.
  pub row_count-group_queues :
      (f : Filters Datetime) (qs : List StatQueue)
      → count is_the_queue qs ≤ 1
      → row_count col
          (find (λ r. eqb r.queue_id queue_id) (group_queues zone tables f tenant_uuids qs))
        ≡ sum_of (λ q. if is_the_queue q then rows_count f q else 0) qs
  unfolding group_queues
  row_count-group_queues f [] h = refl
  row_count-group_queues f (q ∷ qs) h =
      let rows = periodics_of zone tables f tenant_uuids q in
      elim (Bool-cases (is_the_queue q)) [
        | inl e ↦ ground (
          arith,
          e,
          none_left f qs,
          sum_of-is_empty rows,
          adds (map (λ p. p.counts) rows),
          sum_of-map col (λ p. p.counts) rows,
        )
        | inr e ↦ ground (arith, e, row_count-group_queues f qs)
      ]
