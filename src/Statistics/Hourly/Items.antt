-- ===== src/Statistics/Hourly/Items.antt =====
-- `QueueStatisticsService.get` by the hour: the items of the hours and the item of the period.
use wazo_call_logd.Common.{
  ℕ, ◌≤◌, ◌≡◌, refl, ◌∙◌, Bool, true, false, not, ◌&&◌, Option, none, some, List, String, ltb, leb,
  eqb, keep, find, count, sum_of, sum_of-keep, sum_of_comm, sum_of_cong, sum_of-zero, arith,
  if◌then◌else◌,
}
use wazo_call_logd.Statistics.{Zone}
use wazo_call_logd.Statistics.Periods.{Chain}
use wazo_call_logd.Statistics.Rows.{
  StatQueue, QueueCounts, StatQueuePeriodic, StatTables, Filters, add_tenant_filter, in_period,
  on_schedule, add_interval_query,
}
use wazo_call_logd.Statistics.QueueRows.{
  Rounding, QueueStatRow, sum_counts, periodics_of, group_queues, queue_stat_query,
  with_extra_stats, get_interval_by_queue,
}
use wazo_call_logd.Statistics.Service.{Args, filters_of}
use wazo_call_logd.Statistics.QueueService.{queue_item}
use wazo_call_logd.Statistics.Hourly.{
  sum_of-Chain, row_count, count_of, is_the_queue, rows_count, row_count-group_queues,
}

module _ (zone : Zone) (tables : StatTables zone.Datetime) (tenant_uuids : Option (List String))
    (queue_id : ℕ) (col : QueueCounts → ℕ)
    (adds : (rows : List QueueCounts) → col (sum_counts rows) ≡ sum_of col rows)
    (rounding : Rounding) (args : Args zone.Datetime) where
  open zone use {Datetime, utc}
  open tables use {queue_periodics}

  unfoldable pub live : List StatQueue
  live = keep (λ q. not q.deleted) tables.stat_queues

  -- What a row counts for the queue `q`, whatever the period is.
  weight : StatQueue → StatQueuePeriodic Datetime → ℕ
  weight q p =
      if eqb p.stat_queue_id q.id
        && (add_tenant_filter tenant_uuids q.tenant_uuid
            && on_schedule zone (filters_of zone args none none) p.time)
      then col p.counts
      else 0

  -- ... and in the period from `a` to `b`, which are readings in UTC.
  count_in : ℕ → ℕ → StatQueue → ℕ
  count_in a b q =
      sum_of (λ p. if leb a (utc p.time) && ltb (utc p.time) b then weight q p else 0)
        queue_periodics

  pub all_in : ℕ → ℕ → ℕ
  unfolding live
  all_in a b = sum_of (λ q. if eqb q.queue_id queue_id then count_in a b q else 0) live

  rows_count-eq-count_in :
      (from until : Datetime) (q : StatQueue)
      → rows_count zone tables tenant_uuids queue_id col adds
          (filters_of zone args (some from) (some until))
          q
        ≡ count_in (utc from) (utc until) q
  unfolding periodics_of add_interval_query in_period on_schedule filters_of count_in weight
  rows_count-eq-count_in from until q =
      sum_of-keep (λ p. col p.counts) _ queue_periodics
      ∙ sum_of_cong _ _ queue_periodics (λ p. ground arith)

  pub count_of-queue_item :
      (q : StatQueue) (from until : Datetime)
      → count (is_the_queue zone tables tenant_uuids queue_id col adds) live ≤ 1
      → count_of col
          (queue_item zone tables rounding tenant_uuids args q queue_id (some from) until)
        ≡ all_in (utc from) (utc until)
  unfolding queue_item get_interval_by_queue with_extra_stats queue_stat_query all_in live
  count_of-queue_item q from until one =
      let f = filters_of zone args (some from) (some until) in
      found f (find (λ r. eqb r.queue_id queue_id) (group_queues zone tables f tenant_uuids live))
      ∙ row_count-group_queues zone tables tenant_uuids queue_id col adds f live one
      ∙ sum_of_cong _ _ live (λ q. ground (arith, rows_count-eq-count_in from until q))
    where
      found :
          (f : Filters Datetime) (o : Option QueueStatRow)
          → count_of col (record {
            from_ = some from;
            until = until;
            queue_id = queue_id;
            queue_name = q.name;
            tenant_uuid = q.tenant_uuid;
            stats = elim o [
              | none ↦ none
              | some row ↦ some (with_extra_stats zone tables rounding f row)
            ];
          })
            ≡ row_count col o
      found f none = refl
      found f (some row) = refl

  -- The parts of a chain count what the whole period counts.
  pub sum_of-all_in :
      (a b : ℕ) (parts : List (ℕ × ℕ))
      → Chain a parts b
      → sum_of (λ p. all_in p.0 p.1) parts ≡ all_in a b
  unfolding all_in count_in
  sum_of-all_in a b parts chain =
      sum_of_comm (λ p q. if eqb q.queue_id queue_id then count_in p.0 p.1 q else 0) parts live
      ∙ sum_of_cong _ _ live (λ q. by_queue q (eqb q.queue_id queue_id))
    where
      by_queue :
          (q : StatQueue) (mine : Bool)
          → sum_of (λ p. if mine then count_in p.0 p.1 q else 0) parts
            ≡ (if mine then count_in a b q else 0)
      by_queue q false = sum_of-zero parts
      by_queue q true =
          sum_of_comm
            (λ s p. if leb s.0 (utc p.time) && ltb (utc p.time) s.1 then weight q p else 0) parts
            queue_periodics
          ∙ sum_of_cong _ _ queue_periodics
              (λ p. sum_of-Chain (utc p.time) (weight q p) a b parts chain)
