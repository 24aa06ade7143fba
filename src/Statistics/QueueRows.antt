-- ===== src/Statistics/QueueRows.antt =====
-- database/queries/queue_stat.py: the statistics of queues, as queries over the tables.
use wazo_call_logd.Common.{
  ℕ, ◌+◌, ◌*◌, Bool, false, not, ◌&&◌, Option, none, some, List, [], ◌∷◌, String, ◌==◌, map, ltb,
  leb, eqb, keep, find, head?, is_empty, length, sum_of, if◌then◌else◌,
}
use wazo_call_logd.Common.Sort.{sort}
use wazo_call_logd.Statistics.{Zone}
use wazo_call_logd.Statistics.Rows.{
  StatQueue, QueueCounts, StatQueuePeriodic, StatCallOnQueue, StatTables, Filters, where_given,
  joined_queue, add_tenant_filter, add_interval_query,
}

-- Python's rounding of a quotient: `round_ratio a b` is `round(a / b, 2)`, in hundredths.
pub record Rounding : Type 0 where
  pub round_ratio : ℕ → ℕ → ℕ

-- a row of `_queue_stat_query`; `counts` holds the sums
pub record QueueStatRow : Type 0 where
  pub queue_id : ℕ
  pub queue_name : String
  pub tenant_uuid : String
  pub counts : QueueCounts

-- what `_get_extra_stats` adds; the three ratios are in hundredths
pub record QueueExtraStats : Type 0 where
  pub qos : Option ℕ
  pub answered_rate : Option ℕ
  pub average_waiting_time : Option ℕ
  pub blocking : ℕ
  pub saturated : ℕ

pub record QueueStats : Type 0 where
  pub basic : QueueStatRow
  pub extra : QueueExtraStats

unfoldable pub sum_counts : List QueueCounts → QueueCounts
sum_counts rows = record {
  answered = sum_of (λ r. r.answered) rows;
  abandoned = sum_of (λ r. r.abandoned) rows;
  total = sum_of (λ r. r.total) rows;
  full = sum_of (λ r. r.full) rows;
  closed = sum_of (λ r. r.closed) rows;
  joinempty = sum_of (λ r. r.joinempty) rows;
  leaveempty = sum_of (λ r. r.leaveempty) rows;
  divert_ca_ratio = sum_of (λ r. r.divert_ca_ratio) rows;
  divert_waittime = sum_of (λ r. r.divert_waittime) rows;
  timeout = sum_of (λ r. r.timeout) rows;
}

-- The least of the times, where `ORDER BY time LIMIT 1` finds one.
unfoldable pub oldest {ℓ} : {D : Type ℓ} → (D → ℕ) → List D → Option D
unfolding sort
oldest key times = head? (sort (λ s t. leb (key s) (key t)) times)

-- A statistic of the calls on queues is about one call and the queue that it is joined with.
abbrev pub queue_and_then : Option StatQueue → (StatQueue → Bool) → Bool
queue_and_then none p = false
queue_and_then (some q) p = p q

module _ (zone : Zone) (tables : StatTables zone.Datetime) where
  open zone use {Datetime, utc}
  open tables use {stat_queues, queue_periodics, calls}

  -- `QueueStatDAO.find_oldest_time`
  unfoldable pub find_oldest_queue_time : ℕ → Option Datetime
  unfolding oldest
  find_oldest_queue_time queue_id = oldest utc (
      map (λ p. p.time)
        (keep
          (λ p.
            queue_and_then (joined_queue stat_queues (some p.stat_queue_id))
              (λ q. eqb q.queue_id queue_id && not q.deleted))
          queue_periodics))

  unfoldable pub get_stat_queues : Option (List String) → List StatQueue
  unfolding add_tenant_filter
  get_stat_queues tenant_uuids =
      keep (λ q. not q.deleted && add_tenant_filter tenant_uuids q.tenant_uuid) stat_queues

  unfoldable pub get_stat_queue : ℕ → Option (List String) → Option StatQueue
  unfolding add_tenant_filter
  get_stat_queue queue_id tenant_uuids =
      find
        (λ q.
          eqb q.queue_id queue_id && not q.deleted && add_tenant_filter tenant_uuids q.tenant_uuid)
        stat_queues

  -- The calls on the queue that the conditions select.
  unfoldable pub is_call_of_queue :
      ℕ → Filters Datetime → Option (List String) → StatCallOnQueue Datetime → Bool
  unfolding add_interval_query
  is_call_of_queue queue_id f tenant_uuids call =
      queue_and_then (joined_queue stat_queues call.stat_queue_id) λ q.
        eqb q.queue_id queue_id && add_interval_query zone f tenant_uuids q.tenant_uuid call.time

  -- `_qos_interval_query`, its count
  unfoldable pub qos_interval_query :
      ℕ → String → Option ℕ → Option ℕ → Filters Datetime → Option (List String) → ℕ
  unfolding is_call_of_queue
  qos_interval_query queue_id status qos_min qos_max f tenant_uuids = length (
      keep
        (λ c.
          is_call_of_queue queue_id f tenant_uuids c
          && (c.status == status
              && (where_given (λ m. leb m c.waittime) qos_min
                  && where_given (λ m. ltb c.waittime m) qos_max)))
        calls)

  -- `get_qos_interval_by_queue`: how many calls were answered, and how many abandoned
  unfoldable pub get_qos_interval_by_queue :
      Option (List String) → ℕ → Option ℕ → Option ℕ → Filters Datetime → ℕ × ℕ
  unfolding qos_interval_query
  get_qos_interval_by_queue tenant_uuids queue_id qos_min qos_max f = (
    qos_interval_query queue_id "answered" qos_min qos_max f tenant_uuids,
    qos_interval_query queue_id "abandoned" qos_min qos_max f tenant_uuids,
  )

  -- `_get_answered_on_qos`, which `_get_extra_stats` calls without tenants
  unfoldable pub get_answered_on_qos : ℕ → Filters Datetime → Option ℕ
  unfolding is_call_of_queue
  get_answered_on_qos queue_id f = elim f.qos_threshold [
    | none ↦ none
    | some threshold ↦ some (
        length (
          keep
            (λ c.
              is_call_of_queue queue_id f none c
              && (c.status == "answered" && leb c.waittime threshold))
            calls))
  ]

  -- `_get_total_wait_time`
  unfoldable pub get_total_wait_time : ℕ → Filters Datetime → ℕ
  unfolding is_call_of_queue
  get_total_wait_time queue_id f =
      sum_of (λ c. c.waittime) (keep (is_call_of_queue queue_id f none) calls)

  -- The rows of one queue that `_queue_stat_query` sums.
  unfoldable pub periodics_of :
      Filters Datetime → Option (List String) → StatQueue → List (StatQueuePeriodic Datetime)
  unfolding add_interval_query
  periodics_of f tenant_uuids q =
      keep
        (λ p.
          eqb p.stat_queue_id q.id && add_interval_query zone f tenant_uuids q.tenant_uuid p.time)
        queue_periodics

  -- One group for each queue that has rows; the groups come in the order of the queues.
  unfoldable pub group_queues :
      Filters Datetime → Option (List String) → List StatQueue → List QueueStatRow
  unfolding periodics_of sum_counts
  group_queues f tenant_uuids [] = []
  group_queues f tenant_uuids (q ∷ qs) =
      let rest = group_queues f tenant_uuids qs in
      let rows = periodics_of f tenant_uuids q in
      if is_empty rows
      then rest
      else record {
        queue_id = q.queue_id;
        queue_name = q.name;
        tenant_uuid = q.tenant_uuid;
        counts = sum_counts (map (λ p. p.counts) rows);
      }
        ∷ rest

  -- `_queue_stat_query`
  unfoldable pub queue_stat_query : Filters Datetime → Option (List String) → List QueueStatRow
  unfolding group_queues
  queue_stat_query f tenant_uuids =
      group_queues f tenant_uuids (keep (λ q. not q.deleted) stat_queues)

  module _ (rounding : Rounding) where
    open rounding use {round_ratio}

    -- `round(100.0 * part / whole, 2)` and `round(sum / number, 2)`, behind the test for zero
    unfoldable pub ratio : ℕ → ℕ → Option ℕ
    ratio a b = if ltb 0 b then some (round_ratio a b) else none

    -- `_get_extra_stats`
    unfoldable pub get_extra_stats : QueueStatRow → Filters Datetime → QueueExtraStats
    unfolding get_answered_on_qos get_total_wait_time ratio
    get_extra_stats row f =
        let c = row.counts in
        record {
          qos = elim (get_answered_on_qos row.queue_id f) [
            | none ↦ none
            | some answered_on_qos ↦ ratio (100 * answered_on_qos) c.answered
          ];
          answered_rate =
              ratio (100 * c.answered)
                (c.answered + c.abandoned + c.full + c.leaveempty + c.joinempty + c.timeout);
          average_waiting_time =
              ratio (get_total_wait_time row.queue_id f)
                (c.answered + c.abandoned + c.leaveempty + c.timeout);
          blocking = c.joinempty + c.leaveempty;
          saturated = c.full + c.divert_waittime + c.divert_ca_ratio;
        }

    unfoldable pub with_extra_stats : Filters Datetime → QueueStatRow → QueueStats
    unfolding get_extra_stats
    with_extra_stats f row = record { basic = row; extra = get_extra_stats row f }

    -- `QueueStatDAO.get_interval`
    unfoldable pub get_queue_intervals : Option (List String) → Filters Datetime → List QueueStats
    unfolding queue_stat_query with_extra_stats
    get_queue_intervals tenant_uuids f = map (with_extra_stats f) (queue_stat_query f tenant_uuids)

    unfoldable pub get_interval_by_queue :
        Option (List String) → ℕ → Filters Datetime → Option QueueStats
    unfolding queue_stat_query with_extra_stats
    get_interval_by_queue tenant_uuids queue_id f =
        elim (find (λ r. eqb r.queue_id queue_id) (queue_stat_query f tenant_uuids)) [
          | none ↦ none
          | some row ↦ some (with_extra_stats f row)
        ]
