-- ===== src/Statistics/Hourly/AddsUp.antt =====
-- `QueueStatisticsService.get` by the hour: how its hourly items and its last item agree.
use wazo_call_logd.Common.{
  ℕ, ◌+◌, ◌≤◌, ◌≡◌, refl, ◌∙◌, sym, ap, false, not, Option, none, some, List, [], ◌∷◌, ◌++◌, String,
  map, ltb, eqb, keep, keep_all, count, sum_of, sum_of_cong, sum_of-map, arith, init, last?,
  init-append, last?-append, All, ok,
}
use wazo_call_logd.Statistics.{
  Zone, hour, subintervals, advance, generate_subinterval, generate_interval,
}
use wazo_call_logd.Statistics.Periods.{subintervals-advance-Chain}
use wazo_call_logd.Statistics.Rows.{StatQueue, QueueCounts, StatTables, in_hours, iso_week_day}
use wazo_call_logd.Statistics.QueueRows.{Rounding, sum_counts, get_stat_queue}
use wazo_call_logd.Statistics.Service.{
  Args, QueueItem, StatPage, off_week_days, is_skipped, timeframes, with_period,
}
use wazo_call_logd.Statistics.QueueService.{queue_item, get_queue}
use wazo_call_logd.Statistics.Hourly.{count_of}
use wazo_call_logd.Statistics.Hourly.Items.{all_in, live, count_of-queue_item, sum_of-all_in}

-- A request by the hour for all hours of the day.
abbrev pub hourly : {D : Type 0} → D → D → Option (List ℕ) → Option ℕ → Args D
hourly from until week_days qos_threshold = record {
  from_ = some from;
  until = some until;
  interval = some hour;
  start_time = none;
  end_time = none;
  week_days = week_days;
  qos_threshold = qos_threshold;
}

abbrev pub last_count : {D : Type 0} → (QueueCounts → ℕ) → Option (QueueItem D) → ℕ
last_count col none = 0
last_count col (some item) = count_of col item

-- The items before the last one count together what the last one counts, in every column.
abbrev pub AddsUp : {D : Type 0} → List (QueueItem D) → Type 0
AddsUp items =
    All (λ col. sum_of (count_of col) (init items) ≡ last_count col (last? items))
      ((λ c. c.answered)
        ∷ (λ c. c.abandoned)
        ∷ (λ c. c.total)
        ∷ (λ c. c.full)
        ∷ (λ c. c.closed)
        ∷ (λ c. c.joinempty)
        ∷ (λ c. c.leaveempty)
        ∷ (λ c. c.divert_ca_ratio)
        ∷ (λ c. c.divert_waittime)
        ∷ (λ c. c.timeout)
        ∷ [])

module _ (zone : Zone) (tables : StatTables zone.Datetime) (rounding : Rounding)
    (tenant_uuids : Option (List String)) (queue_id : ℕ) (from until : zone.Datetime)
    (week_days : Option (List ℕ)) (qos_threshold : Option ℕ) where
  open zone use {Datetime, utc, wall, from_utc, next_month}

  timeframes-hourly :
      ((t : ℕ) → off_week_days week_days (iso_week_day t) ≡ false)
      → wall until ≤ next_month (wall from)
      → timeframes zone (hourly from until week_days qos_threshold) (some hour) (some from) until
        ≡ ok (generate_subinterval zone hour from until)
  unfolding timeframes generate_interval is_skipped in_hours
  timeframes-hourly open_days short =
      let short_enough : ltb (next_month (wall from)) (wall until) ≡ false = ground arith in
      rw (short_enough, timeframes)
        (ap ok (
          keep_all _ (generate_subinterval zone hour from until)
            (λ (start, end). ground (arith, open_days (wall start)))))

  module _ (q : StatQueue)
      (one : count (λ r. eqb r.queue_id queue_id) (keep (λ r. not r.deleted) tables.stat_queues)
        ≤ 1)
      (clock : (t : ℕ) → utc (from_utc t) ≡ t) (long : utc from + 3600 ≤ utc until) where
    abbrev item : Option Datetime → Datetime → QueueItem Datetime
    item =
        queue_item zone tables rounding tenant_uuids (hourly from until week_days qos_threshold) q
          queue_id

    abbrev inside :
        (col : QueueCounts → ℕ)
        → ((rows : List QueueCounts) → col (sum_counts rows) ≡ sum_of col rows)
        → ℕ
        → ℕ
        → ℕ
    inside col adds =
        all_in zone tables tenant_uuids queue_id col adds rounding
          (hourly from until week_days qos_threshold)

    fits : (a b : ℕ) → a + 3600 ≤ b → advance zone hour a ≤ b
    unfolding advance
    fits a b h = h

    column_adds_up :
        (col : QueueCounts → ℕ)
        → ((rows : List QueueCounts) → col (sum_counts rows) ≡ sum_of col rows)
        → let items =
            map (λ (start, end). item (some start) end) (generate_subinterval zone hour from until)
            ++ item (some from) until ∷ [] in
          sum_of (count_of col) (init items) ≡ last_count col (last? items)
    unfolding generate_subinterval live
    column_adds_up col adds =
        let parts = subintervals (advance zone hour) (utc from) (utc until) in
        let args = hourly from until week_days qos_threshold in
        let counted : (start end : Datetime)
            → count_of col (item (some start) end) ≡ inside col adds (utc start) (utc end) =
          λ start end.
            count_of-queue_item zone tables tenant_uuids queue_id col adds rounding args q start end
              one in
        let hours = generate_subinterval zone hour from until in
        let items = map (λ (start, end). item (some start) end) hours in
        ap (sum_of (count_of col)) (init-append items (item (some from) until))
        ∙ sum_of-map (count_of col) (λ (start, end). item (some start) end) hours
        ∙ sum_of-map (λ (start, end). count_of col (item (some start) end))
            (λ (a, b). (from_utc a, from_utc b)) parts
        ∙ sum_of_cong _ _ parts
            (λ (a, b). counted (from_utc a) (from_utc b) ∙ rw (clock a, clock b) refl)
        ∙ sum_of-all_in zone tables tenant_uuids queue_id col adds rounding args (utc from)
            (utc until) parts
            (subintervals-advance-Chain zone hour (utc from) (utc until)
              (fits (utc from) (utc until) long))
        ∙ sym
            (ap (last_count col) (last?-append items (item (some from) until)) ∙ counted from until)

    -- For a queue that the tenants see and whose id no other live queue has, a request by the hour
    -- that excludes no day and no hour, for a period from one hour to one calendar month long, is
    -- answered, and in every column of the counts the hourly items add up to the last item, the one
    -- of the whole period. It is assumed that the UTC clock reads back what it was set to.
    pub get_queue-AddsUp :
        (now : Datetime)
        → get_stat_queue zone tables queue_id tenant_uuids ≡ some q
        → ((t : ℕ) → off_week_days week_days (iso_week_day t) ≡ false)
        → wall until ≤ next_month (wall from)
        → (p : StatPage (QueueItem Datetime)) × (get_queue zone tables rounding now tenant_uuids
              queue_id
              (hourly from until week_days qos_threshold)
            ≡ ok p)
          × AddsUp p.items
    unfolding get_queue sum_counts
    get_queue-AddsUp now found open_days short = (
      with_period item (some from) until (generate_subinterval zone hour from until),
      rw (found, timeframes-hourly open_days short) refl,
      (
        column_adds_up (λ c. c.answered) (λ rows. refl),
        (
          column_adds_up (λ c. c.abandoned) (λ rows. refl),
          (
            column_adds_up (λ c. c.total) (λ rows. refl),
            (
              column_adds_up (λ c. c.full) (λ rows. refl),
              (
                column_adds_up (λ c. c.closed) (λ rows. refl),
                (
                  column_adds_up (λ c. c.joinempty) (λ rows. refl),
                  (
                    column_adds_up (λ c. c.leaveempty) (λ rows. refl),
                    (
                      column_adds_up (λ c. c.divert_ca_ratio) (λ rows. refl),
                      (
                        column_adds_up (λ c. c.divert_waittime) (λ rows. refl),
                        (column_adds_up (λ c. c.timeout) (λ rows. refl), tt),
                      ),
                    ),
                  ),
                ),
              ),
            ),
          ),
        ),
      ),
    )
