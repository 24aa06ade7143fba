-- ===== src/Statistics/StatsOf.antt =====
-- database/queries/queue_stat.py: whose rows the statistics of a queue sum.
use wazo_call_logd.Common.{
  ℕ, ap, sym, subst, ◌⊎◌, if◌then◌else◌, ◌∙◌, ◌≡◌, refl, Bool, true, false, not, ◌&&◌, Option, none,
  some, List, [], ◌∷◌, String, map, eqb, eqb→eq, elem, find, find-some, keep, is_empty, All,
  All-map, arith, Bool-cases, Option-cases, inl, inr,
}
use wazo_call_logd.Statistics.{Zone}
use wazo_call_logd.Statistics.Rows.{
  StatQueue, StatQueuePeriodic, QueueCounts, StatTables, Filters, add_tenant_filter,
  add_interval_query, in_period, on_schedule,
}
use wazo_call_logd.Statistics.QueueRows.{
  Rounding, QueueStatRow, QueueStats, sum_counts, periodics_of, group_queues, queue_stat_query,
  get_queue_intervals, get_interval_by_queue, with_extra_stats,
}
use wazo_call_logd.Statistics.Service.{last_with}

find-none-All {ℓ} :
    {A : Type ℓ} (p : A → Bool) (xs : List A) → find p xs ≡ none → All (λ x. p x ≡ false) xs
find-none-All p [] e = tt
find-none-All p (x ∷ xs) e = (ground (arith, e), find-none-All p xs (ground (arith, e)))

is_empty-map {ℓ κ} :
    {A : Type ℓ} {B : Type κ} (f : A → B) (xs : List A) → is_empty (map f xs) ≡ is_empty xs
is_empty-map f [] = refl
is_empty-map f (x ∷ xs) = refl

with_or_without :
    (k : ℕ) (b : Bool) (row : QueueStatRow) (rest : List QueueStatRow)
    → All (λ r. eqb r.queue_id k ≡ false) (if b then rest else row ∷ rest)
    → ((eqb row.queue_id k && not b) ≡ false) × All (λ r. eqb r.queue_id k ≡ false) rest
with_or_without k true row rest h = (ground arith, h)
with_or_without k false row rest (hr, h) = (ground (arith, hr), h)

find-All {ℓ κ} :
    {A : Type ℓ} (P : A → Type κ) (p : A → Bool) (xs : List A) (x : A)
    → All P xs
    → find p xs ≡ some x
    → P x
find-All P p [] x h e = cc
find-All P p (y ∷ xs) x (hy, h) e = elim (Bool-cases (p y)) [
  | inl found ↦ subst P (ground (arith, e, found)) hy
  | inr other ↦ find-All P p xs x h (ground (arith, e, other))
]

module _ (zone : Zone) (tables : StatTables zone.Datetime) (tenant_uuids : List String) where
  -- The rows of the queue that are in the period and on the schedule.
  abbrev pub counts_in : Filters zone.Datetime → StatQueue → List QueueCounts
  counts_in f q =
      map (λ p. p.counts)
        (keep
          (λ p.
            eqb p.stat_queue_id q.id
            && (elem q.tenant_uuid tenant_uuids
                && in_period zone f.from_ f.until p.time
                && on_schedule zone f p.time))
          tables.queue_periodics)

  module _ (P : StatQueue → Type 0) where
    -- The row has the sums of a queue that the tenants see.
    abbrev pub IsRow : Filters zone.Datetime → QueueStatRow → Type 0
    IsRow f r =
        (q : StatQueue) × P q
        × (q.deleted ≡ false)
        × (elem q.tenant_uuid tenant_uuids ≡ true)
        × (r.queue_id ≡ q.queue_id)
        × (r.tenant_uuid ≡ q.tenant_uuid)
        × (r.counts ≡ sum_counts (counts_in f q))

    -- The statistics for an id are such a row with the id; without any, no queue with the id that is
    -- not deleted has rows.
    abbrev pub StatsOf : Filters zone.Datetime → ℕ → Option QueueStats → Type 0
    StatsOf f k none =
        All (λ q. (eqb q.queue_id k && not (is_empty (counts_in f q)) && not q.deleted) ≡ false)
          tables.stat_queues
    StatsOf f k (some x) = (x.basic.queue_id ≡ k) × IsRow f x.basic

    cons_live :
        (q : StatQueue) (rest : List StatQueue)
        → P q
        → All (λ r. P r × (r.deleted ≡ false)) rest
        → (b : Bool) → q.deleted ≡ b
        → All (λ r. P r × (r.deleted ≡ false)) (if not b then q ∷ rest else rest)
    cons_live q rest hq h true e = h
    cons_live q rest hq h false e = ((hq, e), h)

    no_rows :
        (f : Filters zone.Datetime) (q : StatQueue)
        → elem q.tenant_uuid tenant_uuids ≡ false
        → (rows : List (StatQueuePeriodic zone.Datetime))
        → keep
            (λ p.
              eqb p.stat_queue_id q.id
              && add_interval_query zone f (some tenant_uuids) q.tenant_uuid p.time)
            rows
          ≡ []
    unfolding add_interval_query add_tenant_filter
    no_rows f q e [] = refl
    no_rows f q e (p ∷ ps) = ground (arith, e, no_rows f q e ps)

    counts_lem :
        (f : Filters zone.Datetime) (q : StatQueue)
        → map (λ p. p.counts) (periodics_of zone tables f (some tenant_uuids) q) ≡ counts_in f q
    unfolding periodics_of add_interval_query add_tenant_filter
    counts_lem f q = refl

    is_empty-counts :
        (f : Filters zone.Datetime) (q : StatQueue)
        → is_empty (counts_in f q) ≡ is_empty (periodics_of zone tables f (some tenant_uuids) q)
    is_empty-counts f q =
        sym (ap is_empty (counts_lem f q))
        ∙ is_empty-map _ (periodics_of zone tables f (some tenant_uuids) q)

    no_periodics :
        (f : Filters zone.Datetime) (q : StatQueue)
        → elem q.tenant_uuid tenant_uuids ≡ false
        → is_empty (periodics_of zone tables f (some tenant_uuids) q) ≡ true
    unfolding periodics_of
    no_periodics f q unseen = ap is_empty (no_rows f q unseen tables.queue_periodics)

    group_queues-IsRow :
        (f : Filters zone.Datetime) (qs : List StatQueue)
        → All (λ q. P q × (q.deleted ≡ false)) qs
        → All (IsRow f) (group_queues zone tables f (some tenant_uuids) qs)
    unfolding group_queues
    group_queues-IsRow f [] h = tt
    group_queues-IsRow f (q ∷ qs) ((hq, live), h) =
        let rest = group_queues-IsRow f qs h in
        elim (Bool-cases (is_empty (periodics_of zone tables f (some tenant_uuids) q))) [
          | inl none_there ↦ rw none_there rest
          | inr some_there ↦ elim (Bool-cases (elem q.tenant_uuid tenant_uuids)) [
            | inl seen ↦
                rw some_there
                  ((q, hq, live, seen, refl, refl, ap sum_counts (counts_lem f q)), rest)
            | inr unseen ↦ absurd (ground (arith, some_there, no_periodics f q unseen))
          ]
        ]

    group_queues-none :
        (f : Filters zone.Datetime) (k : ℕ) (qs : List StatQueue)
        → All (λ r. eqb r.queue_id k ≡ false) (group_queues zone tables f (some tenant_uuids) qs)
        → All (λ q. (eqb q.queue_id k && not (is_empty (counts_in f q))) ≡ false) qs
    unfolding group_queues
    group_queues-none f k [] h = tt
    group_queues-none f k (q ∷ qs) h =
        let none_there = is_empty (periodics_of zone tables f (some tenant_uuids) q) in
        let (first, rest) =
          with_or_without k none_there _ (group_queues zone tables f (some tenant_uuids) qs) h in
        (ground (arith, first, is_empty-counts f q), group_queues-none f k qs rest)

    of_live :
        (p : StatQueue → Bool) (qs : List StatQueue)
        → All (λ q. p q ≡ false) (keep (λ q. not q.deleted) qs)
        → All (λ q. (p q && not q.deleted) ≡ false) qs
    of_live p [] h = tt
    of_live p (q ∷ qs) h =
        let (first, rest) = kept_or_not q.deleted q (keep (λ r. not r.deleted) qs) h in
        (first, of_live p qs rest)
      where
        kept_or_not :
            (b : Bool) (q : StatQueue) (rest : List StatQueue)
            → All (λ r. p r ≡ false) (if not b then q ∷ rest else rest)
            → ((p q && not b) ≡ false) × All (λ r. p r ≡ false) rest
        kept_or_not true q rest h = (ground arith, h)
        kept_or_not false q rest (hq, h) = (ground (arith, hq), h)

    module _ (h : All P tables.stat_queues) (rounding : Rounding) (f : Filters zone.Datetime)
        (k : ℕ) where
      rows_lem : All (IsRow f) (queue_stat_query zone tables f (some tenant_uuids))
      unfolding queue_stat_query
      rows_lem =
          group_queues-IsRow f (keep (λ q. not q.deleted) tables.stat_queues)
            (live_queues tables.stat_queues h)
        where
          live_queues :
              (qs : List StatQueue)
              → All P qs
              → All (λ q. P q × (q.deleted ≡ false)) (keep (λ q. not q.deleted) qs)
          live_queues [] h = tt
          live_queues (q ∷ qs) (hq, h) = cons_live q _ hq (live_queues qs h) q.deleted refl

      missing :
          All (λ r. eqb r.queue_id k ≡ false) (queue_stat_query zone tables f (some tenant_uuids))
          → StatsOf f k none
      unfolding queue_stat_query
      missing e =
          All-map _ _ tables.stat_queues (λ q g. ground (arith, g))
            (of_live (λ q. eqb q.queue_id k && not (is_empty (counts_in f q))) tables.stat_queues
              (group_queues-none f k (keep (λ q. not q.deleted) tables.stat_queues) e))

      pub get_interval_by_queue-StatsOf :
          StatsOf f k (get_interval_by_queue zone tables rounding (some tenant_uuids) k f)
      unfolding get_interval_by_queue with_extra_stats
      get_interval_by_queue-StatsOf =
          let rows = queue_stat_query zone tables f (some tenant_uuids) in
          let stats = get_interval_by_queue zone tables rounding (some tenant_uuids) k f in
          elim (Option-cases (find (λ r. eqb r.queue_id k) rows)) [
            | inl e ↦
                let nothing : stats ≡ none = rw (e, get_interval_by_queue) refl in
                subst (StatsOf f k) (sym nothing)
                  (missing (find-none-All (λ r. eqb r.queue_id k) rows e))
            | inr (r, e) ↦
                let found : stats ≡ some (with_extra_stats zone tables rounding f r) =
                  rw (e, get_interval_by_queue) refl in
                subst (StatsOf f k) (sym found) (
                  eqb→eq r.queue_id k (find-some (λ x. eqb x.queue_id k) rows r e),
                  find-All (IsRow f) (λ x. eqb x.queue_id k) rows r rows_lem e,
                )
          ]

      last_lem :
          (rows : List QueueStatRow)
          → All (IsRow f) rows
          → let found =
              last_with
                (λ x. x.basic.queue_id)
                (map (with_extra_stats zone tables rounding f) rows)
                k in
            ((found ≡ none) × All (λ r. eqb r.queue_id k ≡ false) rows)
            ⊎ ((x : QueueStats) × (found ≡ some x) × (x.basic.queue_id ≡ k) × IsRow f x.basic)
      unfolding last_with with_extra_stats
      last_lem [] g = inl (refl, tt)
      last_lem (r ∷ rows) (gr, g) = elim (last_lem rows g) [
        | inr (x, e, same, own) ↦ inr (x, rw e refl, same, own)
        | inl (e, others) ↦ elim (Bool-cases (eqb r.queue_id k)) [
          | inl same ↦ inr (
            with_extra_stats zone tables rounding f r,
            rw (e, same) refl,
            eqb→eq r.queue_id k same,
            gr,
          )
          | inr other ↦ inl (rw (e, other) refl, (other, others))
        ]
      ]

      pub last_with-StatsOf : StatsOf f k (
          last_with
            (λ x. x.basic.queue_id)
            (get_queue_intervals zone tables rounding (some tenant_uuids) f)
            k)
      unfolding get_queue_intervals
      last_with-StatsOf =
          elim (last_lem (queue_stat_query zone tables f (some tenant_uuids)) rows_lem) [
            | inl (e, others) ↦ subst (StatsOf f k) (sym e) (missing others)
            | inr (x, e, same, own) ↦ subst (StatsOf f k) (sym e) (same, own)
          ]
