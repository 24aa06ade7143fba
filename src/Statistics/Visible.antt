-- ===== src/Statistics/Visible.antt =====
-- The services of plugins/support_center/services.py: what they show of which tenant, and how often.
use wazo_call_logd.Common.{
  ℕ, suc, any, find, keep, Bool, false, ◌⊎◌, inl, inr, ◌∙◌, Option-cases, range_too_large, ◌≡◌,
  refl, ap, true, not, ◌&&◌, Option, none, some, List, [], ◌∷◌, String, map, eqb, elem, find-some,
  keep-All, length, mem, distinct, IsDistinct, distinct-IsDistinct, mem-distinct, All, All-map,
  All-map_of, All-append, arith, ok, raise, queue_not_found, sym,
}
use wazo_call_logd.Statistics.{Zone, Interval, generate_interval}
use wazo_call_logd.Statistics.Rows.{Filters, StatQueue, StatAgent, StatTables, add_tenant_filter}
use wazo_call_logd.Statistics.QueueRows.{
  get_interval_by_queue, Rounding, get_stat_queues, get_stat_queue, find_oldest_queue_time,
  get_queue_intervals,
}
use wazo_call_logd.Statistics.AgentRows.{get_stat_agents, get_agent_intervals}
use wazo_call_logd.Statistics.Service.{
  with_period, is_skipped, filters_of, Args, StatPage, QueueItem, AgentItem, by_id, timeframes,
  get_tomorrow, or_oldest, or_else,
}
use wazo_call_logd.Statistics.QueueService.{queue_item, get_queue, list_queue_item, list_queues}
use wazo_call_logd.Statistics.AgentService.{list_agent_item, list_agents}
use wazo_call_logd.Statistics.StatsOf.{StatsOf, get_interval_by_queue-StatsOf, last_with-StatsOf}
use wazo_call_logd.Statistics.ById.{dict_values-All, ids-by_id}

-- What a tenant list of a request allows.
abbrev pub ShownTo : List String → String → Type 0
ShownTo tenant_uuids tenant_uuid = elem tenant_uuid tenant_uuids ≡ true

-- Each id once, every row of the tenants and no other.
pub record IsListing (tenant_uuids shown : List String) (is_listed : ℕ → Bool) (items : List ℕ)
    (total : ℕ) : Type 0 where
  pub once : IsDistinct items
  pub same_ids : (k : ℕ) → mem k items ≡ is_listed k
  pub visible : All (ShownTo tenant_uuids) shown
  pub counted : total ≡ length items

map-map_eq {ℓ κ μ} :
    {A : Type ℓ} {B : Type κ} {C : Type μ} (f : B → C) (g : A → B) (h : A → C) (xs : List A)
    → ((x : A) → f (g x) ≡ h x)
    → map f (map g xs) ≡ map h xs
map-map_eq f g h [] e = refl
map-map_eq f g h (x ∷ xs) e = ground (arith, e x, map-map_eq f g h xs e)

length-map_eq {ℓ κ} :
    {A : Type ℓ} {B : Type κ} (f : A → B) (xs : List A) → length (map f xs) ≡ length xs
length-map_eq f [] = refl
length-map_eq f (x ∷ xs) = ap suc (length-map_eq f xs)

mem-map-keep {ℓ} :
    {A : Type ℓ} (id_of : A → ℕ) (p : A → Bool) (xs : List A) (k : ℕ)
    → mem k (map id_of (keep p xs)) ≡ any (λ x. p x && eqb (id_of x) k) xs
mem-map-keep id_of p [] k = refl
mem-map-keep id_of p (x ∷ xs) k = ground (arith, mem-map-keep id_of p xs k)

by_id-IsListing {ℓ} :
    {A : Type ℓ} (id_of : A → ℕ) (tenant_of : A → String) (tenant_uuids : List String)
    (p : A → Bool) (table : List A)
    → ((x : A) → p x ≡ true → ShownTo tenant_uuids (tenant_of x))
    → let shown = by_id id_of (keep p table) in
      IsListing tenant_uuids
        (map tenant_of shown)
        (λ k. any (λ x. p x && eqb (id_of x) k) table)
        (map id_of shown)
        (length shown)
unfolding by_id
by_id-IsListing id_of tenant_of tenant_uuids p table h =
    let rows = keep p table in
    let same : map id_of (by_id id_of rows) ≡ distinct (map id_of rows) = ids-by_id id_of rows in
    record {
      once = rw same (distinct-IsDistinct (map id_of rows));
      same_ids = λ k. rw same (mem-distinct k (map id_of rows) ∙ mem-map-keep id_of p table k);
      visible =
          All-map_of (λ r. ShownTo tenant_uuids (tenant_of r)) (ShownTo tenant_uuids) tenant_of
            (by_id id_of rows) (λ r e. e)
            (dict_values-All id_of (λ r. ShownTo tenant_uuids (tenant_of r))
              (distinct (map id_of rows)) rows (All-map _ _ rows h (keep-All p table)));
      counted = sym (length-map_eq id_of (by_id id_of rows));
    }

find-none-any {ℓ} : {A : Type ℓ} (p : A → Bool) (xs : List A) → find p xs ≡ none → any p xs ≡ false
find-none-any p [] e = refl
find-none-any p (x ∷ xs) e = ground (arith, e, find-none-any p xs)

find-some-any {ℓ} :
    {A : Type ℓ} (p : A → Bool) (xs : List A) (x : A) → find p xs ≡ some x → any p xs ≡ true
find-some-any p [] x e = cc
find-some-any p (y ∷ xs) x e = ground (arith, e, find-some-any p xs x)

timeframes_cases :
    (zone : Zone) (args : Args zone.Datetime) (interval : Option Interval)
    (from : Option zone.Datetime) (until : zone.Datetime)
    → (timeframes zone args interval from until ≡ raise range_too_large)
      ⊎ ((frames : List (zone.Datetime × zone.Datetime)) × (timeframes zone args interval from until
            ≡ ok frames))
unfolding timeframes
timeframes_cases zone args none from until = inr ([], refl)
timeframes_cases zone args (some i) none until = inr ([], refl)
timeframes_cases zone args (some i) (some from) until =
    elim (Option-cases (generate_interval zone (some i) from until)) [
      | inl e ↦ inl (rw (e, timeframes) refl)
      | inr (intervals, e) ↦
          inr (keep (λ t. not (is_skipped zone i args t)) intervals, rw (e, timeframes) refl)
    ]

module _ (zone : Zone) (tables : StatTables zone.Datetime) (tenant_uuids : List String) where
  -- A queue or an agent that the tenants see.
  abbrev pub is_seen : Bool → String → Bool
  is_seen deleted tenant_uuid = not deleted && elem tenant_uuid tenant_uuids

  seen_lem : (deleted : Bool) (t : String) → is_seen deleted t ≡ true → ShownTo tenant_uuids t
  seen_lem deleted t e = ground (arith, e)

  -- The list of queues has one item for each queue of the tenants that is not deleted, by its id,
  -- and shows no other tenant's; its total is the number of its items. The statistics of an item are
  -- the sums of the rows of a queue with its id that the tenants see (`P` is any fact about the
  -- queues of the table), and are missing only where no such queue has rows in the period.
  pub list_queues-IsListing :
      (P : StatQueue → Type 0)
      → All P tables.stat_queues
      → (rounding : Rounding) (now : zone.Datetime) (args : Args zone.Datetime)
      → let p = list_queues zone tables rounding now (some tenant_uuids) args in
        IsListing tenant_uuids
          (map (λ i. i.tenant_uuid) p.items)
          (λ k. any (λ q. is_seen q.deleted q.tenant_uuid && eqb q.queue_id k) tables.stat_queues)
          (map (λ i. i.queue_id) p.items)
          p.total
        × All
            (λ i.
              StatsOf zone tables tenant_uuids P
                (filters_of zone args args.from_ args.until)
                i.queue_id
                i.stats)
            p.items
  unfolding list_queues list_queue_item get_stat_queues add_tenant_filter
  list_queues-IsListing P h rounding now args =
      let f = filters_of zone args args.from_ args.until in
      let shown = by_id (λ q. q.queue_id) (get_stat_queues zone tables (some tenant_uuids)) in
      let rows = get_queue_intervals zone tables rounding (some tenant_uuids) f in
      let item : StatQueue → QueueItem zone.Datetime =
        list_queue_item zone tables rounding now args rows in
      (
        rw
            (
              map-map_eq (λ i. i.tenant_uuid) item (λ q. q.tenant_uuid) shown (λ q. refl),
              map-map_eq (λ i. i.queue_id) item (λ q. q.queue_id) shown (λ q. refl),
              length-map_eq item shown,
            )
            (by_id-IsListing (λ q. q.queue_id) (λ q. q.tenant_uuid) tenant_uuids
              (λ q. is_seen q.deleted q.tenant_uuid) tables.stat_queues
              (λ q. seen_lem q.deleted q.tenant_uuid)),
        each_item item shown
            (λ q. last_with-StatsOf zone tables tenant_uuids P h rounding f q.queue_id),
      )
    where
      each_item :
          (item : StatQueue → QueueItem zone.Datetime) (qs : List StatQueue)
          → ((q : StatQueue)
              → StatsOf zone tables tenant_uuids P
                  (filters_of zone args args.from_ args.until)
                  (item q).queue_id
                  (item q).stats)
          → All
              (λ i.
                StatsOf zone tables tenant_uuids P
                  (filters_of zone args args.from_ args.until)
                  i.queue_id
                  i.stats)
              (map item qs)
      each_item item [] e = tt
      each_item item (q ∷ qs) e = (e q, each_item item qs e)

  -- The list of agents has one item for each agent of the tenants that is not deleted, by its id,
  -- and shows no other tenant's; its total is the number of its items.
  pub list_agents-IsListing :
      (now : zone.Datetime) (args : Args zone.Datetime)
      → let p = list_agents zone tables now (some tenant_uuids) args in
        IsListing tenant_uuids
          (map (λ i. i.tenant_uuid) p.items)
          (λ k. any (λ a. is_seen a.deleted a.tenant_uuid && eqb a.agent_id k) tables.stat_agents)
          (map (λ i. i.agent_id) p.items)
          p.total
  unfolding list_agents list_agent_item get_stat_agents add_tenant_filter
  list_agents-IsListing now args =
      let rows = get_stat_agents zone tables (some tenant_uuids) in
      let shown = by_id (λ a. a.agent_id) rows in
      let item : StatAgent → AgentItem zone.Datetime =
        list_agent_item zone tables now (some tenant_uuids) args (
          get_agent_intervals zone tables (some tenant_uuids)
            (filters_of zone args args.from_ args.until)) in
      rw
        (
          map-map_eq (λ i. i.tenant_uuid) item (λ a. a.tenant_uuid) shown (λ a. refl),
          map-map_eq (λ i. i.agent_id) item (λ a. a.agent_id) shown (λ a. refl),
          length-map_eq item shown,
        )
        (by_id-IsListing (λ a. a.agent_id) (λ a. a.tenant_uuid) tenant_uuids
          (λ a. is_seen a.deleted a.tenant_uuid) tables.stat_agents
          (λ a. seen_lem a.deleted a.tenant_uuid))

  -- What `get` gives for a queue.
  abbrev pub ShowsQueue :
      (StatQueue → Type 0) → Args zone.Datetime → ℕ → StatPage (QueueItem zone.Datetime) → Type 0
  ShowsQueue P args queue_id p =
      All
        (λ i.
          (i.queue_id ≡ queue_id)
          × ShownTo tenant_uuids i.tenant_uuid
          × StatsOf zone tables tenant_uuids P (filters_of zone args i.from_ (some i.until))
              queue_id i.stats)
        p.items
      × (p.total ≡ length p.items)

  -- A queue that the tenants see has the id.
  abbrev pub has_queue : ℕ → Bool
  has_queue queue_id =
      any (λ q. eqb q.queue_id queue_id && not q.deleted && elem q.tenant_uuid tenant_uuids)
        tables.stat_queues

  -- `get` for the id of no queue that the tenants see is refused. For another it may only fail for a
  -- range that is too large; whatever it gives has that id and one of these tenants, and its total
  -- is the number of its items. The statistics of an item are the sums of the rows, in the time of
  -- the item, of a queue with the id that the tenants see (`P` is any fact about the queues of the
  -- table), and are missing only where no such queue has rows there.
  pub get_queue-ShowsQueue :
      (P : StatQueue → Type 0)
      → All P tables.stat_queues
      → (rounding : Rounding) (now : zone.Datetime) (queue_id : ℕ) (args : Args zone.Datetime)
      → let answer = get_queue zone tables rounding now (some tenant_uuids) queue_id args in
        ((has_queue queue_id ≡ false) × (answer ≡ raise queue_not_found))
        ⊎ ((has_queue queue_id ≡ true)
            × ((answer ≡ raise range_too_large)
                ⊎ ((out : StatPage (QueueItem zone.Datetime)) × (answer ≡ ok out)
                    × ShowsQueue P args queue_id out)))
  unfolding get_queue queue_item get_stat_queue add_tenant_filter
  get_queue-ShowsQueue P h rounding now queue_id args =
      elim (Option-cases (get_stat_queue zone tables queue_id (some tenant_uuids))) [
        | inl e ↦ inl (find-none-any is_it tables.stat_queues e, rw e refl)
        | inr (q, e) ↦
            let seen = find-some is_it tables.stat_queues q e in
            let from = or_oldest args.from_ (find_oldest_queue_time zone tables queue_id) in
            let until = or_else args.until (get_tomorrow zone now) in
            inr (
              find-some-any is_it tables.stat_queues q e,
              elim (timeframes_cases zone args args.interval from until) [
                | inl large ↦ inl (rw (e, large) refl)
                | inr (frames, k) ↦ inr (
                  with_period (queue_item zone tables rounding (some tenant_uuids) args q queue_id)
                      from until frames,
                  rw (e, k) refl,
                  (
                    All-append Shown _ _ (hours q (ground (arith, seen)) frames) (
                      (refl, ground (arith, seen), stats (filters_of zone args from (some until))),
                      tt,
                    ),
                    refl,
                  ),
                )
              ],
            )
      ]
    where
      is_it : StatQueue → Bool
      is_it q = eqb q.queue_id queue_id && not q.deleted && elem q.tenant_uuid tenant_uuids

      Shown : QueueItem zone.Datetime → Type 0
      Shown i =
          (i.queue_id ≡ queue_id)
          × ShownTo tenant_uuids i.tenant_uuid
          × StatsOf zone tables tenant_uuids P (filters_of zone args i.from_ (some i.until))
              queue_id i.stats

      stats :
          (f : Filters zone.Datetime)
          → StatsOf zone tables tenant_uuids P f queue_id
              (get_interval_by_queue zone tables rounding (some tenant_uuids) queue_id f)
      stats f = get_interval_by_queue-StatsOf zone tables tenant_uuids P h rounding f queue_id

      hours :
          (q : StatQueue)
          → ShownTo tenant_uuids q.tenant_uuid
          → (frames : List (zone.Datetime × zone.Datetime))
          → All Shown (
              map
                (λ (start, end).
                  queue_item zone tables rounding
                    (some tenant_uuids)
                    args
                    q
                    queue_id
                    (some start)
                    end)
                frames)
      hours q seen [] = tt
      hours q seen ((start, end) ∷ frames) =
          ((refl, seen, stats (filters_of zone args (some start) (some end))), hours q seen frames)
