-- ===== src/Statistics/Service.antt =====
-- plugins/support_center/services.py: `AgentStatisticsService` and `QueueStatisticsService`, and the
-- sorting of thresholds in schemas.py. The time zone of a request is the `Zone`, and the
-- conversions of a datetime to it change neither of its readings.
use wazo_call_logd.Common.{
  ℕ, ◌+◌, ◌*◌, ◌/◌, Bool, false, not, ◌&&◌, ◌||◌, Option, none, some, List, [], ◌∷◌, ◌++◌, String,
  map, leb, eqb, any, is_empty, keep, length, Result, ok, raise, range_too_large, distinct,
  if◌then◌else◌,
}
use wazo_call_logd.Common.Sort.{sort}
use wazo_call_logd.Statistics.{Interval, hour, day, month, Zone, generate_interval}
use wazo_call_logd.Statistics.Rows.{Filters, hour_of, iso_week_day, in_hours}
use wazo_call_logd.Statistics.QueueRows.{QueueStats}
use wazo_call_logd.Statistics.AgentQueues.{AgentQueueStats}
use wazo_call_logd.Statistics.AgentRows.{AgentStats}

-- The arguments of a request that `get` and `list` take.
pub record Args (D : Type 0) : Type 0 where
  pub from_ : Option D
  pub until : Option D
  pub interval : Option Interval
  pub start_time : Option ℕ
  pub end_time : Option ℕ
  pub week_days : Option (List ℕ)
  pub qos_threshold : Option ℕ

-- An item is the statistics, if there are any, with its timeframe written over them.
pub record QueueItem (D : Type 0) : Type 0 where
  pub from_ : Option D
  pub until : D
  pub queue_id : ℕ
  pub queue_name : String
  pub tenant_uuid : String
  pub stats : Option QueueStats

pub record AgentItem (D : Type 0) : Type 0 where
  pub from_ : Option D
  pub until : D
  pub agent_id : ℕ
  pub agent_number : String
  pub tenant_uuid : String
  pub stats : Option AgentStats
  pub queues : List AgentQueueStats

pub record QosClass : Type 0 where
  pub min : ℕ
  pub max : Option ℕ
  pub answered : ℕ
  pub abandoned : ℕ

pub record QosItem (D : Type 0) : Type 0 where
  pub from_ : Option D
  pub until : D
  pub queue_id : ℕ
  pub queue_name : String
  pub tenant_uuid : String
  pub quality_of_service : List QosClass

pub record StatPage {ℓ} (I : Type ℓ) : Type ℓ where
  pub items : List I
  pub total : ℕ

abbrev pub stat_page {ℓ} : {I : Type ℓ} → List I → StatPage I
stat_page items = record { items = items; total = length items }

-- `QueueStatisticsQoSRequestSchema.sort_qos_thresholds`
unfoldable pub sort_qos_thresholds : List ℕ → List ℕ
unfolding sort
sort_qos_thresholds = sort leb

-- `week_days and not self._datetime_in_week_days(start, week_days)`
unfoldable pub off_week_days : Option (List ℕ) → ℕ → Bool
off_week_days none start = false
off_week_days (some days) start = not (is_empty days) && not (any (eqb start) days)

-- A dict by id that a list is loaded into: the last entry of an id, at the place of the first.
module _ {ℓ} {A : Type ℓ} where
  abbrev pub or_else_some : Option A → Option A → Option A
  or_else_some (some a) o = some a
  or_else_some none o = o

  abbrev pub cons_some : Option A → List A → List A
  cons_some none xs = xs
  cons_some (some x) xs = x ∷ xs

module _ {ℓ} {A : Type ℓ} (id_of : A → ℕ) where
  unfoldable pub last_with : List A → ℕ → Option A
  last_with [] k = none
  last_with (x ∷ xs) k = or_else_some (last_with xs k) (if eqb (id_of x) k then some x else none)

  unfoldable pub dict_values : List ℕ → List A → List A
  unfolding last_with
  dict_values [] xs = []
  dict_values (k ∷ ks) xs = cons_some (last_with xs k) (dict_values ks xs)

  -- `{row[id]: row for row in rows}.values()`
  unfoldable pub by_id : List A → List A
  unfolding dict_values distinct
  by_id xs = dict_values (distinct (map id_of xs)) xs

abbrev pub or_else {ℓ} : {A : Type ℓ} → Option A → A → A
or_else none d = d
or_else (some a) d = a

-- `from_`, or the oldest time that is known, if any
abbrev pub or_oldest {ℓ} : {A : Type ℓ} → Option A → Option A → Option A
or_oldest none oldest_time = oldest_time
or_oldest (some t) oldest_time = some t

module _ (zone : Zone) where
  open zone use {Datetime, wall, from_wall}

  -- `_get_tomorrow`: the next midnight of the zone
  unfoldable pub get_tomorrow : Datetime → Datetime
  get_tomorrow now = from_wall ((wall now / 86400 + 1) * 86400)

  -- The filters of one timeframe.
  unfoldable pub filters_of : Args Datetime → Option Datetime → Option Datetime → Filters Datetime
  filters_of args from until = record {
    from_ = from;
    until = until;
    start_time = args.start_time;
    end_time = args.end_time;
    week_days = args.week_days;
    qos_threshold = args.qos_threshold;
  }

  -- The `continue`s of the loops over the sub-intervals.
  unfoldable pub is_skipped : Interval → Args Datetime → Datetime × Datetime → Bool
  unfolding off_week_days in_hours hour_of iso_week_day
  is_skipped hour args (start, end) =
      not (in_hours args.start_time args.end_time (hour_of (wall start)))
      || not (in_hours args.start_time args.end_time (hour_of (wall end)))
      || off_week_days args.week_days (iso_week_day (wall start))
  is_skipped day args (start, end) = off_week_days args.week_days (iso_week_day (wall start))
  is_skipped month args (start, end) = false

  -- `for start, end in self._generate_interval(...)`, behind its `continue`s
  unfoldable pub timeframes :
      Args Datetime
      → Option Interval
      → Option Datetime
      → Datetime
      → Result (List (Datetime × Datetime))
  unfolding generate_interval is_skipped
  timeframes args none from until = ok []
  timeframes args (some i) none until = ok []
  timeframes args (some i) (some from) until = elim (generate_interval zone (some i) from until) [
    | none ↦ raise range_too_large
    | some intervals ↦ ok (keep (λ t. not (is_skipped i args t)) intervals)
  ]

-- An item for each timeframe, and one for the whole period.
abbrev pub with_period {ℓ κ} :
    {D : Type ℓ} {I : Type κ} → (Option D → D → I) → Option D → D → List (D × D) → StatPage I
with_period item from until frames =
    stat_page (map (λ (start, end). item (some start) end) frames ++ item from until ∷ [])
