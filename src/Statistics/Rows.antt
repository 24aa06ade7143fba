-- ===== src/Statistics/Rows.antt =====
-- The tables of the statistics, as far as database/queries/queue_stat.py and agent_stat.py read
-- them, and the conditions that both put on a row: the tenants, and the time of the row.
use wazo_call_logd.Common.{
  ℕ, ◌+◌, ◌/◌, ◌%◌, Bool, true, ◌&&◌, Option, none, some, List, String, ltb, leb, eqb, any, elem,
  find,
}
use wazo_call_logd.Statistics.{Zone}

pub record StatQueue : Type 0 where
  pub id : ℕ
  pub queue_id : ℕ
  pub name : String
  pub tenant_uuid : String
  pub deleted : Bool

pub record StatAgent : Type 0 where
  pub id : ℕ
  pub agent_id : ℕ
  pub number : String
  pub tenant_uuid : String
  pub deleted : Bool

-- the columns of StatQueuePeriodic that are summed
pub record QueueCounts : Type 0 where
  pub answered : ℕ
  pub abandoned : ℕ
  pub total : ℕ
  pub full : ℕ
  pub closed : ℕ
  pub joinempty : ℕ
  pub leaveempty : ℕ
  pub divert_ca_ratio : ℕ
  pub divert_waittime : ℕ
  pub timeout : ℕ

pub record StatQueuePeriodic (D : Type 0) : Type 0 where
  pub time : D
  pub stat_queue_id : ℕ
  pub counts : QueueCounts

-- the columns of StatAgentPeriodic that are summed, in seconds
pub record AgentTimes : Type 0 where
  pub login_time : ℕ
  pub pause_time : ℕ
  pub wrapup_time : ℕ

pub record StatAgentPeriodic (D : Type 0) : Type 0 where
  pub time : D
  pub stat_agent_id : ℕ
  pub stat_queue_id : Option ℕ
  pub times : AgentTimes

pub record StatCallOnQueue (D : Type 0) : Type 0 where
  pub time : D
  pub status : String
  pub waittime : ℕ
  pub talktime : ℕ
  pub stat_queue_id : Option ℕ
  pub stat_agent_id : Option ℕ

pub record StatTables (D : Type 0) : Type 0 where
  pub stat_queues : List StatQueue
  pub stat_agents : List StatAgent
  pub queue_periodics : List (StatQueuePeriodic D)
  pub agent_periodics : List (StatAgentPeriodic D)
  pub calls : List (StatCallOnQueue D)

-- The keyword arguments of the queries; the time zone is the `Zone`.
pub record Filters (D : Type 0) : Type 0 where
  pub from_ : Option D
  pub until : Option D
  pub start_time : Option ℕ
  pub end_time : Option ℕ
  pub week_days : Option (List ℕ)
  pub qos_threshold : Option ℕ

-- A condition that is set only with a value.
abbrev pub where_given {ℓ} : {A : Type ℓ} → (A → Bool) → Option A → Bool
where_given p none = true
where_given p (some a) = p a

-- `func.extract('HOUR', ...)` and `datetime.hour` of a reading
unfoldable pub hour_of : ℕ → ℕ
hour_of t = t % 86400 / 3600

-- `func.extract('ISODOW', ...)` and `datetime.isoweekday()` of a reading; day 0 is a Thursday
unfoldable pub iso_week_day : ℕ → ℕ
iso_week_day t = (t / 86400 + 3) % 7 + 1

-- The row that a foreign key names.
abbrev pub joined_queue : List StatQueue → Option ℕ → Option StatQueue
joined_queue queues none = none
joined_queue queues (some i) = find (λ q. eqb q.id i) queues

abbrev pub joined_agent : List StatAgent → Option ℕ → Option StatAgent
joined_agent agents none = none
joined_agent agents (some i) = find (λ a. eqb a.id i) agents

-- `_add_tenant_filter`: no list sets no condition, and the empty list selects nothing
unfoldable pub add_tenant_filter : Option (List String) → String → Bool
add_tenant_filter none tenant_uuid = true
add_tenant_filter (some tenant_uuids) tenant_uuid = elem tenant_uuid tenant_uuids

-- `_datetime_in_interval`, and the condition of the queries on the hour
unfoldable pub in_hours : Option ℕ → Option ℕ → ℕ → Bool
in_hours (some start) (some end) h = leb start h && leb h end
in_hours none end h = true
in_hours (some start) none h = true

module _ (zone : Zone) where
  open zone use {Datetime, utc, wall}

  -- from `from` on, and before `until`
  unfoldable pub in_period : Option Datetime → Option Datetime → Datetime → Bool
  in_period from until time =
      where_given (λ t. leb (utc t) (utc time)) from
      && where_given (λ t. ltb (utc time) (utc t)) until

  -- the conditions of `_add_interval_query` on the hour and the day of the week
  unfoldable pub on_schedule : Filters Datetime → Datetime → Bool
  unfolding in_hours hour_of iso_week_day
  on_schedule f time =
      in_hours f.start_time f.end_time (hour_of (wall time))
      && where_given (any (eqb (iso_week_day (wall time)))) f.week_days

  -- `_add_interval_query`, for a row that is joined with a queue or an agent of the tenant
  unfoldable pub add_interval_query :
      Filters Datetime → Option (List String) → String → Datetime → Bool
  unfolding add_tenant_filter in_period on_schedule
  add_interval_query f tenant_uuids tenant_uuid time =
      add_tenant_filter tenant_uuids tenant_uuid
      && in_period f.from_ f.until time
      && on_schedule f time
