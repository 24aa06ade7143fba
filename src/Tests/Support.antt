-- ===== src/Tests/Support.antt =====
-- The theorems on the statistics and on the retention, at concrete inputs.
use wazo_call_logd.Common.{
  ℕ, any, eqb, ◌&&◌, false, ◌⊎◌, range_too_large, ◌+◌, ◌*◌, ◌/◌, ◌≡◌, refl, true, false, Option,
  none, some, List, [], ◌∷◌, map, arith, ok, raise, Returns, All, queue_not_found,
}
use wazo_call_logd.Statistics.{hour}
use wazo_call_logd.Statistics.Rows.{
  StatQueue, StatTables, StatCallOnQueue, QueueCounts, Filters, hour_of, iso_week_day, on_schedule,
}
use wazo_call_logd.Statistics.QueueRows.{Rounding, get_stat_queue}
use wazo_call_logd.Statistics.AgentRows.{
  agent_queue_rows, answered_under_queue, get_per_queue_intervals_for_agent,
}
use wazo_call_logd.Statistics.Service.{
  Args, StatPage, QueueItem, sort_qos_thresholds, is_skipped, off_week_days, filters_of,
}
use wazo_call_logd.Statistics.QueueService.{get_queue, get_qos, list_queues}
use wazo_call_logd.Statistics.Hourly.AddsUp.{hourly, AddsUp, get_queue-AddsUp}
use wazo_call_logd.Statistics.QosItems.{IsPartitioned, get_qos-IsPartitioned}
use wazo_call_logd.Statistics.PerQueue.{IsMerge, get_per_queue_intervals_for_agent-IsMerge}
use wazo_call_logd.Statistics.StatsOf.{StatsOf}
use wazo_call_logd.Statistics.Visible.{
  is_seen, has_queue, IsListing, list_queues-IsListing, ShowsQueue, get_queue-ShowsQueue,
}
use wazo_call_logd.Statistics.LastHour.{is_skipped-on_schedule}
use wazo_call_logd.Retention.{RetentionState, default_config}
use wazo_call_logd.Samples.{clock}

abbrev half_up : Rounding
half_up = record { round_ratio = λ a b. (200 * a + b) / (2 * b) }

abbrev support : StatQueue
support = record { id = 1; queue_id = 10; name = "support"; tenant_uuid = "t1"; deleted = false }

-- `n` answered calls, and one that was abandoned
abbrev answered_calls : ℕ → QueueCounts
answered_calls n = record {
  answered = n;
  abandoned = 1;
  total = n + 1;
  full = 0;
  closed = 0;
  joinempty = 0;
  leaveempty = 0;
  divert_ca_ratio = 0;
  divert_waittime = 0;
  timeout = 0;
}

abbrev waited : ℕ → ℕ → StatCallOnQueue ℕ
waited time seconds = record {
  time = time;
  status = "answered";
  waittime = seconds;
  talktime = 60;
  stat_queue_id = some 1;
  stat_agent_id = some 5;
}

-- One queue and one agent, with rows of two hours.
abbrev stat_tables : StatTables ℕ
stat_tables = record {
  stat_queues = support ∷ [];
  stat_agents =
      record { id = 5; agent_id = 50; number = "1050"; tenant_uuid = "t1"; deleted = false } ∷ [];
  queue_periodics =
      record { time = 3600; stat_queue_id = 1; counts = answered_calls 2 }
      ∷ record { time = 7200; stat_queue_id = 1; counts = answered_calls 1 }
      ∷ [];
  agent_periodics =
      record {
        time = 3600;
        stat_agent_id = 5;
        stat_queue_id = some 1;
        times = record { login_time = 900; pause_time = 60; wrapup_time = 0 };
      }
      ∷ [];
  calls = waited 3700 5 ∷ waited 3800 25 ∷ waited 7300 5 ∷ [];
}

abbrev every_day : Option (List ℕ)
every_day = some (1 ∷ 2 ∷ 3 ∷ 4 ∷ 5 ∷ 6 ∷ 7 ∷ [])

abbrev two_hours : Args ℕ
two_hours = hourly 3600 10800 every_day (some 20)

get_queue-AddsUp_example :
    (p : StatPage (QueueItem ℕ)) × (get_queue clock stat_tables half_up 9
        (some ("t1" ∷ []))
        10
        two_hours
      ≡ ok p)
    × AddsUp p.items
unfolding get_stat_queue off_week_days iso_week_day
get_queue-AddsUp_example =
    get_queue-AddsUp clock stat_tables half_up (some ("t1" ∷ [])) 10 3600 10800 every_day (some 20)
      support (omega arith) (λ t. refl) (omega arith) 9 refl (λ t. ground arith) (omega arith)

get_qos-IsPartitioned_example :
    Returns
      (λ p. All (IsPartitioned clock stat_tables none 10 two_hours) p.items)
      (get_qos clock stat_tables 9 none 10 two_hours (sort_qos_thresholds (20 ∷ 10 ∷ [])))
get_qos-IsPartitioned_example =
    get_qos-IsPartitioned clock stat_tables none 10 9 two_hours (20 ∷ 10 ∷ [])

abbrev whole_day : Filters ℕ
whole_day = filters_of clock two_hours none none

get_per_queue_intervals_for_agent-IsMerge_example :
    IsMerge
      (agent_queue_rows clock stat_tables 50 whole_day none)
      (answered_under_queue clock stat_tables 50 whole_day none)
      (get_per_queue_intervals_for_agent clock stat_tables none 50 whole_day)
get_per_queue_intervals_for_agent-IsMerge_example =
    get_per_queue_intervals_for_agent-IsMerge clock stat_tables none 50 whole_day

-- A row of the table has the key and the id.
abbrev InTable : StatQueue → Type 0
InTable q = any (λ r. eqb r.id q.id && eqb r.queue_id q.queue_id) stat_tables.stat_queues ≡ true

list_queues-IsListing_example :
    let p = list_queues clock stat_tables half_up 9 (some ("t1" ∷ [])) two_hours in
    IsListing
      ("t1" ∷ [])
      (map (λ i. i.tenant_uuid) p.items)
      (λ k.
        any
          (λ q. is_seen clock stat_tables ("t1" ∷ []) q.deleted q.tenant_uuid && eqb q.queue_id k)
          stat_tables.stat_queues)
      (map (λ i. i.queue_id) p.items)
      p.total
    × All
        (λ i.
          StatsOf clock stat_tables
            ("t1" ∷ [])
            InTable
            (filters_of clock two_hours two_hours.from_ two_hours.until)
            i.queue_id
            i.stats)
        p.items
list_queues-IsListing_example =
    list_queues-IsListing clock stat_tables ("t1" ∷ []) InTable (refl, tt) half_up 9 two_hours

get_queue-ShowsQueue_example :
    let answer = get_queue clock stat_tables half_up 9 (some ("t1" ∷ [])) 10 two_hours in
    ((has_queue clock stat_tables ("t1" ∷ []) 10 ≡ false) × (answer ≡ raise queue_not_found))
    ⊎ ((has_queue clock stat_tables ("t1" ∷ []) 10 ≡ true)
        × ((answer ≡ raise range_too_large)
            ⊎ ((out : StatPage (QueueItem ℕ)) × (answer ≡ ok out)
                × ShowsQueue clock stat_tables ("t1" ∷ []) InTable two_hours 10 out)))
get_queue-ShowsQueue_example =
    get_queue-ShowsQueue clock stat_tables ("t1" ∷ []) InTable (refl, tt) half_up 9 10 two_hours

abbrev morning : Args ℕ
morning = record two_hours { start_time = some 1; end_time = some 2; week_days = none }

is_skipped-on_schedule_example :
    (is_skipped clock hour morning (3600, 7200) ≡ true)
    × (on_schedule clock (filters_of clock morning none none) 3600 ≡ true)
unfolding hour_of
is_skipped-on_schedule_example =
    is_skipped-on_schedule clock morning 3600 7200 1 2 refl refl refl (omega arith) refl refl

abbrev fresh_state : RetentionState
fresh_state = record {
  config = some default_config;
  retentions = [];
  tenants = "t1" ∷ [];
  events = [];
}
