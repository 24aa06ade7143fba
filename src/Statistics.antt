-- ===== src/Statistics.antt =====
-- plugins/support_center/services.py: `_StatisticsService`. A datetime is read on one clock: its
-- UTC time, or the wall time of a zone; `Zone` is what zoneinfo and relativedelta tell about it.
pub mod Periods
pub mod Qos
pub mod Rows
pub mod QueueRows
pub mod AgentRows
pub mod AgentQueues
pub mod Service
pub mod QueueService
pub mod AgentService
pub mod QosItems
pub mod Hourly
pub mod ById
pub mod Visible
pub mod StatsOf
pub mod LastHour
pub mod PerQueue
use wazo_call_logd.Common.{
  ℕ, zero, suc, ◌+◌, ◌-◌, ◌<◌, Option, none, some, List, [], ◌∷◌, map, ltb, if◌then◌else◌,
}

pub data Interval : Type 0 where
  hour day month : Interval

pub record Zone : Type 1 where
  -- an aware datetime
  pub Datetime : Type 0
  -- its reading in UTC and in the zone, in seconds since Thursday 1970-01-01 00:00 on that clock
  pub utc : Datetime → ℕ
  pub wall : Datetime → ℕ
  -- the datetime, in the zone, of a reading
  pub from_utc : ℕ → Datetime
  pub from_wall : ℕ → Datetime
  -- the reading one calendar month later
  pub next_month : ℕ → ℕ
  pub next_month_grows : (t : ℕ) → t < next_month t

-- The loop of `_generate_subinterval`, on readings of one clock.
unfoldable pub subinterval_loop : (ℕ → ℕ) → ℕ → ℕ → ℕ → ℕ → List (ℕ × ℕ)
subinterval_loop step zero until current next = []
subinterval_loop step (suc fuel) until current next =
    let after = if ltb until (step next) then until else step next in
    let rest = subinterval_loop step fuel until next after in
    if ltb current until then (current, next) ∷ rest else []

-- Each round moves `current` up, so the length of the period is fuel enough.
unfoldable pub subintervals : (ℕ → ℕ) → ℕ → ℕ → List (ℕ × ℕ)
unfolding subinterval_loop
subintervals step from until = subinterval_loop step (suc (until - from)) until from (step from)

-- `_generate_qos_interval`, behind its first threshold
unfoldable pub qos_from : ℕ → List ℕ → List (ℕ × Option ℕ)
qos_from prev [] = (prev, none) ∷ []
qos_from prev (t ∷ ts) = (prev, some t) ∷ qos_from t ts

unfoldable pub generate_qos_interval : List ℕ → List (ℕ × Option ℕ)
unfolding qos_from
generate_qos_interval [] = (0, none) ∷ []
generate_qos_interval (t ∷ ts) = (0, some t) ∷ qos_from t ts

module _ (zone : Zone) where
  open zone use {Datetime, utc, wall, from_utc, from_wall, next_month}

  -- `time_delta`, on a reading
  unfoldable pub advance : Interval → ℕ → ℕ
  advance hour t = t + 3600
  advance day t = t + 86400
  advance month t = next_month t

  -- `_generate_subinterval`: hours are counted in UTC, days and months on the wall clock
  unfoldable pub generate_subinterval : Interval → Datetime → Datetime → List (Datetime × Datetime)
  unfolding subintervals advance
  generate_subinterval hour from until =
      map (λ (a, b). (from_utc a, from_utc b)) (subintervals (advance hour) (utc from) (utc until))
  generate_subinterval day from until =
      map (λ (a, b). (from_wall a, from_wall b))
        (subintervals (advance day) (wall from) (wall until))
  generate_subinterval month from until =
      map (λ (a, b). (from_wall a, from_wall b))
        (subintervals (advance month) (wall from) (wall until))

  -- `_generate_interval`; `none` is RangeTooLargeException
  unfoldable pub generate_interval :
      Option Interval → Datetime → Datetime → Option (List (Datetime × Datetime))
  unfolding generate_subinterval
  generate_interval none from until = some ((from, until) ∷ [])
  generate_interval (some hour) from until =
      if ltb (next_month (wall from)) (wall until)
      then none
      else some (generate_subinterval hour from until)
  generate_interval (some day) from until = some (generate_subinterval day from until)
  generate_interval (some month) from until = some (generate_subinterval month from until)
