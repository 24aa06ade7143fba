-- ===== src/Statistics/LastHour.antt =====
-- The hours of a day that a request names: which sub-intervals `get` shows, and which rows the
-- queries select.
use wazo_call_logd.Common.{ℕ, suc, ◌≤◌, ◌≡◌, true, none, some, arith}
use wazo_call_logd.Statistics.{Zone, hour}
use wazo_call_logd.Statistics.Rows.{hour_of, in_hours, on_schedule}
use wazo_call_logd.Statistics.Service.{Args, is_skipped, filters_of}

-- In a request by the hour with a first and a last hour and without days of the week, the
-- sub-interval from the last hour to the one behind it is is_skipped, although the queries select a
-- row at its start by its hour.
pub is_skipped-on_schedule :
    (zone : Zone) (args : Args zone.Datetime) (start end : zone.Datetime) (first last : ℕ)
    → args.start_time ≡ some first
    → args.end_time ≡ some last
    → args.week_days ≡ none
    → first ≤ last
    → hour_of (zone.wall start) ≡ last
    → hour_of (zone.wall end) ≡ suc last
    → (is_skipped zone hour args (start, end) ≡ true)
      × (on_schedule zone (filters_of zone args none none) start ≡ true)
unfolding is_skipped on_schedule filters_of
is_skipped-on_schedule zone args start end first last a b c h at_start at_end = (
  rw (a, b, c, at_start, at_end, is_skipped, in_hours) (ground arith),
  rw (a, b, c, at_start, on_schedule, in_hours) (ground arith),
)
