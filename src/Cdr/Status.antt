-- ===== src/Cdr/Status.antt =====
-- The status of a call, told twice: by CDRSchema (plugins/cdr/schemas.py) for one call, and in SQL
-- (database/queries/call_log.py) for the filters and the order of a list.
use wazo_call_logd.Common.{
  ℕ, ◌-◌, ◌≡◌, Bool, true, false, not, ◌&&◌, Option, none, some, is_some, arith, if◌then◌else◌,
}
use wazo_call_logd.Common.Sql.{
  Truth, selects, sql_and, sql_or, is_true, is_false, is_null, is_not_null,
}
use wazo_call_logd.Cdr.Rows.{Cdr}

-- datatypes.py: `CallStatus`
pub data CallStatus : Type 0 where
  answered blocked voicemail unknown : CallStatus

abbrev pub is_truthy : Option Bool → Bool
is_truthy none = false
is_truthy (some b) = b

-- `_compute_fields`: each later test overrides the earlier ones.
unfoldable pub call_status : Cdr → CallStatus
call_status c =
    let is_answered = is_some c.date_answer in
    let by_answer = if is_answered then answered else unknown in
    let by_voicemail =
      if is_truthy c.reached_voicemail && not is_answered then voicemail else by_answer in
    if is_truthy c.blocked then blocked else by_voicemail

-- The duration in seconds, which `fix_negative_duration` keeps from being negative.
unfoldable pub duration : Cdr → Option ℕ
duration c = elim c.date_answer [
  | none ↦ none
  | some from ↦ elim c.date_end [ none ↦ none | some to ↦ some (to - from) ]
]

unfoldable pub not_blocked : Cdr → Truth
not_blocked c = sql_or (is_false c.blocked) (is_null c.blocked)

unfoldable pub status_blocked : Cdr → Truth
status_blocked c = is_true c.blocked

unfoldable pub status_answered : Cdr → Truth
unfolding not_blocked
status_answered c = sql_and (is_not_null c.date_answer) (not_blocked c)

unfoldable pub status_voicemail : Cdr → Truth
unfolding not_blocked
status_voicemail c =
    sql_and (is_true c.reached_voicemail) (sql_and (is_null c.date_answer) (not_blocked c))

unfoldable pub status_unknown : Cdr → Truth
unfolding not_blocked
status_unknown c =
    sql_and (is_null c.date_answer) (
      sql_and (sql_or (is_false c.reached_voicemail) (is_null c.reached_voicemail)) (not_blocked c))

-- What a list filters by: a status, or the default, which hides the blocked calls.
pub data StatusFilter : Type 0 where
  by_status : CallStatus → StatusFilter
  default_call_status : StatusFilter

unfoldable pub filter_status : StatusFilter → Cdr → Truth
unfolding status_answered status_blocked status_voicemail status_unknown not_blocked
filter_status (by_status answered) = status_answered
filter_status (by_status blocked) = status_blocked
filter_status (by_status voicemail) = status_voicemail
filter_status (by_status unknown) = status_unknown
filter_status default_call_status = not_blocked

-- the CASE expression of the order by `marshmallow_call_status`
unfoldable pub status_rank : Cdr → ℕ
unfolding status_blocked status_voicemail status_answered
status_rank c =
    if selects (status_blocked c)
    then 2
    else if selects (status_voicemail c)
    then 3
    else if selects (status_answered c)
    then 4
    else 1

abbrev pub same_status : CallStatus → CallStatus → Bool
same_status answered answered = true
same_status blocked blocked = true
same_status voicemail voicemail = true
same_status unknown unknown = true
same_status _ _ = false

abbrev pub rank_of : CallStatus → ℕ
rank_of unknown = 1
rank_of blocked = 2
rank_of voicemail = 3
rank_of answered = 4

-- The SQL filter of a status selects exactly the calls that CDRSchema shows with that status, the
-- default filter those that it does not show as blocked, and the rank by which SQL orders depends
-- on the shown status only, with a rank of its own for each.
pub filter_status-eq-call_status :
    (s : CallStatus) (c : Cdr)
    → (selects (filter_status (by_status s) c) ≡ same_status (call_status c) s)
      × (selects (filter_status default_call_status c) ≡ not (same_status (call_status c) blocked))
      × (status_rank c ≡ rank_of (call_status c))
unfolding filter_status call_status status_rank
filter_status-eq-call_status s c = ground arith
