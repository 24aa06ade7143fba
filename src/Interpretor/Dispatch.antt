-- ===== src/Interpretor/Dispatch.antt =====
-- cel_interpretor.py: the event maps of the two interpretors, `AbstractCELInterpretor`, and
-- `DispatchCELInterpretor`.
pub mod Forwarded
pub mod Destination
use wazo_call_logd.Common.{
  Bool, false, Option, none, some, List, [], ◌∷◌, String, ◌==◌, map, head?, tail, keep, elem,
  Result, ok, ◌>>=◌,
}
use wazo_call_logd.External.{External}
use wazo_call_logd.Cel.{
  Cel, EventType, answer, app_start, bridge_start, bridge_enter, chan_start, chan_end,
  mixmonitor_start, mixmonitor_stop, wazo_meeting_name, wazo_conference, xivo_from_s, xivo_incall,
  xivo_outcall, xivo_user_fwd, wazo_user_missed_call, wazo_user_blocked_call,
  wazo_call_log_destination, wazo_call_log_requested_internal, is_event,
}
use wazo_call_logd.RawCallLog.{RawCallLog}
use wazo_call_logd.Interpretor.Extra.{interpret_voicemail_app_start}
use wazo_call_logd.Interpretor.Caller.{
  caller_chan_start, caller_chan_end, caller_app_start, caller_answer, caller_bridge_start_or_enter,
  caller_mixmonitor_start, mixmonitor_stopped, caller_xivo_from_s, caller_xivo_incall,
  caller_xivo_outcall, caller_xivo_user_fwd,
}
use wazo_call_logd.Interpretor.UserEvents.{
  caller_wazo_conference, caller_wazo_meeting_name, caller_wazo_user_missed_call,
  caller_wazo_user_blocked_call, caller_wazo_call_log_destination,
  caller_wazo_call_log_requested_internal,
}
use wazo_call_logd.Interpretor.Callee.{
  callee_chan_start, callee_chan_end, callee_bridge_enter, callee_mixmonitor_start,
  callee_requested_internal,
}

-- `interpret_cels`: each CEL in turn, from the call that the one before left.
unfoldable pub interpret_each :
    (Cel → RawCallLog → Result RawCallLog) → List Cel → RawCallLog → Result RawCallLog
interpret_each interpret [] call = ok call
interpret_each interpret (cel ∷ cels) call = interpret cel call >>= interpret_each interpret cels

-- The started channels: the first is the caller's, the others are the callees'.
unfoldable pub started : List Cel → List String
started cels = map (λ c. c.uniqueid) (keep (λ c. is_event c.eventtype chan_start) cels)

abbrev is_channel : Option String → String → Bool
is_channel none uniqueid = false
is_channel (some own) uniqueid = uniqueid == own

unfoldable pub split_caller_callee_cels : List Cel → List Cel × List Cel
unfolding started
split_caller_callee_cels cels =
    let uniqueids = started cels in
    (
      keep (λ c. is_channel (head? uniqueids) c.uniqueid) cels,
      keep (λ c. elem c.uniqueid (tail uniqueids)) cels,
    )

module _ (ext : External) where
  -- the `eventtype_map` of the caller, by event type
  unfoldable pub caller_handler : EventType → Cel → RawCallLog → Result RawCallLog
  caller_handler chan_start = caller_chan_start ext
  caller_handler chan_end = caller_chan_end ext
  caller_handler app_start = caller_app_start ext
  caller_handler answer = caller_answer ext
  caller_handler bridge_start = caller_bridge_start_or_enter ext
  caller_handler bridge_enter = caller_bridge_start_or_enter ext
  caller_handler mixmonitor_start = caller_mixmonitor_start ext
  caller_handler mixmonitor_stop = mixmonitor_stopped ext
  caller_handler xivo_from_s = caller_xivo_from_s ext
  caller_handler xivo_incall = caller_xivo_incall ext
  caller_handler xivo_outcall = caller_xivo_outcall ext
  caller_handler xivo_user_fwd = caller_xivo_user_fwd ext
  caller_handler wazo_meeting_name = caller_wazo_meeting_name ext
  caller_handler wazo_conference = caller_wazo_conference ext
  caller_handler wazo_user_missed_call = caller_wazo_user_missed_call ext
  caller_handler wazo_user_blocked_call = caller_wazo_user_blocked_call ext
  caller_handler wazo_call_log_destination = caller_wazo_call_log_destination ext
  caller_handler wazo_call_log_requested_internal = caller_wazo_call_log_requested_internal ext
  caller_handler _ = λ cel call. ok call

  -- the `eventtype_map` of a callee
  unfoldable pub callee_handler : EventType → Cel → RawCallLog → Result RawCallLog
  callee_handler chan_start = callee_chan_start ext
  callee_handler chan_end = callee_chan_end ext
  callee_handler app_start = λ cel call. ok (interpret_voicemail_app_start cel call)
  callee_handler bridge_enter = callee_bridge_enter ext
  callee_handler bridge_start = callee_bridge_enter ext
  callee_handler mixmonitor_start = callee_mixmonitor_start ext
  callee_handler mixmonitor_stop = mixmonitor_stopped ext
  callee_handler wazo_call_log_requested_internal = callee_requested_internal ext
  callee_handler _ = λ cel call. ok call

  unfoldable pub caller_interpret_cel : Cel → RawCallLog → Result RawCallLog
  unfolding caller_handler
  caller_interpret_cel cel = caller_handler cel.eventtype cel

  unfoldable pub callee_interpret_cel : Cel → RawCallLog → Result RawCallLog
  unfolding callee_handler
  callee_interpret_cel cel = callee_handler cel.eventtype cel

  -- `DispatchCELInterpretor.interpret_cels`
  unfoldable pub dispatch_interpret_cels : List Cel → RawCallLog → Result RawCallLog
  unfolding split_caller_callee_cels interpret_each caller_interpret_cel callee_interpret_cel
  dispatch_interpret_cels cels call = do
    let (caller_cels, callee_cels) = split_caller_callee_cels cels
    half ← interpret_each caller_interpret_cel caller_cels call
    interpret_each callee_interpret_cel callee_cels half
