-- ===== src/Interpretor/Dispatch/Forwarded.antt =====
-- A forwarded call through all the events of its caller.
use wazo_call_logd.Common.{List, [], ◌∷◌, Result, ok, raise, Returns, ◌>>=◌}
use wazo_call_logd.External.{External}
use wazo_call_logd.Cel.{
  Cel, EventType, answer, app_start, bridge_start, bridge_enter, chan_start, chan_end,
  mixmonitor_start, mixmonitor_stop, wazo_meeting_name, wazo_conference, xivo_from_s, xivo_incall,
  xivo_outcall, xivo_user_fwd, wazo_user_missed_call, wazo_user_blocked_call,
  wazo_call_log_destination, wazo_call_log_requested_internal,
}
use wazo_call_logd.RawCallLog.{RawCallLog}
use wazo_call_logd.Interpretor.Caller.Direction
use wazo_call_logd.Interpretor.Caller.Direction.{StaysIn, SameRoute, StaysIn-route}
use wazo_call_logd.Interpretor.UserEvents.Direction as User
use wazo_call_logd.Interpretor.Dispatch.{interpret_each, caller_handler, caller_interpret_cel}

-- One rule for each list of CELs: what every event keeps, all of them keep.
pub interpret_each-Returns :
    (P : RawCallLog → Type 0) (handle : Cel → RawCallLog → Result RawCallLog)
    → ((cel : Cel) (call : RawCallLog) → P call → Returns P (handle cel call))
    → (cels : List Cel) (call : RawCallLog) → P call
    → Returns P (interpret_each handle cels call)
unfolding interpret_each
interpret_each-Returns P handle keeps [] call h = h
interpret_each-Returns P handle keeps (cel ∷ cels) call h =
    go (handle cel call) (keeps cel call h) (interpret_each-Returns P handle keeps cels)
  where
    go :
        (m : Result RawCallLog)
        → Returns P m
        → ((c : RawCallLog) → P c → Returns P (interpret_each handle cels c))
        → Returns P (m >>= interpret_each handle cels)
    go (ok c) k rest = rest c k
    go (raise e) k rest = tt

by_route :
    (call : RawCallLog) (m : Result RawCallLog)
    → StaysIn call
    → Returns (SameRoute call) m
    → Returns StaysIn m
by_route call (ok out) h e = StaysIn-route call out h e
by_route call (raise x) h e = tt

module _ (ext : External) where
  caller_handler-StaysIn :
      (type : EventType) (cel : Cel) (call : RawCallLog)
      → StaysIn call
      → Returns StaysIn (caller_handler ext type cel call)
  unfolding caller_handler
  caller_handler-StaysIn chan_start cel call h =
      by_route call _ h (Direction.caller_chan_start-route ext cel call)
  caller_handler-StaysIn chan_end cel call h =
      by_route call _ h (Direction.caller_chan_end-route ext cel call)
  caller_handler-StaysIn app_start cel call h =
      by_route call _ h (Direction.caller_app_start-route ext cel call)
  caller_handler-StaysIn answer cel call h =
      by_route call _ h (Direction.caller_answer-route ext cel call)
  caller_handler-StaysIn bridge_start cel call h =
      by_route call _ h (Direction.caller_bridge_start_or_enter-route ext cel call)
  caller_handler-StaysIn bridge_enter cel call h =
      by_route call _ h (Direction.caller_bridge_start_or_enter-route ext cel call)
  caller_handler-StaysIn mixmonitor_start cel call h =
      by_route call _ h (Direction.caller_mixmonitor_start-route ext cel call)
  caller_handler-StaysIn mixmonitor_stop cel call h =
      by_route call _ h (Direction.mixmonitor_stopped-route ext cel call)
  caller_handler-StaysIn xivo_from_s cel call h =
      by_route call _ h (Direction.caller_xivo_from_s-route ext cel call)
  caller_handler-StaysIn xivo_incall cel call h =
      Direction.caller_xivo_incall-StaysIn ext cel call h
  caller_handler-StaysIn xivo_outcall cel call h =
      Direction.caller_xivo_outcall-StaysIn ext cel call h
  caller_handler-StaysIn xivo_user_fwd cel call h =
      Direction.caller_xivo_user_fwd-StaysIn ext cel call h
  caller_handler-StaysIn wazo_meeting_name cel call h =
      by_route call _ h (User.caller_wazo_meeting_name-route ext cel call)
  caller_handler-StaysIn wazo_conference cel call h =
      by_route call _ h (User.caller_wazo_conference-route ext cel call)
  caller_handler-StaysIn wazo_user_missed_call cel call h =
      by_route call _ h (User.caller_wazo_user_missed_call-route ext cel call)
  caller_handler-StaysIn wazo_user_blocked_call cel call h =
      by_route call _ h (User.caller_wazo_user_blocked_call-route ext cel call)
  caller_handler-StaysIn wazo_call_log_destination cel call h =
      by_route call _ h (User.caller_wazo_call_log_destination-route ext cel call)
  caller_handler-StaysIn wazo_call_log_requested_internal cel call h =
      by_route call _ h (User.caller_wazo_call_log_requested_internal-route ext cel call)
  caller_handler-StaysIn _ cel call h = h

-- A call that was forwarded and is not outbound stays so through any further events of its caller:
-- an outgoing leg of a forwarded call does not make the call outbound.
pub forwarded-StaysIn :
    (ext : External) (cels : List Cel) (call : RawCallLog)
    → StaysIn call
    → Returns StaysIn (interpret_each (caller_interpret_cel ext) cels call)
unfolding caller_interpret_cel
forwarded-StaysIn ext =
    interpret_each-Returns StaysIn (caller_interpret_cel ext)
      λ cel. caller_handler-StaysIn ext cel.eventtype cel
