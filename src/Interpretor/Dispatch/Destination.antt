-- ===== src/Interpretor/Dispatch/Destination.antt =====
-- Authoritative destination information through all the events of the callees.
use wazo_call_logd.Common.{◌≡◌, refl, ap, ◌∙◌, List, some, Result, ok, raise, Returns}
use wazo_call_logd.External.{External}
use wazo_call_logd.Cel.{
  Cel, EventType, app_start, bridge_start, bridge_enter, chan_start, chan_end, mixmonitor_start,
  mixmonitor_stop, wazo_call_log_requested_internal,
}
use wazo_call_logd.RawCallLog.{RawCallLog, outbound, update_participant}
use wazo_call_logd.Interpretor.Callee.{callee_chan_start}
use wazo_call_logd.Interpretor.Callee.Authoritative
use wazo_call_logd.Interpretor.Callee.Authoritative.{
  SameFixed, IsAuthoritative, IsAuthoritative-fixed, fixed,
}
use wazo_call_logd.Interpretor.Dispatch.{interpret_each, callee_handler, callee_interpret_cel}
use wazo_call_logd.Interpretor.Dispatch.Forwarded.{interpret_each-Returns}

module _ (ext : External) where
  callee_handler-fixed :
      (type : EventType) (cel : Cel) (call : RawCallLog)
      → IsAuthoritative call
      → Returns (SameFixed call) (callee_handler ext type cel call)
  unfolding callee_handler
  callee_handler-fixed chan_start cel call h = Authoritative.callee_chan_start-fixed ext cel call h
  callee_handler-fixed chan_end cel call h = Authoritative.callee_chan_end-fixed ext cel call h
  callee_handler-fixed app_start cel call h = Authoritative.callee_voicemail-fixed ext cel call h
  callee_handler-fixed bridge_start cel call h =
      Authoritative.callee_bridge_enter-fixed ext cel call h
  callee_handler-fixed bridge_enter cel call h =
      Authoritative.callee_bridge_enter-fixed ext cel call h
  callee_handler-fixed mixmonitor_start cel call h =
      Authoritative.callee_mixmonitor_start-fixed ext cel call h
  callee_handler-fixed mixmonitor_stop cel call h =
      Authoritative.callee_mixmonitor_stop-fixed ext cel call h
  callee_handler-fixed wazo_call_log_requested_internal cel call h =
      Authoritative.callee_requested_internal-fixed ext cel call h
  callee_handler-fixed _ cel call h = refl

-- The same destination as the call `first`, which is authoritative.
abbrev KeepsDestination : RawCallLog → RawCallLog → Type 0
KeepsDestination first call = SameFixed first call × IsAuthoritative call

kept :
    (first call : RawCallLog) (m : Result RawCallLog)
    → KeepsDestination first call
    → Returns (SameFixed call) m
    → Returns (KeepsDestination first) m
kept first call (ok out) h e = (e ∙ h.0, IsAuthoritative-fixed call out e h.1)
kept first call (raise x) h e = tt

-- In a call whose destination information is authoritative, that was not forwarded and that is not
-- outbound, the events of the callees change neither the destination extension nor its name.
pub callees_keep_destination :
    (ext : External) (cels : List Cel) (first : RawCallLog)
    → IsAuthoritative first
    → Returns
        (λ out.
          (out.destination_exten ≡ first.destination_exten)
          × (out.destination_name ≡ first.destination_name))
        (interpret_each (callee_interpret_cel ext) cels first)
unfolding callee_interpret_cel
callees_keep_destination ext cels first h =
    fields (interpret_each (callee_interpret_cel ext) cels first) (
      interpret_each-Returns (KeepsDestination first) (callee_interpret_cel ext)
        (λ cel call k.
          kept first call (callee_interpret_cel ext cel call) k
            (callee_handler-fixed ext cel.eventtype cel call k.1))
        cels first (refl, h))
  where
    fields :
        (m : Result RawCallLog)
        → Returns (KeepsDestination first) m
        → Returns
            (λ out.
              (out.destination_exten ≡ first.destination_exten)
              × (out.destination_name ≡ first.destination_name))
            m
    fields (ok out) k = (ap (λ f. f.exten) k.0, ap (λ f. f.name) k.0)
    fields (raise x) k = tt

-- In an outbound call the CHAN_START of a callee empties the destination name, also where the
-- destination information is authoritative.
pub outbound_clears_authoritative :
    (ext : External) (cel : Cel) (call : RawCallLog)
    → call.direction ≡ outbound
    → Returns (λ out. out.destination_name ≡ some "") (callee_chan_start ext cel call)
unfolding callee_chan_start update_participant
outbound_clears_authoritative ext cel call h = rw h refl
