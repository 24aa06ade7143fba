-- ===== src/Interpretor/Caller/Direction.antt =====
-- The direction of a call that was forwarded.
use wazo_call_logd.Common.{
  ◌≡◌, ◌≢◌, refl, sym, ap, ◌∙◌, if_same, Bool, true, some, arith, Result, ok, raise, Returns,
  if◌then◌else◌,
}
use wazo_call_logd.External.{External}
use wazo_call_logd.Cel.{Cel}
use wazo_call_logd.RawCallLog.{
  RawCallLog, Direction, outbound, filter_call, update_participant, set_tenant_uuid,
}
use wazo_call_logd.Interpretor.Caller.{
  caller_note_bridge, name_source, number_source, note_answer_time, answer_destination,
  answer_requested, app_source_name, app_source_exten, caller_answer, caller_bridge_start_or_enter,
  caller_chan_start, caller_chan_end, caller_app_start, caller_xivo_user_fwd,
  caller_mixmonitor_start, mixmonitor_stopped, caller_xivo_from_s, caller_xivo_incall,
  caller_xivo_outcall,
}
use wazo_call_logd.Interpretor.Extra.{interpret_voicemail_app_start}
use wazo_call_logd.Interpretor.Recordings.{stop_recordings}

-- A call that was forwarded and is not outbound.
abbrev pub StaysIn : RawCallLog → Type 0
StaysIn call = (call.was_forwarded ≡ true) × (call.direction ≢ outbound)

abbrev pub route : RawCallLog → Bool × Direction
route call = (call.was_forwarded, call.direction)

module _ (cel : Cel) (call : RawCallLog) where
  name_source-route : route (name_source cel call) ≡ route call
  unfolding name_source
  name_source-route = ground arith

  number_source-route : route (number_source cel call) ≡ route call
  unfolding number_source
  number_source-route = ground arith

  answer_destination-route : route (answer_destination cel call) ≡ route call
  unfolding answer_destination
  answer_destination-route = ground arith

  answer_requested-route : route (answer_requested cel call) ≡ route call
  unfolding answer_requested
  answer_requested-route = ground arith

  app_source_name-route : route (app_source_name cel call) ≡ route call
  unfolding app_source_name
  app_source_name-route = ground arith

  app_source_exten-route : route (app_source_exten cel call) ≡ route call
  unfolding app_source_exten
  app_source_exten-route = ground arith

  pub voicemail-route : route (interpret_voicemail_app_start cel call) ≡ route call
  unfolding interpret_voicemail_app_start
  voicemail-route = ground arith

module _ (ext : External) (cel : Cel) (call : RawCallLog) where
  caller_note_bridge-route : route (caller_note_bridge ext cel call) ≡ route call
  unfolding caller_note_bridge
  caller_note_bridge-route = ground arith

abbrev pub SameRoute : RawCallLog → RawCallLog → Type 0
SameRoute call out = route out ≡ route call

SameRoute-trans :
    (a b : RawCallLog) (m : Result RawCallLog)
    → SameRoute a b
    → Returns (SameRoute b) m
    → Returns (SameRoute a) m
SameRoute-trans a b (ok c) h k = k ∙ h
SameRoute-trans a b (raise e) h k = tt

-- An application tells the source only of a call that was not forwarded.
app_source-route :
    (cel : Cel) (call : RawCallLog)
    → route (if call.was_forwarded then call else app_source_exten cel (app_source_name cel call))
      ≡ route call
app_source-route cel call =
    if_same route call.was_forwarded call (app_source_exten cel (app_source_name cel call)) refl
      (app_source_exten-route cel (app_source_name cel call) ∙ app_source_name-route cel call)

pub caller_app_start-route :
    (ext : External) (cel : Cel) (call : RawCallLog)
    → Returns (SameRoute call) (caller_app_start ext cel call)
unfolding caller_app_start
caller_app_start-route ext cel call =
    app_source-route cel
      (interpret_voicemail_app_start cel (record call { user_field = some cel.userfield }))
    ∙ voicemail-route cel (record call { user_field = some cel.userfield })

pub StaysIn-route : (call out : RawCallLog) → StaysIn call → SameRoute call out → StaysIn out
StaysIn-route call out h e = (ap (λ p. p.0) e ∙ h.0, λ o. h.1 (sym (ap (λ p. p.1) e) ∙ o))

module _ (ext : External) (cel : Cel) (call : RawCallLog) where
  note_answer_time-route : Returns (SameRoute call) (note_answer_time ext cel call)
  unfolding note_answer_time
  note_answer_time-route = ground arith

  pub caller_chan_start-route : Returns (SameRoute call) (caller_chan_start ext cel call)
  unfolding caller_chan_start update_participant
  caller_chan_start-route = ground arith

  pub caller_chan_end-route : Returns (SameRoute call) (caller_chan_end ext cel call)
  unfolding caller_chan_end filter_call
  caller_chan_end-route = ground arith

  pub caller_mixmonitor_start-route :
      Returns (SameRoute call) (caller_mixmonitor_start ext cel call)
  unfolding caller_mixmonitor_start
  caller_mixmonitor_start-route = ground arith

  pub mixmonitor_stopped-route : Returns (SameRoute call) (mixmonitor_stopped ext cel call)
  unfolding mixmonitor_stopped stop_recordings
  mixmonitor_stopped-route = ground arith

  pub caller_xivo_from_s-route : Returns (SameRoute call) (caller_xivo_from_s ext cel call)
  unfolding caller_xivo_from_s
  caller_xivo_from_s-route = refl

module _ (ext : External) (cel : Cel) (call : RawCallLog) where
  pub caller_answer-route : Returns (SameRoute call) (caller_answer ext cel call)
  unfolding caller_answer
  caller_answer-route =
      answer_requested-route cel (answer_destination cel call) ∙ answer_destination-route cel call

  pub caller_bridge_start_or_enter-route :
      Returns (SameRoute call) (caller_bridge_start_or_enter ext cel call)
  unfolding caller_bridge_start_or_enter
  caller_bridge_start_or_enter-route =
      let noted = caller_note_bridge ext cel call in
      let named = name_source cel noted in
      SameRoute-trans call (number_source cel named)
        (note_answer_time ext cel (number_source cel named))
        (number_source-route cel named
          ∙ name_source-route cel noted
          ∙ caller_note_bridge-route ext cel call)
        (note_answer_time-route ext cel (number_source cel named))

module _ (ext : External) (cel : Cel) (call : RawCallLog) (h : StaysIn call) where
  pub caller_xivo_user_fwd-StaysIn : Returns StaysIn (caller_xivo_user_fwd ext cel call)
  unfolding caller_xivo_user_fwd
  caller_xivo_user_fwd-StaysIn = ground arith

  pub caller_xivo_incall-StaysIn : Returns StaysIn (caller_xivo_incall ext cel call)
  unfolding caller_xivo_incall set_tenant_uuid
  caller_xivo_incall-StaysIn = ground arith

  pub caller_xivo_outcall-StaysIn : Returns StaysIn (caller_xivo_outcall ext cel call)
  unfolding caller_xivo_outcall
  caller_xivo_outcall-StaysIn = ground arith
