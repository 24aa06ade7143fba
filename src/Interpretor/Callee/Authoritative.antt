-- ===== src/Interpretor/Callee/Authoritative.antt =====
-- Destination information that WAZO_CALL_LOG_DESTINATION made authoritative, through the events of
-- the callees.
use wazo_call_logd.Common.{
  ◌≡◌, ◌≢◌, refl, sym, ap, ◌∙◌, Bool, true, false, Option, List, [], ◌∷◌, String, is_some, arith,
  Result, ok, raise, Returns, Returns-if, filled, if_same,
}
use wazo_call_logd.Common.Dict.{get}
use wazo_call_logd.External.{External}
use wazo_call_logd.Cel.{Cel}
use wazo_call_logd.RawCallLog.{
  RawCallLog, RawParticipant, Direction, internal, inbound, outbound, update_participant,
  with_answered,
}
use wazo_call_logd.Interpretor.Extra.{interpret_voicemail_app_start}
use wazo_call_logd.Interpretor.Recordings.{stop_recordings}
use wazo_call_logd.Interpretor.Caller.{mixmonitor_stopped}
use wazo_call_logd.Interpretor.UserEvents.{request_internal}
use wazo_call_logd.Interpretor.Callee.{
  by_direction, note_channel, take_destination, ring_destination, clear_names, take_bridge_identity,
  peers_of, mark_peers, take_caller_id, callee_chan_start, callee_chan_end, callee_note_bridge,
  callee_bridge_enter, callee_mixmonitor_start, callee_requested_internal,
}

-- What is authoritative about the destination, and what that rests on.
pub record Fixed : Type 0 where
  pub exten : Option String
  pub name : Option String
  pub authoritative : Bool
  pub forwarded : Bool
  pub direction : Direction

abbrev pub fixed : RawCallLog → Fixed
fixed call = record {
  exten = call.destination_exten;
  name = call.destination_name;
  authoritative = call.authoritative_destination_info;
  forwarded = call.was_forwarded;
  direction = call.direction;
}

abbrev pub SameFixed : RawCallLog → RawCallLog → Type 0
SameFixed call out = fixed out ≡ fixed call

-- Authoritative, not forwarded and not outbound.
abbrev pub IsAuthoritative : RawCallLog → Type 0
IsAuthoritative call =
    (call.authoritative_destination_info ≡ true)
    × (call.was_forwarded ≡ false)
    × (call.direction ≢ outbound)

update_participant-fixed :
    (change : RawParticipant → RawParticipant) (channel : String) (call : RawCallLog)
    → fixed (update_participant change channel call) ≡ fixed call
unfolding update_participant
update_participant-fixed change channel call = refl

by_direction-fixed :
    (d : Direction) (x y : RawCallLog) {f : Fixed}
    → d ≢ outbound
    → fixed y ≡ f
    → fixed (by_direction d x y) ≡ f
by_direction-fixed internal x y h e = e
by_direction-fixed inbound x y h e = e
by_direction-fixed outbound x y h e = absurd (h refl)

mark_peers-fixed :
    (peers : List String) (call : RawCallLog) → fixed (mark_peers peers call) ≡ fixed call
unfolding mark_peers update_participant
mark_peers-fixed [] call = refl
mark_peers-fixed (peer ∷ peers) call =
    let marked = is_some (get call.raw_participants peer) in
    mark_peers-fixed peers _
    ∙ if_same fixed marked (update_participant with_answered peer call) call refl refl

module _ (cel : Cel) (call : RawCallLog) (h : IsAuthoritative call) where
  take_destination-fixed : fixed (take_destination cel call) ≡ fixed call
  unfolding take_destination
  take_destination-fixed = ground arith

  take_bridge_identity-fixed : fixed (take_bridge_identity cel call) ≡ fixed call
  unfolding take_bridge_identity
  take_bridge_identity-fixed = ground arith

  take_caller_id-fixed : Returns (SameFixed call) (take_caller_id cel call)
  unfolding take_caller_id
  take_caller_id-fixed = ground arith

  ring_destination-fixed : fixed (ring_destination cel call) ≡ fixed call
  unfolding ring_destination
  ring_destination-fixed = ground arith

pub IsAuthoritative-fixed :
    (call out : RawCallLog) → SameFixed call out → IsAuthoritative call → IsAuthoritative out
IsAuthoritative-fixed call out e h = (
  ap (λ f. f.authoritative) e ∙ h.0,
  ap (λ f. f.forwarded) e ∙ h.1,
  λ o. h.2 (sym (ap (λ f. f.direction) e) ∙ o),
)

SameFixed-trans :
    (a b : RawCallLog) (m : Result RawCallLog)
    → SameFixed a b
    → Returns (SameFixed b) m
    → Returns (SameFixed a) m
SameFixed-trans a b (ok c) h k = k ∙ h
SameFixed-trans a b (raise e) h k = tt

module _ (ext : External) (cel : Cel) (call : RawCallLog) (h : IsAuthoritative call) where
  pub callee_chan_start-fixed : Returns (SameFixed call) (callee_chan_start ext cel call)
  unfolding callee_chan_start note_channel update_participant
  callee_chan_start-fixed =
      by_direction-fixed call.direction (clear_names (note_channel ext cel call))
        (ring_destination cel (note_channel ext cel call)) h.2
        (ring_destination-fixed cel (note_channel ext cel call) h)

  pub callee_chan_end-fixed : Returns (SameFixed call) (callee_chan_end ext cel call)
  unfolding callee_chan_end
  callee_chan_end-fixed = ground arith

  callee_note_bridge-fixed : fixed (callee_note_bridge ext cel call) ≡ fixed call
  unfolding callee_note_bridge
  callee_note_bridge-fixed = ground arith

  pub callee_mixmonitor_start-fixed :
      Returns (SameFixed call) (callee_mixmonitor_start ext cel call)
  unfolding callee_mixmonitor_start
  callee_mixmonitor_start-fixed = ground arith

  pub callee_mixmonitor_stop-fixed : Returns (SameFixed call) (mixmonitor_stopped ext cel call)
  unfolding mixmonitor_stopped stop_recordings
  callee_mixmonitor_stop-fixed = ground arith

  pub callee_voicemail-fixed : SameFixed call (interpret_voicemail_app_start cel call)
  unfolding interpret_voicemail_app_start
  callee_voicemail-fixed = ground arith

  pub callee_requested_internal-fixed :
      Returns (SameFixed call) (callee_requested_internal ext cel call)
  unfolding callee_requested_internal request_internal
  callee_requested_internal-fixed = ground arith

module _ (ext : External) (cel : Cel) (call : RawCallLog) (h : IsAuthoritative call) where
  pub callee_bridge_enter-fixed : Returns (SameFixed call) (callee_bridge_enter ext cel call)
  unfolding callee_bridge_enter
  callee_bridge_enter-fixed =
      let noted = update_participant with_answered cel.channame (callee_note_bridge ext cel call) in
      let entered = take_bridge_identity cel noted in
      let e1 =
        update_participant-fixed with_answered cel.channame (callee_note_bridge ext cel call)
        ∙ callee_note_bridge-fixed ext cel call h in
      let h1 = IsAuthoritative-fixed call noted e1 h in
      let e2 = take_bridge_identity-fixed cel noted h1 ∙ e1 in
      let marked = mark_peers (peers_of cel) entered in
      let e3 = mark_peers-fixed (peers_of cel) entered ∙ e2 in
      Returns-if (SameFixed call) (filled cel.peer) (take_caller_id cel marked) (ok entered)
        (SameFixed-trans call marked (take_caller_id cel marked) e3
          (take_caller_id-fixed cel marked (IsAuthoritative-fixed call marked e3 h)))
        e2
