-- ===== src/RawCallLog/Laws.antt =====
-- What the methods of the call promise.
use wazo_call_logd.Common.{
  ◌≡◌, refl, Bool-cases, inl, inr, false, ◌&&◌, not, Option, none, some, String, ◌==◌, eq_iff, elem,
  arith, if◌then◌else◌,
}
use wazo_call_logd.Common.Dict.{get-put}
use wazo_call_logd.ExtensionFilter.{ExtensionFilter, filter, filter_field}
use wazo_call_logd.RawCallLog.{
  RawCallLog, RawParticipant, participant_of, update_participant, filter_call,
}

-- The field shows no extension that the filter hides; the empty text stands for a hidden one.
abbrev pub IsShown : ExtensionFilter → Option String → Type 0
IsShown f none = Unit
IsShown f (some exten) = (elem exten f.extensions && not (exten == "")) ≡ false

filter_field-IsShown :
    (f : ExtensionFilter) (exten : Option String) → IsShown f (filter_field f exten)
unfolding filter_field filter
filter_field-IsShown f none = tt
filter_field-IsShown f (some exten) = elim (Bool-cases (elem exten f.extensions)) [
  | inl e ↦ rw (e, filter) (ground (arith, (eq_iff "" "").1 refl))
  | inr e ↦ rw (e, filter) (rw e refl)
]

-- After `filter_call` none of the six extensions is one that the filter hides.
pub filter_call-IsShown :
    (call : RawCallLog)
    → IsShown call.extension_filter (filter_call call).source_exten
      × IsShown call.extension_filter (filter_call call).source_internal_exten
      × IsShown call.extension_filter (filter_call call).requested_exten
      × IsShown call.extension_filter (filter_call call).requested_internal_exten
      × IsShown call.extension_filter (filter_call call).destination_exten
      × IsShown call.extension_filter (filter_call call).destination_internal_exten
unfolding filter_call
filter_call-IsShown call =
    let shown = filter_field-IsShown call.extension_filter in
    (
      shown call.source_exten,
      shown call.source_internal_exten,
      shown call.requested_exten,
      shown call.requested_internal_exten,
      shown call.destination_exten,
      shown call.destination_internal_exten,
    )

-- Only the participant of the channel changes.
pub participant_of-update_participant :
    (change : RawParticipant → RawParticipant) (channel other : String) (call : RawCallLog)
    → participant_of (update_participant change channel call) other ≡ (
        if channel == other
        then change (participant_of call channel)
        else participant_of call other)
unfolding participant_of update_participant
participant_of-update_participant change channel other call = ground (
  arith,
  eq_iff channel other,
  get-put call.raw_participants channel other (change (participant_of call channel)),
)
