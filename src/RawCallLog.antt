-- ===== src/RawCallLog.antt =====
-- raw_call_log.py: the mutable call that the interpretors fill in. An attribute that may be None
-- is an `Option`; a `dict` of attributes is a record with an `Option` for each key it may lack.
pub mod Laws
use wazo_call_logd.Common.{
  ℕ, Bool, true, false, Option, none, some, List, [], ◌∷◌, String, if◌then◌else◌,
}
use wazo_call_logd.Common.Dict.{Dict, get, put}
use wazo_call_logd.External.{Extension}
use wazo_call_logd.ExtensionFilter.{ExtensionFilter, default_filter, filter_field}

pub data Role : Type 0 where
  source destination : Role

pub data Direction : Type 0 where
  internal inbound outbound : Direction

pub record BridgeInfo : Type 0 where
  pub id : String
  pub technology : String
  pub channels : List String

-- participant.py: `ParticipantInfo`
pub record ParticipantInfo : Type 0 where
  pub uuid : String
  pub tenant_uuid : String
  pub line_id : Option ℕ
  pub tags : List String
  pub main_extension : Option Extension

-- A value of `raw_participants`: the keys set by the interpretors, and those that
-- `confd_participant._asdict()` adds.
pub record RawParticipant : Type 0 where
  pub role : Option Role
  pub answered : Option Bool
  pub requested : Option Bool
  pub confd : Option ParticipantInfo

-- An entry of `participants_info`
pub record InfoEntry : Type 0 where
  pub user_uuid : String
  pub role : Role
  pub answered : Option Bool
  pub name : Option String
  pub requested : Option Bool
  pub tags : Option (List String)

-- database/models.py: the attributes of `CallLogParticipant` that the generator sets
pub record CallLogParticipant : Type 0 where
  pub user_uuid : String
  pub line_id : Option ℕ
  pub tags : List String
  pub role : Role
  pub answered : Option Bool
  pub requested : Option Bool

-- database/models.py: `Recording`, before it is stored
pub record Recording : Type 0 where
  pub uuid : Option String
  pub start_time : Option ℕ
  pub end_time : Option ℕ
  pub path : String
  pub mixmonitor_id : String
  pub end_time_is_final : Bool

pub record RawCallLog : Type 0 where
  pub date : Option ℕ
  pub date_end : Option ℕ
  pub date_answer : Option ℕ
  pub source_name : Option String
  pub source_exten : Option String
  pub source_internal_exten : Option String
  pub source_internal_context : Option String
  pub source_internal_name : Option String
  pub source_line_identity : Option String
  pub requested_name : Option String
  pub requested_exten : Option String
  pub requested_context : Option String
  pub requested_internal_exten : Option String
  pub requested_internal_context : Option String
  pub requested_type : Option String
  pub destination_name : Option String
  pub destination_exten : Option String
  pub destination_internal_exten : Option String
  pub destination_internal_context : Option String
  pub destination_line_identity : Option String
  pub destination_details : List (String × String)
  pub user_field : Option String
  pub direction : Direction
  pub raw_participants : Dict RawParticipant
  pub participants_info : List InfoEntry
  pub participants : List CallLogParticipant
  pub recordings : List Recording
  pub cel_ids : List ℕ
  pub conversation_id : Option String
  pub tenant_uuid : Option String
  pub interpret_callee_bridge_enter : Bool
  pub interpret_caller_xivo_user_fwd : Bool
  pub authoritative_destination_info : Bool
  pub pending_wait_for_mobile_peers : List String
  pub caller_id_by_channels : Dict (String × String)
  pub extension_filter : ExtensionFilter
  pub bridges : Dict BridgeInfo
  pub was_forwarded : Bool
  pub blocked : Bool
  pub reached_voicemail : Bool
  pub voicemail_number : Option String
  pub voicemail_context : Option String

-- `RawCallLog()`
abbrev pub empty_call : RawCallLog
empty_call = record {
  date = none;
  date_end = none;
  date_answer = none;
  source_name = none;
  source_exten = none;
  source_internal_exten = none;
  source_internal_context = none;
  source_internal_name = none;
  source_line_identity = none;
  requested_name = none;
  requested_exten = none;
  requested_context = none;
  requested_internal_exten = none;
  requested_internal_context = none;
  requested_type = none;
  destination_name = none;
  destination_exten = none;
  destination_internal_exten = none;
  destination_internal_context = none;
  destination_line_identity = none;
  destination_details = [];
  user_field = none;
  direction = internal;
  raw_participants = [];
  participants_info = [];
  participants = [];
  recordings = [];
  cel_ids = [];
  conversation_id = none;
  tenant_uuid = none;
  interpret_callee_bridge_enter = true;
  interpret_caller_xivo_user_fwd = true;
  authoritative_destination_info = false;
  pending_wait_for_mobile_peers = [];
  caller_id_by_channels = [];
  extension_filter = default_filter;
  bridges = [];
  was_forwarded = false;
  blocked = false;
  reached_voicemail = false;
  voicemail_number = none;
  voicemail_context = none;
}

abbrev pub empty_participant : RawParticipant
empty_participant = record { role = none; answered = none; requested = none; confd = none }

-- `raw_participants[channel]` of a defaultdict
unfoldable pub participant_of : RawCallLog → String → RawParticipant
participant_of call channel = elim (get call.raw_participants channel) [
  | none ↦ empty_participant
  | some p ↦ p
]

-- `call.raw_participants[channel].update(...)`
unfoldable pub update_participant :
    (RawParticipant → RawParticipant) → String → RawCallLog → RawCallLog
unfolding participant_of
update_participant change channel call = record call {
  raw_participants = put call.raw_participants channel (change (participant_of call channel));
}

abbrev pub with_role : Role → RawParticipant → RawParticipant
with_role r p = record p { role = some r }

abbrev pub with_answered : RawParticipant → RawParticipant
with_answered p = record p { answered = some true }

-- The first tenant stays; the other branches only log.
unfoldable pub set_tenant_uuid : String → RawCallLog → RawCallLog
set_tenant_uuid tenant call = elim call.tenant_uuid [
  | none ↦ record call { tenant_uuid = some tenant }
  | some _ ↦ call
]

-- extension_filter.py: `filter_call`
unfoldable pub filter_call : RawCallLog → RawCallLog
unfolding filter_field
filter_call call =
    let f = filter_field call.extension_filter in
    record call {
      source_exten = f call.source_exten;
      source_internal_exten = f call.source_internal_exten;
      requested_exten = f call.requested_exten;
      requested_internal_exten = f call.requested_internal_exten;
      destination_exten = f call.destination_exten;
      destination_internal_exten = f call.destination_internal_exten;
    }

-- `found.update(participant_info)`: the keys that the new entry has
abbrev overlay {ℓ} : {A : Type ℓ} → Option A → Option A → Option A
overlay none old = old
overlay (some new) old = some new

unfoldable pub update_info : InfoEntry → InfoEntry → InfoEntry
update_info new old = record {
  user_uuid = new.user_uuid;
  role = new.role;
  answered = overlay new.answered old.answered;
  name = overlay new.name old.name;
  requested = overlay new.requested old.requested;
  tags = overlay new.tags old.tags;
}

-- The first entry that satisfies the predicate is updated in place, or the new one is appended.
unfoldable pub insert_or_update : InfoEntry → (InfoEntry → Bool) → List InfoEntry → List InfoEntry
unfolding update_info
insert_or_update info p [] = info ∷ []
insert_or_update info p (e ∷ es) =
    if p e then update_info info e ∷ es else e ∷ insert_or_update info p es

unfoldable pub insert_or_update_participants_info :
    InfoEntry → (InfoEntry → Bool) → RawCallLog → RawCallLog
unfolding insert_or_update
insert_or_update_participants_info info p call = record call {
  participants_info = insert_or_update info p call.participants_info;
}
