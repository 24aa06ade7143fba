-- ===== src/CallLog.antt =====
-- database/models.py: the attributes of `CallLog` that `RawCallLog.to_call_log` fills in, and that
-- conversion.
pub mod Valid
use wazo_call_logd.Common.{
  ℕ, Bool, ◌||◌, Option, List, String, truthy, Result, ok, raise, ◌>>=◌, require, invalid_call_log,
  if◌then◌else◌,
}
use wazo_call_logd.RawCallLog.{RawCallLog, Direction, CallLogParticipant, Recording}

pub record CallLog : Type 0 where
  pub tenant_uuid : Option String
  pub date : ℕ
  pub date_answer : Option ℕ
  pub date_end : Option ℕ
  pub source_name : Option String
  pub source_exten : Option String
  pub source_internal_exten : Option String
  pub source_internal_context : Option String
  pub source_internal_name : Option String
  pub requested_exten : Option String
  pub requested_context : Option String
  pub requested_internal_exten : Option String
  pub requested_internal_context : Option String
  pub requested_name : Option String
  pub destination_name : Option String
  pub destination_exten : Option String
  pub destination_internal_exten : Option String
  pub destination_internal_context : Option String
  pub destination_line_identity : Option String
  pub user_field : Option String
  pub source_line_identity : Option String
  pub direction : Direction
  pub destination_details : List (String × String)
  pub conversation_id : Option String
  pub blocked : Bool
  pub reached_voicemail : Bool
  pub participants : List CallLogParticipant
  pub cel_ids : List ℕ
  pub recordings : List Recording

abbrev pub convert : RawCallLog → ℕ → CallLog
convert call date = record {
  tenant_uuid = call.tenant_uuid;
  date = date;
  date_answer = call.date_answer;
  date_end = call.date_end;
  source_name = call.source_name;
  source_exten = call.source_exten;
  source_internal_exten = call.source_internal_exten;
  source_internal_context = call.source_internal_context;
  source_internal_name = call.source_internal_name;
  requested_exten = call.requested_exten;
  requested_context = call.requested_context;
  requested_internal_exten = call.requested_internal_exten;
  requested_internal_context = call.requested_internal_context;
  requested_name = call.requested_name;
  destination_name = call.destination_name;
  destination_exten = call.destination_exten;
  destination_internal_exten = call.destination_internal_exten;
  destination_internal_context = call.destination_internal_context;
  destination_line_identity = call.destination_line_identity;
  user_field = call.user_field;
  source_line_identity = call.source_line_identity;
  direction = call.direction;
  destination_details = call.destination_details;
  conversation_id = call.conversation_id;
  blocked = call.blocked;
  reached_voicemail = call.reached_voicemail;
  participants = call.participants;
  cel_ids = call.cel_ids;
  recordings = call.recordings;
}

unfoldable pub to_call_log : RawCallLog → Result CallLog
to_call_log call = do
  date ← require invalid_call_log call.date
  let kept = ok (convert call date)
  (if truthy call.source_name || truthy call.source_exten then kept else raise invalid_call_log)
