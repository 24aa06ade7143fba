-- ===== src/Tests/Stored.antt =====
-- Small tables for the tests: calls, transcriptions, exports, and what the database and the
-- operating system answer about them.
use wazo_call_logd.Common.{not, ◌==◌, true, false, none, some, List, [], ◌∷◌, String, map}
use wazo_call_logd.Cel.{Cel}
use wazo_call_logd.RawCallLog.{internal, source, destination}
use wazo_call_logd.Cdr.Rows.{Cdr, Media}
use wazo_call_logd.Cdr.Filters.{Database, ListParams, no_params, marshmallow_answered, asc}
use wazo_call_logd.Cdr.Media.{Archive, Files}
use wazo_call_logd.Manager.{Service}
use wazo_call_logd.Transcription.{Attributes, State, Server}
use wazo_call_logd.Export.{
  Disk, Export, Exports, RecordingFile, pending, file_not_found_error, permission_error,
}
use wazo_call_logd.Samples.{unfinished_call}

-- No pattern matches, the collation does not tell texts apart, and one text is no uuid.
abbrev pub db : Database
db = record {
  like = λ pattern text. false;
  ilike = λ pattern text. false;
  text_le = λ s t. true;
  is_uuid = λ s. not (s == "foo");
}

abbrev pub recording_of_1 : Media
recording_of_1 = record { uuid = "r1"; call_log_id = 1; path = some "/r1.wav" }

abbrev pub answered_cdr : Cdr
answered_cdr = record {
  id = 1;
  tenant_uuid = "t1";
  date = 10;
  date_answer = some 12;
  date_end = some 20;
  source_name = some "Alice";
  source_exten = some "1001";
  requested_exten = some "1002";
  requested_internal_exten = some "1002";
  requested_internal_context = some "default";
  destination_name = some "Bob";
  destination_exten = some "1002";
  blocked = none;
  reached_voicemail = some false;
  direction = internal;
  conversation_id = some "1.1";
  participants =
      record { user_uuid = "alice"; role = source; tags = []; answered = true; requested = false }
      ∷ record {
        user_uuid = "bob";
        role = destination;
        tags = [];
        answered = true;
        requested = true;
      }
      ∷ [];
  recordings = recording_of_1 ∷ [];
}

abbrev pub voicemail_cdr : Cdr
voicemail_cdr = record answered_cdr {
  id = 2;
  date_answer = none;
  reached_voicemail = some true;
  recordings = [];
}

abbrev pub blocked_cdr : Cdr
blocked_cdr = record voicemail_cdr { id = 3; blocked = some true }

abbrev pub other_cdr : Cdr
other_cdr = record answered_cdr { id = 4; tenant_uuid = "t2"; recordings = [] }

abbrev pub cdrs : List Cdr
cdrs = answered_cdr ∷ voicemail_cdr ∷ blocked_cdr ∷ other_cdr ∷ []

abbrev pub of_tenant : ListParams
of_tenant = record no_params {
  order = some marshmallow_answered;
  direction = some asc;
  tenant_uuids = "t1" ∷ [];
  user_uuids = "bob" ∷ [];
}

abbrev pub one_call_log : Service
one_call_log = record {
  tables = record { cels = unfinished_call; call_logs = []; tenants = "t1" ∷ []; next_id = 5 };
  published = [];
}

-- CELs of a call that goes on, which was generated before as call log 3.
abbrev pub generated_before : List Cel
generated_before = map (λ (c : Cel). record c { call_log_id = some 3 }) unfinished_call

abbrev pub spoken : String → String → Attributes
spoken message text = record {
  message_id = message;
  tenant_uuid = "t1";
  transcription_text = text;
  voicemail_id = some 7;
  provider_id = none;
  language = none;
  duration = none;
}

abbrev pub transcriptions : State
transcriptions = record {
  rows = record { uuid = "u1"; created_at = 1; attributes = spoken "m1" "hello" } ∷ [];
  tenants = "t1" ∷ [];
  sent = [];
}

abbrev pub server : Server
server = record { admits = λ a. true; new_uuid = λ s. "u2"; now = 5 }

abbrev pub first_export : Export
first_export = record {
  uuid = "e1";
  tenant_uuid = "t1";
  user_uuid = "alice";
  requested_at = 3;
  status = pending;
  path = none;
}

abbrev pub pending_export : Exports
pending_export = record { rows = first_export ∷ []; announced = [] }

abbrev pub exported : RecordingFile
exported = record { uuid = "r1"; filename = "r1.wav"; path = "/r1.wav"; call_log_id = 1 }

abbrev pub whole_disk : Disk
whole_disk = record { open_zip = λ p. none; zip_write = λ p. none; send_file = λ p. none }

-- The recordings are gone.
abbrev pub empty_disk : Disk
empty_disk = record {
  open_zip = λ p. none;
  zip_write = λ p. some file_not_found_error;
  send_file = λ p. none;
}

abbrev pub archive : Archive
archive = record { table = cdrs; files = "/r1.wav" ∷ [] }

abbrev pub willing : Files
willing = record { remove = λ files p. none; send = λ files p. none }

abbrev pub unwilling : Files
unwilling = record {
  remove = λ files p. some permission_error;
  send = λ files p. some permission_error;
}
