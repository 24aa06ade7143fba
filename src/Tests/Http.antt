-- ===== src/Tests/Http.antt =====
-- The theorems on the resources of the call detail records, at concrete inputs.
use wazo_call_logd.Common.{
  statement_error, validation_error, raise, ◌≡◌, refl, true, none, some, [], ◌∷◌, ◌++◌, String,
  arith,
}
use wazo_call_logd.Common.Text.{split}
use wazo_call_logd.Cdr.Filters.{ListParams, can_bind, no_params, marshmallow_answered, asc}
use wazo_call_logd.Cdr.Service.{Listing, search_by_filename}
use wazo_call_logd.Cdr.Service.Filename.{filename, search_by_filename-filename}
use wazo_call_logd.Cdr.Http.{get_all_cdrs, ListRequest, Token, load_listing, ExportJob}
use wazo_call_logd.Cdr.Csv.{CdrData, write_csv}
use wazo_call_logd.Cdr.Csv.Columns.{IsTable, write_csv-IsTable}
use wazo_call_logd.Export.{Export, Exports, RecordingFile, pending}
use wazo_call_logd.Tests.Stored.{db, cdrs, answered_cdr, voicemail_cdr, pending_export}

abbrev nil_uuid : String
nil_uuid = "00000000-0000-0000-0000-000000000000"

search_by_filename-filename_example :
    search_by_filename
      (record no_params { search = some (filename "2020-01-02T03_04_05UTC" 12 nil_uuid) })
    ≡ record no_params { search = none; id = some 12 }
search_by_filename-filename_example =
    search_by_filename-filename no_params "2020-01-02T03_04_05UTC" nil_uuid 12 (omega arith)
      (ground arith) refl (ground arith)

abbrev token : Token
token = record {
  tenant_uuid = "t1";
  request_tenant = "t1";
  user_uuid = "bob";
  visible_tenants = λ t. t ∷ "t2" ∷ [];
}

abbrev in_order : ListRequest
in_order = record {
  fields = record no_params { order = some marshmallow_answered; direction = some asc };
  tags = none;
  user_uuid = none;
  recurse = some true;
}

abbrev in_order_params : ListParams
in_order_params = record no_params { order = some marshmallow_answered; direction = some asc }

abbrev recorded_call : CdrData
recorded_call = record {
  fields = ("id", "1") ∷ ("source_name", "Alice") ∷ [];
  tags = some ("sales" ∷ "north" ∷ []);
  recordings = (("uuid", "r1") ∷ ("filename", "a.wav") ∷ []) ∷ (("uuid", "r2") ∷ []) ∷ [];
}

write_csv-IsTable_example : IsTable (recorded_call ∷ []) (write_csv (recorded_call ∷ []))
write_csv-IsTable_example = write_csv-IsTable (recorded_call ∷ [])

abbrev any_calls : ListRequest
any_calls = record { fields = no_params; tags = none; user_uuid = none; recurse = none }

abbrev listed_calls : Listing
listed_calls = record { items = answered_cdr ∷ voicemail_cdr ∷ []; filtered = 2; total = 3 }

abbrev audio : RecordingFile
audio = record { uuid = "r1"; filename = "r1.wav"; path = "/r1.wav"; call_log_id = 1 }

abbrev created_export : Export
created_export = record {
  uuid = "e2";
  tenant_uuid = "t1";
  user_uuid = "bob";
  requested_at = 5;
  status = pending;
  path = none;
}

abbrev accepted_export : Exports
accepted_export = record {
  rows = pending_export.rows ++ created_export ∷ [];
  announced = pending_export.announced ++ created_export ∷ [];
}

abbrev sent_job : ExportJob
sent_job = record {
  task_uuid = "e2";
  recordings = audio ∷ [];
  output_dir = "/exports";
  tenant_uuid = "t1";
  destination_email = none;
}

abbrev duration : String
duration = "duration"

-- A `user_uuid` that is no uuid fails in the database, an empty `tags` is refused before.
malformed_user :
    get_all_cdrs db token cdrs (record any_calls { user_uuid = some "foo" }) ≡ raise statement_error
unfolding get_all_cdrs can_bind split
malformed_user = refl

empty_tags : load_listing (record any_calls { tags = some "" }) ≡ raise validation_error
unfolding load_listing
empty_tags = refl
