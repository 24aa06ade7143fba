-- ===== src/Tests/Service.antt =====
-- The theorems on the stored calls, the manager, the transcriptions and the exports, at concrete
-- inputs.
use wazo_call_logd.Common.{
  ◌++◌, ◌≡◌, refl, false, not, ◌&&◌, none, some, List, [], ◌∷◌, ◌==◌, map, any, arith, ok,
}
use wazo_call_logd.Common.Text.{chars}
use wazo_call_logd.Common.Sql.{selects}
use wazo_call_logd.Cel.{Cel, is_event}
use wazo_call_logd.Cdr.Status.{
  voicemail, blocked, call_status, same_status, by_status, default_call_status, filter_status,
  status_rank, rank_of, filter_status-eq-call_status,
}
use wazo_call_logd.Cdr.Service.{Listing, get_cdr}
use wazo_call_logd.Cdr.Service.Visible.{Visible}
use wazo_call_logd.Cdr.Media.{delete_recordings, delete_media}
use wazo_call_logd.Cdr.Media.Deleted.{
  is_done, is_stored, delete_recordings-hidden, delete_media-denied,
}
use wazo_call_logd.Storage.{delete_tenant_rows, has_id}
use wazo_call_logd.Storage.Cels.{find_from_linked_id}
use wazo_call_logd.Storage.Cels.Correlated.{find_from_linked_id-joined}
use wazo_call_logd.Storage.Referential.{IsReferential}
use wazo_call_logd.Storage.{StoredLog, unassociate}
use wazo_call_logd.CallLog.{CallLog, convert}
use wazo_call_logd.RawCallLog.{empty_call}
use wazo_call_logd.Storage.Writer.{write}
use wazo_call_logd.Storage.Associated.{owned, cels-write}
use wazo_call_logd.Generator.Batch.{CallLogsCreation}
use wazo_call_logd.Manager.{generate_from_cels, generate_from_linked_id}
use wazo_call_logd.Manager.Reachable.{
  tenant_deleted, here, after, link_ended, Reachable-IsReferential,
}
use wazo_call_logd.Manager.Replaced.{generate_from_cels-replaced}
use wazo_call_logd.Transcription.{
  Transcription, Server, BusEvent, transcription_completed, voicemail_message_deleted,
  get_by_message_id, handle, handle_all,
}
use wazo_call_logd.Transcription.Unique.{IsUnique, handle_all-IsUnique}
use wazo_call_logd.Transcription.Lookup.{handle-completed}
use wazo_call_logd.Transcription.Listing.{escape}
use wazo_call_logd.Transcription.Listing.Literal.{like_items, literal, like_items-escape}
use wazo_call_logd.Export.{
  error, export_not_found, permission_error, file_not_found_error, first_failure, get_export,
  run_task, download, refused,
}
use wazo_call_logd.Export.Task.{run_task-failed}
use wazo_call_logd.Purger.{
  Store, purge_tenant_call_logs, purge_tenant_exports, purge_tenant_recordings,
}
use wazo_call_logd.Common.Dict.{put}
use wazo_call_logd.Purger.Removal.{remove_tenants}
use wazo_call_logd.Samples.{ext, confd, simple_call, day_store}
use wazo_call_logd.Tests.Stored.{
  db, voicemail_cdr, one_call_log, generated_before, spoken, transcriptions, server, pending_export,
  first_export, exported, empty_disk, archive, willing, unwilling, recording_of_1,
}
use Prim.Native.Char.{code}

filter_status-eq-call_status_example :
    (selects (filter_status (by_status voicemail) voicemail_cdr)
      ≡ same_status (call_status voicemail_cdr) voicemail)
    × (selects (filter_status default_call_status voicemail_cdr)
        ≡ not (same_status (call_status voicemail_cdr) blocked))
    × (status_rank voicemail_cdr ≡ rank_of (call_status voicemail_cdr))
filter_status-eq-call_status_example = filter_status-eq-call_status voicemail voicemail_cdr

one_call_log-IsReferential : IsReferential [] one_call_log.tables
one_call_log-IsReferential = record {
  of_cels = (refl, (refl, tt));
  of_call_logs = tt;
  fresh = tt;
  gone_fresh = tt;
}

-- The tenant is deleted after a link has ended.
Reachable-IsReferential_example :
    let tables = (generate_from_linked_id ext confd "t1" "2" one_call_log).1.tables in
    let out = delete_tenant_rows "t1" tables in IsReferential (out.0 ++ []) out.1
Reachable-IsReferential_example =
    Reachable-IsReferential
      (after (tenant_deleted "t1" (generate_from_linked_id ext confd "t1" "2" one_call_log).1)
        (after (link_ended ext confd "t1" "2" one_call_log) here))
      one_call_log-IsReferential

generates_nothing : (generate_from_cels ext confd "t1" generated_before one_call_log).0 ≡ ok []
unfolding generate_from_cels is_event
generates_nothing = refl

generate_from_cels-replaced_example :
    has_id 3 (generate_from_cels ext confd "t1" generated_before one_call_log).1.tables.call_logs
    ≡ false
generate_from_cels-replaced_example =
    generate_from_cels-replaced ext confd "t1" generated_before one_call_log 3 [] generates_nothing
      refl (omega arith) (omega arith)

find_from_linked_id-joined_example :
    any (λ (c : Cel). c.linkedid == "1" && c.uniqueid == "B") (find_from_linked_id simple_call "1")
    ≡ any (λ (c : Cel). c.linkedid == "1" && c.uniqueid == "B") simple_call
find_from_linked_id-joined_example =
    find_from_linked_id-joined simple_call "1" "1" "A" (λ c. c.uniqueid == "B") refl refl

abbrev events : List (Server × BusEvent)
events =
    (server, transcription_completed (spoken "m1" "hello again"))
    ∷ (server, voicemail_message_deleted "m2")
    ∷ []

handle_all-IsUnique_example : IsUnique (handle_all events transcriptions)
unfolding handle
handle_all-IsUnique_example =
    handle_all-IsUnique events transcriptions (refl, (refl, tt))
      (record { by_uuid = (refl, tt); by_message = (refl, tt) })

handle-completed_example :
    (row : Transcription) × (get_by_message_id "m1"
        (some ("t1" ∷ []))
        (handle server (transcription_completed (spoken "m1" "hello again")) transcriptions)
      ≡ some row)
    × (row.attributes ≡ spoken "m1" "hello again")
unfolding get_by_message_id
handle-completed_example =
    handle-completed server (spoken "m1" "hello again") transcriptions refl refl refl

like_items-escape_example :
    like_items false (escape (chars "50%_\\")) ≡ map (λ c. literal (code c)) (chars "50%_\\")
like_items-escape_example = like_items-escape (chars "50%_\\")

run_task-failed_example :
    let (raised, left) = run_task empty_disk "e1" "t1" (exported ∷ []) "/exports" pending_export in
    (get_export "e1" (some ("t1" ∷ [])) left ≡ some (record first_export { status = error }))
    × (download empty_disk "e1" ("t1" ∷ []) left ≡ refused export_not_found)
unfolding get_export first_failure
run_task-failed_example =
    run_task-failed empty_disk "e1" "t1" (exported ∷ []) "/exports" pending_export first_export refl
      refl exported file_not_found_error refl (cc) refl

delete_recordings-hidden_example :
    let (response, left) = delete_recordings db willing ("t1" ∷ []) (1 ∷ 4 ∷ []) archive in
    (is_done response ≡ false) × (left ≡ archive)
unfolding get_cdr
delete_recordings-hidden_example =
    delete_recordings-hidden db willing ("t1" ∷ []) (1 ∷ 4 ∷ []) archive refl

delete_media-denied_example :
    let (raised, left) = delete_media unwilling 1 "r1" (some "/r1.wav") archive in
    (raised ≡ some permission_error)
    × (left.files ≡ archive.files)
    × (is_stored left.table recording_of_1 ≡ false)
delete_media-denied_example =
    delete_media-denied unwilling recording_of_1 "/r1.wav" archive refl refl

abbrev new_log : CallLog
new_log = record (convert empty_call 5) { tenant_uuid = some "t1"; cel_ids = 11 ∷ [] }

abbrev replacement : CallLogsCreation
replacement = record { new_call_logs = new_log ∷ []; call_logs_to_delete = 3 ∷ [] }

abbrev stored_log : StoredLog
stored_log = record { id = 5; log = new_log }

cels-write_example :
    (write replacement one_call_log.tables).1.cels
    ≡ map (λ c. owned (stored_log ∷ []) (unassociate (3 ∷ []) c)) one_call_log.tables.cels
unfolding write
cels-write_example = cels-write replacement one_call_log.tables (stored_log ∷ []) refl

-- The tenant keeps its calls and recordings for 10 days. Its young call goes with the tenant, and the file of the
-- recording stays.
abbrev kept_days : Store
kept_days = record day_store {
  retentions =
      record {
        tenant_uuid = "t2";
        cdr_days = some 10;
        recording_days = some 10;
        export_days = none;
      }
      ∷ [];
  call_logs = record { id = 4; tenant_uuid = "t2"; date = 995; paths = some "/r4.wav" ∷ [] } ∷ [];
  files = "/r4.wav" ∷ [];
}

removed_tenant_leaves_file :
    remove_tenants 1 1000 ("t1" ∷ []) kept_days
    ≡ ok (record day_store {
      tenants = "t1" ∷ [];
      retentions = [];
      call_logs = [];
      files = "/r4.wav" ∷ [];
    })
unfolding remove_tenants purge_tenant_call_logs purge_tenant_exports purge_tenant_recordings put
removed_tenant_leaves_file = refl
