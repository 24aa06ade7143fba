-- ===== src/Export.antt =====
-- The export of recordings: plugins/cdr/celery_tasks.py (`RecordingExportTask`), plugins/cdr/services.py
-- (`start_recording_export`), database/queries/export.py and plugins/export/http.py.
pub mod Task
use wazo_call_logd.Common.{
  ℕ, Bool, true, false, ◌&&◌, Option, none, some, List, [], ◌∷◌, ◌++◌, String, ◌==◌, elem, filled,
  find, if◌then◌else◌,
}
use wazo_call_logd.Common.Text.{chars, string}

-- the values that the column `status` may have
pub data ExportStatus : Type 0 where
  pending processing finished deleted error : ExportStatus

-- a row of Export
pub record Export : Type 0 where
  pub uuid : String
  pub tenant_uuid : String
  pub user_uuid : String
  pub requested_at : ℕ
  pub status : ExportStatus
  pub path : Option String

-- an item of `recording_files`
pub record RecordingFile : Type 0 where
  pub uuid : String
  pub filename : String
  pub path : String
  pub call_log_id : ℕ

-- an OSError: PermissionError, FileNotFoundError, or another one
pub data FileError : Type 0 where
  permission_error file_not_found_error os_error : FileError

-- What the operating system answers: whether the archive can be opened, a file added to it, and a
-- file sent. `none` is success.
pub record Disk : Type 0 where
  pub open_zip : String → Option FileError
  pub zip_write : String → Option FileError
  pub send_file : String → Option FileError

-- What a task or a request raises.
pub data ExportError : Type 0 where
  export_not_found export_not_done export_error : ExportError
  fs_permission fs_not_found : String → ExportError
  uncaught : FileError → ExportError

-- The table, and the exports that were announced, as they were then.
pub record Exports : Type 0 where
  pub rows : List Export
  pub announced : List Export

-- `ExportDAO.get`: no tenants at all find nothing, and None stands for every tenant.
abbrev pub export_visible : Option (List String) → String → Export → Bool
export_visible none uuid e = e.uuid == uuid
export_visible (some tenants) uuid e = elem e.tenant_uuid tenants && e.uuid == uuid

unfoldable pub get_export : String → Option (List String) → Exports → Option Export
get_export uuid tenants s = find (export_visible tenants uuid) s.rows

abbrev pub save : Export → List Export → List Export
save e [] = []
save e (r ∷ rs) = (if r.uuid == e.uuid then e else r) ∷ save e rs

-- `dao.export.update(export)` and `notifier.updated(export)`
unfoldable pub update_export : Export → Exports → Exports
update_export e s = record { rows = save e s.rows; announced = s.announced ++ e ∷ [] }

-- `start_recording_export` up to the task; the database gives the uuid
unfoldable pub create_export : String → String → String → ℕ → Exports → Export × Exports
create_export uuid user_uuid tenant_uuid now s =
    let e : Export = record {
      uuid = uuid;
      tenant_uuid = tenant_uuid;
      user_uuid = user_uuid;
      requested_at = now;
      status = pending;
      path = none;
    } in
    (e, record { rows = s.rows ++ e ∷ []; announced = s.announced ++ e ∷ [] })

-- The first recording that cannot be added to the archive.
unfoldable pub first_failure : Disk → List RecordingFile → Option (RecordingFile × FileError)
first_failure disk [] = none
first_failure disk (r ∷ rs) = elim (disk.zip_write r.path) [
  | some e ↦ some (r, e)
  | none ↦ first_failure disk rs
]

-- `os.path.join(output_dir, f'{task_uuid}.zip')`, for a directory with no slash at its end
unfoldable pub archive_path : String → String → String
archive_path output_dir uuid =
    string (chars output_dir ++ (chars "/" ++ (chars uuid ++ chars ".zip")))

-- The `with` block and what follows it; `e` is the export that is in process.
unfoldable pub finish_task :
    String → Export → Option (RecordingFile × FileError) → Exports → Option ExportError × Exports
unfolding update_export
finish_task fullpath e (some (r, permission_error)) s =
    (some (fs_permission r.path), update_export (record e { status = error }) s)
finish_task fullpath e (some (r, file_not_found_error)) s =
    (some (fs_not_found r.path), update_export (record e { status = error }) s)
finish_task fullpath e (some (r, os_error)) s = (some (uncaught os_error), s)
finish_task fullpath e none s =
    (none, update_export (record e { path = some fullpath; status = finished }) s)

unfoldable pub fill_archive :
    Disk → String → Export → List RecordingFile → Exports → Option ExportError × Exports
unfolding finish_task first_failure
fill_archive disk fullpath e recordings s = elim (disk.open_zip fullpath) [
  | some x ↦ (some (uncaught x), s)
  | none ↦ finish_task fullpath e (first_failure disk recordings) s
]

-- `RecordingExportTask._run`, up to the e-mail
unfoldable pub run_task :
    Disk → String → String → List RecordingFile → String → Exports → Option ExportError × Exports
unfolding get_export update_export fill_archive archive_path
run_task disk task_uuid tenant_uuid recordings output_dir s =
    elim (get_export task_uuid (some (tenant_uuid ∷ [])) s) [
      | none ↦ (some export_not_found, s)
      | some found ↦
          let e = record found { status = processing } in
          fill_archive disk (archive_path output_dir task_uuid) e recordings (update_export e s)
    ]

-- What a download answers: the file that is sent, or an error.
pub data Download : Type 0 where
  sent : String → Download
  refused : ExportError → Download

abbrev pub answer_file : String → Option FileError → Download
answer_file path none = sent path
answer_file path (some permission_error) = refused (fs_permission path)
answer_file path (some file_not_found_error) = refused (fs_not_found path)
answer_file path (some os_error) = refused (uncaught os_error)

abbrev pub is_waiting : ExportStatus → Bool
is_waiting pending = true
is_waiting processing = true
is_waiting _ = false

abbrev pub is_failed : ExportStatus → Bool
is_failed error = true
is_failed _ = false

-- `ExportDownloadResource.get`, for an export that is found
unfoldable pub download_found : Disk → Export → Download
download_found disk e = if is_waiting e.status then refused export_not_done else elim e.path [
  | none ↦ refused export_not_found
  | some path ↦
      if filled path
      then (if is_failed e.status
          then refused export_error
          else answer_file path (disk.send_file path))
      else refused export_not_found
]

unfoldable pub download : Disk → String → List String → Exports → Download
unfolding get_export download_found
download disk uuid tenants s = elim (get_export uuid (some tenants) s) [
  | none ↦ refused export_not_found
  | some e ↦ download_found disk e
]
