-- ===== src/Storage/Writer.antt =====
-- writer.py: `CallLogsWriter.write`, and the calls of the manager that delete.
use wazo_call_logd.Common.{ℕ, ◌-◌, ◌*◌, none, some, List, Result, ok, raise}
use wazo_call_logd.CallLog.{CallLog}
use wazo_call_logd.Generator.Batch.{CallLogsCreation}
use wazo_call_logd.Storage.{
  StoredLog, Tables, delete_from_list, delete_call_logs, create_from_list,
  create_all_uuids_if_not_exist, unassociate_all_from_call_log_ids, unassociate_all,
  associate_all_to_call_logs,
}

-- `write`, where the tenants are stored, or else not; `freed` are the tables before that.
unfoldable pub write_known :
    List CallLog → Tables → Result Tables → Result (List StoredLog) × Tables
unfolding create_from_list associate_all_to_call_logs
write_known logs freed (raise e) = (raise e, freed)
write_known logs freed (ok known) =
    let (created, stored) = create_from_list logs known in
    (ok created, associate_all_to_call_logs created stored)

-- The new rows, or the error, and the tables, where the transactions before an error stay.
unfoldable pub write : CallLogsCreation → Tables → Result (List StoredLog) × Tables
unfolding delete_from_list unassociate_all_from_call_log_ids create_all_uuids_if_not_exist
    write_known
write creation s =
    let logs = creation.new_call_logs in
    let deleted = delete_from_list creation.call_logs_to_delete s in
    let freed = unassociate_all_from_call_log_ids creation.call_logs_to_delete deleted in
    write_known logs freed (create_all_uuids_if_not_exist logs freed)

-- manager.py: `delete_all`
unfoldable pub delete_all : Tables → Tables
unfolding delete_call_logs unassociate_all
delete_all s = unassociate_all (delete_call_logs none s).1

-- manager.py: `delete_from_days`, at `day` units of time for a day
unfoldable pub delete_from_days : ℕ → ℕ → ℕ → Tables → Tables
unfolding delete_call_logs unassociate_all_from_call_log_ids
delete_from_days day now days s =
    let (ids, left) = delete_call_logs (some (now - days * day)) s in
    unassociate_all_from_call_log_ids ids left
