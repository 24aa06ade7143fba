-- ===== src/Manager.antt =====
-- manager.py: `CallLogsManager`, over the tables and the messages on the bus.
pub mod Reachable
pub mod Replaced
use wazo_call_logd.Common.{
  ℕ, ◌-◌, ◌*◌, none, some, List, [], ◌∷◌, ◌++◌, Option, Bool, true, false, if◌then◌else◌, eqb,
  String, Result, ok, raise,
}
use wazo_call_logd.External.{External, Confd}
use wazo_call_logd.Cel.{Cel}
use wazo_call_logd.RawCallLog.{CallLogParticipant}
use wazo_call_logd.Generator.Batch.{CallLogsCreation, default_interpretors, from_cel}
use wazo_call_logd.Storage.{StoredLog, Tables}
use wazo_call_logd.Storage.Cels.{find_last_unprocessed, find_from_linked_id}
use wazo_call_logd.Storage.Writer.{write, delete_all, delete_from_days}

-- bus.py: the events of a new call log, for its tenant and for each of its users
pub data CallLogEvent : Type 0 where
  call_log_created : StoredLog → CallLogEvent
  call_log_user_created : StoredLog → String → CallLogEvent

abbrev pub user_events : StoredLog → List CallLogParticipant → List CallLogEvent
user_events l [] = []
user_events l (p ∷ ps) = call_log_user_created l p.user_uuid ∷ user_events l ps

-- bus.py: `publish_call_log`
unfoldable pub publish_call_log : List StoredLog → List CallLogEvent
publish_call_log [] = []
publish_call_log (l ∷ ls) =
    call_log_created l ∷ (user_events l l.log.participants ++ publish_call_log ls)

-- The tables, and the events that were published.
pub record Service : Type 0 where
  pub tables : Tables
  pub published : List CallLogEvent

-- What is written is published; where the writer fails, nothing is.
unfoldable pub publish_written :
    Result (List StoredLog) × Tables → Service → Result (List StoredLog) × Service
unfolding publish_call_log
publish_written (raise e, tables) s = (raise e, record s { tables = tables })
publish_written (ok created, tables) s =
    (ok created, record { tables = tables; published = s.published ++ publish_call_log created })

unfoldable pub write_and_publish :
    Result CallLogsCreation → Service → Result (List StoredLog) × Service
unfolding write publish_written
write_and_publish (raise e) s = (raise e, s)
write_and_publish (ok creation) s = publish_written (write creation s.tables) s

module _ (ext : External) (confd : Confd) (service_tenant : String) where
  -- `_generate_from_cels`
  unfoldable pub generate_from_cels : List Cel → Service → Result (List StoredLog) × Service
  unfolding from_cel write_and_publish
  generate_from_cels cels =
      write_and_publish (from_cel ext confd service_tenant default_interpretors cels)

  -- `generate_from_days`
  unfoldable pub generate_from_days : ℕ → ℕ → ℕ → Service → Result (List StoredLog) × Service
  unfolding generate_from_cels find_last_unprocessed
  generate_from_days day now days s =
      generate_from_cels (find_last_unprocessed s.tables.cels none (some (now - days * day))) s

  -- `generate_from_count`
  unfoldable pub generate_from_count : ℕ → Service → Result (List StoredLog) × Service
  unfolding generate_from_cels find_last_unprocessed
  generate_from_count cel_count s =
      generate_from_cels (find_last_unprocessed s.tables.cels (some cel_count) none) s

  -- `generate_from_linked_id`
  unfoldable pub generate_from_linked_id : String → Service → Result (List StoredLog) × Service
  unfolding generate_from_cels find_from_linked_id
  generate_from_linked_id linked_id s =
      generate_from_cels (find_from_linked_id s.tables.cels linked_id) s

-- main_sweep.py: what `wazo-call-logs` is asked for. A number of days that is 0 is not given.
pub record Options : Type 0 where
  pub delete : Bool
  pub all_call_logs : Bool
  pub days : Option ℕ
  pub cel_count : ℕ

abbrev pub given : Option ℕ → Option ℕ
given none = none
given (some n) = if eqb n 0 then none else some n

module _ (day now : ℕ) where
  unfoldable pub sweep_delete : Bool → Option ℕ → Tables → Tables
  unfolding delete_all delete_from_days
  sweep_delete true days s = delete_all s
  sweep_delete false none s = s
  sweep_delete false (some days) s = delete_from_days day now days s

module _ (ext : External) (confd : Confd) (service_tenant : String) (day now : ℕ) where
  unfoldable pub sweep_generate : Option ℕ → ℕ → Service → Result (List StoredLog) × Service
  unfolding generate_from_days generate_from_count
  sweep_generate none cel_count s = generate_from_count ext confd service_tenant cel_count s
  sweep_generate (some days) cel_count s =
      generate_from_days ext confd service_tenant day now days s

  -- `_generate_call_logs`, with its manager
  unfoldable pub sweep : Options → Service → Result (List StoredLog) × Service
  unfolding sweep_delete sweep_generate
  sweep options s =
      let days = given options.days in
      let left = sweep_delete day now options.all_call_logs days s.tables in
      if options.delete
      then (ok [], record s { tables = left })
      else sweep_generate days options.cel_count s
