-- ===== src/Manager/Reachable.antt =====
-- The states that the daemon and `wazo-call-logs` reach.
use wazo_call_logd.Storage.Cels.{find_last_unprocessed, find_from_linked_id}
use wazo_call_logd.Common.{
  ℕ, ◌-◌, ◌*◌, Bool, true, false, [], ◌++◌, if◌then◌else◌, ◌≡◌, refl, subst, sym, String, List,
  Result, ok, raise, Option, some, none,
}
use wazo_call_logd.External.{External, Confd}
use wazo_call_logd.Cel.{Cel}
use wazo_call_logd.Generator.Batch.{CallLogsCreation, default_interpretors, from_cel}
use wazo_call_logd.Storage.{StoredLog, Tables, delete_rows, delete_tenant_rows}
use wazo_call_logd.Storage.Writer.{write}
use wazo_call_logd.Storage.Referential.{
  IsReferential, delete_rows-IsReferential, delete_tenant_rows-IsReferential,
}
use wazo_call_logd.Storage.Invariant.{
  write-IsReferential, delete_all-IsReferential, delete_from_days-IsReferential,
}
use wazo_call_logd.Manager.{
  Service, Options, given, publish_written, write_and_publish, generate_from_cels,
  generate_from_days, generate_from_count, generate_from_linked_id, sweep_delete, sweep_generate,
  sweep,
}

-- One run of the daemon on an event that ends a link or that deletes a tenant, of the command that
-- generates call logs, or of a purge, with the answers of the services at that time. The list holds
-- the ids of the call logs that go while the CELs keep their references. A purge or a deletion of a
-- tenant that raises is undone with its transaction, and is no step.
pub data Step : List ℕ → Service → Service → Type 0 where
  link_ended :
      (ext : External) (confd : Confd) (tenant linked_id : String) (s : Service)
      → Step [] s (generate_from_linked_id ext confd tenant linked_id s).1
  swept :
      (ext : External) (confd : Confd) (tenant : String) (day now : ℕ) (options : Options)
      (s : Service)
      → Step [] s (sweep ext confd tenant day now options s).1
  tenant_deleted :
      (tenant : String) (s : Service)
      → Step
          (delete_tenant_rows tenant s.tables).0
          s
          (record s { tables = (delete_tenant_rows tenant s.tables).1 })
  purged :
      (expired : StoredLog → Bool) (s : Service)
      → Step
          (delete_rows expired s.tables).0
          s
          (record s { tables = (delete_rows expired s.tables).1 })

-- The steps from a state, the last one first, with all ids that went so.
pub data Reachable (start : Service) : List ℕ → Service → Type 0 where
  here : Reachable start [] start
  after :
      {ids gone : List ℕ} {s t : Service}
      → Step ids s t
      → Reachable start gone s
      → Reachable start (ids ++ gone) t

pub tables-publish_written :
    (w : Result (List StoredLog) × Tables) (s : Service) → (publish_written w s).1.tables ≡ w.1
unfolding publish_written
tables-publish_written (ok created, tables) s = refl
tables-publish_written (raise e, tables) s = refl

write_and_publish-IsReferential :
    (gone : List ℕ) (r : Result CallLogsCreation) (s : Service)
    → IsReferential gone s.tables
    → IsReferential gone (write_and_publish r s).1.tables
unfolding write_and_publish
write_and_publish-IsReferential gone (raise e) s h = h
write_and_publish-IsReferential gone (ok creation) s h =
    subst (IsReferential gone) (sym (tables-publish_written (write creation s.tables) s))
      (write-IsReferential gone creation s.tables h)

module _ (ext : External) (confd : Confd) (tenant : String) where
  generate_from_cels-IsReferential :
      (gone : List ℕ) (cels : List Cel) (s : Service)
      → IsReferential gone s.tables
      → IsReferential gone (generate_from_cels ext confd tenant cels s).1.tables
  unfolding generate_from_cels
  generate_from_cels-IsReferential gone cels s =
      write_and_publish-IsReferential gone (from_cel ext confd tenant default_interpretors cels) s

sweep_delete-IsReferential :
    (gone : List ℕ) (day now : ℕ) (everything : Bool) (days : Option ℕ) (s : Tables)
    → IsReferential gone s
    → IsReferential gone (sweep_delete day now everything days s)
unfolding sweep_delete
sweep_delete-IsReferential gone day now true days s h = delete_all-IsReferential gone s h
sweep_delete-IsReferential gone day now false none s h = h
sweep_delete-IsReferential gone day now false (some days) s h =
    delete_from_days-IsReferential gone day now days s h

sweep_generate-IsReferential :
    (gone : List ℕ) (ext : External) (confd : Confd) (tenant : String) (day now : ℕ)
    (days : Option ℕ) (count : ℕ) (s : Service)
    → IsReferential gone s.tables
    → IsReferential gone (sweep_generate ext confd tenant day now days count s).1.tables
unfolding sweep_generate generate_from_days generate_from_count
sweep_generate-IsReferential gone ext confd tenant day now none count s h =
    generate_from_cels-IsReferential ext confd tenant gone
      (find_last_unprocessed s.tables.cels (some count) none) s h
sweep_generate-IsReferential gone ext confd tenant day now (some days) count s h =
    generate_from_cels-IsReferential ext confd tenant gone
      (find_last_unprocessed s.tables.cels none (some (now - days * day))) s h

Step-IsReferential :
    (gone : List ℕ) {ids : List ℕ} {s t : Service}
    → Step ids s t
    → IsReferential gone s.tables
    → IsReferential (ids ++ gone) t.tables
unfolding generate_from_linked_id sweep
Step-IsReferential gone (link_ended ext confd tenant linked_id s) h =
    generate_from_cels-IsReferential ext confd tenant gone
      (find_from_linked_id s.tables.cels linked_id) s h
Step-IsReferential gone (swept ext confd tenant day now options s) h =
    let days = given options.days in
    elim options.delete
      as (λ b.
        IsReferential gone
          (if b
            then (
              ok [],
              record s { tables = sweep_delete day now options.all_call_logs days s.tables },
            )
            else sweep_generate ext confd tenant day now days options.cel_count s).1.tables) [
              | true ↦ sweep_delete-IsReferential gone day now options.all_call_logs days s.tables h
              | false ↦
                  sweep_generate-IsReferential gone ext confd tenant day now days options.cel_count
                    s h
            ]
Step-IsReferential gone (tenant_deleted tenant s) h =
    delete_tenant_rows-IsReferential gone s.tables h tenant
Step-IsReferential gone (purged expired s) h = delete_rows-IsReferential gone s.tables h expired

-- In every state that is reached from one where the references between the tables are whole, each
-- CEL refers to a call log that is there, or to one that a purge or the deletion of a tenant took
-- away; each call log is one of a tenant that is there; and no call log that is there or was taken
-- away so has an id that is still to be given.
pub Reachable-IsReferential :
    {start s : Service} {gone : List ℕ}
    → Reachable start gone s
    → IsReferential [] start.tables
    → IsReferential gone s.tables
Reachable-IsReferential here h = h
Reachable-IsReferential (after {gone = gone} step before) h =
    Step-IsReferential gone step (Reachable-IsReferential before h)
