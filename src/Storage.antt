-- ===== src/Storage.antt =====
-- The tables that the daemon writes, and the operations of CallLogDAO, CELDAO and TenantDAO on
-- them: database/queries/call_log.py, cel.py, tenant.py. Each operation is one transaction.
pub mod Cels
pub mod Writer
pub mod Referential
pub mod Invariant
pub mod Associated
use wazo_call_logd.Common.{
  ℕ, suc, Bool, true, false, ◌==◌, not, Option, none, some, List, [], ◌∷◌, ◌++◌, String, map, leb,
  eqb, any, all, keep, insert, insert_all, is_some, is_empty, Result, ok, raise, integrity_error,
  if◌then◌else◌,
}
use wazo_call_logd.Cel.{Cel}
use wazo_call_logd.CallLog.{CallLog}

-- a row of CallLog, with the id that the database gave it
pub record StoredLog : Type 0 where
  pub id : ℕ
  pub log : CallLog

pub record Tables : Type 0 where
  pub cels : List Cel
  pub call_logs : List StoredLog
  pub tenants : List String
  -- the sequence of the ids of CallLog
  pub next_id : ℕ

abbrev pub has_id : ℕ → List StoredLog → Bool
has_id id = any (λ l. eqb l.id id)

abbrev pub among : List ℕ → ℕ → Bool
among ids id = any (eqb id) ids

-- `delete_from_list`
unfoldable pub delete_from_list : List ℕ → Tables → Tables
delete_from_list ids s = record s { call_logs = keep (λ l. not (among ids l.id)) s.call_logs }

abbrev pub is_recent : Option ℕ → StoredLog → Bool
is_recent none l = true
is_recent (some older) l = leb older l.log.date

-- `delete`: the ids of the deleted rows
unfoldable pub delete_call_logs : Option ℕ → Tables → List ℕ × Tables
delete_call_logs older s = (
  map (λ l. l.id) (keep (is_recent older) s.call_logs),
  record s { call_logs = keep (λ l. not (is_recent older l)) s.call_logs },
)

-- The deletion of a tenant takes its call logs with it, and a purge those that it finds expired. Both
-- leave the CELs alone.
abbrev pub is_of_tenant : String → StoredLog → Bool
is_of_tenant tenant l = elim l.log.tenant_uuid [ none ↦ false | some t ↦ t == tenant ]

unfoldable pub delete_rows : (StoredLog → Bool) → Tables → List ℕ × Tables
delete_rows expired s = (
  map (λ l. l.id) (keep expired s.call_logs),
  record s { call_logs = keep (λ l. not (expired l)) s.call_logs },
)

unfoldable pub delete_tenant_rows : String → Tables → List ℕ × Tables
unfolding delete_rows
delete_tenant_rows tenant s =
    let (ids, left) = delete_rows (is_of_tenant tenant) s in
    (ids, record left { tenants = keep (λ t. not (t == tenant)) s.tenants })

-- `create_from_list`: each row gets the next id.
abbrev pub numbered : ℕ → List CallLog → List StoredLog
numbered n [] = []
numbered n (log ∷ logs) = record { id = n; log = log } ∷ numbered (suc n) logs

abbrev pub next_after : ℕ → List CallLog → ℕ
next_after n [] = n
next_after n (log ∷ logs) = next_after (suc n) logs

unfoldable pub create_from_list : List CallLog → Tables → List StoredLog × Tables
create_from_list logs s =
    let created = numbered s.next_id logs in
    (created, record s { call_logs = s.call_logs ++ created; next_id = next_after s.next_id logs })

-- `create_all_uuids_if_not_exist`; a tenant of None cannot be stored, and nothing is then.
abbrev pub tenant_uuids : List CallLog → List String
tenant_uuids [] = []
tenant_uuids (log ∷ logs) = elim log.tenant_uuid [
  | none ↦ tenant_uuids logs
  | some t ↦ insert t (tenant_uuids logs)
]

abbrev pub have_tenants : List CallLog → Bool
have_tenants = all (λ log. is_some log.tenant_uuid)

unfoldable pub create_all_uuids_if_not_exist : List CallLog → Tables → Result Tables
create_all_uuids_if_not_exist logs s =
    if have_tenants logs
    then ok (record s { tenants = insert_all (tenant_uuids logs) s.tenants })
    else raise integrity_error

-- `unassociate_all_from_call_log_ids`
abbrev pub unassociate : List ℕ → Cel → Cel
unassociate ids c = elim c.call_log_id [
  | none ↦ c
  | some id ↦ if among ids id then record c { call_log_id = none } else c
]

unfoldable pub unassociate_all_from_call_log_ids : List ℕ → Tables → Tables
unassociate_all_from_call_log_ids ids s =
    if is_empty ids then s else record s { cels = map (unassociate ids) s.cels }

-- `unassociate_all`
abbrev pub free : Cel → Cel
free c = record c { call_log_id = none }

unfoldable pub unassociate_all : Tables → Tables
unassociate_all s = record s { cels = map free s.cels }

-- `associate_all_to_call_logs`
abbrev pub associate : StoredLog → Cel → Cel
associate l c = if among l.log.cel_ids c.id then record c { call_log_id = some l.id } else c

abbrev pub associate_each : List StoredLog → List Cel → List Cel
associate_each [] cels = cels
associate_each (l ∷ ls) cels = associate_each ls (map (associate l) cels)

unfoldable pub associate_all_to_call_logs : List StoredLog → Tables → Tables
associate_all_to_call_logs logs s = record s { cels = associate_each logs s.cels }
