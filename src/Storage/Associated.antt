-- ===== src/Storage/Associated.antt =====
-- Which call log a CEL belongs to after a write.
use wazo_call_logd.Common.{
  ok-injective, ℕ, ◌≡◌, refl, ◌∙◌, ap, Bool, true, false, Option, none, some, List, [], ◌∷◌, map,
  Result, ok, raise, integrity_error, insert_all, arith, if◌then◌else◌,
}
use wazo_call_logd.Cel.{Cel}
use wazo_call_logd.CallLog.{CallLog}
use wazo_call_logd.Generator.Batch.{CallLogsCreation}
use wazo_call_logd.Storage.{
  StoredLog, Tables, among, tenant_uuids, have_tenants, unassociate, associate, associate_each,
  unassociate_all_from_call_log_ids, delete_from_list, create_all_uuids_if_not_exist,
  create_from_list, associate_all_to_call_logs,
}
use wazo_call_logd.Storage.Writer.{write, write_known}
use wazo_call_logd.Storage.Referential.{unassociate_all_from_call_log_ids_lem}

-- The id of the last of the call logs that has the CEL.
abbrev pub owner : List StoredLog → ℕ → Option ℕ
owner [] n = none
owner (l ∷ ls) n = elim (owner ls n) [
  | some id ↦ some id
  | none ↦ if among l.log.cel_ids n then some l.id else none
]

-- The CEL of that call log, or else with the reference that it has.
abbrev pub owned : List StoredLog → Cel → Cel
owned ls c = elim (owner ls c.id) [ none ↦ c | some id ↦ record c { call_log_id = some id } ]

owned-cons :
    (l : StoredLog) (ls : List StoredLog) (c : Cel) → owned ls (associate l c) ≡ owned (l ∷ ls) c
owned-cons l ls c = ground arith

map-owned-cons :
    (l : StoredLog) (ls : List StoredLog) (cels : List Cel)
    → map (owned ls) (map (associate l) cels) ≡ map (owned (l ∷ ls)) cels
map-owned-cons l ls [] = refl
map-owned-cons l ls (c ∷ cels) = λ i. owned-cons l ls c i ∷ map-owned-cons l ls cels i

map-owned_none : (cels : List Cel) → cels ≡ map (owned []) cels
map-owned_none [] = refl
map-owned_none (c ∷ cels) = ap (λ cs. c ∷ cs) (map-owned_none cels)

associate_each_lem :
    (ls : List StoredLog) (cels : List Cel) → associate_each ls cels ≡ map (owned ls) cels
associate_each_lem [] cels = map-owned_none cels
associate_each_lem (l ∷ ls) cels =
    associate_each_lem ls (map (associate l) cels) ∙ map-owned-cons l ls cels

cels-write_known :
    (logs : List CallLog) (freed : Tables) (created : List StoredLog)
    → (write_known logs freed (create_all_uuids_if_not_exist logs freed)).0 ≡ ok created
    → (write_known logs freed (create_all_uuids_if_not_exist logs freed)).1.cels
      ≡ associate_each created freed.cels
unfolding write_known create_all_uuids_if_not_exist create_from_list associate_all_to_call_logs
cels-write_known logs freed created =
    let stored : Bool → Result Tables = λ b.
      if b
      then ok (record freed { tenants = insert_all (tenant_uuids logs) freed.tenants })
      else raise integrity_error in
    elim (have_tenants logs)
      as (λ b.
        (write_known logs freed (stored b)).0 ≡ ok created
        → (write_known logs freed (stored b)).1.cels ≡ associate_each created freed.cels) [
          | true ↦ λ h. ap (λ ls. associate_each ls freed.cels) (ok-injective h)
          | false ↦ λ h. cc
        ]

map-map : (f g : Cel → Cel) (cels : List Cel) → map f (map g cels) ≡ map (λ c. f (g c)) cels
map-map f g [] = refl
map-map f g (c ∷ cels) = ap (λ cs. f (g c) ∷ cs) (map-map f g cels)

-- After a write that does not fail, a CEL refers to the last of the new call logs that has it; one
-- that none of them has keeps its reference, unless that is to a call log that was to be deleted.
-- No CEL is lost, and nothing else in it changes.
pub cels-write :
    (creation : CallLogsCreation) (s : Tables) (created : List StoredLog)
    → (write creation s).0 ≡ ok created
    → (write creation s).1.cels
      ≡ map (λ c. owned created (unassociate creation.call_logs_to_delete c)) s.cels
unfolding write delete_from_list
cels-write creation s created h =
    let ids = creation.call_logs_to_delete in
    let freed = unassociate_all_from_call_log_ids ids (delete_from_list ids s) in
    let same_tables = unassociate_all_from_call_log_ids_lem ids (delete_from_list ids s) in
    cels-write_known creation.new_call_logs freed created h
    ∙ associate_each_lem created freed.cels
    ∙ ap (λ (t : Tables). map (owned created) t.cels) same_tables
    ∙ map-map (owned created) (unassociate ids) s.cels
