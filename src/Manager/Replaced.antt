-- ===== src/Manager/Replaced.antt =====
-- About a generation from CELs that have call logs already.
use wazo_call_logd.Common.{
  ℕ, suc, ◌<◌, ◌≡◌, ◌≢◌, refl, sym, ◌∙◌, ap, Bool, true, false, not, none, some, List, [], ◌∷◌,
  ◌++◌, String, inl, inr, any, any-append, keep, eqb, eqb→eq, eqb_refl, insert_all, integrity_error,
  Bool-cases, Option-cases, subst, Result-cases, arith, Result, ok, raise, if◌then◌else◌,
}
use wazo_call_logd.External.{External, Confd}
use wazo_call_logd.Cel.{Cel}
use wazo_call_logd.CallLog.{CallLog}
use wazo_call_logd.Generator.Batch.{
  CallLogsCreation, default_interpretors, call_logs_from_cel, from_cel, list_call_log_ids,
}
use wazo_call_logd.Storage.{
  StoredLog, Tables, has_id, among, tenant_uuids, numbered, have_tenants,
  unassociate_all_from_call_log_ids, delete_from_list, create_all_uuids_if_not_exist,
  create_from_list, associate_all_to_call_logs,
}
use wazo_call_logd.Storage.Writer.{write, write_known}
use wazo_call_logd.Storage.Referential.{unassociate_all_from_call_log_ids_lem}
use wazo_call_logd.Manager.Reachable.{tables-publish_written}
use wazo_call_logd.Manager.{Service, publish_written, write_and_publish, generate_from_cels}

-- The CEL refers to the call log with the id.
abbrev pub refers_to : ℕ → Cel → Bool
refers_to id c = elim c.call_log_id [ none ↦ false | some n ↦ eqb id n ]

among-list_call_log_ids :
    (id : ℕ) (cels : List Cel)
    → any (refers_to id) cels ≡ true
    → id ≢ 0
    → among (list_call_log_ids cels) id ≡ true
unfolding list_call_log_ids
among-list_call_log_ids id [] h k = h
among-list_call_log_ids id (c ∷ cels) h k = elim (Option-cases c.call_log_id) [
  | inl e ↦ ground (arith, e, h, among-list_call_log_ids id cels (ground (arith, e, h)) k)
  | inr (n, e) ↦ elim (Bool-cases (eqb id n)) [
    | inl same ↦
        let own : c.call_log_id ≡ some id = e ∙ ap some (sym (eqb→eq id n same)) in
        ground (arith, own, k, eqb_refl id)
    | inr other ↦
        ground (arith, e, h, other, among-list_call_log_ids id cels (ground (arith, e, h, other)) k)
  ]
]

numbered-below : (id n : ℕ) (logs : List CallLog) → id < n → has_id id (numbered n logs) ≡ false
numbered-below id n [] h = refl
numbered-below id n (log ∷ logs) h =
    ground (arith, numbered-below id (suc n) logs (omega (arith, h)))

keep-absent :
    (ids : List ℕ) (id : ℕ) (logs : List StoredLog)
    → among ids id ≡ true
    → has_id id (keep (λ l. not (among ids l.id)) logs) ≡ false
keep-absent ids id [] h = refl
keep-absent ids id (l ∷ ls) h = elim (Bool-cases (eqb l.id id)) [
  | inl same ↦
      let gone : among ids l.id ≡ true = ap (among ids) (eqb→eq l.id id same) ∙ h in
      ground (arith, gone, keep-absent ids id ls h)
  | inr other ↦ ground (arith, other, keep-absent ids id ls h)
]

call_logs-write_known :
    (logs : List CallLog) (freed : Tables) (created : List StoredLog)
    → (write_known logs freed (create_all_uuids_if_not_exist logs freed)).0 ≡ ok created
    → (write_known logs freed (create_all_uuids_if_not_exist logs freed)).1.call_logs
      ≡ freed.call_logs ++ numbered freed.next_id logs
unfolding write_known create_all_uuids_if_not_exist create_from_list associate_all_to_call_logs
call_logs-write_known logs freed created =
    let stored : Bool → Result Tables = λ b.
      if b
      then ok (record freed { tenants = insert_all (tenant_uuids logs) freed.tenants })
      else raise integrity_error in
    elim (have_tenants logs)
      as (λ b.
        (write_known logs freed (stored b)).0 ≡ ok created
        → (write_known logs freed (stored b)).1.call_logs
          ≡ freed.call_logs ++ numbered freed.next_id logs) [ true ↦ λ h. refl | false ↦ λ h. cc ]

-- The tables behind a write that does not fail.
call_logs-write :
    (creation : CallLogsCreation) (s : Tables) (created : List StoredLog)
    → (write creation s).0 ≡ ok created
    → (write creation s).1.call_logs
      ≡ keep (λ l. not (among creation.call_logs_to_delete l.id)) s.call_logs
        ++ numbered s.next_id creation.new_call_logs
unfolding write delete_from_list
call_logs-write creation s created h =
    let ids = creation.call_logs_to_delete in
    let freed = unassociate_all_from_call_log_ids ids (delete_from_list ids s) in
    let same_tables = unassociate_all_from_call_log_ids_lem ids (delete_from_list ids s) in
    call_logs-write_known creation.new_call_logs freed created h ∙ λ i.
    (same_tables i).call_logs ++ numbered (same_tables i).next_id creation.new_call_logs

result-publish_written :
    (w : Result (List StoredLog) × Tables) (s : Service) → (publish_written w s).0 ≡ w.0
unfolding publish_written
result-publish_written (ok created, tables) s = refl
result-publish_written (raise e, tables) s = refl

replaced :
    (creation : CallLogsCreation) (s : Service) (id : ℕ) (created : List StoredLog)
    → (write_and_publish (ok creation) s).0 ≡ ok created
    → among creation.call_logs_to_delete id ≡ true
    → id < s.tables.next_id
    → has_id id (write_and_publish (ok creation) s).1.tables.call_logs ≡ false
unfolding write_and_publish
replaced creation s id created h k below =
    let w = write creation s.tables in
    let ids = creation.call_logs_to_delete in
    let left = keep (λ l. not (among ids l.id)) s.tables.call_logs in
    let logs = numbered s.tables.next_id creation.new_call_logs in
    ap (λ (t : Tables). has_id id t.call_logs) (tables-publish_written w s)
    ∙ ap (has_id id)
        (call_logs-write creation s.tables created (sym (result-publish_written w s) ∙ h))
    ∙ any-append (λ (l : StoredLog). eqb l.id id) left logs
    ∙ ground (
      arith,
      keep-absent ids id s.tables.call_logs k,
      numbered-below id s.tables.next_id creation.new_call_logs below,
    )

-- Where the generation from CELs does not fail, the call logs to which these CELs referred are
-- gone: the id of none of them is in the table any more. The id is one that was given before, and
-- not 0.
pub generate_from_cels-replaced :
    (ext : External) (confd : Confd) (tenant : String) (cels : List Cel) (s : Service) (id : ℕ)
    (created : List StoredLog)
    → (generate_from_cels ext confd tenant cels s).0 ≡ ok created
    → any (refers_to id) cels ≡ true
    → id ≢ 0
    → id < s.tables.next_id
    → has_id id (generate_from_cels ext confd tenant cels s).1.tables.call_logs ≡ false
unfolding generate_from_cels from_cel
generate_from_cels-replaced ext confd tenant cels s id created h refers some_id below =
    let generated = from_cel ext confd tenant default_interpretors cels in
    let Goal : Result CallLogsCreation → Type 0 = λ r.
      (write_and_publish r s).0 ≡ ok created
      → has_id id (write_and_publish r s).1.tables.call_logs ≡ false in
    elim (Result-cases (call_logs_from_cel ext confd tenant default_interpretors cels)) [
      | inl (logs, e) ↦
          let creation : CallLogsCreation = record {
            new_call_logs = logs;
            call_logs_to_delete = list_call_log_ids cels;
          } in
          let made : generated ≡ ok creation = rw e refl in
          subst Goal (sym made)
            (λ k.
              replaced creation s id created k (among-list_call_log_ids id cels refers some_id)
                below)
            h
      | inr (x, e) ↦
          let failed : generated ≡ raise x = rw e refl in subst Goal (sym failed) (λ k. cc) h
    ]
