-- ===== src/Storage/Invariant.antt =====
-- About the writer and the deletions of the manager: the references between the tables.
use wazo_call_logd.Common.{
  ℕ, ◌-◌, ◌*◌, ◌≡◌, true, some, none, List, [], ◌∷◌, inl, inr, subst, sym, ltb, map, keep, All,
  All-map_of, not, Bool-cases, refl,
}
use wazo_call_logd.Cel.{Cel}
use wazo_call_logd.Generator.Batch.{CallLogsCreation}
use wazo_call_logd.Storage.{
  StoredLog, Tables, have_tenants, free, unassociate_all_from_call_log_ids, delete_from_list,
  create_all_uuids_if_not_exist, create_from_list, associate_all_to_call_logs, unassociate_all,
  delete_call_logs, is_recent,
}
use wazo_call_logd.Storage.Writer.{write, write_known, delete_all, delete_from_days}
use wazo_call_logd.Storage.Referential.{
  IsReferential, refers, known, keep-IsReferential, kept_or_listed, delete_from_list-IsReferential,
  stored-IsReferential,
}

-- A write keeps the references whole, whether it stores the new call logs or fails.
pub write-IsReferential :
    (gone : List ℕ) (creation : CallLogsCreation) (s : Tables)
    → IsReferential gone s
    → IsReferential gone (write creation s).1
unfolding write write_known create_all_uuids_if_not_exist create_from_list
    associate_all_to_call_logs
write-IsReferential gone creation s h =
    let ids = creation.call_logs_to_delete in
    let logs = creation.new_call_logs in
    let freed = unassociate_all_from_call_log_ids ids (delete_from_list ids s) in
    let k : IsReferential gone freed = delete_from_list-IsReferential gone s h ids in
    elim (Bool-cases (have_tenants logs)) [
      | inl e ↦ rw e (stored-IsReferential gone freed k logs e)
      | inr e ↦ rw e k
    ]

-- So does the deletion of all call logs, which leaves none, and that of the recent ones.
pub delete_from_days-IsReferential :
    (gone : List ℕ) (day now days : ℕ) (s : Tables)
    → IsReferential gone s
    → IsReferential gone (delete_from_days day now days s)
unfolding delete_from_days delete_call_logs
delete_from_days-IsReferential gone day now days s h =
    let recent = is_recent (some (now - days * day)) in
    keep-IsReferential gone s h (λ l. not (recent l)) (map (λ l. l.id) (keep recent s.call_logs))
      (kept_or_listed recent s.call_logs)

units : (cels : List Cel) → All (λ c. Unit {0}) cels
units [] = tt
units (c ∷ cels) = (tt, units cels)

none_left : (logs : List StoredLog) → keep (λ l. not (is_recent none l)) logs ≡ []
none_left [] = refl
none_left (l ∷ ls) = none_left ls

pub delete_all-IsReferential :
    (gone : List ℕ) (s : Tables) → IsReferential gone s → IsReferential gone (delete_all s)
unfolding delete_all delete_call_logs unassociate_all
delete_all-IsReferential gone s h =
    let left = keep (λ l. not (is_recent none l)) s.call_logs in
    record {
      of_cels =
          All-map_of (λ c. Unit {0}) (λ c. refers gone left c ≡ true) free s.cels (λ c u. refl)
            (units s.cels);
      of_call_logs =
          subst (λ ls. All (λ l. known s.tenants l ≡ true) ls) (sym (none_left s.call_logs)) tt;
      fresh =
          subst (λ ls. All (λ l. ltb l.id s.next_id ≡ true) ls) (sym (none_left s.call_logs)) tt;
      gone_fresh = h.gone_fresh;
    }
