-- ===== src/Generator/Batch/Isolation.antt =====
-- The batch is what its groups give one by one.
use wazo_call_logd.Common.{
  ◌≡◌, refl, ap, ◌∙◌, List, [], ◌∷◌, ◌++◌, String, Bool-cases, Result-cases, inl, inr, Result, ok,
  raise, ◌>>=◌, if◌then◌else◌,
}
use mathlib.Core.Path.{fun_ext}
use wazo_call_logd.External.{External, Confd}
use wazo_call_logd.Cel.{Cel}
use wazo_call_logd.CallLog.{CallLog}
use wazo_call_logd.CallLog.{to_call_log}
use wazo_call_logd.Generator.Grouping.{Group, sort_by_time, group_cels_by_shared_channels}
use wazo_call_logd.Generator.Recordings.{clean_recordings}
use wazo_call_logd.Generator.Voicemail.{VoicemailCache}
use wazo_call_logd.Generator.Voicemail.Cache.{IsFaithful, resolve_voicemail_destination-IsFaithful}
use wazo_call_logd.Generator.Batch.{
  Interpretor, get_interpretor, interpret_with, is_terminated, start_call, complete, call_log_of,
  added, call_logs_of_groups, call_logs_from_cel,
}

-- The results of `f`, one list after the other; the first failure ends the walk.
abbrev pub each {ℓ κ} : {A : Type ℓ} {B : Type κ} → (A → Result (List B)) → List A → Result (List B)
each f [] = ok []
each f (x ∷ xs) = do here ← f x; rest ← each f xs; ok (here ++ rest)

added-append : (r : Result CallLog) (logs : List CallLog) → added r logs ≡ added r [] ++ logs
added-append (ok log) logs = refl
added-append (raise e) logs = refl

bind_ok : (m : Result (List CallLog)) → m ≡ (m >>= λ rest. ok ([] ++ rest))
bind_ok (ok a) = refl
bind_ok (raise e) = refl

module _ (ext : External) (confd : Confd) (service : String) where
  -- One group, as if it were the only one: at most one call log, and none if a linkedid of it has
  -- not ended or if its call log cannot be made.
  abbrev pub alone : List Interpretor → Group → Result (List CallLog)
  unfolding is_terminated call_log_of get_interpretor sort_by_time
  alone is g = do
    cels ← sort_by_time g.cels
    let handled = (do
      chosen ← get_interpretor is cels
      ok (added (call_log_of ext confd service chosen g cels []).0 []))
    (if is_terminated g then handled else ok [])

  call_log_of-IsFaithful :
      (i : Interpretor) (g : Group) (cels : List Cel) (cache : VoicemailCache)
      → IsFaithful confd cache
      → ((call_log_of ext confd service i g cels cache).0
          ≡ (call_log_of ext confd service i g cels []).0)
        × IsFaithful confd (call_log_of ext confd service i g cels cache).1
  unfolding call_log_of
  call_log_of-IsFaithful i g cels cache h =
      elim (Result-cases
        (interpret_with ext i cels (start_call g cels) >>= complete ext confd service)) [
          | inl (call, e) ↦
              let same = resolve_voicemail_destination-IsFaithful confd call cache h in
              rw (e, call_log_of)
                (ap (λ r. r >>= λ c. to_call_log (clean_recordings c)) same.0, same.1)
          | inr (x, e) ↦ rw (e, call_log_of) (refl, h)
        ]

  call_logs_of_groups-eq-each :
      (is : List Interpretor) (gs : List Group) (cache : VoicemailCache)
      → IsFaithful confd cache
      → call_logs_of_groups ext confd service is gs cache ≡ each (alone is) gs
  unfolding call_logs_of_groups
  call_logs_of_groups-eq-each is [] cache h = refl
  call_logs_of_groups-eq-each is (g ∷ gs) cache h = elim (Result-cases (sort_by_time g.cels)) [
    | inr (x, e) ↦ rw e
    | inl (cels, e) ↦ rw e (elim (Bool-cases (is_terminated g)) [
      | inr open_link ↦
          rw open_link (call_logs_of_groups-eq-each is gs cache h ∙ bind_ok (each (alone is) gs))
      | inl ended ↦ rw ended (elim (Result-cases (get_interpretor is cels)) [
        | inr (x, unsuited) ↦ rw unsuited
        | inl (i, chosen) ↦
            let here = call_log_of-IsFaithful i g cels cache h in
            rw (chosen, here.0, call_logs_of_groups-eq-each is gs _ here.1)
              (ap (◌>>=◌ (each (alone is) gs)) (fun_ext λ logs. ap ok (added-append _ logs)))
      ])
    ])
  ]

-- A batch of CELs gives, in the order of the groups, what each group gives alone: a call log that
-- fails, a group that has not ended, and the voicemails that other groups asked for, change nothing
-- for the rest.
pub call_logs_from_cel-eq-each :
    (ext : External) (confd : Confd) (service : String) (is : List Interpretor) (cels : List Cel)
    → call_logs_from_cel ext confd service is cels
      ≡ each (alone ext confd service is) (group_cels_by_shared_channels cels)
unfolding call_logs_from_cel
call_logs_from_cel-eq-each ext confd service is cels =
    call_logs_of_groups-eq-each ext confd service is (group_cels_by_shared_channels cels) [] tt
