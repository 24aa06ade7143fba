-- ===== src/Generator/Batch/Total.antt =====
-- A batch returns, whatever becomes of its call logs.
use wazo_call_logd.Common.{
  ◌≡◌, refl, Bool, true, false, not, List, [], ◌∷◌, String, any, all, Bool-cases, inl, inr, arith,
  ok,
}
use wazo_call_logd.External.{External, Confd}
use wazo_call_logd.Cel.{Cel}
use wazo_call_logd.CallLog.{CallLog}
use wazo_call_logd.Interpretor.LocalOriginate.{can_interpret}
use wazo_call_logd.Generator.Grouping.{
  Group, is_datetime, sort_by_time, group_cels_by_shared_channels,
}
use wazo_call_logd.Generator.Grouping.Members.{some_in_groups, any-group_cels}
use wazo_call_logd.Generator.Voicemail.{VoicemailCache}
use wazo_call_logd.Generator.Batch.{
  Interpretor, default_interpretors, local_originate, dispatch, get_interpretor, is_terminated,
  call_log_of, added, call_logs_of_groups, call_logs_from_cel,
}

abbrev pub is_text_time : Cel → Bool
is_text_time c = not (is_datetime c)

all-is_datetime : (cels : List Cel) → all is_datetime cels ≡ not (any is_text_time cels)
all-is_datetime [] = refl
all-is_datetime (c ∷ cels) = ground (arith, all-is_datetime cels)

sort_by_time_ok :
    (cels : List Cel)
    → any is_text_time cels ≡ false
    → (sorted : List Cel) × (sort_by_time cels ≡ ok sorted)
unfolding sort_by_time
sort_by_time_ok cels h =
    let dated : all is_datetime cels ≡ true = ground (arith, all-is_datetime cels) in
    rw dated (_, refl)

-- The dispatching interpretor accepts what the originating one does not.
get_interpretor_default :
    (cels : List Cel) → (i : Interpretor) × (get_interpretor default_interpretors cels ≡ ok i)
unfolding get_interpretor
get_interpretor_default cels = elim (Bool-cases (can_interpret cels)) [
  | inl e ↦ rw e (local_originate, refl)
  | inr e ↦ rw e (dispatch, refl)
]

module _ (ext : External) (confd : Confd) (service : String) where
  call_logs_of_groups_ok :
      (gs : List Group) (cache : VoicemailCache)
      → some_in_groups is_text_time gs ≡ false
      → (logs : List CallLog) × (call_logs_of_groups ext confd service default_interpretors gs cache
          ≡ ok logs)
  unfolding call_logs_of_groups
  call_logs_of_groups_ok [] cache h = ([], refl)
  call_logs_of_groups_ok (g ∷ gs) cache h =
      let here : any is_text_time g.cels ≡ false = ground arith in
      let there : some_in_groups is_text_time gs ≡ false = ground arith in
      let sorted = sort_by_time_ok g.cels here in
      let chosen = get_interpretor_default sorted.0 in
      let made = call_log_of ext confd service chosen.0 g sorted.0 cache in
      let later = call_logs_of_groups_ok gs made.1 there in
      rw sorted.1 (elim (Bool-cases (is_terminated g)) [
        | inl e ↦ rw (e, chosen.1, later.1) (added made.0 later.0, refl)
        | inr e ↦ rw e (call_logs_of_groups_ok gs cache there)
      ])

-- If the event times of the batch are datetimes, the default generator returns a list of call logs,
-- whatever wazo-confd answers or raises and whatever the CELs hold: no failure ends the batch.
pub call_logs_from_cel_returns :
    (ext : External) (confd : Confd) (service : String) (cels : List Cel)
    → any is_text_time cels ≡ false
    → (logs : List CallLog) × (call_logs_from_cel ext confd service default_interpretors cels
        ≡ ok logs)
unfolding call_logs_from_cel
call_logs_from_cel_returns ext confd service cels h =
    call_logs_of_groups_ok ext confd service (group_cels_by_shared_channels cels) []
      (rw (any-group_cels is_text_time cels) h)
