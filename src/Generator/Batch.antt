-- ===== src/Generator/Batch.antt =====
-- generator.py: `CallLogsGenerator.from_cel`.
pub mod Isolation
pub mod Sound
pub mod Total
use wazo_call_logd.Common.{
  ℕ, Bool, true, ◌&&◌, ◌||◌, Option, none, some, List, [], ◌∷◌, String, ◌==◌, map, elem, all, keep,
  eqb, any, insert_all, Result, ok, raise, ◌>>=◌, runtime_error, if◌then◌else◌,
}
use wazo_call_logd.Common.Sort.{text_leb}
use wazo_call_logd.External.{External, Confd}
use wazo_call_logd.Cel.{Cel, linkedid_end, is_event}
use wazo_call_logd.RawCallLog.{RawCallLog, empty_call}
use wazo_call_logd.CallLog.{CallLog, to_call_log}
use wazo_call_logd.Interpretor.Dispatch.{dispatch_interpret_cels}
use wazo_call_logd.Interpretor.LocalOriginate.{originate_interpret_cels, can_interpret}
use wazo_call_logd.Generator.Grouping.{Group, sort_by_time, group_cels_by_shared_channels}
use wazo_call_logd.Generator.Participants.{fetch_participants}
use wazo_call_logd.Generator.Attributes.{
  remove_duplicate_participants, ensure_tenant_uuid_is_set, fill_extensions_from_participants,
}
use wazo_call_logd.Generator.Recordings.{clean_recordings}
use wazo_call_logd.Generator.Voicemail.{VoicemailCache, resolve_voicemail_destination}

pub data Interpretor : Type 0 where
  local_originate dispatch : Interpretor

-- `default_interpretors`
abbrev pub default_interpretors : List Interpretor
default_interpretors = local_originate ∷ dispatch ∷ []

unfoldable pub accepts : Interpretor → List Cel → Bool
accepts local_originate cels = can_interpret cels
accepts dispatch cels = true

unfoldable pub interpret_with : External → Interpretor → List Cel → RawCallLog → Result RawCallLog
interpret_with ext local_originate = originate_interpret_cels ext
interpret_with ext dispatch = dispatch_interpret_cels ext

-- `_get_interpretor`
unfoldable pub get_interpretor : List Interpretor → List Cel → Result Interpretor
unfolding accepts
get_interpretor [] cels = raise runtime_error
get_interpretor (i ∷ is) cels =
    let rest = get_interpretor is cels in if accepts i cels then ok i else rest

unfoldable pub terminated_links : List Cel → List String
terminated_links cels =
    insert_all (map (λ c. c.linkedid) (keep (λ c. is_event c.eventtype linkedid_end) cels)) []

-- `linkedids == terminated_links`, for sets
unfoldable pub is_terminated : Group → Bool
unfolding terminated_links
is_terminated g =
    let done = terminated_links g.cels in
    all (λ l. elem l done) g.linkedids && all (λ l. elem l g.linkedids) done

-- `min(linkedids)`
unfoldable pub least : List String → Option String
unfolding text_leb
least [] = none
least (l ∷ ls) = elim (least ls) [ none ↦ some l | some m ↦ some (if text_leb l m then l else m) ]

unfoldable pub start_call : Group → List Cel → RawCallLog
unfolding least
start_call g cels = record empty_call {
  conversation_id = least g.linkedids;
  cel_ids = map (λ c. c.id) cels;
}

-- A call log that fails is left out, and the next group is given a chance.
abbrev pub added : Result CallLog → List CallLog → List CallLog
added (ok log) logs = log ∷ logs
added (raise e) logs = logs

module _ (ext : External) (confd : Confd) (service : String) where
  -- What is done between the interpretation and the voicemail.
  unfoldable pub complete : RawCallLog → Result RawCallLog
  complete call = do
    single ← remove_duplicate_participants ext call
    fetched ← fetch_participants ext confd single
    tenanted ← ensure_tenant_uuid_is_set ext confd service fetched
    fill_extensions_from_participants tenanted

  -- The call log of the CELs of one terminated group.
  unfoldable pub call_log_of :
      Interpretor → Group → List Cel → VoicemailCache → Result CallLog × VoicemailCache
  unfolding complete clean_recordings start_call
  call_log_of i g cels cache =
      let completed : Result RawCallLog = (do
        interpreted ← interpret_with ext i cels (start_call g cels)
        complete interpreted) in
      elim completed [
        | raise e ↦ (raise e, cache)
        | ok call ↦
            let (resolved, cache') = resolve_voicemail_destination confd call cache in
            (resolved >>= λ c. to_call_log (clean_recordings c), cache')
      ]

  -- The loop of `call_logs_from_cel`. Sorting the CELs and choosing an interpretor stand outside
  -- the `try`: what they raise ends the loop.
  unfoldable pub call_logs_of_groups :
      List Interpretor → List Group → VoicemailCache → Result (List CallLog)
  unfolding is_terminated call_log_of get_interpretor sort_by_time
  call_logs_of_groups is [] cache = ok []
  call_logs_of_groups is (g ∷ gs) cache = do
    cels ← sort_by_time g.cels
    let skipped = call_logs_of_groups is gs cache
    let handled : Result (List CallLog) = (do
      chosen ← get_interpretor is cels
      let (log, cache') = call_log_of chosen g cels cache
      logs ← call_logs_of_groups is gs cache'
      ok (added log logs))
    (if is_terminated g then handled else skipped)

  unfoldable pub call_logs_from_cel : List Interpretor → List Cel → Result (List CallLog)
  unfolding group_cels_by_shared_channels call_logs_of_groups
  call_logs_from_cel is cels = call_logs_of_groups is (group_cels_by_shared_channels cels) []

-- `list_call_log_ids`, a set of ids; the id 0 counts as none
unfoldable pub list_call_log_ids : List Cel → List ℕ
list_call_log_ids [] = []
list_call_log_ids (c ∷ cs) = elim c.call_log_id [
  | none ↦ list_call_log_ids cs
  | some id ↦
      let rest = list_call_log_ids cs in if eqb id 0 || any (eqb id) rest then rest else id ∷ rest
]

pub record CallLogsCreation : Type 0 where
  pub new_call_logs : List CallLog
  pub call_logs_to_delete : List ℕ

unfoldable pub from_cel :
    External → Confd → String → List Interpretor → List Cel → Result CallLogsCreation
unfolding call_logs_from_cel list_call_log_ids
from_cel ext confd service is cels = do
  logs ← call_logs_from_cel ext confd service is cels
  ok (record { new_call_logs = logs; call_logs_to_delete = list_call_log_ids cels })
