-- ===== src/Generator/Batch/Sound.antt =====
-- The call logs that a batch stores.
use wazo_call_logd.Common.{
  ◌≡◌, true, ◌||◌, List, [], ◌∷◌, String, truthy, All, Bool-cases, Option-cases, Result-cases, inl,
  inr, Result, ok, raise, ◌>>=◌, Returns, Returns-ok, Returns-if, Returns-bind,
}
use wazo_call_logd.External.{External, Confd}
use wazo_call_logd.Cel.{Cel}
use wazo_call_logd.RawCallLog.{RawCallLog}
use wazo_call_logd.CallLog.{CallLog, to_call_log}
use wazo_call_logd.CallLog.Valid.{has_source}
use wazo_call_logd.Generator.Grouping.{Group, sort_by_time, group_cels_by_shared_channels}
use wazo_call_logd.Generator.Recordings.{clean_recordings}
use wazo_call_logd.Generator.Recordings.Clean.{AllComplete, Distinct, clean_recordings_lem}
use wazo_call_logd.Generator.Voicemail.{VoicemailCache, resolve_voicemail_destination}
use wazo_call_logd.Generator.Batch.{
  Interpretor, get_interpretor, interpret_with, is_terminated, start_call, complete, call_log_of,
  added, call_logs_of_groups, call_logs_from_cel,
}

-- The source has a name or an extension, the recordings have a start and an end, and no two of
-- them one uuid.
abbrev pub IsSound : CallLog → Type 0
IsSound log =
    ((truthy log.source_name || truthy log.source_exten) ≡ true)
    × AllComplete log.recordings
    × Distinct log.recordings

to_call_log-IsSound :
    (call : RawCallLog)
    → AllComplete call.recordings
    → Distinct call.recordings
    → Returns IsSound (to_call_log call)
unfolding to_call_log
to_call_log-IsSound call complete_ones distinct = elim (Option-cases call.date) [
  | inl e ↦ rw (e, to_call_log) tt
  | inr (date, e) ↦
      rw (e, to_call_log)
        (elim (Bool-cases (has_source call)) [
          | inl e' ↦ rw e' (e', complete_ones, distinct)
          | inr e' ↦ rw e' tt
        ])
]

added-IsSound :
    (r : Result CallLog) (logs : List CallLog)
    → Returns IsSound r
    → All IsSound logs
    → All IsSound (added r logs)
added-IsSound (ok log) logs h k = (h, k)
added-IsSound (raise e) logs h k = k

module _ (ext : External) (confd : Confd) (service : String) where
  call_log_of-IsSound :
      (i : Interpretor) (g : Group) (cels : List Cel) (cache : VoicemailCache)
      → Returns IsSound (call_log_of ext confd service i g cels cache).0
  unfolding call_log_of
  call_log_of-IsSound i g cels cache =
      elim (Result-cases
        (interpret_with ext i cels (start_call g cels) >>= complete ext confd service)) [
          | inr (x, e) ↦ rw (e, call_log_of) tt
          | inl (call, e) ↦
              rw (e, call_log_of)
                (Returns-bind IsSound (resolve_voicemail_destination confd call cache).0
                  (λ c. to_call_log (clean_recordings c))
                  λ c _.
                    let cleaned = clean_recordings_lem c in
                    to_call_log-IsSound (clean_recordings c) cleaned.0 cleaned.1)
        ]

  call_logs_of_groups-IsSound :
      (is : List Interpretor) (gs : List Group) (cache : VoicemailCache)
      → Returns (All IsSound) (call_logs_of_groups ext confd service is gs cache)
  unfolding call_logs_of_groups
  call_logs_of_groups-IsSound is [] cache = tt
  call_logs_of_groups-IsSound is (g ∷ gs) cache =
      Returns-bind (All IsSound) (sort_by_time g.cels) _ λ cels _.
        Returns-if (All IsSound) (is_terminated g) _
          (call_logs_of_groups ext confd service is gs cache)
          (Returns-bind (All IsSound) (get_interpretor is cels) _ λ i _.
            let made = call_log_of ext confd service i g cels cache in
            Returns-bind (All IsSound) (call_logs_of_groups ext confd service is gs made.1)
              (λ logs. ok (added made.0 logs))
              λ logs e. added-IsSound made.0 logs (call_log_of-IsSound i g cels cache) (
                Returns-ok (All IsSound) (call_logs_of_groups ext confd service is gs made.1)
                  (call_logs_of_groups-IsSound is gs made.1) e))
          (call_logs_of_groups-IsSound is gs cache)

-- Every call log that a batch gives has a source with a name or an extension, and its recordings
-- have a start and an end and pairwise different uuids.
pub call_logs_from_cel-IsSound :
    (ext : External) (confd : Confd) (service : String) (is : List Interpretor) (cels : List Cel)
    → Returns (All IsSound) (call_logs_from_cel ext confd service is cels)
unfolding call_logs_from_cel
call_logs_from_cel-IsSound ext confd service is cels =
    call_logs_of_groups-IsSound ext confd service is (group_cels_by_shared_channels cels) []
