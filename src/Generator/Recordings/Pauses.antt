-- ===== src/Generator/Recordings/Pauses.antt =====
-- `_handle_recording_pauses` against a direct description of its result.
use wazo_call_logd.Common.{
  ◌≡◌, refl, Option, none, some, List, [], ◌∷◌, String, same, find, Bool-cases, inl, inr, arith,
  if◌then◌else◌,
}
use wazo_call_logd.RawCallLog.{RawCallLog, Recording}
use wazo_call_logd.Generator.Recordings.{merge_recording, merge_recordings, handle_recording_pauses}
use wazo_call_logd.Generator.Recordings.Clean.{same_cong, same_join}

abbrev pub first_of : Option String → List Recording → Option Recording
first_of u = find (λ r. same u r.uuid)

abbrev pub last_of : Option String → List Recording → Option Recording
last_of u [] = none
last_of u (r ∷ rs) = elim (last_of u rs) [
  | some l ↦ some l
  | none ↦ if same u r.uuid then some r else none
]

-- The first recording, up to the end of the last one.
abbrev pub span : Option Recording → Option Recording → Option Recording
span none l = none
span (some f) none = some f
span (some f) (some l) = some (record f { end_time = l.end_time })

first_of-merge_recording :
    (u : Option String) (seen : List Recording) (r : Recording)
    → first_of u (merge_recording seen r) ≡ (
        if same u r.uuid
        then elim (first_of u seen) [ none ↦ some r | some s ↦ span (some s) (some r) ]
        else first_of u seen)
unfolding merge_recording
first_of-merge_recording u [] r = refl
first_of-merge_recording u (s ∷ seen) r = elim (Bool-cases (same s.uuid r.uuid)) [
  | inl e ↦ rw e (ground (arith, same_cong u s.uuid r.uuid e))
  | inr e ↦ rw e (ground (arith, first_of-merge_recording u seen r, same_join u s.uuid r.uuid))
]

-- What a uuid has after the loop: the first recording seen, up to the last end.
first_of-merge_recordings :
    (u : Option String) (rs seen : List Recording)
    → first_of u (merge_recordings seen rs) ≡ (elim (first_of u seen) [
      | none ↦ span (first_of u rs) (last_of u rs)
      | some s ↦ span (some s) (last_of u rs)
    ])
unfolding merge_recordings
first_of-merge_recordings u [] seen = ground arith
first_of-merge_recordings u (r ∷ rs) seen = ground (
  arith,
  first_of-merge_recordings u rs (merge_recording seen r),
  first_of-merge_recording u seen r,
)

-- After `_handle_recording_pauses` the recording of a uuid is the first one that the call had of
-- it, with the end of the last one; a uuid that the call had no recording of has none.
pub first_of-handle_recording_pauses :
    (u : Option String) (call : RawCallLog)
    → first_of u (handle_recording_pauses call).recordings
      ≡ span (first_of u call.recordings) (last_of u call.recordings)
unfolding handle_recording_pauses
first_of-handle_recording_pauses u call = first_of-merge_recordings u call.recordings []
