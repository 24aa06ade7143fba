-- ===== src/Generator/Recordings/Originated.antt =====
-- What `_handle_recording_pauses` makes of the recordings of an originated call.
use wazo_call_logd.Common.{
  ◌≤◌, ◌≡◌, true, none, List, [], ◌∷◌, same, length, All, arith, ok, Returns-ok,
}
use wazo_call_logd.External.{External}
use wazo_call_logd.Cel.{Cel}
use wazo_call_logd.RawCallLog.{RawCallLog, Recording}
use wazo_call_logd.Interpretor.LocalOriginate.{originate_interpret_cels}
use wazo_call_logd.Interpretor.LocalOriginate.Recorded.{Nameless, originate_interpret_cels-Nameless}
use wazo_call_logd.Generator.Recordings.Clean.{same_refl}
use wazo_call_logd.Generator.Recordings.{merge_recording, merge_recordings, handle_recording_pauses}

length-merge_nameless :
    (rs : List Recording) (s : Recording)
    → s.uuid ≡ none
    → All (λ r. r.uuid ≡ none) rs
    → length (merge_recordings (s ∷ []) rs) ≤ 1
unfolding merge_recordings merge_recording
length-merge_nameless [] s e h = omega arith
length-merge_nameless (r ∷ rs) s e h =
    let both : same s.uuid r.uuid ≡ true = cc (e, h.0, same_refl none) in
    rw both (length-merge_nameless rs (record s { end_time = r.end_time }) e h.1)

length-handle_nameless :
    (rs : List Recording) → All (λ r. r.uuid ≡ none) rs → length (merge_recordings [] rs) ≤ 1
unfolding merge_recordings merge_recording
length-handle_nameless [] h = omega arith
length-handle_nameless (r ∷ rs) h = length-merge_nameless rs r h.0 h.1

-- An originated call that starts without recordings keeps at most one of those that its CELs
-- start, however many they are and whatever their paths.
pub originate_keeps_one :
    (ext : External) (cels : List Cel) (call out : RawCallLog)
    → call.recordings ≡ []
    → originate_interpret_cels ext cels call ≡ ok out
    → length (handle_recording_pauses out).recordings ≤ 1
unfolding handle_recording_pauses
originate_keeps_one ext cels call out e h = length-handle_nameless out.recordings (
    Returns-ok Nameless (originate_interpret_cels ext cels call)
      (originate_interpret_cels-Nameless ext cels call (rw e tt)) h)
