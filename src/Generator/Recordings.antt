-- ===== src/Generator/Recordings.antt =====
-- generator.py: what is done with the recordings of a call before it is stored.
pub mod Clean
pub mod Pauses
pub mod Originated
use wazo_call_logd.Common.{
  Bool, false, ◌&&◌, ◌||◌, none, some, List, [], ◌∷◌, same, is_some, any, keep, if◌then◌else◌,
}
use wazo_call_logd.Common.Dict.{values}
use wazo_call_logd.RawCallLog.{RawCallLog, RawParticipant, Recording}

-- `participant.get('answered')`
abbrev pub has_answered : RawParticipant → Bool
has_answered p = elim p.answered [ none ↦ false | some b ↦ b ]

abbrev pub is_complete : Recording → Bool
is_complete r = is_some r.start_time && is_some r.end_time

unfoldable pub remove_incomplete_recordings : RawCallLog → RawCallLog
remove_incomplete_recordings call = record call { recordings = keep is_complete call.recordings }

abbrev pub was_answered : RawCallLog → Bool
was_answered call = is_some call.date_answer || any has_answered (values call.raw_participants)

unfoldable pub remove_recordings_for_unanswered_calls : RawCallLog → RawCallLog
remove_recordings_for_unanswered_calls call =
    if was_answered call then call else record call { recordings = [] }

-- A recording of a uuid that was seen only moves the end of the first one with that uuid.
unfoldable pub merge_recording : List Recording → Recording → List Recording
merge_recording [] r = r ∷ []
merge_recording (s ∷ seen) r =
    if same s.uuid r.uuid
    then record s { end_time = r.end_time } ∷ seen
    else s ∷ merge_recording seen r

unfoldable pub merge_recordings : List Recording → List Recording → List Recording
unfolding merge_recording
merge_recordings seen [] = seen
merge_recordings seen (r ∷ rs) = merge_recordings (merge_recording seen r) rs

unfoldable pub handle_recording_pauses : RawCallLog → RawCallLog
unfolding merge_recordings
handle_recording_pauses call = record call { recordings = merge_recordings [] call.recordings }

-- The three steps on recordings, in their order.
unfoldable pub clean_recordings : RawCallLog → RawCallLog
unfolding handle_recording_pauses remove_recordings_for_unanswered_calls
    remove_incomplete_recordings
clean_recordings call =
    handle_recording_pauses
      (remove_recordings_for_unanswered_calls (remove_incomplete_recordings call))
