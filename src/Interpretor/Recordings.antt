-- ===== src/Interpretor/Recordings.antt =====
-- cel_interpretor.py: what the interpretors share about recordings.
pub mod Ends
use wazo_call_logd.Common.{
  ℕ, Bool, true, false, not, ◌&&◌, Option, none, some, [], ◌∷◌, ◌++◌, String, ◌==◌, map, ltb, any,
  Result, ok, ◌>>=◌, require, key_error, if◌then◌else◌,
}
use wazo_call_logd.Common.Dict.{get}
use wazo_call_logd.External.{External, Extra}
use wazo_call_logd.Cel.{Cel}
use wazo_call_logd.RawCallLog.{RawCallLog, Recording}
use wazo_call_logd.Regex.{match_groups}
use wazo_call_logd.Interpretor.Extra.{parse_eventtime, recording_path_regex}

-- The uuid in a path that RECORDING_PATH_REGEX matches: its second group.
unfoldable pub uuid_in_path : String → Option String
unfolding match_groups
uuid_in_path path = elim (match_groups recording_path_regex path) [
  | some (_ ∷ uuid ∷ _) ↦ some uuid
  | _ ↦ none
]

abbrev pub add_recording : Recording → RawCallLog → RawCallLog
add_recording r call = record call { recordings = call.recordings ++ r ∷ [] }

abbrev pub map_recordings : (Recording → Recording) → RawCallLog → RawCallLog
map_recordings f call = record call { recordings = map f call.recordings }

-- `Recording(start_time=..., path=..., mixmonitor_id=...)`, with the uuid that the caller sets
unfoldable pub start_recording : External → Cel → Extra → Option String → Result Recording
unfolding get
start_recording ext cel extra uuid = do
  time ← parse_eventtime ext cel.eventtime
  filename ← require key_error (get extra "filename")
  mixmonitor_id ← require key_error (get extra "mixmonitor_id")
  ok (record {
    uuid = uuid;
    start_time = some time;
    end_time = none;
    path = filename;
    mixmonitor_id = mixmonitor_id;
    end_time_is_final = false;
  })

-- mixmonitor_stop: a recording with the id ends now, for good
unfoldable pub stop_at : String → ℕ → Recording → Recording
stop_at mixmonitor_id time r =
    if r.mixmonitor_id == mixmonitor_id
    then record r { end_time = some time; end_time_is_final = true }
    else r

-- chan_end of the caller: a recording with no end ends now
unfoldable pub end_if_open : ℕ → Recording → Recording
end_if_open time r = elim r.end_time [ none ↦ record r { end_time = some time } | some _ ↦ r ]

-- chan_end of a callee: a later end replaces one that is not final
unfoldable pub extend_to : ℕ → Recording → Recording
extend_to time r =
    let is_later : Bool = elim r.end_time [ none ↦ true | some t ↦ ltb t time ] in
    if not r.end_time_is_final && is_later then record r { end_time = some time } else r

-- The loop of mixmonitor_stop. The time is read once for each match, so an unreadable one raises
-- only where some recording has the id.
unfoldable pub stop_recordings : External → Cel → Extra → RawCallLog → Result RawCallLog
unfolding get stop_at
stop_recordings ext cel extra call = do
  mixmonitor_id ← require key_error (get extra "mixmonitor_id")
  let stopped = (do
    time ← parse_eventtime ext cel.eventtime
    ok (map_recordings (stop_at mixmonitor_id time) call))
  (if any (λ r. r.mixmonitor_id == mixmonitor_id) call.recordings then stopped else ok call)
