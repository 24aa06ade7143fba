-- ===== src/Tests.antt =====
-- The theorems at concrete inputs, and runs of the program on small ones.
mod Stored
mod Service
mod Support
mod Http
use wazo_call_logd.Common.{
  map, if◌then◌else◌, not, ◌&&◌, ◌==◌, elem, String, List, ℕ, ◌≡◌, ◌<◌, ◌≤◌, refl, true, ◌||◌, none,
  some, [], ◌∷◌, ◌++◌, ◌+◌, length, any, All, is_empty, arith, Result, ok, Returns,
}
use wazo_call_logd.Cel.{chan_start, is_event}
use wazo_call_logd.Interpretor.Extra.{
  parse_eventtime, is_valid_mixmonitor_start_extra, extract_cel_extra,
}
use wazo_call_logd.Interpretor.Recordings.{start_recording}
use wazo_call_logd.RawCallLog.{update_participant, RawCallLog, empty_call}
use wazo_call_logd.Interpretor.Caller.Direction.{StaysIn}
use wazo_call_logd.Interpretor.Dispatch.{interpret_each, caller_interpret_cel, callee_interpret_cel}
use wazo_call_logd.Interpretor.Dispatch.Forwarded.{forwarded-StaysIn}
use wazo_call_logd.Interpretor.Dispatch.Destination.{callees_keep_destination}
use wazo_call_logd.Interpretor.LocalOriginate.{originate_interpret_cels}
use wazo_call_logd.Generator.Grouping.{Group, correlate_all, group_cels_by_shared_channels}
use wazo_call_logd.Generator.Grouping.Members.{some_in_groups, any-group_cels}
use wazo_call_logd.Generator.Grouping.Channels.{IsExact, group_cels-IsExact}
use wazo_call_logd.Generator.Grouping.Bridged.{correlate_all_bridged}
use wazo_call_logd.Generator.Recordings.{was_answered, clean_recordings, handle_recording_pauses}
use wazo_call_logd.Generator.Recordings.Clean.{AllComplete, Distinct, clean_recordings_lem}
use wazo_call_logd.Generator.Recordings.Pauses.{
  first_of, last_of, span, first_of-handle_recording_pauses,
}
use wazo_call_logd.Generator.Recordings.Originated.{originate_keeps_one}
use wazo_call_logd.Generator.Voicemail.{resolve_voicemail_destination}
use wazo_call_logd.Generator.Voicemail.Cache.{IsFaithful, resolve_voicemail_destination-IsFaithful}
use wazo_call_logd.Generator.Batch.{default_interpretors, call_logs_from_cel}
use wazo_call_logd.Generator.Batch.Isolation.{each, alone, call_logs_from_cel-eq-each}
use wazo_call_logd.Statistics.{advance, hour, subintervals}
use wazo_call_logd.Statistics.Periods.{Chain, subintervals-advance-Chain}
use wazo_call_logd.CallLog.{CallLog}
use wazo_call_logd.Generator.Batch.Sound.{IsSound, call_logs_from_cel-IsSound}
use wazo_call_logd.Common.Dict.{get}
use wazo_call_logd.Generator.Attributes.{keep_one_channel}
use wazo_call_logd.Generator.Attributes.Lines.{IsBest, keep_one_channel-IsBest}
use wazo_call_logd.Generator.Batch.Total.{call_logs_from_cel_returns}
use wazo_call_logd.Samples.{
  twice_rung, clock, ext, confd, simple_call, unfinished_call, originated, paused_call,
  voicemail_call, forwarded_call, authoritative_call, outgoing_leg, known, sequence,
}

call_logs_from_cel-eq-each_example :
    call_logs_from_cel ext confd "service" default_interpretors simple_call
    ≡ each
        (alone ext confd "service" default_interpretors)
        (group_cels_by_shared_channels simple_call)
call_logs_from_cel-eq-each_example =
    call_logs_from_cel-eq-each ext confd "service" default_interpretors simple_call

clean_recordings_example :
    AllComplete (clean_recordings paused_call).recordings
    × Distinct (clean_recordings paused_call).recordings
    × ((was_answered paused_call || is_empty (clean_recordings paused_call).recordings) ≡ true)
clean_recordings_example = clean_recordings_lem paused_call

first_of-handle_recording_pauses_example :
    first_of (some "u") (handle_recording_pauses paused_call).recordings
    ≡ span (first_of (some "u") paused_call.recordings) (last_of (some "u") paused_call.recordings)
first_of-handle_recording_pauses_example = first_of-handle_recording_pauses (some "u") paused_call

resolve_voicemail_destination_example :
    ((resolve_voicemail_destination confd voicemail_call known).0
      ≡ (resolve_voicemail_destination confd voicemail_call []).0)
    × IsFaithful confd (resolve_voicemail_destination confd voicemail_call known).1
resolve_voicemail_destination_example =
    resolve_voicemail_destination-IsFaithful confd voicemail_call known (refl, tt)

any-group_cels_example :
    some_in_groups
      (λ c. is_event c.eventtype chan_start)
      (group_cels_by_shared_channels simple_call)
    ≡ any (λ c. is_event c.eventtype chan_start) simple_call
any-group_cels_example = any-group_cels (λ c. is_event c.eventtype chan_start) simple_call

group_cels-IsExact_example : All IsExact (group_cels_by_shared_channels simple_call)
group_cels-IsExact_example = group_cels-IsExact simple_call

correlate_all_bridged_example :
    map
      (λ (g : Group). g.cels)
      (correlate_all
        (sequence "1" "A" [] ∷ sequence "2" "B" [] ∷ sequence "3" "A" ("B" ∷ []) ∷ [])
        [])
    ≡ ((sequence "1" "A" []).cels ++ (sequence "3" "A" ("B" ∷ [])).cels)
      ∷ ((sequence "2" "B" []).cels ++ (sequence "3" "A" ("B" ∷ [])).cels)
      ∷ []
correlate_all_bridged_example =
    correlate_all_bridged (sequence "1" "A" []) (sequence "2" "B" []) (sequence "3" "A" ("B" ∷ []))
      refl refl refl

-- the call of the sample, with the times and the source that its CELs tell
abbrev originated_result : Result RawCallLog
unfolding originate_interpret_cels
originated_result = originate_interpret_cels ext originated empty_call

abbrev recordings_of : Result RawCallLog → RawCallLog
recordings_of (ok call) = call
recordings_of _ = empty_call

originate_keeps_one_example :
    length (handle_recording_pauses (recordings_of originated_result)).recordings ≤ 1
unfolding originate_interpret_cels is_event parse_eventtime is_valid_mixmonitor_start_extra
    extract_cel_extra start_recording
originate_keeps_one_example =
    originate_keeps_one ext originated empty_call (recordings_of originated_result) refl refl

-- Two recordings start, one is left.
originated-recordings :
    (length (recordings_of originated_result).recordings ≡ 2)
    × (length (handle_recording_pauses (recordings_of originated_result)).recordings ≡ 1)
unfolding originate_interpret_cels handle_recording_pauses update_participant is_event
    parse_eventtime is_valid_mixmonitor_start_extra extract_cel_extra start_recording
originated-recordings = (refl, refl)

forwarded-StaysIn_example :
    Returns StaysIn (interpret_each (caller_interpret_cel ext) outgoing_leg forwarded_call)
forwarded-StaysIn_example = forwarded-StaysIn ext outgoing_leg forwarded_call (refl, λ e. cc)

callees_keep_destination_example :
    Returns
      (λ out.
        (out.destination_exten ≡ authoritative_call.destination_exten)
        × (out.destination_name ≡ authoritative_call.destination_name))
      (interpret_each (callee_interpret_cel ext) simple_call authoritative_call)
callees_keep_destination_example =
    callees_keep_destination ext simple_call authoritative_call (refl, refl, λ e. cc)

hour_grows : (t : ℕ) → t < t + 3600
hour_grows t = omega arith

subintervals-advance-Chain_example : Chain 1800 (subintervals (advance clock hour) 1800 9000) 9000
unfolding advance
subintervals-advance-Chain_example = subintervals-advance-Chain clock hour 1800 9000 (omega arith)

call_logs_from_cel-IsSound_example :
    Returns (All IsSound) (call_logs_from_cel ext confd "service" default_interpretors simple_call)
call_logs_from_cel-IsSound_example =
    call_logs_from_cel-IsSound ext confd "service" default_interpretors simple_call

-- The channels of an ended call are one group, those of a call that goes on another.
group_cels-simple : length (group_cels_by_shared_channels (unfinished_call ++ simple_call)) ≡ 2
unfolding group_cels_by_shared_channels
group_cels-simple = refl

call_logs_from_cel_returns_example :
    (logs : List CallLog) × (call_logs_from_cel ext confd "service" default_interpretors simple_call
      ≡ ok logs)
call_logs_from_cel_returns_example = call_logs_from_cel_returns ext confd "service" simple_call refl

-- Two channels of a line, the first of them answered.
keep_one_channel-IsBest_example :
    (kept : String) × IsBest twice_rung ("a1" ∷ "a2" ∷ []) kept
    × ((c : String)
        → get (keep_one_channel twice_rung ("a1" ∷ "a2" ∷ [])).raw_participants c ≡ (
            if elem c ("a1" ∷ "a2" ∷ []) && not (c == kept)
            then none
            else get twice_rung.raw_participants c))
keep_one_channel-IsBest_example = keep_one_channel-IsBest twice_rung "a1" ("a2" ∷ [])
