-- ===== src/Interpretor/LocalOriginate.antt =====
-- cel_interpretor.py: `LocalOriginateCELInterpretor`. A statement may return the call early.
pub mod Recorded
use wazo_call_logd.Common.{
  ℕ, Bool, true, false, not, ◌&&◌, Option, none, some, List, [], ◌∷◌, String, ◌==◌, map, eqb, last?,
  length, insert_all, keep, find, any, elem, filled, truthy, leb, Result, ok, raise, require,
  if◌then◌else◌, Error, type_error,
}
use wazo_call_logd.Common.Text.{chars, lower_codes}
use wazo_call_logd.External.{External}
use wazo_call_logd.Cel.{
  Cel, EventType, answer, app_start, bridge_enter, chan_start, chan_end, mixmonitor_start,
  mixmonitor_stop, xivo_incall, xivo_outcall, wazo_originate_all_lines, is_event,
}
use wazo_call_logd.RawCallLog.{
  RawCallLog, source, destination, inbound, outbound, RawParticipant, update_participant, with_role,
  set_tenant_uuid, insert_or_update_participants_info,
}
use wazo_call_logd.Interpretor.Extra.{
  OriginateAllLinesInfo, extract_cel_extra, parse_eventtime, is_valid_mixmonitor_start_extra,
  is_valid_mixmonitor_stop_extra, interpret_voicemail_app_start,
  parse_wazo_originate_all_lines_extra,
}
use wazo_call_logd.Interpretor.Recordings.{
  add_recording, map_recordings, start_recording, end_if_open, stop_recordings,
}
use wazo_call_logd.Interpretor.UserEvents.{is_user}

-- What a statement of the method does: go on, return the call, or raise.
pub data Outcome {ℓ} (A : Type ℓ) : Type ℓ where
  next : A → Outcome A
  leave : RawCallLog → Outcome A
  fail : Error → Outcome A

infixl 5 ◌>>=◌
abbrev ◌>>=◌ {ℓ κ} : {A : Type ℓ} {B : Type κ} → Outcome A → (A → Outcome B) → Outcome B
next a >>= f = f a
leave call >>= f = leave call
fail e >>= f = fail e

abbrev call_of : Outcome RawCallLog → Result RawCallLog
call_of (next call) = ok call
call_of (leave call) = ok call
call_of (fail e) = raise e

abbrev run {ℓ} : {A : Type ℓ} → Result A → Outcome A
run (ok a) = next a
run (raise e) = fail e

-- `next(...)`, whose StopIteration returns the call
abbrev or_leave {ℓ} : {A : Type ℓ} → RawCallLog → Option A → Outcome A
or_leave call none = leave call
or_leave call (some a) = next a

-- `cel.uniqueid == channel and cel.eventtype == type`
unfoldable pub is_cel_of : String → EventType → Cel → Bool
is_cel_of channel type cel = cel.uniqueid == channel && is_event cel.eventtype type

abbrev of_type : EventType → List Cel → List Cel
of_type type = keep (λ c. is_event c.eventtype type)

codes_start : List ℕ → List ℕ → Bool
codes_start [] cs = true
codes_start (p ∷ ps) [] = false
codes_start (p ∷ ps) (c ∷ cs) = eqb p c && codes_start ps cs

-- `name.lower().startswith('local/')`
unfoldable pub is_local : String → Bool
unfolding lower_codes codes_start
is_local name = codes_start (lower_codes (chars "local/")) (lower_codes (chars name))

-- the first three started channels; with fewer the unpacking raises ValueError
pub record Channels : Type 0 where
  pub local1 : String
  pub local2 : String
  pub source_channel : String

abbrev first_three : List String → Option Channels
first_three (a ∷ b ∷ c ∷ _) = some (record { local1 = a; local2 = b; source_channel = c })
first_three _ = none

-- The uniqueid of the last BRIDGE_ENTER of a channel that is neither local nor one of the first
-- three.
unfoldable pub destination_channel : Channels → List Cel → Option String
unfolding is_local
destination_channel channels cels =
    let starting = channels.local1 ∷ channels.local2 ∷ channels.source_channel ∷ [] in
    let others = keep (λ c. not (elem c.uniqueid starting)) (of_type chan_start cels) in
    let non_local = map (λ c. c.uniqueid) (keep (λ c. not (is_local c.channame)) others) in
    elim (last? (keep (λ c. elem c.uniqueid non_local) (of_type bridge_enter cels))) [
      | none ↦ none
      | some cel ↦ if filled cel.uniqueid then some cel.uniqueid else none
    ]

unfoldable pub originate_direction : List Cel → RawCallLog → RawCallLog
originate_direction cels call =
    let incoming =
      if any (λ c. is_event c.eventtype xivo_incall) cels
      then record call { direction = inbound }
      else call in
    if any (λ c. is_event c.eventtype xivo_outcall) cels
    then record incoming { direction = outbound }
    else incoming

abbrev as_unrequested_source : RawParticipant → RawParticipant
as_unrequested_source p = record p { role = some source; requested = some false }

unfoldable pub note_all_lines : Cel → OriginateAllLinesInfo → RawCallLog → RawCallLog
unfolding is_user
note_all_lines cel info call =
    let known =
      update_participant as_unrequested_source cel.channame
        (set_tenant_uuid info.tenant_uuid call) in
    record (insert_or_update_participants_info
      (record {
        user_uuid = info.user_uuid;
        role = source;
        answered = none;
        name = none;
        requested = some (not (truthy known.requested_type));
        tags = none;
      })
      (is_user info.user_uuid source) known) { requested_type = some "all_lines" }

unfoldable pub detect_voicemail : List Cel → RawCallLog → RawCallLog
detect_voicemail [] call = call
detect_voicemail (cel ∷ cels) call =
    detect_voicemail cels
      (if is_event cel.eventtype app_start then interpret_voicemail_app_start cel call else call)

unfoldable pub originate_user_field : Channels → List Cel → RawCallLog → RawCallLog
unfolding is_cel_of
originate_user_field channels cels call = elim (find (is_cel_of channels.local1 app_start) cels) [
  | none ↦ call
  | some cel ↦ record call { user_field = some cel.userfield }
]

-- `if not recording.end_time: recording.end_time = call.date_end`
abbrev close_open : RawCallLog → Outcome RawCallLog
unfolding end_if_open
close_open call =
    next (elim call.date_end [ none ↦ call | some t ↦ map_recordings (end_if_open t) call ])

module _ (ext : External) where
  -- `for cel in cels` over the MIXMONITOR_START events; an invalid extra returns the call.
  unfoldable pub add_recordings : List Cel → RawCallLog → Outcome RawCallLog
  add_recordings [] call = next call
  add_recordings (cel ∷ cels) call =
      let extra = extract_cel_extra ext cel.extra in
      let added : Outcome RawCallLog = (do
        e ← run (require type_error extra)
        r ← run (start_recording ext cel e none)
        next (add_recording r call)) in
      (if is_valid_mixmonitor_start_extra extra then added else leave call) >>= add_recordings cels

  unfoldable pub stop_all : List Cel → RawCallLog → Outcome RawCallLog
  stop_all [] call = next call
  stop_all (cel ∷ cels) call =
      let extra = extract_cel_extra ext cel.extra in
      let stopped : Outcome RawCallLog = (do
        e ← run (require type_error extra)
        run (stop_recordings ext cel e call)) in
      (if is_valid_mixmonitor_stop_extra extra then stopped else leave call) >>= stop_all cels

  -- Times, source and destination extension, from the four events that every such call has.
  unfoldable pub originate_source : Channels → List Cel → RawCallLog → Outcome RawCallLog
  unfolding is_cel_of
  originate_source channels cels call = do
    start ← or_leave call (find (is_cel_of channels.local1 chan_start) cels)
    answered ← or_leave call (find (is_cel_of channels.source_channel answer) cels)
    ended ← or_leave call (find (is_cel_of channels.source_channel chan_end) cels)
    answered2 ← or_leave call (find (is_cel_of channels.local2 answer) cels)
    date ← run (parse_eventtime ext start.eventtime)
    date_end ← run (parse_eventtime ext ended.eventtime)
    next (
        update_participant (with_role source) answered.channame (record call {
          date = some date;
          date_end = some date_end;
          source_name = some answered.cid_name;
          source_exten = some answered.cid_num;
          source_line_identity = some (ext.identity_from_channel answered.channame);
          destination_exten = some answered2.cid_num;
        }))

  unfoldable pub originate_recordings : List Cel → RawCallLog → Outcome RawCallLog
  unfolding add_recordings stop_all end_if_open
  originate_recordings cels call = do
    started ← add_recordings (of_type mixmonitor_start cels) call
    stopped ← stop_all (of_type mixmonitor_stop cels) started
    close_open stopped

  unfoldable pub reach_destination : List Cel → RawCallLog → String → Outcome RawCallLog
  unfolding is_cel_of
  reach_destination cels call channel = do
    answered ← or_leave call (find (is_cel_of channel answer) cels)
    entered ← or_leave call (last? (keep (is_cel_of channel bridge_enter) cels))
    time ← run (parse_eventtime ext entered.eventtime)
    next
        (record (update_participant (with_role destination) answered.channame (record call {
          destination_name = some answered.cid_name;
          destination_exten = some answered.cid_num;
          destination_line_identity = some (ext.identity_from_channel answered.channame);
        })) { date_answer = some time })

  -- `if destination_channel`
  unfoldable pub originate_destination : Channels → List Cel → RawCallLog → Outcome RawCallLog
  unfolding destination_channel reach_destination
  originate_destination channels cels call = elim (destination_channel channels cels) [
    | none ↦ next call
    | some channel ↦ reach_destination cels call channel
  ]

  -- Tenant and user of WAZO_ORIGINATE_ALL_LINES; a CELInterpretationError is logged.
  unfoldable pub originate_all_lines : List Cel → RawCallLog → RawCallLog
  unfolding note_all_lines
  originate_all_lines cels call =
      elim (find (λ c. is_event c.eventtype wazo_originate_all_lines) cels) [
        | none ↦ call
        | some cel ↦ elim (parse_wazo_originate_all_lines_extra ext cel.extra) [
          | raise _ ↦ call
          | ok info ↦ note_all_lines cel info call
        ]
      ]

  -- what follows the recordings
  unfoldable pub originate_rest : Channels → List Cel → RawCallLog → Outcome RawCallLog
  unfolding originate_user_field detect_voicemail originate_destination originate_direction
      originate_all_lines
  originate_rest channels cels call = do
    let described = detect_voicemail cels (originate_user_field channels cels call)
    reached ← originate_destination channels cels described
    next (originate_all_lines cels (originate_direction cels reached))

  unfoldable pub originate_interpret_cels : List Cel → RawCallLog → Result RawCallLog
  unfolding originate_source originate_recordings originate_rest
  originate_interpret_cels cels call = call_of (do
    channels ← or_leave call (first_three (map (λ c. c.uniqueid) (of_type chan_start cels)))
    sourced ← originate_source channels cels call
    recorded ← originate_recordings cels sourced
    originate_rest channels cels recorded)

both_local : List String → Bool
unfolding is_local
both_local (a ∷ b ∷ _) = is_local a && is_local b
both_local _ = false

starts_answered : List Cel → Bool
starts_answered (a ∷ b ∷ _) = is_event a.eventtype chan_start && is_event b.eventtype answer
starts_answered _ = false

-- `can_interpret`
unfoldable pub three_channels_minimum : List Cel → Bool
three_channels_minimum cels = leb 3 (length (insert_all (map (λ c. c.uniqueid) cels) []))

unfoldable pub first_two_channels_are_local : List Cel → Bool
unfolding both_local
first_two_channels_are_local cels = both_local (map (λ c. c.channame) (of_type chan_start cels))

unfoldable pub first_channel_is_answered_before_any_other_operation : List Cel → Bool
unfolding starts_answered
first_channel_is_answered_before_any_other_operation [] = false
first_channel_is_answered_before_any_other_operation (cel ∷ cels) =
    starts_answered (keep (λ c. c.uniqueid == cel.uniqueid) (cel ∷ cels))

unfoldable pub can_interpret : List Cel → Bool
unfolding three_channels_minimum first_two_channels_are_local
    first_channel_is_answered_before_any_other_operation
can_interpret cels =
    three_channels_minimum cels
    && first_two_channels_are_local cels
    && first_channel_is_answered_before_any_other_operation cels
