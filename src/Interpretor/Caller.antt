-- ===== src/Interpretor/Caller.antt =====
-- cel_interpretor.py: `CallerCELInterpretor`
pub mod Direction
use wazo_call_logd.Common.{
  Bool, true, false, not, ◌&&◌, Option, none, some, [], ◌∷◌, String, ◌==◌, filled, truthy, is_some,
  insert, Result, ok, ◌>>=◌, require, key_error, type_error, if◌then◌else◌,
}
use wazo_call_logd.Common.Dict.{get, put}
use wazo_call_logd.External.{External}
use wazo_call_logd.Cel.{Cel}
use wazo_call_logd.ExtensionFilter.{filter}
use wazo_call_logd.RawCallLog.{
  RawCallLog, BridgeInfo, source, destination, inbound, outbound, update_participant, with_role,
  set_tenant_uuid, filter_call,
}
use wazo_call_logd.Regex.{match_groups}
use wazo_call_logd.Interpretor.Extra.{
  extract_cel_extra, present, parse_eventtime, bridge_of, is_valid_mixmonitor_start_extra,
  is_valid_mixmonitor_stop_extra, extra_user_fwd_regex, interpret_voicemail_app_start,
}
use wazo_call_logd.Interpretor.Recordings.{
  uuid_in_path, add_recording, map_recordings, start_recording, end_if_open, stop_recordings,
}

-- `call.extension_filter.filter(text)`
abbrev shown : RawCallLog → String → Option String
unfolding filter
shown call exten = some (filter call.extension_filter exten)

-- The bridge with the channels of the event.
abbrev join_bridge : Cel → BridgeInfo → BridgeInfo
join_bridge cel bridge = record bridge {
  channels =
      (let own = insert cel.channame bridge.channels in
        if filled cel.peer then insert cel.peer own else own);
}

-- A call put on a holding bridge is not answered yet.
unfoldable pub counts_as_answer : Option BridgeInfo → Bool
counts_as_answer none = true
counts_as_answer (some bridge) = not (bridge.technology == "holding_bridge")

-- The source, where nothing told it yet.
unfoldable pub name_source : Cel → RawCallLog → RawCallLog
name_source cel call =
    if truthy call.source_name then call else record call { source_name = some cel.cid_name }

unfoldable pub number_source : Cel → RawCallLog → RawCallLog
unfolding filter
number_source cel call =
    if truthy call.source_exten then call else record call { source_exten = shown call cel.cid_num }

-- The destination and requested extension, where nothing told them yet.
unfoldable pub answer_destination : Cel → RawCallLog → RawCallLog
answer_destination cel call =
    if truthy call.destination_exten
    then call
    else record call { destination_exten = some cel.cid_num }

unfoldable pub answer_requested : Cel → RawCallLog → RawCallLog
unfolding filter
answer_requested cel call =
    if truthy call.requested_exten
    then call
    else record call { requested_exten = shown call cel.cid_num }

-- The source that an application tells, for a call that was not forwarded.
unfoldable pub app_source_name : Cel → RawCallLog → RawCallLog
app_source_name cel call =
    if filled cel.cid_name then record call { source_name = some cel.cid_name } else call

unfoldable pub app_source_exten : Cel → RawCallLog → RawCallLog
unfolding filter
app_source_exten cel call =
    if filled cel.cid_num then record call { source_exten = shown call cel.cid_num } else call

module _ (ext : External) where
  unfoldable pub caller_chan_start : Cel → RawCallLog → Result RawCallLog
  unfolding filter
  caller_chan_start cel call = do
    time ← parse_eventtime ext cel.eventtime
    ok (
        update_participant (with_role source) cel.channame (record call {
          date = some time;
          source_name = some cel.cid_name;
          source_internal_name = some cel.cid_name;
          source_exten = shown call cel.cid_num;
          requested_exten = shown call cel.exten;
          requested_context = some cel.context;
          destination_exten = shown call cel.exten;
          source_line_identity = some (ext.identity_from_channel cel.channame);
        }))

  unfoldable pub caller_chan_end : Cel → RawCallLog → Result RawCallLog
  unfolding end_if_open
  caller_chan_end cel call = do
    time ← parse_eventtime ext cel.eventtime
    ok (filter_call (map_recordings (end_if_open time) (record call { date_end = some time })))

  unfoldable pub caller_app_start : Cel → RawCallLog → Result RawCallLog
  unfolding app_source_name app_source_exten interpret_voicemail_app_start
  caller_app_start cel call =
      let seen =
        interpret_voicemail_app_start cel (record call { user_field = some cel.userfield }) in
      ok (if seen.was_forwarded then seen else app_source_exten cel (app_source_name cel seen))

  unfoldable pub caller_answer : Cel → RawCallLog → Result RawCallLog
  unfolding answer_destination answer_requested
  caller_answer cel call = ok (answer_requested cel (answer_destination cel call))

  -- The bridge, if the extra of the event tells it.
  unfoldable pub caller_note_bridge : Cel → RawCallLog → RawCallLog
  unfolding put
  caller_note_bridge cel call = elim (bridge_of ext cel) [
    | none ↦ call
    | some b ↦ record call { bridges = put call.bridges b.id (join_bridge cel b) }
  ]

  -- `date_answer`, unless it is there or the event is about a holding bridge
  unfoldable pub note_answer_time : Cel → RawCallLog → Result RawCallLog
  unfolding counts_as_answer
  note_answer_time cel call =
      let answered : Result RawCallLog = (do
        time ← parse_eventtime ext cel.eventtime
        ok (record call { date_answer = some time })) in
      if not (is_some call.date_answer) && counts_as_answer (bridge_of ext cel)
      then answered
      else ok call

  unfoldable pub caller_bridge_start_or_enter : Cel → RawCallLog → Result RawCallLog
  unfolding caller_note_bridge name_source number_source note_answer_time
  caller_bridge_start_or_enter cel call =
      note_answer_time cel (number_source cel (name_source cel (caller_note_bridge cel call)))

  unfoldable pub caller_mixmonitor_start : Cel → RawCallLog → Result RawCallLog
  unfolding get
  caller_mixmonitor_start cel call =
      let extra = extract_cel_extra ext cel.extra in
      if is_valid_mixmonitor_start_extra extra
      then (do
        e ← require type_error extra
        path ← require key_error (get e "filename")
        r ←
            start_recording ext cel e
              (elim (uuid_in_path path) [ some u ↦ some u | none ↦ some (ext.uuid4 cel.id) ])
        ok (add_recording r call))
      else ok call

  -- both interpretors have this method
  unfoldable pub mixmonitor_stopped : Cel → RawCallLog → Result RawCallLog
  mixmonitor_stopped cel call =
      let extra = extract_cel_extra ext cel.extra in
      if is_valid_mixmonitor_stop_extra extra
      then (do e ← require type_error extra; stop_recordings ext cel e call)
      else ok call

  unfoldable pub caller_xivo_from_s : Cel → RawCallLog → Result RawCallLog
  unfolding filter
  caller_xivo_from_s cel call = ok (record call {
    requested_exten = shown call cel.exten;
    requested_context = some cel.context;
    destination_exten = shown call cel.exten;
  })

  unfoldable pub caller_xivo_incall : Cel → RawCallLog → Result RawCallLog
  unfolding get
  caller_xivo_incall cel call =
      let incoming = record call { direction = inbound } in
      elim (present (extract_cel_extra ext cel.extra)) [
        | none ↦ ok incoming
        | some extra ↦ (do
          tenant ← require key_error (get extra "extra")
          ok (set_tenant_uuid tenant incoming))
      ]

  unfoldable pub caller_xivo_outcall : Cel → RawCallLog → Result RawCallLog
  unfolding filter
  caller_xivo_outcall cel call = ok (
      if call.was_forwarded
      then record call {
        destination_details = [];
        destination_exten = shown call cel.cid_num;
        destination_name = some cel.cid_name;
      }
      else record call { direction = outbound })

  -- The three groups of EXTRA_USER_FWD_REGEX; matching None is a TypeError.
  unfoldable pub user_fwd_groups : Cel → Result (Option (String × String × String))
  user_fwd_groups cel = do
    text ← require type_error cel.extra
    ok (elim (match_groups extra_user_fwd_regex text) [
      | some (num ∷ context ∷ name ∷ _) ↦ some (num, context, name)
      | _ ↦ none
    ])

  unfoldable pub caller_xivo_user_fwd : Cel → RawCallLog → Result RawCallLog
  unfolding filter user_fwd_groups
  caller_xivo_user_fwd cel call = do
    groups ← user_fwd_groups cel
    let moved : RawCallLog = elim groups [
      | none ↦ record call { was_forwarded = true }
      | some (num, _, _) ↦ record call { was_forwarded = true; destination_exten = shown call num }
    ]
    let requested : RawCallLog = elim groups [
      | none ↦ moved
      | some (num, context, name) ↦ record moved {
        requested_internal_exten = shown moved num;
        requested_internal_context = some context;
        requested_name = some name;
      }
    ]
    ok (
        if call.interpret_caller_xivo_user_fwd
        then record requested { interpret_caller_xivo_user_fwd = false }
        else moved)
