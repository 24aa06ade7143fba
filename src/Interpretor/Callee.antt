-- ===== src/Interpretor/Callee.antt =====
-- cel_interpretor.py: `CalleeCELInterpretor`
pub mod Authoritative
use wazo_call_logd.Common.{
  false, not, ◌&&◌, ◌||◌, Option, none, some, List, [], ◌∷◌, String, ◌==◌, map, filled, truthy,
  is_some, insert, insert_all, keep, elem, Result, ok, ◌>>=◌, require, key_error, type_error,
  if◌then◌else◌,
}
use wazo_call_logd.Common.Dict.{get, put}
use wazo_call_logd.Common.Text.{chars, string, split}
use wazo_call_logd.External.{External}
use wazo_call_logd.Cel.{Cel}
use wazo_call_logd.RawCallLog.{
  RawCallLog, Direction, internal, inbound, outbound, destination, update_participant, with_role,
  with_answered,
}
use wazo_call_logd.Regex.{match_groups}
use wazo_call_logd.Interpretor.Extra.{
  extract_cel_extra, present, parse_eventtime, bridge_of, is_valid_mixmonitor_start_extra,
  extract_key_value_pairs_as_dict, wait_for_mobile_regex, matching_mobile_peer_regex,
}
use wazo_call_logd.Interpretor.Recordings.{
  uuid_in_path, add_recording, map_recordings, start_recording, extend_to,
}
use wazo_call_logd.Interpretor.UserEvents.{request_internal}

-- The first group of a pattern that matches the name of the channel.
abbrev first_group : Option (List String) → Option String
first_group (some (g ∷ _)) = some g
first_group _ = none

-- `set.remove`
abbrev without : String → List String → List String
without s = keep (λ t. not (t == s))

-- `_is_a_pending_wait_for_mobile_cel`: the peers that still wait, if the channel is one of them.
unfoldable pub pending_mobile : Cel → RawCallLog → Option (List String)
pending_mobile cel call =
    let peers = call.pending_wait_for_mobile_peers in
    elim (first_group (match_groups matching_mobile_peer_regex cel.channame)) [
      | none ↦ none
      | some peer ↦ if elem peer peers then some (without peer peers) else none
    ]

-- The identity of the channel becomes that of the destination, unless it is authoritative.
unfoldable pub take_destination : Cel → RawCallLog → RawCallLog
take_destination cel call =
    if call.authoritative_destination_info
    then call
    else record call { destination_exten = some cel.cid_num; destination_name = some cel.cid_name }

-- The branches of CHAN_START for a call that is not outbound.
unfoldable pub ring_destination : Cel → RawCallLog → RawCallLog
unfolding pending_mobile take_destination
ring_destination cel call = elim (first_group (match_groups wait_for_mobile_regex cel.channame)) [
  | some peer ↦ record call {
    pending_wait_for_mobile_peers = insert peer call.pending_wait_for_mobile_peers;
  }
  | none ↦ elim (pending_mobile cel call) [
    | some peers ↦
        record (take_destination cel (record call {
          pending_wait_for_mobile_peers = peers;
          interpret_callee_bridge_enter = false;
        })) {
          destination_internal_exten = some cel.cid_num;
          destination_internal_context = some cel.context;
        }
    | none ↦
        let taken = take_destination cel call in
        if truthy taken.requested_name
        then taken
        else record taken { requested_name = some cel.cid_name }
  ]
]

unfoldable pub clear_names : RawCallLog → RawCallLog
clear_names call = record call { destination_name = some ""; requested_name = some "" }

abbrev by_direction {ℓ} : {A : Type ℓ} → Direction → A → A → A
by_direction outbound x y = x
by_direction internal x y = y
by_direction inbound x y = y

-- The first bridge that a callee enters tells the destination.
unfoldable pub take_bridge_identity : Cel → RawCallLog → RawCallLog
take_bridge_identity cel call =
    let numbered =
      if filled cel.cid_num && not (cel.cid_num == "s")
      then record call { destination_exten = some cel.cid_num }
      else call in
    if call.interpret_callee_bridge_enter
      && (not call.authoritative_destination_info || call.was_forwarded)
    then record numbered {
      destination_name = some cel.cid_name;
      interpret_callee_bridge_enter = false;
    }
    else call

-- `[peer for peer in cel.peer.split(',') if peer]`
unfoldable pub peers_of : Cel → List String
unfolding split
peers_of cel = keep filled (map string (split 44 (chars cel.peer)))

-- The peers that take part in the call have answered.
unfoldable pub mark_peers : List String → RawCallLog → RawCallLog
unfolding get
mark_peers [] call = call
mark_peers (peer ∷ peers) call = mark_peers peers (
    if is_some (get call.raw_participants peer)
    then update_participant with_answered peer call
    else call)

-- The caller id that CHAN_START noted for the channel.
unfoldable pub take_caller_id : Cel → RawCallLog → Result RawCallLog
unfolding get
take_caller_id cel call = if call.authoritative_destination_info then ok call else (do
  (name, number) ← require key_error (get call.caller_id_by_channels cel.channame)
  let named = if filled name then record call { destination_name = some name } else call
  ok (
      if filled number
      then record named {
        destination_exten = some number;
        destination_internal_exten = some number;
      }
      else named))

module _ (ext : External) where
  -- the line and the caller id of the channel
  unfoldable pub note_channel : Cel → RawCallLog → RawCallLog
  unfolding put
  note_channel cel call = record call {
    destination_line_identity = some (ext.identity_from_channel cel.channame);
    caller_id_by_channels = put call.caller_id_by_channels cel.channame (cel.cid_name, cel.cid_num);
  }

  unfoldable pub callee_chan_start : Cel → RawCallLog → Result RawCallLog
  unfolding ring_destination clear_names note_channel
  callee_chan_start cel call =
      let noted = note_channel cel call in
      ok (
        update_participant (with_role destination) cel.channame
          (by_direction call.direction (clear_names noted) (ring_destination cel noted)))

  unfoldable pub callee_chan_end : Cel → RawCallLog → Result RawCallLog
  unfolding extend_to
  callee_chan_end cel call = do
    time ← parse_eventtime ext cel.eventtime
    ok (map_recordings (extend_to time) call)

  -- The bridge with the peers of the event, if the extra tells it.
  unfoldable pub callee_note_bridge : Cel → RawCallLog → RawCallLog
  unfolding peers_of put
  callee_note_bridge cel call = elim (bridge_of ext cel) [
    | none ↦ call
    | some b ↦ record call {
      bridges =
          put call.bridges b.id (record b { channels = insert_all (peers_of cel) b.channels });
    }
  ]

  unfoldable pub callee_bridge_enter : Cel → RawCallLog → Result RawCallLog
  unfolding callee_note_bridge take_bridge_identity
  callee_bridge_enter cel call =
      let noted = update_participant with_answered cel.channame (callee_note_bridge cel call) in
      let entered = take_bridge_identity cel noted in
      if filled cel.peer then take_caller_id cel (mark_peers (peers_of cel) entered) else ok entered

  -- A path with no uuid leaves the recording without one.
  unfoldable pub callee_mixmonitor_start : Cel → RawCallLog → Result RawCallLog
  unfolding get
  callee_mixmonitor_start cel call =
      let extra = extract_cel_extra ext cel.extra in
      if is_valid_mixmonitor_start_extra extra
      then (do
        e ← require type_error extra
        path ← require key_error (get e "filename")
        r ← start_recording ext cel e (uuid_in_path path)
        ok (add_recording r call))
      else ok call

  unfoldable pub callee_requested_internal : Cel → RawCallLog → Result RawCallLog
  unfolding request_internal
  callee_requested_internal cel call = elim (present (extract_cel_extra ext cel.extra)) [
    | none ↦ ok call
    | some extra ↦ (do
      info ← extract_key_value_pairs_as_dict extra
      ok (record (request_internal info call) { requested_name = some cel.cid_name }))
  ]
