-- ===== src/Interpretor/UserEvents.antt =====
-- cel_interpretor.py: the user events that `CallerCELInterpretor` reads.
pub mod Direction
use wazo_call_logd.Common.{
  Bool, true, false, not, ◌&&◌, Option, none, some, List, [], ◌∷◌, ◌++◌, String, ◌==◌, filled,
  truthy, is_some, Result, ok, ◌>>=◌, require, key_error, type_error, value_error, if◌then◌else◌,
}
use wazo_call_logd.Common.Dict.{Dict, get}
use wazo_call_logd.Common.Text.{chars, string, cut_at}
use wazo_call_logd.External.{External, Extra}
use wazo_call_logd.Cel.{Cel}
use wazo_call_logd.ExtensionFilter.{add_exten}
use wazo_call_logd.RawCallLog.{
  RawCallLog, InfoEntry, Role, source, destination, set_tenant_uuid,
  insert_or_update_participants_info,
}
use wazo_call_logd.Regex.{match_groups}
use wazo_call_logd.Interpretor.Extra.{
  extract_cel_extra, present, extract_user_missed_call_variables,
  extract_user_blocked_call_variables, extract_key_value_pairs_as_dict, meeting_extension_regex,
}

-- `p.get('user_uuid') == uuid and p.get('role') == role`
unfoldable pub is_user : String → Role → InfoEntry → Bool
is_user uuid source p = p.user_uuid == uuid && elim p.role [ source ↦ true | destination ↦ false ]
is_user uuid destination p =
    p.user_uuid == uuid && elim p.role [ source ↦ false | destination ↦ true ]

-- A participant that did not answer.
abbrev missed_entry : String → Role → Option String → InfoEntry
missed_entry uuid role name = record {
  user_uuid = uuid;
  role = role;
  answered = some false;
  name = name;
  requested = none;
  tags = none;
}

abbrev note_user : InfoEntry → RawCallLog → RawCallLog
unfolding is_user
note_user info = insert_or_update_participants_info info (is_user info.user_uuid info.role)

-- A handler that does nothing without an extra.
abbrev with_extra : External → Cel → RawCallLog → (Extra → Result RawCallLog) → Result RawCallLog
with_extra ext cel call handle = elim (present (extract_cel_extra ext cel.extra)) [
  | none ↦ ok call
  | some extra ↦ handle extra
]

-- The details of a destination, and what its type adds to the call.
unfoldable pub set_destination :
    Dict String → String → RawCallLog → Result (Option (List (String × String) × RawCallLog))
unfolding get
set_destination info type call =
    if type == "conference"
    then (do
      id ← require key_error (get info "id")
      ok (some (("type", type) ∷ ("conference_id", id) ∷ [], call)))
    else if type == "user"
    then (do
      uuid ← require key_error (get info "uuid")
      name ← require key_error (get info "name")
      ok (
          some (
            ("type", type) ∷ ("user_uuid", uuid) ∷ ("user_name", name) ∷ [],
            record call {
              participants_info =
                  call.participants_info
                  ++ record {
                    user_uuid = uuid;
                    role = destination;
                    answered = none;
                    name = some name;
                    requested = some (not (truthy call.requested_type));
                    tags = some [];
                  }
                    ∷ [];
              destination_name = some name;
            },
          )))
    else if type == "meeting"
    then (do
      uuid ← require key_error (get info "uuid")
      name ← require key_error (get info "name")
      ok (some (("type", type) ∷ ("meeting_uuid", uuid) ∷ ("meeting_name", name) ∷ [], call)))
    else if type == "group"
    then (do
      id ← require key_error (get info "id")
      label ← require key_error (get info "label")
      ok (
          some (
            ("type", type) ∷ ("group_id", id) ∷ ("group_label", label) ∷ [],
            record call { destination_name = some label },
          )))
    else ok none

-- What stands behind the `if` ladder: an unknown type leaves the call as it was.
unfoldable pub conclude_destination :
    String → RawCallLog → Option (List (String × String) × RawCallLog) → RawCallLog
conclude_destination type call none = call
conclude_destination type call (some (details, named)) =
    record (if truthy named.requested_type
      then named
      else record named { requested_type = some type }) {
        destination_details = details;
        authoritative_destination_info = true;
      }

-- The requested extension and context, where the payload has them.
unfoldable pub request_internal : Dict String → RawCallLog → RawCallLog
unfolding get
request_internal info call =
    let numbered : RawCallLog =
      if truthy (get info "number")
      then record call { requested_internal_exten = get info "number" }
      else call in
    if truthy (get info "context")
    then record numbered { requested_internal_context = get info "context" }
    else numbered

module _ (ext : External) where
  -- `_, name = extra['extra'].split('NAME: ', 1)`
  unfoldable pub caller_wazo_conference : Cel → RawCallLog → Result RawCallLog
  unfolding get cut_at
  caller_wazo_conference cel call = with_extra ext cel call λ extra. do
    text ← require key_error (get extra "extra")
    name ← require value_error (cut_at (chars "NAME: ") (chars text)).1
    ok (record call { destination_name = some (string name) })

  unfoldable pub caller_wazo_meeting_name : Cel → RawCallLog → Result RawCallLog
  unfolding get
  caller_wazo_meeting_name cel call = with_extra ext cel call λ extra. do
    name ← require key_error (get extra "extra")
    exten ← require type_error call.destination_exten
    let named = record call { destination_name = some name }
    ok (
        if is_some (match_groups meeting_extension_regex exten)
        then record named { extension_filter = add_exten call.extension_filter exten }
        else named)

  unfoldable pub caller_wazo_user_missed_call : Cel → RawCallLog → Result RawCallLog
  unfolding is_user
  caller_wazo_user_missed_call cel call = with_extra ext cel call λ extra. do
    v ← extract_user_missed_call_variables ext extra
    let from_user =
        if filled v.source_user_uuid
        then note_user (missed_entry v.source_user_uuid source (some v.source_name)) call
        else call
    let to_user =
        if filled v.destination_user_uuid
        then note_user (missed_entry v.destination_user_uuid destination (some v.destination_name))
            from_user
        else from_user
    ok (record (set_tenant_uuid v.wazo_tenant_uuid to_user) {
      destination_name = some v.destination_name;
      source_name = some v.source_name;
      source_exten = some cel.cid_num;
      source_line_identity = some (ext.identity_from_channel cel.channame);
    })

  unfoldable pub caller_wazo_user_blocked_call : Cel → RawCallLog → Result RawCallLog
  unfolding is_user
  caller_wazo_user_blocked_call cel call = with_extra ext cel call λ extra. do
    v ← extract_user_blocked_call_variables ext extra
    let noted = note_user (missed_entry v.destination_user_uuid destination none) call
    ok (record (set_tenant_uuid v.wazo_tenant_uuid noted) {
      source_name = some v.fourth;
      source_exten = some v.third;
      source_line_identity = some (ext.identity_from_channel cel.channame);
      blocked = true;
    })

  unfoldable pub caller_wazo_call_log_destination : Cel → RawCallLog → Result RawCallLog
  unfolding set_destination conclude_destination
  caller_wazo_call_log_destination cel call = with_extra ext cel call λ extra. do
    info ← extract_key_value_pairs_as_dict extra
    elim (get info "type") [
      | none ↦ ok call
      | some type ↦ (do
        outcome ← set_destination info type call
        ok (conclude_destination type call outcome))
    ]

  unfoldable pub caller_wazo_call_log_requested_internal : Cel → RawCallLog → Result RawCallLog
  unfolding request_internal
  caller_wazo_call_log_requested_internal cel call =
      with_extra ext cel call
        λ extra. do info ← extract_key_value_pairs_as_dict extra; ok (request_internal info call)
