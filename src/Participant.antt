-- ===== src/Participant.antt =====
-- participant.py: who stands behind a channel or a user uuid, as wazo-confd tells it.
use wazo_call_logd.Common.{
  ℕ, Option, none, some, List, [], String, ◌==◌, map, head?, filled, Result, ok, raise, ◌>>=◌,
  http_error, if◌then◌else◌,
}
use wazo_call_logd.Common.Text.{chars, string, split, strip}
use wazo_call_logd.External.{External, Confd, ConfdUser, ListedLine, Extension}
use wazo_call_logd.RawCallLog.{ParticipantInfo}

unfoldable pub get_tags : Option String → List String
unfolding split strip
get_tags none = []
get_tags (some field) =
    if filled field then map (λ tag. string (strip tag)) (split 44 (chars field)) else []

-- `except requests.exceptions.HTTPError: return None`
abbrev pub catch_http {ℓ κ} :
    {A : Type ℓ} {B : Type κ} → Result A → (A → Option B) → Result (Option B)
catch_http (ok a) f = ok (f a)
catch_http (raise http_error) f = ok none
catch_http (raise e) f = raise e

abbrev main_extension_of : ConfdUser → Option Extension
main_extension_of user = elim (head? user.lines) [ none ↦ none | some line ↦ head? line.extensions ]

abbrev main_line_of : ConfdUser → Option ℕ
main_line_of user = elim (head? user.lines) [ none ↦ none | some line ↦ some line.id ]

unfoldable pub find_participant_by_uuid : Confd → String → Result (Option ParticipantInfo)
unfolding get_tags
find_participant_by_uuid confd user_uuid = catch_http (confd.users_get user_uuid) λ user.
    some (record {
      uuid = user.uuid;
      tenant_uuid = user.tenant_uuid;
      line_id = main_line_of user;
      tags = get_tags user.userfield;
      main_extension = main_extension_of user;
    })

-- The participant of the first listed line, by its first user.
unfoldable pub participant_of_lines : Confd → List ListedLine → Result (Option ParticipantInfo)
unfolding get_tags
participant_of_lines confd lines = elim (head? lines) [
  | none ↦ ok none
  | some line ↦ elim (head? line.users) [
    | none ↦ ok none
    | some user_uuid ↦ catch_http (confd.users_get user_uuid) λ user. some (record {
      uuid = user.uuid;
      tenant_uuid = user.tenant_uuid;
      line_id = some line.id;
      tags = get_tags user.userfield;
      main_extension = head? line.extensions;
    })
  ]
]

unfoldable pub find_participant : External → Confd → String → Result (Option ParticipantInfo)
unfolding participant_of_lines
find_participant ext confd channame = elim (ext.protocol_interface_from_channel channame) [
  | none ↦ ok none
  | some (protocol, line_name) ↦
      let listed : Result (Option ParticipantInfo) =
        confd.lines_list line_name >>= participant_of_lines confd in
      if protocol == "Local" then ok none else listed
]
