-- ===== src/Generator/Attributes.antt =====
-- generator.py: one channel for each line, the tenant of the call, and its internal extensions.
pub mod Lines
pub mod Tenant
use wazo_call_logd.Common.{
  Bool, true, false, not, ◌&&◌, ◌||◌, Option, none, some, List, [], ◌∷◌, String, ◌==◌, last?, keep,
  insert_all, truthy, filled, Result, ok, ◌>>=◌, require, key_error, invalid_channel, if◌then◌else◌,
}
use wazo_call_logd.Common.Dict.{Dict, pop, keys, values}
use wazo_call_logd.Common.Sort.{sort, text_leb}
use wazo_call_logd.External.{External, Confd, Extension}
use wazo_call_logd.RawCallLog.{
  RawCallLog, RawParticipant, Role, source, destination, participant_of, set_tenant_uuid,
}
use wazo_call_logd.Generator.Recordings.{has_answered}

abbrev pub Interface : Type 0
Interface = String × String

abbrev same_interface : Interface → Interface → Bool
same_interface (a, b) (c, d) = a == c && b == d

-- Neighbours on one line, of the names that are already keyed.
unfoldable pub add_to_lines :
    Interface → String → List (Interface × List String) → List (Interface × List String)
add_to_lines key channel [] = (key, channel ∷ []) ∷ []
add_to_lines key channel ((k, channels) ∷ lines) =
    if same_interface key k
    then (k, channel ∷ channels) ∷ lines
    else (key, channel ∷ []) ∷ (k, channels) ∷ lines

-- `groupby(channel_names, protocol_interface_from_channel)`
unfoldable pub lines_of : External → List String → Result (List (Interface × List String))
unfolding add_to_lines
lines_of ext [] = ok []
lines_of ext (channel ∷ channels) = do
  key ← require invalid_channel (ext.protocol_interface_from_channel channel)
  lines ← lines_of ext channels
  ok (add_to_lines key channel lines)

-- The last answered channel of a line, or its last channel.
unfoldable pub kept_channel : RawCallLog → List String → Option String
unfolding participant_of
kept_channel call channels =
    elim (last? (keep (λ c. has_answered (participant_of call c)) channels)) [
      | some c ↦ some c
      | none ↦ last? channels
    ]

abbrev pub pop_all : List String → Dict RawParticipant → Dict RawParticipant
pop_all [] d = d
pop_all (c ∷ cs) d = pop_all cs (pop d c)

unfoldable pub keep_one_channel : RawCallLog → List String → RawCallLog
unfolding kept_channel pop
keep_one_channel call channels = elim (kept_channel call channels) [
  | none ↦ call
  | some kept ↦ record call {
    raw_participants = pop_all (keep (λ c. not (c == kept)) channels) call.raw_participants;
  }
]

unfoldable pub keep_one_of_each : RawCallLog → List (Interface × List String) → RawCallLog
unfolding keep_one_channel
keep_one_of_each call [] = call
keep_one_of_each call ((_, channels) ∷ lines) =
    keep_one_of_each (keep_one_channel call channels) lines

unfoldable pub remove_duplicate_participants : External → RawCallLog → Result RawCallLog
unfolding lines_of keep_one_of_each sort text_leb
remove_duplicate_participants ext call = do
  lines ← lines_of ext (sort text_leb (keys call.raw_participants))
  ok (keep_one_of_each call lines)

-- The tenants that confd gave for the participants.
unfoldable pub tenants_of : List RawParticipant → List String
tenants_of [] = []
tenants_of (p ∷ ps) = elim p.confd [
  | none ↦ tenants_of ps
  | some info ↦
      let rest = tenants_of ps in if filled info.tenant_uuid then info.tenant_uuid ∷ rest else rest
]

unfoldable pub set_tenants : List String → RawCallLog → RawCallLog
unfolding set_tenant_uuid
set_tenants [] call = call
set_tenants (t ∷ ts) call = set_tenants ts (set_tenant_uuid t call)

-- The tenant of the requested context, or the one of the service.
unfoldable pub fall_back : Confd → String → RawCallLog → Result RawCallLog
unfolding set_tenant_uuid
fall_back confd service call =
    let found : Result RawCallLog = (do
      context ← require key_error call.requested_context
      tenants ← confd.contexts_list context
      ok (elim tenants [
        | [] ↦ set_tenant_uuid service call
        | tenant ∷ _ ↦ set_tenant_uuid tenant call
      ])) in
    if truthy call.requested_context then found else ok (set_tenant_uuid service call)

unfoldable pub ensure_tenant_uuid_is_set :
    External → Confd → String → RawCallLog → Result RawCallLog
unfolding tenants_of set_tenants fall_back
ensure_tenant_uuid_is_set ext confd service call =
    let told =
      set_tenants (ext.set_order (insert_all (tenants_of (values call.raw_participants)) []))
        call in
    if truthy told.tenant_uuid then ok told else fall_back confd service told

-- `participant.get('main_extension')`
abbrev main_extension : RawParticipant → Option Extension
main_extension p = elim p.confd [ none ↦ none | some info ↦ info.main_extension ]

unfoldable pub fill_source : RawParticipant → RawCallLog → RawCallLog
fill_source p call = elim (main_extension p) [
  | none ↦ call
  | some e ↦
      if truthy call.source_internal_exten && truthy call.source_internal_context
      then call
      else record call {
        source_internal_exten = some e.exten;
        source_internal_context = some e.context;
      }
]

unfoldable pub fill_destination : RawParticipant → RawCallLog → RawCallLog
fill_destination p call = elim (main_extension p) [
  | none ↦ call
  | some e ↦
      let reached =
        if has_answered p
          || not
              (truthy call.destination_internal_exten && truthy call.destination_internal_context)
        then record call {
          destination_internal_exten = some e.exten;
          destination_internal_context = some e.context;
        }
        else call in
      if truthy reached.requested_internal_exten && truthy reached.requested_internal_context
      then reached
      else record reached {
        requested_internal_exten = some e.exten;
        requested_internal_context = some e.context;
      }
]

abbrev is_source : Role → Bool
is_source source = true
is_source destination = false

-- One pass over the participants: those of the role are filled in, and a participant with no role
-- is a KeyError.
unfoldable pub fill_role :
    (Role → Bool)
    → (RawParticipant → RawCallLog → RawCallLog)
    → List RawParticipant
    → RawCallLog
    → Result RawCallLog
fill_role wanted fill [] call = ok call
fill_role wanted fill (p ∷ ps) call = do
  role ← require key_error p.role
  fill_role wanted fill ps (if wanted role then fill p call else call)

unfoldable pub fill_extensions_from_participants : RawCallLog → Result RawCallLog
unfolding fill_role fill_source fill_destination
fill_extensions_from_participants call = do
  sourced ← fill_role is_source fill_source (values call.raw_participants) call
  fill_role (λ r. not (is_source r)) fill_destination (values call.raw_participants) sourced
