-- ===== src/Generator/Participants.antt =====
-- generator.py: `_ParticipantsProcessor`. Its cache of confd answers is passed along; it lives for
-- one call log.
use wazo_call_logd.Common.{
  Bool, false, Option, none, some, List, [], ◌∷◌, ◌++◌, String, ◌==◌, map, length, last?, is_empty,
  keep, eqb, insert_all, Result, ok, ◌>>=◌, require, key_error, index_error, if◌then◌else◌,
}
use wazo_call_logd.Common.Dict.{Dict, get, put}
use wazo_call_logd.External.{External, Confd}
use wazo_call_logd.RawCallLog.{
  RawCallLog, RawParticipant, ParticipantInfo, CallLogParticipant, InfoEntry,
}
use wazo_call_logd.Participant.{find_participant, find_participant_by_uuid}

abbrev pub Cache : Type 0
Cache = Dict ParticipantInfo

-- One channel: its attributes with what confd adds, and its participant.
pub record FromChannel : Type 0 where
  pub attributes : RawParticipant
  pub found : Option CallLogParticipant
  pub cache : Cache

-- `value or False` where the key may be missing
abbrev or_false : Option Bool → Bool
or_false none = false
or_false (some b) = b

abbrev connected_participant : ParticipantInfo → RawParticipant → Result CallLogParticipant
connected_participant info attributes = do
  role ← require key_error attributes.role
  ok (record {
    user_uuid = info.uuid;
    line_id = info.line_id;
    tags = info.tags;
    role = role;
    answered = attributes.answered;
    requested = none;
  })

-- Each channel of `raw_participants`, in the order of the dict.
pub record Connected : Type 0 where
  pub attributes : Dict RawParticipant
  pub participants : List CallLogParticipant
  pub cache : Cache

module _ (ext : External) (confd : Confd) where
  -- The body of the loop of `_compute_participants_from_channels`.
  unfoldable pub participant_from_channel : String → RawParticipant → Cache → Result FromChannel
  unfolding put
  participant_from_channel channel attributes cache = do
    found ← find_participant ext confd channel
    elim found [
      | none ↦ ok (record { attributes = attributes; found = none; cache = cache })
      | some info ↦ (do
        participant ← connected_participant info attributes
        ok (record {
          attributes = record attributes { confd = some info };
          found = some participant;
          cache = put cache info.uuid info;
        }))
    ]

  unfoldable pub participants_from_channels : Dict RawParticipant → Cache → Result Connected
  unfolding participant_from_channel
  participants_from_channels [] cache =
      ok (record { attributes = []; participants = []; cache = cache })
  participants_from_channels ((channel, attributes) ∷ rest) cache = do
    one ← participant_from_channel channel attributes cache
    others ← participants_from_channels rest one.cache
    ok (record {
      attributes = (channel, one.attributes) ∷ others.attributes;
      participants = elim one.found [
        | none ↦ others.participants
        | some p ↦ p ∷ others.participants
      ];
      cache = others.cache;
    })

  -- `_fetch_participant_from_user_uuid`
  unfoldable pub participant_from_user_uuid :
      String → Cache → Result (Option ParticipantInfo × Cache)
  unfolding get put
  participant_from_user_uuid user_uuid cache = elim (get cache user_uuid) [
    | some info ↦ ok (some info, cache)
    | none ↦ (do
      found ← find_participant_by_uuid confd user_uuid
      ok (elim found [ none ↦ (none, cache) | some info ↦ (some info, put cache user_uuid info) ]))
  ]

  -- A user that no channel reached, with the last entry that the CELs gave.
  unfoldable pub unreached_participant :
      String → List InfoEntry → Cache → Result (Option CallLogParticipant × Cache)
  unfolding participant_from_user_uuid
  unreached_participant user_uuid entries cache = do
    (found, cache') ← participant_from_user_uuid user_uuid cache
    elim found [
      | none ↦ ok (none, cache')
      | some info ↦ (do
        entry ← require index_error (last? entries)
        ok (
          some (record {
            user_uuid = info.uuid;
            line_id = info.line_id;
            tags = info.tags;
            role = entry.role;
            answered = some false;
            requested = some (or_false entry.requested);
          }),
          cache',
        ))
    ]

-- What a CEL entry adds to the participant of a channel.
unfoldable pub augment : InfoEntry → CallLogParticipant → CallLogParticipant
augment entry p = record p {
  answered = elim p.answered [ none ↦ entry.answered | some b ↦ some b ];
  requested = some (or_false entry.requested);
}

-- `zip(user_participants_info, user_connected_participants)`, where the participants of the user
-- are objects in the list of all.
unfoldable pub augment_user :
    String → List InfoEntry → List CallLogParticipant → List CallLogParticipant
unfolding augment
augment_user user_uuid [] ps = ps
augment_user user_uuid (e ∷ es) [] = []
augment_user user_uuid (e ∷ es) (p ∷ ps) =
    let mine = augment e p ∷ augment_user user_uuid es ps in
    let other = p ∷ augment_user user_uuid (e ∷ es) ps in
    if p.user_uuid == user_uuid then mine else other

abbrev pub entries_of : String → List InfoEntry → List InfoEntry
entries_of user_uuid = keep (λ e. e.user_uuid == user_uuid)

abbrev pub connected_of : String → List CallLogParticipant → List CallLogParticipant
connected_of user_uuid = keep (λ p. p.user_uuid == user_uuid)

-- The lists of `_fetch_participants` while it walks the users.
pub record Fetched : Type 0 where
  pub connected : List CallLogParticipant
  pub unreached : List CallLogParticipant
  pub cache : Cache

abbrev pub user_uuids : External → List InfoEntry → List CallLogParticipant → List String
user_uuids ext entries connected =
    ext.set_order (
      insert_all (map (λ p. p.user_uuid) connected)
        (insert_all (map (λ e. e.user_uuid) entries) []))

module _ (ext : External) (confd : Confd) where
  -- The three cases of one user.
  unfoldable pub fetch_user : List InfoEntry → String → Fetched → Result Fetched
  unfolding unreached_participant augment_user
  fetch_user entries user_uuid state =
      let mine = connected_of user_uuid state.connected in
      let told = entries_of user_uuid entries in
      let unreached : Result Fetched = (do
        (found, cache) ← unreached_participant ext confd user_uuid told state.cache
        ok (record state {
          unreached = elim found [ none ↦ state.unreached | some p ↦ state.unreached ++ p ∷ [] ];
          cache = cache;
        })) in
      if is_empty mine
      then unreached
      else if eqb (length mine) (length told)
      then ok (record state { connected = augment_user user_uuid told state.connected })
      else ok state

  unfoldable pub fetch_users : List InfoEntry → List String → Fetched → Result Fetched
  unfolding fetch_user
  fetch_users entries [] state = ok state
  fetch_users entries (u ∷ us) state = fetch_user entries u state >>= fetch_users entries us

  -- `_fetch_participants`
  unfoldable pub fetch_participants : RawCallLog → Result RawCallLog
  unfolding participants_from_channels fetch_users
  fetch_participants call = do
    channels ← participants_from_channels ext confd call.raw_participants []
    state ←
        fetch_users call.participants_info
          (user_uuids ext call.participants_info channels.participants)
          (record { connected = channels.participants; unreached = []; cache = channels.cache })
    ok (record call {
      raw_participants = channels.attributes;
      participants = state.connected ++ state.unreached;
    })
