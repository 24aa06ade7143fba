-- ===== src/Cdr/Rows.antt =====
-- database/models.py: the rows of CallLog with their participants and recordings, as the queries
-- read them. A nullable column is an `Option`.
use wazo_call_logd.Common.{
  ℕ, Bool, true, false, Option, none, some, List, [], ◌∷◌, String, find, keep, if◌then◌else◌,
}
use wazo_call_logd.Common.Sort.{sort, text_leb}
use wazo_call_logd.RawCallLog.{Role, source, destination, Direction}

-- a row of CallLogParticipant
pub record Party : Type 0 where
  pub user_uuid : String
  pub role : Role
  pub tags : List String
  pub answered : Bool
  pub requested : Bool

-- a row of Recording
pub record Media : Type 0 where
  pub uuid : String
  pub call_log_id : ℕ
  pub path : Option String

-- a row of CallLog
pub record Cdr : Type 0 where
  pub id : ℕ
  pub tenant_uuid : String
  pub date : ℕ
  pub date_answer : Option ℕ
  pub date_end : Option ℕ
  pub source_name : Option String
  pub source_exten : Option String
  pub requested_exten : Option String
  pub requested_internal_exten : Option String
  pub requested_internal_context : Option String
  pub destination_name : Option String
  pub destination_exten : Option String
  pub blocked : Option Bool
  pub reached_voicemail : Option Bool
  pub direction : Direction
  pub conversation_id : Option String
  pub participants : List Party
  pub recordings : List Media

abbrev pub has_destination_role : Party → Bool
has_destination_role p = elim p.role [ source ↦ false | destination ↦ true ]

abbrev pub has_source_role : Party → Bool
has_source_role p = elim p.role [ source ↦ true | destination ↦ false ]

-- `requested_user_uuid`
unfoldable pub requested_user_uuid : Cdr → Option String
requested_user_uuid c = elim (find (λ p. p.requested) c.participants) [
  | none ↦ none
  | some p ↦ some p.user_uuid
]

-- `peer_exten` of a participant
unfoldable pub peer_exten : Cdr → Party → Option String
peer_exten c p = if has_source_role p then c.requested_exten else c.source_exten

-- `desc(answered), desc(user_uuid)`; `a` goes before `b`
unfoldable pub answered_first : Party → Party → Bool
unfolding text_leb
answered_first a b = elim a.answered [
  | true ↦ if b.answered then text_leb b.user_uuid a.user_uuid else true
  | false ↦ if b.answered then false else text_leb b.user_uuid a.user_uuid
]

abbrev first_uuid : List Party → Option String
first_uuid [] = none
first_uuid (p ∷ ps) = some p.user_uuid

-- the user of `destination_participant`: an answered one, if there is one
unfoldable pub destination_user_uuid : Cdr → Option String
unfolding sort answered_first
destination_user_uuid c =
    first_uuid (sort answered_first (keep has_destination_role c.participants))
