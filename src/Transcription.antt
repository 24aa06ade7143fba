-- ===== src/Transcription.antt =====
-- plugins/voicemail_transcription and database/queries/voicemail_transcription.py: the table of
-- transcriptions, its service, and the handlers of the bus events.
pub mod Listing
pub mod Lookup
pub mod Unique
use wazo_call_logd.Common.{
  ℕ, Bool, true, false, not, ◌&&◌, Option, none, some, List, [], ◌∷◌, ◌++◌, String, ◌==◌, any, elem,
  find, keep, Result, ok, raise, ◌>>=◌, Error, attribute_error, value_error, unique_violation,
  integrity_error, if◌then◌else◌,
}

-- the keyword arguments of `create_transcription`; the duration is opaque
pub record Attributes : Type 0 where
  pub message_id : String
  pub tenant_uuid : String
  pub transcription_text : String
  pub voicemail_id : Option ℕ
  pub provider_id : Option String
  pub language : Option String
  pub duration : Option ℕ

-- a row of VoicemailTranscription
pub record Transcription : Type 0 where
  pub uuid : String
  pub created_at : ℕ
  pub attributes : Attributes

pub data Event : Type 0 where
  created deleted : Transcription → Event

-- The table, the tenants that its rows refer to, and the events that were sent.
pub record State : Type 0 where
  pub rows : List Transcription
  pub tenants : List String
  pub sent : List Event

abbrev pub is_message : String → Transcription → Bool
is_message id r = r.attributes.message_id == id

-- `tenant_uuid.in_(tenant_uuids)`, if there are any
abbrev pub in_tenants : Option (List String) → Transcription → Bool
in_tenants none r = true
in_tenants (some tenants) r = elem r.attributes.tenant_uuid tenants

-- What the database does when a row is stored: whether the columns can hold the values, and the
-- uuid and the time that it gives.
pub record Server : Type 0 where
  pub admits : Attributes → Bool
  pub new_uuid : State → String
  pub now : ℕ

unfoldable pub get_by_message_id : String → Option (List String) → State → Option Transcription
get_by_message_id id tenants s = find (λ r. is_message id r && in_tenants tenants r) s.rows

abbrev pub set_attributes : String → Attributes → Transcription → Transcription
set_attributes uuid a r = if r.uuid == uuid then record r { attributes = a } else r

abbrev pub replace : String → Attributes → List Transcription → List Transcription
replace uuid a [] = []
replace uuid a (r ∷ rs) = set_attributes uuid a r ∷ replace uuid a rs

-- `update` of the row with a uuid
unfoldable pub update : Transcription → Attributes → State → Transcription × State
update existing a s =
    (record existing { attributes = a }, record s { rows = replace existing.uuid a s.rows })

-- The row is there already: it is looked up in the tenant of the request, and updated.
unfoldable pub update_existing : Attributes → State → Result (Transcription × State)
unfolding get_by_message_id update
update_existing a s = elim (get_by_message_id a.message_id (some (a.tenant_uuid ∷ [])) s) [
  | none ↦ raise attribute_error
  | some existing ↦ ok (update existing a s)
]

-- `_is_unique_violation`
abbrev pub is_unique_violation : Error → Bool
is_unique_violation unique_violation = true
is_unique_violation _ = false

abbrev pub or_update :
    Attributes → State → Result (Transcription × State) → Result (Transcription × State)
or_update a s (ok r) = ok r
or_update a s (raise e) = if is_unique_violation e then update_existing a s else raise e

module _ (server : Server) where
  -- `create`: the values are checked, then the unique message, then the tenant.
  unfoldable pub create : Attributes → State → Result (Transcription × State)
  create a s =
      let row : Transcription = record {
        uuid = server.new_uuid s;
        created_at = server.now;
        attributes = a;
      } in
      let stored : Result (Transcription × State) =
        ok (row, record s { rows = s.rows ++ row ∷ [] }) in
      if not (server.admits a)
      then raise value_error
      else if any (is_message a.message_id) s.rows
      then raise unique_violation
      else if elem a.tenant_uuid s.tenants
      then stored
      else raise integrity_error

  -- `create_transcription`; an error is TranscriptionCreationFailedException
  unfoldable pub create_transcription : Attributes → State → Result (Transcription × State)
  unfolding create update_existing
  create_transcription a s = do
    (row, stored) ← or_update a s (create a s)
    ok (row, record stored { sent = stored.sent ++ created row ∷ [] })

-- `delete_by_message_id`
unfoldable pub delete_by_message_id : String → Option (List String) → State → State
delete_by_message_id id tenants s = record s {
  rows = keep (λ r. not (is_message id r && in_tenants tenants r)) s.rows;
}

-- `delete_transcription`; `none` is TranscriptionNotFoundException
unfoldable pub delete_transcription : String → Option (List String) → State → Option State
unfolding get_by_message_id delete_by_message_id
delete_transcription id tenants s = elim (get_by_message_id id tenants s) [
  | none ↦ none
  | some row ↦
      let left = delete_by_message_id id tenants s in
      some (record left { sent = left.sent ++ deleted row ∷ [] })
]

-- The events that the handlers are subscribed to.
pub data BusEvent : Type 0 where
  transcription_completed : Attributes → BusEvent
  voicemail_message_deleted : String → BusEvent

abbrev pub after_creation : State → Result (Transcription × State) → State
after_creation s (ok (row, after)) = after
after_creation s (raise e) = s

abbrev pub after_deletion : State → Option State → State
after_deletion s (some after) = after
after_deletion s none = s

-- bus_consume.py: a failed creation and a missing row are logged.
unfoldable pub handle : Server → BusEvent → State → State
unfolding create_transcription delete_transcription
handle server (transcription_completed a) s = after_creation s (create_transcription server a s)
handle server (voicemail_message_deleted id) s = after_deletion s (delete_transcription id none s)

unfoldable pub handle_all : List (Server × BusEvent) → State → State
unfolding handle
handle_all [] s = s
handle_all ((server, e) ∷ es) s = handle_all es (handle server e s)
