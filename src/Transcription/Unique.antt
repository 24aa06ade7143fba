-- ===== src/Transcription/Unique.antt =====
-- About the handlers of the bus events: how many transcriptions there are of a message.
use wazo_call_logd.Common.{
  ◌≡◌, refl, sym, ◌∙◌, ap, Bool, true, false, not, ◌&&◌, ◌||◌, Option, none, some, List, [], ◌∷◌,
  ◌++◌, String, ◌==◌, eq_iff, any, any-append, find, find-some, keep, All, elem, inl, inr,
  Bool-cases, Option-cases, arith, Result, ok, raise, ◌>>=◌, Returns, Returns-if, value_error,
  unique_violation, integrity_error, if◌then◌else◌,
}
use wazo_call_logd.Transcription.{
  Attributes, Transcription, State, Server, created, is_message, in_tenants, get_by_message_id,
  set_attributes, replace, create, update, update_existing, or_update, create_transcription,
  delete_by_message_id, delete_transcription, BusEvent, handle, handle_all, transcription_completed,
  is_unique_violation, after_creation, after_deletion, voicemail_message_deleted,
}

-- No two rows have the same value of a column.
abbrev pub Distinct : (Transcription → String) → List Transcription → Type 0
Distinct f [] = Unit
Distinct f (r ∷ rs) = (any (λ x. f x == f r) rs ≡ false) × Distinct f rs

abbrev pub uuid_of : Transcription → String
uuid_of r = r.uuid

abbrev pub message_of : Transcription → String
message_of r = r.attributes.message_id

pub record IsUnique (s : State) : Type 0 where
  pub by_uuid : Distinct uuid_of s.rows
  pub by_message : Distinct message_of s.rows

Distinct-append :
    (f : Transcription → String) (rows : List Transcription) (row : Transcription)
    → any (λ r. f r == f row) rows ≡ false
    → Distinct f rows
    → Distinct f (rows ++ row ∷ [])
Distinct-append f [] row h k = (refl, tt)
Distinct-append f (r ∷ rs) row h (kr, k) = (
  any-append (λ x. f x == f r) rs (row ∷ [])
      ∙ ground (arith, h, kr, eq_iff (f r) (f row), eq_iff (f row) (f r)),
  Distinct-append f rs row (ground (arith, h)) k,
)

any-keep-false :
    (p q : Transcription → Bool) (rows : List Transcription)
    → any p rows ≡ false
    → any p (keep q rows) ≡ false
any-keep-false p q [] h = h
any-keep-false p q (r ∷ rs) h = ground (arith, h, any-keep-false p q rs (ground (arith, h)))

Distinct-keep :
    (f : Transcription → String) (q : Transcription → Bool) (rows : List Transcription)
    → Distinct f rows
    → Distinct f (keep q rows)
Distinct-keep f q [] h = tt
Distinct-keep f q (r ∷ rs) (hr, h) = elim (Bool-cases (q r)) [
  | inl e ↦ rw e (any-keep-false (λ x. f x == f r) q rs hr, Distinct-keep f q rs h)
  | inr e ↦ rw e (Distinct-keep f q rs h)
]

-- The rows with the uuid are of the message of the new values.
abbrev of_message : String → Attributes → Transcription → Bool
of_message uuid a r = not (r.uuid == uuid) || r.attributes.message_id == a.message_id

any-replace :
    (m uuid : String) (a : Attributes) (rows : List Transcription)
    → All (λ r. of_message uuid a r ≡ true) rows
    → any (λ r. message_of r == m) (replace uuid a rows) ≡ any (λ r. message_of r == m) rows
any-replace m uuid a [] h = refl
any-replace m uuid a (r ∷ rs) (hr, h) =
    ground (arith, hr, any-replace m uuid a rs h, eq_iff (message_of r) a.message_id)

message-set_attributes :
    (uuid : String) (a : Attributes) (r : Transcription)
    → of_message uuid a r ≡ true
    → message_of (set_attributes uuid a r) ≡ message_of r
message-set_attributes uuid a r h = ground (arith, h, eq_iff (message_of r) a.message_id)

Distinct-replace :
    (uuid : String) (a : Attributes) (rows : List Transcription)
    → All (λ r. of_message uuid a r ≡ true) rows
    → Distinct message_of rows
    → Distinct message_of (replace uuid a rows)
Distinct-replace uuid a [] h k = tt
Distinct-replace uuid a (r ∷ rs) (hr, h) (kr, k) = (
  ap (λ m. any (λ x. message_of x == m) (replace uuid a rs)) (message-set_attributes uuid a r hr)
      ∙ any-replace (message_of r) uuid a rs h
      ∙ kr,
  Distinct-replace uuid a rs h k,
)

uuid-set_attributes :
    (uuid : String) (a : Attributes) (r : Transcription)
    → uuid_of (set_attributes uuid a r) ≡ r.uuid
uuid-set_attributes uuid a r = ground arith

any-replace_uuid :
    (u uuid : String) (a : Attributes) (rows : List Transcription)
    → any (λ r. uuid_of r == u) (replace uuid a rows) ≡ any (λ r. uuid_of r == u) rows
any-replace_uuid u uuid a [] = refl
any-replace_uuid u uuid a (r ∷ rs) = ground (arith, any-replace_uuid u uuid a rs)

Distinct-replace_uuid :
    (uuid : String) (a : Attributes) (rows : List Transcription)
    → Distinct uuid_of rows
    → Distinct uuid_of (replace uuid a rows)
Distinct-replace_uuid uuid a [] k = tt
Distinct-replace_uuid uuid a (r ∷ rs) (kr, k) = (
  ap (λ u. any (λ x. uuid_of x == u) (replace uuid a rs)) (uuid-set_attributes uuid a r)
      ∙ any-replace_uuid r.uuid uuid a rs
      ∙ kr,
  Distinct-replace_uuid uuid a rs k,
)

no_other :
    (uuid : String) (a : Attributes) (rows : List Transcription)
    → any (λ r. uuid_of r == uuid) rows ≡ false
    → All (λ r. of_message uuid a r ≡ true) rows
no_other uuid a [] h = tt
no_other uuid a (r ∷ rs) h = (ground (arith, h), no_other uuid a rs (ground (arith, h)))

abbrev field_or : (Transcription → String) → Option Transcription → String
field_or f none = ""
field_or f (some r) = f r

-- The first row of a kind is the one that is found.
pub found_first :
    (p : Transcription → Bool) (r row : Transcription) (rs : List Transcription)
    → p r ≡ true
    → find p (r ∷ rs) ≡ some row
    → (r.uuid ≡ row.uuid) × (message_of r ≡ message_of row)
found_first p r row rs e h =
    let found : some r ≡ some row = sym (rw e refl) ∙ h in
    (ap (field_or uuid_of) found, ap (field_or message_of) found)

any-find :
    (p : Transcription → Bool) (rows : List Transcription) (row : Transcription)
    → find p rows ≡ some row
    → any (λ r. uuid_of r == row.uuid) rows ≡ true
any-find p [] row h = cc
any-find p (r ∷ rs) row h = elim (Bool-cases (p r)) [
  | inl e ↦ ground (arith, (found_first p r row rs e h).0, eq_iff r.uuid row.uuid)
  | inr e ↦ ground (arith, any-find p rs row (ground (arith, h, e)))
]

-- The row that is found is the only one with its uuid.
found-of_message :
    (p : Transcription → Bool) (a : Attributes) (rows : List Transcription) (row : Transcription)
    → Distinct uuid_of rows
    → find p rows ≡ some row
    → message_of row ≡ a.message_id
    → All (λ r. of_message row.uuid a r ≡ true) rows
found-of_message p a [] row k h e = tt
found-of_message p a (r ∷ rs) row (kr, k) h e = elim (Bool-cases (p r)) [
  | inl q ↦
      let (same_uuid, same_message) = found_first p r row rs q h in
      (
        ground (arith, same_message ∙ e, eq_iff (message_of r) a.message_id),
        no_other row.uuid a rs (ap (λ u. any (λ x. uuid_of x == u) rs) (sym same_uuid) ∙ kr),
      )
  | inr q ↦
      let later : find p rs ≡ some row = ground (arith, h, q) in
      elim (Bool-cases (r.uuid == row.uuid)) [
        | inl same ↦
            let same_uuid : r.uuid ≡ row.uuid = ground (arith, same, eq_iff r.uuid row.uuid) in
            let clash : true ≡ false =
              sym (any-find p rs row later)
              ∙ ap (λ u. any (λ x. uuid_of x == u) rs) (sym same_uuid)
              ∙ kr in
            cc
        | inr other ↦ (ground (arith, other), found-of_message p a rs row k later e)
      ]
]

is_message_found :
    (id : String) (tenants : Option (List String)) (s : State) (row : Transcription)
    → get_by_message_id id tenants s ≡ some row
    → message_of row ≡ id
unfolding get_by_message_id
is_message_found id tenants s row h =
    let test = find-some (λ r. is_message id r && in_tenants tenants r) s.rows row h in
    ground (arith, test, eq_iff (message_of row) id)

update-IsUnique :
    (a : Attributes) (tenants : Option (List String)) (s : State) (row : Transcription)
    → get_by_message_id a.message_id tenants s ≡ some row
    → IsUnique s
    → IsUnique (update row a s).1
unfolding update get_by_message_id
update-IsUnique a tenants s row h u =
    let only =
      found-of_message (λ r. is_message a.message_id r && in_tenants tenants r) a s.rows row
        u.by_uuid h (is_message_found a.message_id tenants s row h) in
    record {
      by_uuid = Distinct-replace_uuid row.uuid a s.rows u.by_uuid;
      by_message = Distinct-replace row.uuid a s.rows only u.by_message;
    }

update_existing-IsUnique :
    (a : Attributes) (s : State)
    → IsUnique s
    → Returns (λ ((row, t) : Transcription × State). IsUnique t) (update_existing a s)
unfolding update_existing
update_existing-IsUnique a s u =
    elim (Option-cases (get_by_message_id a.message_id (some (a.tenant_uuid ∷ [])) s)) [
      | inl e ↦ rw (e, Returns) tt
      | inr (row, e) ↦ rw (e, Returns) (update-IsUnique a (some (a.tenant_uuid ∷ [])) s row e u)
    ]

or_update-IsUnique :
    (a : Attributes) (s : State) (r : Result (Transcription × State))
    → IsUnique s
    → Returns (λ ((row, t) : Transcription × State). IsUnique t) r
    → Returns (λ ((row, t) : Transcription × State). IsUnique t) (or_update a s r)
or_update-IsUnique a s (ok r) u h = h
or_update-IsUnique a s (raise e) u h =
    Returns-if (λ ((row, t) : Transcription × State). IsUnique t) (is_unique_violation e)
      (update_existing a s) (raise e) (update_existing-IsUnique a s u) tt

after_creation-IsUnique :
    (s : State) (r : Result (Transcription × State))
    → IsUnique s
    → Returns (λ ((row, t) : Transcription × State). IsUnique t) r
    → IsUnique (
        after_creation s
          (r >>= λ (row, t). ok (row, record t { sent = t.sent ++ created row ∷ [] })))
after_creation-IsUnique s (ok (row, t)) u h = record {
  by_uuid = h.by_uuid;
  by_message = h.by_message;
}
after_creation-IsUnique s (raise e) u h = u

delete_transcription-IsUnique :
    (id : String) (tenants : Option (List String)) (s : State)
    → IsUnique s
    → IsUnique (after_deletion s (delete_transcription id tenants s))
unfolding delete_transcription delete_by_message_id
delete_transcription-IsUnique id tenants s u =
    let kept = λ (r : Transcription). not (is_message id r && in_tenants tenants r) in
    elim (Option-cases (get_by_message_id id tenants s)) [
      | inl e ↦ rw (e, after_deletion) u
      | inr (row, e) ↦
          rw (e, after_deletion)
            record {
              by_uuid = Distinct-keep uuid_of kept s.rows u.by_uuid;
              by_message = Distinct-keep message_of kept s.rows u.by_message;
            }
    ]

-- The uuid that the database gives to a new row is the uuid of no row that is there.
abbrev pub IsFresh : Server → State → Type 0
IsFresh server s = any (λ r. uuid_of r == server.new_uuid s) s.rows ≡ false

abbrev Kept : Result (Transcription × State) → Type 0
Kept = Returns (λ ((row, t) : Transcription × State). IsUnique t)

if_twice : (b : Bool) → Kept (if b then raise value_error else raise unique_violation)
if_twice true = tt
if_twice false = tt

stored_if :
    (b c : Bool) (row : Transcription) (t : State)
    → IsUnique t
    → Kept (if b then raise value_error else (if c then ok (row, t) else raise integrity_error))
stored_if true c row t h = tt
stored_if false true row t h = h
stored_if false false row t h = tt

create-IsUnique :
    (server : Server) (a : Attributes) (s : State)
    → IsFresh server s
    → IsUnique s
    → Returns (λ ((row, t) : Transcription × State). IsUnique t) (create server a s)
unfolding create
create-IsUnique server a s fresh u =
    let row : Transcription = record {
      uuid = server.new_uuid s;
      created_at = server.now;
      attributes = a;
    } in
    elim (Bool-cases (any (is_message a.message_id) s.rows)) [
      | inl e ↦ rw e (if_twice (not (server.admits a)))
      | inr e ↦ rw e (
          stored_if (not (server.admits a)) (elem a.tenant_uuid s.tenants) row
            (record s { rows = s.rows ++ row ∷ [] })
            record {
              by_uuid = Distinct-append uuid_of s.rows row fresh u.by_uuid;
              by_message = Distinct-append message_of s.rows row e u.by_message;
            })
    ]

handle-IsUnique :
    (server : Server) (e : BusEvent) (s : State)
    → IsFresh server s
    → IsUnique s
    → IsUnique (handle server e s)
unfolding handle create_transcription
handle-IsUnique server (transcription_completed a) s fresh u =
    after_creation-IsUnique s (or_update a s (create server a s)) u
      (or_update-IsUnique a s (create server a s) u (create-IsUnique server a s fresh u))
handle-IsUnique server (voicemail_message_deleted id) s fresh u =
    delete_transcription-IsUnique id none s u

-- The uuids given to the rows of a run are fresh at their time.
abbrev pub AreFresh : List (Server × BusEvent) → State → Type 0
AreFresh [] s = Unit
AreFresh ((server, e) ∷ es) s = IsFresh server s × AreFresh es (handle server e s)

-- However transcriptions are completed and messages deleted, no two rows are of one message, and
-- no two have one uuid, if the database gives uuids that are not in the table.
pub handle_all-IsUnique :
    (events : List (Server × BusEvent)) (s : State)
    → AreFresh events s
    → IsUnique s
    → IsUnique (handle_all events s)
unfolding handle_all
handle_all-IsUnique [] s f u = u
handle_all-IsUnique ((server, e) ∷ es) s (f, fs) u =
    handle_all-IsUnique es (handle server e s) fs (handle-IsUnique server e s f u)
