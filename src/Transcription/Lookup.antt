-- ===== src/Transcription/Lookup.antt =====
-- What the handlers make of the events: the transcription that is found afterwards.
use wazo_call_logd.Common.{
  ◌≡◌, refl, sym, ◌∙◌, ap, Bool, true, false, ◌&&◌, none, some, List, [], ◌∷◌, ◌++◌, ◌==◌, eq_iff,
  any, find, elem, inl, inr, Bool-cases, Option-cases, arith,
}
use wazo_call_logd.Transcription.Unique.{found_first}
use wazo_call_logd.Transcription.{
  Attributes, Transcription, State, Server, is_message, in_tenants, get_by_message_id, replace,
  create, update, update_existing, create_transcription, handle, transcription_completed,
}

any-find-false :
    (p : Transcription → Bool) (rows : List Transcription) (row : Transcription)
    → any p rows ≡ false
    → p row ≡ true
    → find p (rows ++ row ∷ []) ≡ some row
any-find-false p [] row h k = ground (arith, k)
any-find-false p (r ∷ rs) row h k =
    ground (arith, h, k, any-find-false p rs row (ground (arith, h)) k)

find-replace :
    (p : Transcription → Bool) (a : Attributes) (rows : List Transcription)
    (existing : Transcription)
    → ((r : Transcription) → p (record r { attributes = a }) ≡ true)
    → find p rows ≡ some existing
    → (row : Transcription) × (find p (replace existing.uuid a rows) ≡ some row)
      × (row.attributes ≡ a)
find-replace p a [] existing h k = cc
find-replace p a (r ∷ rs) existing h k = elim (Bool-cases (r.uuid == existing.uuid)) [
  | inl e ↦ (record r { attributes = a }, ground (arith, e, h r), refl)
  | inr e ↦ elim (Bool-cases (p r)) [
    | inl q ↦ ground (arith, e, (found_first p r existing rs q k).0, eq_iff r.uuid existing.uuid)
    | inr q ↦
        let (row, found, own) = find-replace p a rs existing h (ground (arith, q, k)) in
        (row, ground (arith, e, q, found), own)
  ]
]

any-none_found :
    (p : Transcription → Bool) (rows : List Transcription) → find p rows ≡ none → any p rows ≡ false
any-none_found p [] h = refl
any-none_found p (r ∷ rs) h = elim (Bool-cases (p r)) [
  | inl e ↦ ground (arith, h, e)
  | inr e ↦ ground (arith, e, any-none_found p rs (ground (arith, h, e)))
]

-- A message of another tenant cannot be taken over: the event changes nothing.
pub handle-conflict :
    (server : Server) (a : Attributes) (s : State)
    → any (is_message a.message_id) s.rows ≡ true
    → get_by_message_id a.message_id (some (a.tenant_uuid ∷ [])) s ≡ none
    → handle server (transcription_completed a) s ≡ s
unfolding handle create_transcription create update_existing
handle-conflict server a s h k = ground (arith, h, k)

any_and_false :
    (p q : Transcription → Bool) (rows : List Transcription)
    → any p rows ≡ false
    → any (λ r. p r && q r) rows ≡ false
any_and_false p q [] h = refl
any_and_false p q (r ∷ rs) h = ground (arith, h, any_and_false p q rs (ground (arith, h)))

any_and_true :
    (p : Transcription → Bool) (rows : List Transcription)
    → any (λ r. p r && true) rows ≡ any p rows
any_and_true p [] = refl
any_and_true p (r ∷ rs) = ground (arith, any_and_true p rs)

-- A completed transcription is found afterwards, with the values of the event, whether the message
-- is new or has been transcribed before: if the columns admit the values, the tenant is there, and
-- the message is not one of another tenant.
pub handle-completed :
    (server : Server) (a : Attributes) (s : State)
    → server.admits a ≡ true
    → elem a.tenant_uuid s.tenants ≡ true
    → get_by_message_id a.message_id none s
      ≡ get_by_message_id a.message_id (some (a.tenant_uuid ∷ [])) s
    → (row : Transcription) × (get_by_message_id a.message_id
          (some (a.tenant_uuid ∷ []))
          (handle server (transcription_completed a) s)
        ≡ some row)
      × (row.attributes ≡ a)
unfolding handle create_transcription create update_existing update get_by_message_id
handle-completed server a s fits tenant own =
    let own_row : Transcription → Bool =
      λ r. is_message a.message_id r && in_tenants (some (a.tenant_uuid ∷ [])) r in
    let row : Transcription = record {
      uuid = server.new_uuid s;
      created_at = server.now;
      attributes = a;
    } in
    let after = handle server (transcription_completed a) s in
    let fitting : (r : Transcription) → own_row (record r { attributes = a }) ≡ true =
      λ r. ground (arith, eq_iff a.message_id a.message_id, eq_iff a.tenant_uuid a.tenant_uuid) in
    elim (Bool-cases (any (is_message a.message_id) s.rows)) [
      | inr e ↦
          let stored : after.rows ≡ s.rows ++ row ∷ [] = ground (arith, fits, e, tenant) in
          let absent =
            any_and_false (is_message a.message_id) (in_tenants (some (a.tenant_uuid ∷ []))) s.rows
              e in
          (
            row,
            ap (find own_row) stored ∙ any-find-false own_row s.rows row absent (fitting row),
            refl,
          )
      | inl e ↦ elim (Option-cases (find own_row s.rows)) [
        | inl absent ↦
            let nowhere =
              any-none_found (λ r. is_message a.message_id r && in_tenants none r) s.rows
                (own ∙ absent) in
            let clash : true ≡ false =
              sym e ∙ sym (any_and_true (is_message a.message_id) s.rows) ∙ nowhere in
            cc
        | inr (existing, found) ↦
            let stored : after.rows ≡ replace existing.uuid a s.rows =
              ground (arith, fits, e, found) in
            let (kept, again, values) = find-replace own_row a s.rows existing fitting found in
            (kept, ap (find own_row) stored ∙ again, values)
      ]
    ]
