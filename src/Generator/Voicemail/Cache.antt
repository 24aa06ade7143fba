-- ===== src/Generator/Voicemail/Cache.antt =====
-- The cache of `_find_voicemail` is invisible: with it the answers are those of wazo-confd.
use wazo_call_logd.Common.{
  ◌≡◌, refl, sym, ap, ◌∙◌, Bool, true, false, not, ◌||◌, Option, none, some, List, [], ◌∷◌, head?,
  ◌==◌, eq_iff, All, Bool-cases, Option-cases, inl, inr, is_some, arith, Result, ok, raise,
  if◌then◌else◌,
}
use wazo_call_logd.External.{Confd, Voicemail}
use wazo_call_logd.RawCallLog.{RawCallLog}
use wazo_call_logd.Generator.Recordings.Clean.{same_sound}
use wazo_call_logd.Generator.Voicemail.{
  supersede, note_answer, Mailbox, VoicemailCache, same_mailbox, cached, is_request_error,
  ask_confd, find_mailbox, find_voicemail, resolve_voicemail_destination,
}

same_mailbox_sound : (a b : Mailbox) → same_mailbox a b ≡ true → a ≡ b
unfolding same_mailbox
same_mailbox_sound a b h =
    ground (
      arith,
      eq_iff a.number b.number,
      same_sound a.context b.context,
      same_sound a.tenant b.tenant,
    )

abbrev first_answer : Result (List Voicemail) → Option (Option Voicemail)
first_answer (ok vs) = some (head? vs)
first_answer (raise e) = none

-- Every entry is the first answer of confd for its mailbox.
abbrev pub IsFaithful : Confd → VoicemailCache → Type 0
IsFaithful confd = All (λ e. first_answer (ask_confd confd e.0) ≡ some e.1)

-- `_find_voicemail` without a cache
abbrev ask_first : Result (List Voicemail) → Result (Option Voicemail)
ask_first (ok vs) = ok (head? vs)
ask_first (raise e) = if is_request_error e then ok none else raise e

cached_sound :
    (confd : Confd) (m : Mailbox) (cache : VoicemailCache) (v : Option Voicemail)
    → IsFaithful confd cache
    → cached cache m ≡ some v
    → first_answer (ask_confd confd m) ≡ some v
unfolding cached
cached_sound confd m [] v h e = cc
cached_sound confd m ((k, w) ∷ cache) v h e = elim (Bool-cases (same_mailbox k m)) [
  | inl hit ↦ rw (← same_mailbox_sound k m hit) (ground (arith, h.0))
  | inr miss ↦ cached_sound confd m cache v h.1 (rw miss at e)
]

answered_from :
    (r : Result (List Voicemail)) (v : Option Voicemail)
    → first_answer r ≡ some v
    → ok v ≡ ask_first r
answered_from (ok vs) v h = ground arith
answered_from (raise e) v h = cc

note_answer-IsFaithful :
    (confd : Confd) (m : Mailbox) (cache : VoicemailCache) (r : Result (List Voicemail))
    → ask_confd confd m ≡ r
    → IsFaithful confd cache
    → ((note_answer m r cache).0 ≡ ask_first r) × IsFaithful confd (note_answer m r cache).1
note_answer-IsFaithful confd m cache (ok vs) e h = (refl, (ap first_answer e, h))
note_answer-IsFaithful confd m cache (raise x) e h = (refl, h)

find_mailbox-IsFaithful :
    (confd : Confd) (m : Mailbox) (cache : VoicemailCache)
    → IsFaithful confd cache
    → ((find_mailbox confd m cache).0 ≡ ask_first (ask_confd confd m))
      × IsFaithful confd (find_mailbox confd m cache).1
unfolding find_mailbox
find_mailbox-IsFaithful confd m cache h = elim (Option-cases (cached cache m)) [
  | inl e ↦ rw (e, find_mailbox) (note_answer-IsFaithful confd m cache (ask_confd confd m) refl h)
  | inr (v, e) ↦
      rw (e, find_mailbox)
        (answered_from (ask_confd confd m) v (cached_sound confd m cache v h e), h)
]

find_voicemail-IsFaithful :
    (confd : Confd) (call : RawCallLog) (cache : VoicemailCache)
    → IsFaithful confd cache
    → ((find_voicemail confd call cache).0 ≡ (find_voicemail confd call []).0)
      × IsFaithful confd (find_voicemail confd call cache).1
unfolding find_voicemail
find_voicemail-IsFaithful confd call cache h = elim (Option-cases call.voicemail_number) [
  | inl e ↦ rw (e, find_voicemail) (refl, h)
  | inr (number, e) ↦
      let m : Mailbox = record {
        number = number;
        context = call.voicemail_context;
        tenant = call.tenant_uuid;
      } in
      rw (e, find_voicemail) (by_number m (number == "") (find_mailbox-IsFaithful confd m cache h))
]
  where
    by_number :
        (m : Mailbox) (b : Bool)
        → ((find_mailbox confd m cache).0 ≡ ask_first (ask_confd confd m))
          × IsFaithful confd (find_mailbox confd m cache).1
        → ((if b then (ok none, cache) else find_mailbox confd m cache).0
            ≡ (if b then (ok none, []) else find_mailbox confd m []).0)
          × IsFaithful confd (if b then (ok none, cache) else find_mailbox confd m cache).1
    by_number m true f = (refl, h)
    by_number m false f = (f.0 ∙ sym (find_mailbox-IsFaithful confd m [] tt).0, f.1)

-- With a cache that holds answers of wazo-confd, a call is resolved as with an empty one, and the
-- cache that comes back holds answers of wazo-confd only.
pub resolve_voicemail_destination-IsFaithful :
    (confd : Confd) (call : RawCallLog) (cache : VoicemailCache)
    → IsFaithful confd cache
    → ((resolve_voicemail_destination confd call cache).0
        ≡ (resolve_voicemail_destination confd call []).0)
      × IsFaithful confd (resolve_voicemail_destination confd call cache).1
unfolding resolve_voicemail_destination
resolve_voicemail_destination-IsFaithful confd call cache h =
    elim (Bool-cases (not call.reached_voicemail || is_some call.date_answer)) [
      | inl e ↦ rw (e, resolve_voicemail_destination) (refl, h)
      | inr e ↦
          let found = find_voicemail-IsFaithful confd call cache h in
          rw (e, resolve_voicemail_destination) (ap (supersede call) found.0, found.1)
    ]
