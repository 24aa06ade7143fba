-- ===== src/Generator/Voicemail.antt =====
-- generator.py: the voicemail that an unanswered call ended in, with a cache over the batch. The
-- cache outlives a call log, so it is returned beside the result.
pub mod Cache
use wazo_call_logd.Common.{
  Bool, not, ◌&&◌, ◌||◌, Option, none, some, List, [], ◌∷◌, String, ◌==◌, head?, same, is_some,
  Result, ok, raise, Error, http_error, request_error, if◌then◌else◌,
}
use wazo_call_logd.External.{Confd, Voicemail}
use wazo_call_logd.RawCallLog.{RawCallLog}

-- the key (number, context, tenant_uuid)
pub record Mailbox : Type 0 where
  pub number : String
  pub context : Option String
  pub tenant : Option String

abbrev pub VoicemailCache : Type 0
VoicemailCache = List (Mailbox × Option Voicemail)

unfoldable pub same_mailbox : Mailbox → Mailbox → Bool
same_mailbox a b = a.number == b.number && same a.context b.context && same a.tenant b.tenant

-- `cache[key]`, if the key is there
unfoldable pub cached : VoicemailCache → Mailbox → Option (Option Voicemail)
unfolding same_mailbox
cached [] m = none
cached ((k, v) ∷ cache) m = let rest = cached cache m in if same_mailbox k m then some v else rest

-- what `except RequestException` catches; an HTTPError is one too
abbrev pub is_request_error : Error → Bool
is_request_error request_error = Bool.true
is_request_error http_error = Bool.true
is_request_error _ = Bool.false

abbrev pub ask_confd : Confd → Mailbox → Result (List Voicemail)
ask_confd confd m = confd.voicemails_list m.number m.context m.tenant

-- What is done with the answer: it is cached, and a failed request is not.
abbrev pub note_answer :
    Mailbox → Result (List Voicemail) → VoicemailCache → Result (Option Voicemail) × VoicemailCache
note_answer m (ok voicemails) cache = (ok (head? voicemails), (m, head? voicemails) ∷ cache)
note_answer m (raise e) cache = (if is_request_error e then ok none else raise e, cache)

-- `_find_voicemail` for a number
unfoldable pub find_mailbox :
    Confd → Mailbox → VoicemailCache → Result (Option Voicemail) × VoicemailCache
unfolding cached
find_mailbox confd m cache = elim (cached cache m) [
  | some found ↦ (ok found, cache)
  | none ↦ note_answer m (ask_confd confd m) cache
]

-- `_find_voicemail`
unfoldable pub find_voicemail :
    Confd → RawCallLog → VoicemailCache → Result (Option Voicemail) × VoicemailCache
unfolding find_mailbox
find_voicemail confd call cache = elim call.voicemail_number [
  | none ↦ (ok none, cache)
  | some number ↦
      let found =
        find_mailbox confd
          (record { number = number; context = call.voicemail_context; tenant = call.tenant_uuid })
          cache in
      if number == "" then (ok none, cache) else found
]

abbrev pub voicemail_details : Voicemail → List (String × String)
voicemail_details v =
    ("type", "voicemail") ∷ ("voicemail_id", v.id) ∷ ("voicemail_name", v.name) ∷ []

abbrev supersede : RawCallLog → Result (Option Voicemail) → Result RawCallLog
supersede call (ok none) = ok call
supersede call (ok (some v)) = ok (record call { destination_details = voicemail_details v })
supersede call (raise e) = raise e

-- `_resolve_voicemail_destination`
unfoldable pub resolve_voicemail_destination :
    Confd → RawCallLog → VoicemailCache → Result RawCallLog × VoicemailCache
unfolding find_voicemail
resolve_voicemail_destination confd call cache =
    let (found, cache') = find_voicemail confd call cache in
    if not call.reached_voicemail || is_some call.date_answer
    then (ok call, cache)
    else (supersede call found, cache')
