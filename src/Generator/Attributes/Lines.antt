-- ===== src/Generator/Attributes/Lines.antt =====
-- Which channel of a line stays.
use wazo_call_logd.Common.{
  ◌≡◌, refl, ap, ◌∙◌, Bool, true, false, not, ◌&&◌, Option, none, some, List, [], ◌∷◌, String, ◌==◌,
  eq_iff, last?, keep, any, elem, arith, if◌then◌else◌,
}
use wazo_call_logd.Common.Dict.{Dict, get, get-pop, pop}
use wazo_call_logd.RawCallLog.{RawCallLog, RawParticipant, participant_of}
use wazo_call_logd.Generator.Recordings.{has_answered}
use wazo_call_logd.Generator.Attributes.{kept_channel, keep_one_channel, pop_all}

last-elem : (cs : List String) (c : String) → last? cs ≡ some c → elem c cs ≡ true
last-elem [] c h = cc
last-elem (x ∷ []) c h = ground (arith, eq_iff x c)
last-elem (x ∷ y ∷ cs) c h = ground (arith, last-elem (y ∷ cs) c h)

last-none : (cs : List String) → last? cs ≡ none → cs ≡ []
last-none [] h = refl
last-none (x ∷ []) h = cc
last-none (x ∷ y ∷ cs) h = cc (last-none (y ∷ cs) h)

elem-keep :
    (p : String → Bool) (c : String) (cs : List String) → elem c (keep p cs) ≡ (elem c cs && p c)
elem-keep p c [] = refl
elem-keep p c (x ∷ cs) = ground (arith, elem-keep p c cs, eq_iff x c)

any-elem :
    (p : String → Bool) (c : String) (cs : List String)
    → elem c cs ≡ true
    → p c ≡ true
    → any p cs ≡ true
any-elem p c [] h k = cc
any-elem p c (x ∷ cs) h k = ground (arith, any-elem p c cs, eq_iff x c)

any-keep_none : (p : String → Bool) (cs : List String) → keep p cs ≡ [] → any p cs ≡ false
any-keep_none p [] h = refl
any-keep_none p (x ∷ cs) h = ground (arith, any-keep_none p cs)

get-pop_all :
    (cs : List String) (d : Dict RawParticipant) (c : String)
    → get (pop_all cs d) c ≡ (if elem c cs then none else get d c)
get-pop_all [] d c = refl
get-pop_all (x ∷ cs) d c = ground (arith, get-pop_all cs (pop d x) c, get-pop d x c)

-- A channel of the line, and an answered one if the line has one.
abbrev pub IsBest : RawCallLog → List String → String → Type 0
IsBest call channels kept =
    (elem kept channels ≡ true)
    × (has_answered (participant_of call kept)
        ≡ any (λ c. has_answered (participant_of call c)) channels)

best_from :
    (p : String → Bool) (channels : List String) (kept : String) (found : Option String)
    → last? (keep p channels) ≡ found
    → (elim found [ some c ↦ some c | none ↦ last? channels ]) ≡ some kept
    → (elem kept channels ≡ true) × (p kept ≡ any p channels)
best_from p channels kept (some c) e h =
    let member = last-elem (keep p channels) kept (e ∙ h) in
    ground (arith, member, elem-keep p kept channels, any-elem p kept channels)
best_from p channels kept none e h =
    let nobody = any-keep_none p channels (last-none (keep p channels) e) in
    ground (arith, last-elem channels kept h, nobody, any-elem p kept channels)

kept_channel-IsBest :
    (call : RawCallLog) (channels : List String) (kept : String)
    → kept_channel call channels ≡ some kept
    → IsBest call channels kept
unfolding kept_channel
kept_channel-IsBest call channels kept h =
    best_from (λ c. has_answered (participant_of call c)) channels kept _ refl h

last-cons : (c : String) (cs : List String) → (kept : String) × (last? (c ∷ cs) ≡ some kept)
last-cons c [] = (c, refl)
last-cons c (d ∷ cs) = last-cons d cs

found_or_last :
    (c : String) (cs : List String) (found : Option String)
    → (kept : String) × ((elim found [ some d ↦ some d | none ↦ last? (c ∷ cs) ]) ≡ some kept)
found_or_last c cs none = last-cons c cs
found_or_last c cs (some d) = (d, refl)

kept_channel-some :
    (call : RawCallLog) (c : String) (cs : List String)
    → (kept : String) × (kept_channel call (c ∷ cs) ≡ some kept)
unfolding kept_channel
kept_channel-some call c cs =
    found_or_last c cs (last? (keep (λ x. has_answered (participant_of call x)) (c ∷ cs)))

-- Of the channels of a line, which has at least one, one stays, an answered one if there is one; the
-- others leave the call, and the channels of other lines stay.
pub keep_one_channel-IsBest :
    (call : RawCallLog) (first : String) (rest : List String)
    → let channels = first ∷ rest in
      (kept : String) × IsBest call channels kept
      × ((c : String)
          → get (keep_one_channel call channels).raw_participants c
            ≡ (if elem c channels && not (c == kept) then none else get call.raw_participants c))
unfolding keep_one_channel
keep_one_channel-IsBest call first rest =
    let channels = first ∷ rest in
    let (kept, h) = kept_channel-some call first rest in
    (
      kept,
      kept_channel-IsBest call channels kept h,
      λ c.
          rw (h, keep_one_channel)
            (get-pop_all (keep (λ x. not (x == kept)) channels) call.raw_participants c
              ∙ ap (λ b. if b then none else get call.raw_participants c)
                  (elem-keep (λ x. not (x == kept)) c channels)),
    )
