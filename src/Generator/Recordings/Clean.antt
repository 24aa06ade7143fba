-- ===== src/Generator/Recordings/Clean.antt =====
-- The recordings that a stored call log has.
use wazo_call_logd.Common.{
  ◌≡◌, refl, ap, ◌||◌, is_empty, true, false, Option, none, some, List, [], ◌∷◌, String, eq_iff,
  same, keep, keep-All, All, Bool-cases, inl, inr, arith,
}
use wazo_call_logd.RawCallLog.{RawCallLog, Recording}
use wazo_call_logd.Generator.Recordings.{
  is_complete, was_answered, remove_incomplete_recordings, remove_recordings_for_unanswered_calls,
  merge_recording, merge_recordings, handle_recording_pauses, clean_recordings,
}

pub same_refl : (a : Option String) → same a a ≡ true
same_refl none = refl
same_refl (some s) = (eq_iff s s).1 refl

pub same_sound : (a b : Option String) → same a b ≡ true → a ≡ b
same_sound none none h = refl
same_sound none (some t) h = cc
same_sound (some s) none h = cc
same_sound (some s) (some t) h = ap some ((eq_iff s t).0 h)

pub same_comm : (a b : Option String) → same a b ≡ same b a
same_comm none none = refl
same_comm none (some t) = refl
same_comm (some s) none = refl
same_comm (some s) (some t) = ground (arith, eq_iff s t, eq_iff t s)

pub same_cong : (u a b : Option String) → same a b ≡ true → same u a ≡ same u b
same_cong u a b h = ap (same u) (same_sound a b h)

pub same_join : (u a b : Option String) → same u a ≡ true → same u b ≡ true → same a b ≡ true
same_join u a b h k = rw (← same_sound u a h, k)

-- The uuids are pairwise different.
abbrev pub Distinct : List Recording → Type 0
Distinct [] = Unit
Distinct (r ∷ rs) = All (λ s. same r.uuid s.uuid ≡ false) rs × Distinct rs

abbrev pub AllComplete : List Recording → Type 0
AllComplete = All (λ r. is_complete r ≡ true)

merge_recording-AllComplete :
    (seen : List Recording) (r : Recording)
    → AllComplete seen
    → is_complete r ≡ true
    → AllComplete (merge_recording seen r)
unfolding merge_recording
merge_recording-AllComplete [] r hs h = (h, tt)
merge_recording-AllComplete (s ∷ seen) r hs h =
    ground (arith, merge_recording-AllComplete seen r hs.1 h)

merge_recordings-AllComplete :
    (rs seen : List Recording)
    → AllComplete seen
    → AllComplete rs
    → AllComplete (merge_recordings seen rs)
unfolding merge_recordings
merge_recordings-AllComplete [] seen hs h = hs
merge_recordings-AllComplete (r ∷ rs) seen hs h =
    merge_recordings-AllComplete rs (merge_recording seen r)
      (merge_recording-AllComplete seen r hs h.0) h.1

merge_recording-apart :
    (u : Option String) (seen : List Recording) (r : Recording)
    → All (λ s. same u s.uuid ≡ false) seen
    → same u r.uuid ≡ false
    → All (λ s. same u s.uuid ≡ false) (merge_recording seen r)
unfolding merge_recording
merge_recording-apart u [] r hs h = (h, tt)
merge_recording-apart u (s ∷ seen) r hs h = ground (arith, merge_recording-apart u seen r hs.1 h)

merge_recording-Distinct :
    (seen : List Recording) (r : Recording) → Distinct seen → Distinct (merge_recording seen r)
unfolding merge_recording
merge_recording-Distinct [] r h = (tt, tt)
merge_recording-Distinct (s ∷ seen) r h = elim (Bool-cases (same s.uuid r.uuid)) [
  | inl e ↦ rw e h
  | inr e ↦ rw e (merge_recording-apart s.uuid seen r h.0 e, merge_recording-Distinct seen r h.1)
]

merge_recordings-Distinct :
    (rs seen : List Recording) → Distinct seen → Distinct (merge_recordings seen rs)
unfolding merge_recordings
merge_recordings-Distinct [] seen h = h
merge_recordings-Distinct (r ∷ rs) seen h =
    merge_recordings-Distinct rs (merge_recording seen r) (merge_recording-Distinct seen r h)

-- Whatever the interpretation left, a cleaned call has recordings with a start and an end only, no
-- two with one uuid, and none at all if nobody answered.
pub clean_recordings_lem :
    (call : RawCallLog)
    → AllComplete (clean_recordings call).recordings
      × Distinct (clean_recordings call).recordings
      × ((was_answered call || is_empty (clean_recordings call).recordings) ≡ true)
unfolding clean_recordings handle_recording_pauses remove_recordings_for_unanswered_calls
    remove_incomplete_recordings
clean_recordings_lem call = elim (Bool-cases (was_answered call)) [
  | inl e ↦ rw e (
    merge_recordings-AllComplete (keep is_complete call.recordings) [] tt
        (keep-All is_complete call.recordings),
    merge_recordings-Distinct (keep is_complete call.recordings) [] tt,
    refl,
  )
  | inr e ↦ rw e (unfold merge_recordings in (tt, tt, refl))
]
