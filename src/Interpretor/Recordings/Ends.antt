-- ===== src/Interpretor/Recordings/Ends.antt =====
-- The end of a recording, through the events that end channels.
use wazo_call_logd.Common.{
  ℕ, ◌≡◌, refl, ap, Bool, true, false, not, ◌||◌, Option, none, some, List, [], ◌∷◌, map, is_some,
  leb, eqb, arith, ok, ◌>>=◌,
}
use wazo_call_logd.External.{External}
use wazo_call_logd.Cel.{Cel}
use wazo_call_logd.RawCallLog.{RawCallLog, Recording, filter_call}
use wazo_call_logd.Interpretor.Extra.{parse_eventtime}
use wazo_call_logd.Interpretor.Recordings.{map_recordings, end_if_open, extend_to}
use wazo_call_logd.Interpretor.Caller.{caller_chan_end}
use wazo_call_logd.Interpretor.Callee.{callee_chan_end}

-- The one relation between the elements of two lists, place by place.
abbrev pub Pairs {ℓ} : {A : Type ℓ} → (A → A → Type 0) → List A → List A → Type 0
Pairs R [] [] = Unit
Pairs R [] (y ∷ ys) = ⊥
Pairs R (x ∷ xs) [] = ⊥
Pairs R (x ∷ xs) (y ∷ ys) = R x y × Pairs R xs ys

Pairs-map {ℓ} :
    {A : Type ℓ} (R : A → A → Type 0) (f : A → A)
    → ((x : A) → R x (f x))
    → (xs : List A) → Pairs R xs (map f xs)
Pairs-map R f h [] = tt
Pairs-map R f h (x ∷ xs) = (h x, Pairs-map R f h xs)

-- An end that is there is not moved back.
abbrev pub no_earlier : Option ℕ → Option ℕ → Bool
no_earlier none after = true
no_earlier (some t) none = false
no_earlier (some t) (some u) = leb t u

abbrev pub same_time : Option ℕ → Option ℕ → Bool
same_time none none = true
same_time (some t) (some u) = eqb t u
same_time _ _ = false

-- The recording ends, no earlier than it did; an end that is final stays.
abbrev pub Extended : ℕ → Recording → Recording → Type 0
Extended time r s =
    (no_earlier r.end_time s.end_time ≡ true)
    × ((same_time s.end_time r.end_time || not r.end_time_is_final) ≡ true)
    × ((no_earlier (some time) s.end_time || r.end_time_is_final) ≡ true)
    × (s.uuid ≡ r.uuid)
    × (s.start_time ≡ r.start_time)

-- The recording ends, and an end that was there stays.
abbrev pub Closed : ℕ → Recording → Recording → Type 0
Closed time r s =
    (is_some s.end_time ≡ true)
    × ((same_time s.end_time r.end_time || same_time s.end_time (some time)) ≡ true)
    × ((same_time s.end_time r.end_time || not (is_some r.end_time)) ≡ true)
    × (s.uuid ≡ r.uuid)
    × (s.start_time ≡ r.start_time)

extend_to-Extended : (time : ℕ) (r : Recording) → Extended time r (extend_to time r)
unfolding extend_to
extend_to-Extended time r = ground arith

end_if_open-Closed : (time : ℕ) (r : Recording) → Closed time r (end_if_open time r)
unfolding end_if_open
end_if_open-Closed time r = ground arith

-- Where the time of a callee's CHAN_END is read, no recording ends earlier than before, those whose
-- end is final stay, and the others last at least until that time.
pub callee_chan_end-Extended :
    (ext : External) (cel : Cel) (call : RawCallLog) (time : ℕ)
    → parse_eventtime ext cel.eventtime ≡ ok time
    → (out : RawCallLog) × (callee_chan_end ext cel call ≡ ok out)
      × Pairs (Extended time) call.recordings out.recordings
unfolding callee_chan_end
callee_chan_end-Extended ext cel call time h = (
  map_recordings (extend_to time) call,
  ap (λ m. m >>= λ t. ok (map_recordings (extend_to t) call)) h,
  Pairs-map (Extended time) (extend_to time) (extend_to-Extended time) call.recordings,
)

-- Where the time of the caller's CHAN_END is read, the call ends at that time, every recording has
-- an end, and the ends that were there stay.
pub caller_chan_end-Closed :
    (ext : External) (cel : Cel) (call : RawCallLog) (time : ℕ)
    → parse_eventtime ext cel.eventtime ≡ ok time
    → (out : RawCallLog) × (caller_chan_end ext cel call ≡ ok out)
      × (out.date_end ≡ some time)
      × Pairs (Closed time) call.recordings out.recordings
unfolding caller_chan_end filter_call
caller_chan_end-Closed ext cel call time h = (
  filter_call (map_recordings (end_if_open time) (record call { date_end = some time })),
  ap
      (λ m. m >>= λ t.
        ok (filter_call (map_recordings (end_if_open t) (record call { date_end = some t }))))
      h,
  refl,
  Pairs-map (Closed time) (end_if_open time) (end_if_open-Closed time) call.recordings,
)
