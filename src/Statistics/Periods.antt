-- ===== src/Statistics/Periods.antt =====
-- `_generate_subinterval`: what the sub-intervals of a period are.
use wazo_call_logd.Common.{
  ℕ, zero, suc, ◌-◌, ◌≤◌, ◌<◌, ◌≡◌, refl, true, List, [], ◌∷◌, ltb, ltb→lt, lt→ltb, ap, Bool-cases,
  inl, inr, arith, if◌then◌else◌,
}
use wazo_call_logd.Statistics.{
  Interval, hour, day, month, Zone, advance, subinterval_loop, subintervals,
}

-- From `a` to `b` with neither gap nor overlap.
abbrev pub Chain : ℕ → List (ℕ × ℕ) → ℕ → Type 0
Chain a [] b = a ≡ b
Chain a ((start, end) ∷ rest) b = (start ≡ a) × (start < end) × Chain end rest b

module _ (step : ℕ → ℕ) (grows : (t : ℕ) → t < step t) where
  Chain-loop :
      (fuel until current next : ℕ)
      → until - current < fuel
      → current ≤ until
      → next ≤ until
      → (current < until → current < next)
      → Chain current (subinterval_loop step fuel until current next) until
  unfolding subinterval_loop
  Chain-loop zero until current next f h k l = absurd (omega arith)
  Chain-loop (suc fuel) until current next f h k l =
      let after = if ltb until (step next) then until else step next in
      elim (Bool-cases (ltb current until)) [
        | inr e ↦ rw e (ground arith)
        | inl e ↦
            let below = ltb→lt current until e in
            rw e (
              refl,
              l below,
              Chain-loop fuel until next after (omega (arith, l below)) k (ground arith)
                  (ground (arith, grows next)),
            )
      ]

  -- With a step that moves forward and fits into the period, the sub-intervals are a chain of it.
  subintervals-Chain :
      (from until : ℕ) → step from ≤ until → Chain from (subintervals step from until) until
  unfolding subintervals
  subintervals-Chain from until h =
      Chain-loop (suc (until - from)) until from (step from) (omega arith)
        (omega (arith, grows from)) h (λ _. grows from)

  -- A step that passes the end of the period gives one sub-interval, which ends behind the period:
  -- the first end is not cut at `until` as the later ones are.
  pub subintervals_overshoot :
      (from until : ℕ)
      → from < until
      → until < step from
      → subintervals step from until ≡ (from, step from) ∷ []
  unfolding subintervals subinterval_loop
  subintervals_overshoot from until h k =
      let first : ltb from until ≡ true = lt→ltb from until h in
      rw first (ap (◌∷◌ (from, step from)) (stops (until - from)))
    where
      stops :
          (fuel : ℕ)
          → subinterval_loop step fuel until
              (step from)
              (if ltb until (step (step from)) then until else step (step from))
            ≡ []
      stops zero = refl
      stops (suc fuel) = ground arith

advance_grows : (zone : Zone) (i : Interval) (t : ℕ) → t < advance zone i t
unfolding advance
advance_grows zone hour t = omega arith
advance_grows zone day t = omega arith
advance_grows zone month t = zone.next_month_grows t

-- In a period that is at least one hour, one day or one month long, as the interval asks, the
-- sub-intervals of the interval follow one another from the start of the period to its end, with
-- neither gap nor overlap, none of them empty.
pub subintervals-advance-Chain :
    (zone : Zone) (i : Interval) (from until : ℕ)
    → advance zone i from ≤ until
    → Chain from (subintervals (advance zone i) from until) until
subintervals-advance-Chain zone i = subintervals-Chain (advance zone i) (advance_grows zone i)
