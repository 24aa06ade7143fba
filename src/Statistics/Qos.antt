-- ===== src/Statistics/Qos.antt =====
-- `_generate_qos_interval`: the classes of waiting times.
use wazo_call_logd.Common.{
  ℕ, ◌+◌, ◌≤◌, ◌≡◌, refl, Bool, ◌&&◌, Option, none, some, List, [], ◌∷◌, ltb, leb, length, arith,
  if◌then◌else◌,
}
use wazo_call_logd.Statistics.{qos_from, generate_qos_interval}

-- the filter of `_qos_interval_query`: at least `min`, and below `max` if there is one
abbrev pub in_class : ℕ → ℕ × Option ℕ → Bool
in_class w (low, none) = leb low w
in_class w (low, some high) = leb low w && ltb w high

-- In how many classes a waiting time falls.
abbrev pub classes_of : ℕ → List (ℕ × Option ℕ) → ℕ
classes_of w [] = 0
classes_of w (c ∷ cs) = (if in_class w c then 1 else 0) + classes_of w cs

-- in ascending order, from `low` on
abbrev pub Ascends : ℕ → List ℕ → Type 0
Ascends low [] = Unit
Ascends low (t ∷ ts) = (low ≤ t) × Ascends t ts

classes_of-qos_from :
    (w prev : ℕ) (ts : List ℕ)
    → Ascends prev ts
    → classes_of w (qos_from prev ts) ≡ (if leb prev w then 1 else 0)
unfolding qos_from
classes_of-qos_from w prev [] h = ground arith
classes_of-qos_from w prev (t ∷ ts) h = ground (arith, classes_of-qos_from w t ts h.1)

-- With thresholds in ascending order every waiting time falls in exactly one class.
pub generate_qos_interval_partition :
    (w : ℕ) (thresholds : List ℕ)
    → Ascends 0 thresholds
    → classes_of w (generate_qos_interval thresholds) ≡ 1
unfolding generate_qos_interval
generate_qos_interval_partition w [] h = ground arith
generate_qos_interval_partition w (t ∷ ts) h = ground (arith, classes_of-qos_from w t ts h.1)

-- There is one class more than there are thresholds.
length-qos_from : (prev : ℕ) (ts : List ℕ) → length (qos_from prev ts) ≡ length ts + 1
unfolding qos_from
length-qos_from prev [] = refl
length-qos_from prev (t ∷ ts) = omega (arith, length-qos_from t ts)
