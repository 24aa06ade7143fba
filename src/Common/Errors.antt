-- ===== src/Common/Errors.antt =====
-- Python functions that may raise. The handlers in the program catch by class, so a class of
-- exceptions is one constructor.
use mathlib.Core.Path.{◌≡◌, refl, ap, subst}
use mathlib.Core.Logic.{◌⊎◌, inl, inr}
use mathlib.Core.Bool.{Bool, true, false}
use wazo_call_logd.Common.Tests.{if◌then◌else◌}
use mathlib.Core.Option.{Option, none, some}

pub data Error : Type 0 where
  key_error index_error attribute_error type_error value_error assertion_error : Error
  http_error request_error invalid_channel : Error
  invalid_call_log cel_interpretation runtime_error no_config integrity_error unique_violation :
      Error
  agent_not_found queue_not_found range_too_large : Error
  statement_error validation_error os_error : Error

pub data Result {ℓ} (A : Type ℓ) : Type ℓ where
  ok : A → Result A
  raise : Error → Result A

infixl 5 ◌>>=◌
abbrev pub ◌>>=◌ {ℓ κ} : {A : Type ℓ} {B : Type κ} → Result A → (A → Result B) → Result B
ok a >>= f = f a
raise e >>= f = raise e

module _ {ℓ} {A : Type ℓ} where
  -- an operation that raises `e` where there is nothing
  abbrev pub require : Error → Option A → Result A
  require e none = raise e
  require e (some a) = ok a

module _ {ℓ} {A : Type ℓ} where
  abbrev ok_or : A → Result A → A
  ok_or d (ok a) = a
  ok_or d (raise e) = d

  pub ok-injective : {a b : A} → ok a ≡ ok b → a ≡ b
  ok-injective {a = a} h = ap (ok_or a) h

  -- What holds of a result, if there is one.
  abbrev pub Returns {κ} : (A → Type κ) → Result A → Type κ
  Returns P (ok a) = P a
  Returns P (raise e) = Unit

  pub Returns-ok {κ} : (P : A → Type κ) (m : Result A) {a : A} → Returns P m → m ≡ ok a → P a
  Returns-ok P (ok b) h e = subst P (ok-injective e) h
  Returns-ok P (raise x) h e = cc

module _ {ℓ} {A : Type ℓ} where
  pub Returns-if {κ} :
      (P : A → Type κ) (b : Bool) (m n : Result A)
      → Returns P m
      → Returns P n
      → Returns P (if b then m else n)
  Returns-if P true m n hm hn = hm
  Returns-if P false m n hm hn = hn

module _ {ℓ κ} {A : Type ℓ} {B : Type κ} where
  pub Returns-bind {μ} :
      (P : B → Type μ) (m : Result A) (f : A → Result B)
      → ((a : A) → m ≡ ok a → Returns P (f a))
      → Returns P (m >>= f)
  Returns-bind P (ok a) f k = k a refl
  Returns-bind P (raise e) f k = tt

pub Result-cases {ℓ} :
    {A : Type ℓ} (m : Result A) → ((a : A) × (m ≡ ok a)) ⊎ ((e : Error) × (m ≡ raise e))
Result-cases (ok a) = inl (a, refl)
Result-cases (raise e) = inr (e, refl)
