-- ===== src/Generator/Attributes/Tenant.antt =====
-- The tenant of a call.
use wazo_call_logd.Common.{
  ◌≡◌, refl, ap, ◌∙◌, true, Option, none, some, List, [], ◌∷◌, String, is_some, truthy,
  Option-cases, Bool-cases, inl, inr, Result, ok, raise, Returns, Returns-if, Returns-bind, require,
  key_error, insert_all,
}
use wazo_call_logd.Common.Dict.{values}
use wazo_call_logd.External.{External, Confd}
use wazo_call_logd.RawCallLog.{RawCallLog, set_tenant_uuid}
use wazo_call_logd.Generator.Attributes.{
  tenants_of, set_tenants, fall_back, ensure_tenant_uuid_is_set,
}

-- A tenant that is there stays.
abbrev pub Keeps : Option String → Option String → Type 0
Keeps none after = Unit
Keeps (some t) after = after ≡ some t

Keeps-trans : (a b c : Option String) → Keeps a b → Keeps b c → Keeps a c
Keeps-trans none b c h k = tt
Keeps-trans (some t) none c h k = cc
Keeps-trans (some t) (some u) c h k = k ∙ h

set_tenant_uuid-Keeps :
    (t : String) (call : RawCallLog)
    → Keeps call.tenant_uuid (set_tenant_uuid t call).tenant_uuid
      × (is_some (set_tenant_uuid t call).tenant_uuid ≡ true)
unfolding set_tenant_uuid
set_tenant_uuid-Keeps t call = elim (Option-cases call.tenant_uuid) [
  | inl e ↦ rw (e, set_tenant_uuid) (tt, refl)
  | inr (u, e) ↦ rw (e, set_tenant_uuid) (e, ap is_some e)
]

set_tenants-Keeps :
    (ts : List String) (call : RawCallLog)
    → Keeps call.tenant_uuid (set_tenants ts call).tenant_uuid
unfolding set_tenants
set_tenants-Keeps [] call = elim (Option-cases call.tenant_uuid) [
  | inl e ↦ rw e tt
  | inr (u, e) ↦ rw e refl
]
set_tenants-Keeps (t ∷ ts) call =
    Keeps-trans call.tenant_uuid (set_tenant_uuid t call).tenant_uuid
      (set_tenants ts (set_tenant_uuid t call)).tenant_uuid (set_tenant_uuid-Keeps t call).0
      (set_tenants-Keeps ts (set_tenant_uuid t call))

-- What is shown of the call that comes back: it has a tenant, the one that `first` had if any.
abbrev pub HasTenant : RawCallLog → RawCallLog → Type 0
HasTenant first out = Keeps first.tenant_uuid out.tenant_uuid × (is_some out.tenant_uuid ≡ true)

fall_back-HasTenant :
    (confd : Confd) (service : String) (call : RawCallLog)
    → Returns (HasTenant call) (fall_back confd service call)
unfolding fall_back
fall_back-HasTenant confd service call =
    Returns-if (HasTenant call) (truthy call.requested_context) _
      (ok (set_tenant_uuid service call))
      (Returns-bind (HasTenant call) (require key_error call.requested_context) _ λ context _.
        Returns-bind (HasTenant call) (confd.contexts_list context) _ λ tenants _. from tenants)
      (set_tenant_uuid-Keeps service call)
  where
    from :
        (tenants : List String)
        → HasTenant call (elim tenants [
          | [] ↦ set_tenant_uuid service call
          | tenant ∷ _ ↦ set_tenant_uuid tenant call
        ])
    from [] = set_tenant_uuid-Keeps service call
    from (t ∷ ts) = set_tenant_uuid-Keeps t call

truthy-is_some : (o : Option String) → truthy o ≡ true → is_some o ≡ true
truthy-is_some none h = cc
truthy-is_some (some s) h = refl

weaken :
    (first call : RawCallLog) (m : Result RawCallLog)
    → Keeps first.tenant_uuid call.tenant_uuid
    → Returns (HasTenant call) m
    → Returns (HasTenant first) m
weaken first call (ok out) h k =
    (Keeps-trans first.tenant_uuid call.tenant_uuid out.tenant_uuid h k.0, k.1)
weaken first call (raise e) h k = tt

-- A call that gets through `_ensure_tenant_uuid_is_set` has a tenant, and a tenant that the call
-- had before stays.
pub ensure_tenant_uuid_is_set-HasTenant :
    (ext : External) (confd : Confd) (service : String) (call : RawCallLog)
    → Returns (HasTenant call) (ensure_tenant_uuid_is_set ext confd service call)
unfolding ensure_tenant_uuid_is_set
ensure_tenant_uuid_is_set-HasTenant ext confd service call =
    let ts = ext.set_order (insert_all (tenants_of (values call.raw_participants)) []) in
    let told = set_tenants ts call in
    let kept = set_tenants-Keeps ts call in
    elim (Bool-cases (truthy told.tenant_uuid)) [
      | inl e ↦ rw e (kept, truthy-is_some told.tenant_uuid e)
      | inr e ↦ rw e (
          weaken call told (fall_back confd service told) kept
            (fall_back-HasTenant confd service told))
    ]
