-- ===== src/Purger/Rows.antt =====
-- What a purge deletes, and how many days it keeps.
use wazo_call_logd.Common.{
  ℕ, ◌+◌, ◌*◌, true, filled, ltb, eqb, all, if◌then◌else◌, ◌≡◌, ◌≢◌, refl, Bool, not, ◌&&◌, Option,
  none, some, List, [], ◌∷◌, String, ◌==◌, elem, arith,
}
use wazo_call_logd.Common.Dict.{Dict}
use wazo_call_logd.Purger.{
  Retention, Config, StoredCall, Store, default_purge_db_days, extract_days_to_keep,
}

-- The file of the path can be removed, or is gone already.
abbrev pub can_remove : List String → Option String → Bool
can_remove locked none = true
can_remove locked (some path) = not (filled path && elem path locked)

abbrev pub CanRemove : List String → StoredCall → Type 0
CanRemove locked c = all (can_remove locked) c.paths ≡ true

module _ (day now : ℕ) (days : String → ℕ) where
  -- The call is of one of the tenants, and older than the days that its tenant keeps.
  abbrev pub is_expired : List String → StoredCall → Bool
  is_expired tenants c = elem c.tenant_uuid tenants && ltb (c.date + days c.tenant_uuid * day) now

-- The days of a tenant's own retention, if its last row has any.
abbrev pub own_days : List Retention → String → Option ℕ → Option ℕ
own_days [] t o = o
own_days (r ∷ rs) t o = own_days rs t (if r.tenant_uuid == t then r.cdr_days else o)

-- The tenant's own days; else those of the configuration, or those of wazo-purge-db where they are
-- not the usual 365 and those of the configuration are.
abbrev pub days_or : Option ℕ → ℕ → ℕ → ℕ
days_or (some own) configured purge_db_days = own
days_or none configured purge_db_days =
    if eqb configured 365 && not (eqb purge_db_days 365) then purge_db_days else configured

abbrev pub cdr_days : Config → ℕ → Store → String → ℕ
cdr_days config days_to_keep s t =
    days_or (own_days s.retentions t none) config.retention_cdr_days days_to_keep

cdr_days_of : Option Retention → Option ℕ
cdr_days_of o = elim o [ none ↦ none | some r ↦ r.cdr_days ]

-- The number of days: the tenant's own; else the default of the service, except that a customised
-- wazo-purge-db overrides a default that was left alone. Here `default_days` and `purge_db_days` are
-- both customised.
pub extract_days_to_keep_precedence :
    (own purge_db_days default_days default : ℕ)
    → default_days ≢ default
    → purge_db_days ≢ default_purge_db_days
    → (extract_days_to_keep (some own) default_days purge_db_days default ≡ own)
      × (extract_days_to_keep none default_days purge_db_days default ≡ default_days)
      × (extract_days_to_keep none default purge_db_days default ≡ purge_db_days)
      × (extract_days_to_keep none default_days default_purge_db_days default ≡ default_days)
unfolding extract_days_to_keep
extract_days_to_keep_precedence own purge_db_days default_days default h k =
    (refl, ground arith, ground arith, ground arith)
