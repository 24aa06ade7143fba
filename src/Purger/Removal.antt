-- ===== src/Purger/Removal.antt =====
-- sync_db.py, and plugins/tenant/listener.py: the removal of tenants with what is stored for them.
use wazo_call_logd.Common.{ℕ, not, some, List, [], ◌∷◌, String, ◌==◌, keep, elem, Result, ok, ◌>>=◌}
use wazo_call_logd.Purger.{
  Store, Retention, StoredCall, StoredExport, call_logs_purge, exports_purge, recordings_purge,
}

-- The row of a tenant is deleted, and with it, by the foreign keys, the rows that refer to it.
unfoldable pub delete_tenant : String → Store → Store
delete_tenant tenant s = record s {
  tenants = keep (λ t. not (t == tenant)) s.tenants;
  retentions = keep (λ (r : Retention). not (r.tenant_uuid == tenant)) s.retentions;
  call_logs = keep (λ (c : StoredCall). not (c.tenant_uuid == tenant)) s.call_logs;
  exports = keep (λ (e : StoredExport). not (e.tenant_uuid == tenant)) s.exports;
}

module _ (day now : ℕ) where
  -- `remove_tenant`: the three purgers are asked to keep 0 days
  unfoldable pub remove_tenant : String → Store → Result Store
  unfolding call_logs_purge exports_purge recordings_purge delete_tenant
  remove_tenant tenant s = do
    without_calls ← call_logs_purge day now 0 (some tenant) s
    without_exports ← exports_purge day now 0 (some tenant) without_calls
    purged ← recordings_purge day now 0 (some tenant) without_exports
    ok (delete_tenant tenant purged)

  unfoldable pub remove_each : List String → Store → Result Store
  unfolding remove_tenant
  remove_each [] s = ok s
  remove_each (t ∷ ts) s = do left ← remove_tenant t s; remove_each ts left

  -- The loop of `main`: the tenants that wazo-auth does not have.
  unfoldable pub remove_tenants : List String → Store → Result Store
  unfolding remove_each
  remove_tenants auth_tenants s = remove_each (keep (λ t. not (elem t auth_tenants)) s.tenants) s
