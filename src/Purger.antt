-- ===== src/Purger.antt =====
-- purger.py: the three purgers over the tables that they read and write, and the files on disk.
pub mod Removal
pub mod Rows
use wazo_call_logd.Common.{
  ℕ, elem, os_error, ◌>>=◌, ◌+◌, ◌*◌, Bool, not, ◌&&◌, Option, none, some, List, [], ◌∷◌, String,
  ◌==◌, map, ltb, eqb, filled, keep, Result, ok, raise, no_config, if◌then◌else◌,
}
use wazo_call_logd.Common.Dict.{get, of_pairs}

pub record Config : Type 0 where
  pub retention_cdr_days : ℕ
  pub retention_recording_days : ℕ
  pub retention_export_days : ℕ

-- a row of Retention
pub record Retention : Type 0 where
  pub tenant_uuid : String
  pub cdr_days : Option ℕ
  pub recording_days : Option ℕ
  pub export_days : Option ℕ

-- a row of CallLog, with the paths of its recordings
pub record StoredCall : Type 0 where
  pub id : ℕ
  pub tenant_uuid : String
  pub date : ℕ
  pub paths : List (Option String)

-- a row of Export
pub record StoredExport : Type 0 where
  pub uuid : String
  pub tenant_uuid : String
  pub requested_at : ℕ
  pub path : Option String

-- The database that a session sees, and the files that exist.
pub record Store : Type 0 where
  pub config : Option Config
  pub retentions : List Retention
  pub tenants : List String
  pub call_logs : List StoredCall
  pub exports : List StoredExport
  pub files : List String
  -- the paths that `os.remove` refuses with another error than FileNotFoundError
  pub locked : List String

abbrev pub default_purge_db_days : ℕ
default_purge_db_days = 365

abbrev pub default_call_logd_cdr_days : ℕ
default_call_logd_cdr_days = 365

abbrev pub default_call_logd_recording_days : ℕ
default_call_logd_recording_days = 365

abbrev pub default_call_logd_export_days : ℕ
default_call_logd_export_days = 2

module _ (locked : List String) where
  -- `os.remove`; a file that is not there is only logged, any other error is not caught
  abbrev pub remove_file : String → List String → Result (List String)
  remove_file path files =
      if elem path locked then raise os_error else ok (keep (λ f. not (f == path)) files)

  abbrev pub remove_path : Option String → List String → Result (List String)
  remove_path none files = ok files
  remove_path (some path) files = if filled path then remove_file path files else ok files

  unfoldable pub remove_paths : List (Option String) → List String → Result (List String)
  remove_paths [] files = ok files
  remove_paths (p ∷ ps) files = do left ← remove_path p files; remove_paths ps left

  unfoldable pub remove_export_files : List StoredExport → List String → Result (List String)
  unfolding remove_paths
  remove_export_files exports = remove_paths (map (λ e. e.path) exports)

  unfoldable pub remove_recording_files : List StoredCall → List String → Result (List String)
  unfolding remove_paths
  remove_recording_files [] files = ok files
  remove_recording_files (c ∷ cs) files = do
    left ← remove_paths c.paths files
    remove_recording_files cs left

unfoldable pub extract_days_to_keep : Option ℕ → ℕ → ℕ → ℕ → ℕ
extract_days_to_keep (some tenant_days) default_days purge_db_days default = tenant_days
extract_days_to_keep none default_days purge_db_days default =
    let purge_db_days_customized = not (eqb purge_db_days default_purge_db_days) in
    let default_days_customized = not (eqb default_days default) in
    if purge_db_days_customized && not default_days_customized then purge_db_days else default_days

unfoldable pub get_tenants_uuids : Store → Option String → List String
get_tenants_uuids s none = s.tenants
get_tenants_uuids s (some tenant) = if filled tenant then tenant ∷ [] else s.tenants

-- `{r.tenant_uuid: r for r in ...}.get(tenant)`
unfoldable pub retention_of : Store → String → Option Retention
unfolding get
retention_of s tenant = get (of_pairs [] (map (λ r. (r.tenant_uuid, r)) s.retentions)) tenant

-- The days of one tenant, from the column that the purger reads.
unfoldable pub tenant_days : (Retention → Option ℕ) → Store → String → Option ℕ
unfolding retention_of
tenant_days column s tenant = elim (retention_of s tenant) [ none ↦ none | some r ↦ column r ]

-- `date < now - timedelta(days=days)`, at `day` units of time for a day
unfoldable pub is_older : ℕ → ℕ → ℕ → ℕ → Bool
is_older day now days date = ltb (date + days * day) now

abbrev is_expired_call : ℕ → ℕ → ℕ → String → StoredCall → Bool
unfolding is_older
is_expired_call day now days tenant c = is_older day now days c.date && c.tenant_uuid == tenant

abbrev is_expired_export : ℕ → ℕ → ℕ → String → StoredExport → Bool
unfolding is_older
is_expired_export day now days tenant e =
    is_older day now days e.requested_at && e.tenant_uuid == tenant

-- What a purger does for one tenant and its number of days.
module _ (day now : ℕ) where
  unfoldable pub purge_tenant_call_logs : ℕ → String → Store → Result Store
  unfolding remove_recording_files is_older
  purge_tenant_call_logs days tenant s = do
    left ←
        remove_recording_files s.locked (keep (is_expired_call day now days tenant) s.call_logs)
          s.files
    ok (record s {
      call_logs = keep (λ c. not (is_expired_call day now days tenant c)) s.call_logs;
      files = left;
    })

  unfoldable pub purge_tenant_exports : ℕ → String → Store → Result Store
  unfolding remove_export_files is_older
  purge_tenant_exports days tenant s = do
    left ←
        remove_export_files s.locked (keep (is_expired_export day now days tenant) s.exports)
          s.files
    ok (record s {
      exports = keep (λ e. not (is_expired_export day now days tenant e)) s.exports;
      files = left;
    })

  -- `query.update({'path': None})`
  unfoldable pub forget_paths : ℕ → String → StoredCall → StoredCall
  unfolding is_older
  forget_paths days tenant c =
      if is_expired_call day now days tenant c
      then record c { paths = map (λ _. none) c.paths }
      else c

  unfoldable pub purge_tenant_recordings : ℕ → String → Store → Result Store
  unfolding remove_recording_files is_older forget_paths
  purge_tenant_recordings days tenant s = do
    left ←
        remove_recording_files s.locked (keep (is_expired_call day now days tenant) s.call_logs)
          s.files
    ok (record s { call_logs = map (forget_paths days tenant) s.call_logs; files = left })

-- The loop over the tenants, with the days of each. One that raises ends it, and the transaction is
-- undone.
unfoldable pub purge_each :
    (String → ℕ) → (ℕ → String → Store → Result Store) → List String → Store → Result Store
purge_each days purge_tenant [] s = ok s
purge_each days purge_tenant (t ∷ ts) s = do
  purged ← purge_tenant (days t) t s
  purge_each days purge_tenant ts purged

-- A purger: the days come from the tables as they were read before the loop.
module _ (day now : ℕ) (days_to_keep : ℕ) (tenant : Option String) where
  unfoldable pub call_logs_purge : Store → Result Store
  unfolding purge_each extract_days_to_keep tenant_days get_tenants_uuids
  call_logs_purge s = elim s.config [
    | none ↦ raise no_config
    | some config ↦
        purge_each
          (λ t.
            extract_days_to_keep (tenant_days (λ r. r.cdr_days) s t) config.retention_cdr_days
              days_to_keep default_call_logd_cdr_days)
          (purge_tenant_call_logs day now) (get_tenants_uuids s tenant) s
  ]

  unfoldable pub exports_purge : Store → Result Store
  unfolding purge_each extract_days_to_keep tenant_days get_tenants_uuids
  exports_purge s = elim s.config [
    | none ↦ raise no_config
    | some config ↦
        purge_each
          (λ t.
            extract_days_to_keep (tenant_days (λ r. r.export_days) s t) config.retention_export_days
              days_to_keep default_call_logd_export_days)
          (purge_tenant_exports day now) (get_tenants_uuids s tenant) s
  ]

  unfoldable pub recordings_purge : Store → Result Store
  unfolding purge_each extract_days_to_keep tenant_days get_tenants_uuids
  recordings_purge s = elim s.config [
    | none ↦ raise no_config
    | some config ↦
        purge_each
          (λ t.
            extract_days_to_keep (tenant_days (λ r. r.recording_days) s t)
              config.retention_recording_days days_to_keep default_call_logd_recording_days)
          (purge_tenant_recordings day now) (get_tenants_uuids s tenant) s
  ]
