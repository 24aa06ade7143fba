-- ===== src/Retention.antt =====
-- How many days a tenant keeps its calls, recordings and exports: database/queries/retention.py and
-- config.py, plugins/retention (http.py, services.py, schemas.py, notifier.py), and controller.py
-- (`_update_db_from_config_file`).
pub mod Stored
use wazo_call_logd.Common.{
  ℕ, Bool, false, Option, none, some, List, [], ◌∷◌, ◌++◌, String, ◌==◌, map, find, elem, ltb,
  Result, ok, raise, ◌>>=◌, require, attribute_error, value_error, is_some, if◌then◌else◌,
}
use wazo_call_logd.Purger.{Config, Retention, Store}

-- a row of Config
pub record ConfigRow : Type 0 where
  pub days : Config
  pub cdr_days_from_file : Bool
  pub export_days_from_file : Bool
  pub recording_days_from_file : Bool

-- The attributes of a Retention object: its columns, and the defaults that the DAO sets on it.
pub record RetentionView : Type 0 where
  pub row : Retention
  pub defaults : Config

-- The tables, and the payloads of the published CallLogRetentionUpdatedEvents.
pub record RetentionState : Type 0 where
  pub config : Option ConfigRow
  pub retentions : List Retention
  pub tenants : List String
  pub events : List RetentionView

abbrev pub default_config : ConfigRow
default_config = record {
  days = record {
    retention_cdr_days = 365;
    retention_recording_days = 365;
    retention_export_days = 2;
  };
  cdr_days_from_file = false;
  export_days_from_file = false;
  recording_days_from_file = false;
}

-- `ConfigDAO.find_or_create`, with the session's state behind it
unfoldable pub find_or_create_config : RetentionState → ConfigRow × RetentionState
find_or_create_config s = elim s.config [
  | some c ↦ (c, s)
  | none ↦ (default_config, record s { config = some default_config })
]

-- `config['retention']` of the configuration file
pub record FileRetention : Type 0 where
  pub cdr_days : Option ℕ
  pub export_days : Option ℕ
  pub recording_days : Option ℕ

abbrev pub given_days : Option ℕ → ℕ → ℕ
given_days none days = days
given_days (some n) days = n

-- `Controller._update_db_from_config_file`
unfoldable pub update_db_from_config_file : FileRetention → RetentionState → RetentionState
unfolding find_or_create_config
update_db_from_config_file file s =
    let (c, opened) = find_or_create_config s in
    let updated : ConfigRow = record {
      days = record {
        retention_cdr_days = given_days file.cdr_days c.days.retention_cdr_days;
        retention_recording_days = given_days file.recording_days c.days.retention_recording_days;
        retention_export_days = given_days file.export_days c.days.retention_export_days;
      };
      cdr_days_from_file = is_some file.cdr_days;
      export_days_from_file = is_some file.export_days;
      recording_days_from_file = is_some file.recording_days;
    } in
    record opened { config = some updated }

abbrev pub is_of : String → Retention → Bool
is_of tenant r = r.tenant_uuid == tenant

abbrev pub new_retention : String → Retention
new_retention tenant = record {
  tenant_uuid = tenant;
  cdr_days = none;
  recording_days = none;
  export_days = none;
}

abbrev pub or_new : String → Option Retention → Retention
or_new tenant none = new_retention tenant
or_new tenant (some r) = r

-- The defaults are read from the first row of Config; with none, `None` has no such attribute.
unfoldable pub with_defaults : RetentionState → Retention → Result RetentionView
with_defaults s r = do
  c ← require attribute_error s.config
  ok (record { row = r; defaults = c.days })

-- `RetentionDAO.find`: a tenant without a row is given_days a new object, which is not stored
unfoldable pub find_retention : String → RetentionState → Result RetentionView
unfolding with_defaults
find_retention tenant s = with_defaults s (or_new tenant (find (is_of tenant) s.retentions))

-- `_find_or_create_tenant`
unfoldable pub find_or_create_tenant : String → RetentionState → RetentionState
find_or_create_tenant tenant s =
    if elem tenant s.tenants then s else record s { tenants = s.tenants ++ tenant ∷ [] }

abbrev pub or_added : String → Option Retention → RetentionState → RetentionState
or_added tenant none s = record s { retentions = s.retentions ++ new_retention tenant ∷ [] }
or_added tenant (some r) s = s

abbrev pub or_created : String → Option Retention → RetentionState → RetentionState
or_created tenant none s = find_or_create_tenant tenant s
or_created tenant (some r) s = s

-- `RetentionDAO.find_or_create`; an exception rolls the session back
unfoldable pub find_or_create_retention :
    String → RetentionState → Result (RetentionView × RetentionState)
unfolding with_defaults find_or_create_tenant
find_or_create_retention tenant s = do
  let found = find (is_of tenant) s.retentions
  view ← with_defaults s (or_new tenant found)
  ok (view, or_added tenant found (or_created tenant found s))

-- `RetentionDAO.update`: the row of the object is written
abbrev pub replace_row : Retention → Retention → Retention
replace_row new r = if r.tenant_uuid == new.tenant_uuid then new else r

unfoldable pub update_retention : Retention → RetentionState → RetentionState
update_retention new s = record s { retentions = map (replace_row new) s.retentions }

-- a number of a request body
pub data Number : Type 0 where
  nonneg negative : ℕ → Number

-- The body of PUT /retention; a field that is missing or null is `none`.
pub record Body : Type 0 where
  pub cdr_days : Option Number
  pub export_days : Option Number
  pub recording_days : Option Number

-- `fields.Integer(validate=Range(min=0), load_default=None)`
abbrev pub load_days : Option Number → Result (Option ℕ)
load_days none = ok none
load_days (some (nonneg n)) = ok (some n)
load_days (some (negative n)) = raise value_error

-- the part of RetentionSchema that a body is loaded into
pub record RetentionArgs : Type 0 where
  pub cdr_days : Option ℕ
  pub export_days : Option ℕ
  pub recording_days : Option ℕ

-- `validate_days`: whether both are given_days, and the recordings are kept longer than the calls
abbrev pub outlives : Option ℕ → Option ℕ → Bool
outlives (some recording) (some cdr) = ltb cdr recording
outlives none cdr = false
outlives (some recording) none = false

abbrev pub validated : RetentionArgs → Result RetentionArgs
validated args = if outlives args.recording_days args.cdr_days then raise value_error else ok args

-- `RetentionSchema().load`; `value_error` is ValidationError
unfoldable pub load_retention : Body → Result RetentionArgs
load_retention body = do
  cdr ← load_days body.cdr_days
  export ← load_days body.export_days
  recording ← load_days body.recording_days
  validated (record { cdr_days = cdr; export_days = export; recording_days = recording })

-- `update_model_instance`
unfoldable pub update_model_instance : RetentionArgs → RetentionView → RetentionView
update_model_instance args v = record v {
  row = record {
    tenant_uuid = v.row.tenant_uuid;
    cdr_days = args.cdr_days;
    recording_days = args.recording_days;
    export_days = args.export_days;
  };
}

-- `RetentionService.update`, with `RetentionNotifier.updated`
unfoldable pub service_update : RetentionView → RetentionState → RetentionState
unfolding update_retention
service_update v s =
    let stored = update_retention v.row s in record stored { events = stored.events ++ v ∷ [] }

-- `RetentionResource.put`
unfoldable pub put_retention : String → Body → RetentionState → Result RetentionState
unfolding load_retention find_or_create_retention update_model_instance service_update
put_retention tenant body s = do
  args ← load_retention body
  found ← find_or_create_retention tenant s
  ok (service_update (update_model_instance args found.0) found.1)

-- `RetentionResource.get`
unfoldable pub get_retention : String → RetentionState → Result RetentionView
unfolding find_retention
get_retention tenant s = find_retention tenant s

abbrev stored_days : Option ConfigRow → Option Config
stored_days none = none
stored_days (some c) = some c.days

-- What the purgers read of the tables.
unfoldable pub purged_store : RetentionState → Store
purged_store s = record {
  config = stored_days s.config;
  retentions = s.retentions;
  tenants = s.tenants;
  call_logs = [];
  exports = [];
  files = [];
  locked = [];
}
