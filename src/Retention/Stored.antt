-- ===== src/Retention/Stored.antt =====
-- PUT /retention: what GET /retention and the purgers read afterwards.
use wazo_call_logd.Common.{◌≡◌, false, some, [], ◌∷◌, ◌++◌, String, ◌==◌, ok}
use wazo_call_logd.Common.Dict.{Dict}
use wazo_call_logd.Purger.{Retention, retention_of}
use wazo_call_logd.Retention.{
  ConfigRow, RetentionView, RetentionState, RetentionArgs, get_retention, purged_store,
}

abbrev row_of : String → RetentionArgs → Retention
row_of tenant args = record {
  tenant_uuid = tenant;
  cdr_days = args.cdr_days;
  recording_days = args.recording_days;
  export_days = args.export_days;
}

abbrev view_of : String → RetentionArgs → ConfigRow → RetentionView
view_of tenant args c = record { row = row_of tenant args; defaults = c.days }

-- The new row is read back with the defaults, by the API and by the purgers; the other tenants
-- read what they read before, and one event tells of the new row.
pub record IsStored (tenant : String) (args : RetentionArgs) (c : ConfigRow)
    (before after : RetentionState) : Type 0 where
  pub read_back : get_retention tenant after ≡ ok (view_of tenant args c)
  pub purged : retention_of (purged_store after) tenant ≡ some (row_of tenant args)
  pub others :
      (other : String)
      → (tenant == other) ≡ false
      → get_retention other after ≡ get_retention other before
  pub announced : after.events ≡ before.events ++ view_of tenant args c ∷ []
