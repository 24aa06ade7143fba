-- ===== src/Cdr/Service/Visible.antt =====
-- Which calls `CDRService.list` shows, and to whom.
use wazo_call_logd.Common.{◌≡◌, true, false, elem}
use wazo_call_logd.Cdr.Rows.{Cdr}
use wazo_call_logd.Cdr.Status.{call_status, same_status, blocked}
use wazo_call_logd.Cdr.Filters.{Database, ListParams, when_any, when_text, has_user, terminal_user}
use wazo_call_logd.Cdr.Query.{set_default_status}
use wazo_call_logd.Cdr.Service.{search_by_filename, search_terminal_users}

-- The call may be shown for the request: it is a call of one of its tenants and of the user who
-- asks, it is not blocked, and one of its users is on the call, in sight.
pub record Visible (params : ListParams) (c : Cdr) : Type 0 where
  pub tenant : when_any params.tenant_uuids (elem c.tenant_uuid) ≡ true
  pub own : when_text params.me_user_uuid (has_user c) ≡ true
  pub users : when_any params.user_uuids (λ uuids. terminal_user uuids c) ≡ true
  pub unblocked : same_status (call_status c) blocked ≡ false

module _ (db : Database) (params : ListParams) where
  -- the parameters that reach the queries
  abbrev sent : ListParams
  sent = set_default_status db (search_terminal_users (search_by_filename params))
