-- ===== src/Cdr/Http/Exported.antt =====
-- The resources of plugins/cdr/http.py: whose calls a user lists, and what becomes of an export that
-- is asked for.
use wazo_call_logd.Common.{
  inl, inr, ℕ, ◌≡◌, Bool, true, false, Option, none, some, List, [], ◌∷◌, ◌++◌, String, Result, ok,
  inl, inr,
}
use wazo_call_logd.Cdr.Rows.{Cdr, Media}
use wazo_call_logd.Cdr.Status.{call_status, same_status, blocked}
use wazo_call_logd.Cdr.Filters.{Database, ListParams, has_user}
use wazo_call_logd.Cdr.Service.{Listing, list_cdrs}
use wazo_call_logd.Cdr.Service.Visible.{Visible}
use wazo_call_logd.Export.{Export, Exports, RecordingFile, pending}
use wazo_call_logd.Cdr.Http.{
  ListRequest, Token, load_listing, request_tenants, ExportJob, ExportAnswer,
  recordings_to_download, post_export,
}

-- A call of the request's tenant and of the token's user, which was not blocked.
pub record IsOwn (token : Token) (c : Cdr) : Type 0 where
  pub same_tenant : c.tenant_uuid ≡ token.request_tenant
  pub takes_part : has_user c token.user_uuid ≡ true
  pub unblocked : same_status (call_status c) blocked ≡ false

module _ (db : Database) (token : Token) (table : List Cdr) (r : ListRequest) (args : ListParams)
    (recurse : Bool) (loaded : load_listing r ≡ ok (args, recurse)) where
  abbrev my_params : ListParams
  my_params = record args {
    me_user_uuid = some token.user_uuid;
    tenant_uuids = token.request_tenant ∷ [];
  }

module _ (filename_of : Media → String) (db : Database) (uuid : String) (now : ℕ)
    (directory : String) (token : Token) (table : List Cdr) (r : ListRequest) (cdr_ids : List ℕ)
    (email : Option String) (s : Exports) (out : Listing) (args : ListParams) (recurse : Bool)
    (loaded : load_listing r ≡ ok (args, recurse))
    (listed : list_cdrs db table
        (record args { tenant_uuids = request_tenants token recurse; cdr_ids = cdr_ids })
      ≡ ok out) where
  abbrev pub new_export : Export
  new_export = record {
    uuid = uuid;
    tenant_uuid = token.tenant_uuid;
    user_uuid = token.user_uuid;
    requested_at = now;
    status = pending;
    path = none;
  }

  abbrev pub files : List RecordingFile
  files = recordings_to_download filename_of out.items

  abbrev pub created : Exports
  created = record { rows = s.rows ++ new_export ∷ []; announced = s.announced ++ new_export ∷ [] }

  abbrev pub job : ExportJob
  job = record {
    task_uuid = uuid;
    recordings = files;
    output_dir = directory;
    tenant_uuid = token.tenant_uuid;
    destination_email = email;
  }

  abbrev pub answer : Result (ExportAnswer × Exports)
  answer = post_export filename_of db uuid now directory token table r cdr_ids email s
