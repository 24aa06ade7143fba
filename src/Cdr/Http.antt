-- ===== src/Cdr/Http.antt =====
-- plugins/cdr/http.py: the resources that list calls, and the request for an export, with
-- `RecordingService.start_recording_export` of plugins/cdr/services.py. The schemas' own part is in
-- `load_listing`; marshmallow reads the single fields.
pub mod Exported
use wazo_call_logd.Common.{
  ℕ, Bool, raise, validation_error, ◌>>=◌, true, false, Option, none, some, List, [], ◌∷◌, ◌++◌,
  String, map, filled, Result, ok, ◌>>=◌, if◌then◌else◌,
}
use wazo_call_logd.Common.Text.{chars, string, split}
use wazo_call_logd.Cdr.Rows.{Cdr, Media}
use wazo_call_logd.Cdr.Filters.{Database, ListParams}
use wazo_call_logd.Cdr.Service.{Listing, list_cdrs, get_cdr}
use wazo_call_logd.Export.{Export, Exports, RecordingFile, create_export}

-- `data['tags'].split(',')`, if the parameter is given and not empty. An empty one stays a text, which
-- the field of a list refuses.
unfoldable pub comma_list : Option String → Result (List String)
unfolding split
comma_list none = ok []
comma_list (some s) =
    if filled s then ok (map string (split 44 (chars s))) else raise validation_error

-- The fields of a request that `convert_tags_and_user_uuid_to_list` splits, and `recurse`; the
-- other fields are those of `ListParams`.
pub record ListRequest : Type 0 where
  pub fields : ListParams
  pub tags : Option String
  pub user_uuid : Option String
  pub recurse : Option Bool

abbrev recursive : Option Bool → Bool
recursive none = false
recursive (some b) = b

-- `CDRListRequestSchema().load` and `RecordingMediaExportRequestSchema().load`
unfoldable pub load_listing : ListRequest → Result (ListParams × Bool)
unfolding comma_list
load_listing r = do
  tags ← comma_list r.tags
  user_uuids ← comma_list r.user_uuid
  ok (record r.fields { tags = tags; user_uuids = user_uuids }, recursive r.recurse)

-- What wazo-auth tells of the token: its tenant, its user, and the tenants below a tenant; and the
-- tenant of the request, which is another where its header or query names one.
pub record Token : Type 0 where
  pub tenant_uuid : String
  pub request_tenant : String
  pub user_uuid : String
  pub visible_tenants : String → List String

-- `query_or_header_visible_tenants`, and `visible_tenants` of the resources
unfoldable pub request_tenants : Token → Bool → List String
request_tenants token recurse =
    if recurse then token.visible_tenants token.request_tenant else token.request_tenant ∷ []

module _ (db : Database) (token : Token) (table : List Cdr) where
  -- `CDRResource.get`
  unfoldable pub get_all_cdrs : ListRequest → Result Listing
  unfolding load_listing request_tenants list_cdrs
  get_all_cdrs r = do
    loaded ← load_listing r
    list_cdrs db table (record loaded.0 { tenant_uuids = request_tenants token loaded.1 })

  -- `CDRUserResource.get`; the schema leaves `user_uuid` of the request out
  unfoldable pub get_user_cdrs : String → ListRequest → Result Listing
  unfolding load_listing request_tenants list_cdrs
  get_user_cdrs user_uuid r = do
    loaded ← load_listing (record r { user_uuid = none })
    list_cdrs db table (record loaded.0 {
      user_uuids = user_uuid ∷ [];
      tenant_uuids = request_tenants token loaded.1;
    })

  -- `CDRUserMeResource.get`
  unfoldable pub get_my_cdrs : ListRequest → Result Listing
  unfolding load_listing request_tenants list_cdrs
  get_my_cdrs r = do
    loaded ← load_listing r
    list_cdrs db table (record loaded.0 {
      me_user_uuid = some token.user_uuid;
      tenant_uuids = request_tenants token false;
    })

  -- `CDRIdResource.get`; `none` is CDRNotFoundException
  unfoldable pub get_one_cdr : ℕ → Option Cdr
  unfolding request_tenants get_cdr
  get_one_cdr cdr_id = get_cdr db table cdr_id (request_tenants token true) []

-- The message that the export task gets.
pub record ExportJob : Type 0 where
  pub task_uuid : String
  pub recordings : List RecordingFile
  pub output_dir : String
  pub tenant_uuid : String
  pub destination_email : Option String

pub data ExportAnswer : Type 0 where
  no_recording_to_export : ExportAnswer
  accepted : Export → ExportJob → ExportAnswer

-- `recording.filename` for a recording that has a path
module _ (filename_of : Media → String) where
  abbrev file_of : Media → String → RecordingFile
  file_of m path = record {
    uuid = m.uuid;
    filename = filename_of m;
    path = path;
    call_log_id = m.call_log_id;
  }

  abbrev pub with_file : Media → Option String → List RecordingFile → List RecordingFile
  with_file m none files = files
  with_file m (some path) files = if filled path then file_of m path ∷ files else files

  unfoldable pub files_of : List Media → List RecordingFile
  files_of [] = []
  files_of (m ∷ ms) = with_file m m.path (files_of ms)

  -- The recordings of the calls that have a path.
  unfoldable pub recordings_to_download : List Cdr → List RecordingFile
  unfolding files_of
  recordings_to_download [] = []
  recordings_to_download (c ∷ cs) = files_of c.recordings ++ recordings_to_download cs

  -- `start_recording_export`; the database gives the uuid
  unfoldable pub start_recording_export :
      String
      → ℕ
      → String
      → Token
      → Option String
      → List RecordingFile
      → Exports
      → ExportAnswer × Exports
  unfolding create_export
  start_recording_export uuid now directory token email files s =
      let (e, created) = create_export uuid token.user_uuid token.tenant_uuid now s in
      let job : ExportJob = record {
        task_uuid = e.uuid;
        recordings = files;
        output_dir = directory;
        tenant_uuid = token.tenant_uuid;
        destination_email = email;
      } in
      (accepted e job, created)

  abbrev pub or_refuse :
      String
      → ℕ
      → String
      → Token
      → Option String
      → Exports
      → List RecordingFile
      → ExportAnswer × Exports
  or_refuse uuid now directory token email s [] = (no_recording_to_export, s)
  or_refuse uuid now directory token email s (f ∷ fs) =
      start_recording_export uuid now directory token email (f ∷ fs) s

  -- `RecordingsMediaExportResource.post`
  unfoldable pub post_export :
      Database
      → String
      → ℕ
      → String
      → Token
      → List Cdr
      → ListRequest
      → List ℕ
      → Option String
      → Exports
      → Result (ExportAnswer × Exports)
  unfolding load_listing request_tenants list_cdrs recordings_to_download start_recording_export
  post_export db uuid now directory token table r cdr_ids email s = do
    loaded ← load_listing r
    call_logs ←
        list_cdrs db table
          (record loaded.0 { tenant_uuids = request_tenants token loaded.1; cdr_ids = cdr_ids })
    ok (or_refuse uuid now directory token email s (recordings_to_download call_logs.items))
