-- ===== src/Cdr/Media.antt =====
-- The recordings of calls over HTTP: plugins/cdr/http.py (RecordingsMediaResource,
-- RecordingMediaItemResource), `RecordingService` of plugins/cdr/services.py and
-- database/queries/recording.py.
pub mod Deleted
use wazo_call_logd.Common.{
  ℕ, Bool, not, ◌&&◌, Option, none, some, List, [], ◌∷◌, ◌++◌, String, ◌==◌, map, eqb, keep, find,
  filled, if◌then◌else◌,
}
use wazo_call_logd.Cdr.Rows.{Cdr, Media}
use wazo_call_logd.Cdr.Filters.{Database}
use wazo_call_logd.Cdr.Service.{get_cdr}
use wazo_call_logd.Export.{FileError, permission_error, file_not_found_error, os_error}

-- The tables, and the files on disk.
pub record Archive : Type 0 where
  pub table : List Cdr
  pub files : List String

-- The operating system, given the files: what `os.remove` and the sending of a file raise.
pub record Files : Type 0 where
  pub remove : List String → String → Option FileError
  pub send : List String → String → Option FileError

pub data Response : Type 0 where
  no_content : Response
  file : String → Response
  cdr_not_found : ℕ → Response
  recording_not_found media_not_found media_fs_permission media_fs_not_found : String → Response
  cdr_recording_fs_permission : ℕ → String → Response
  uncaught : Response

abbrev pub is_media : ℕ → String → Media → Bool
is_media cdr_id uuid m = eqb m.call_log_id cdr_id && m.uuid == uuid

abbrev pub forget : ℕ → String → Media → Media
forget cdr_id uuid m = if is_media cdr_id uuid m then record m { path = none } else m

abbrev pub forget_in : ℕ → String → Cdr → Cdr
forget_in cdr_id uuid c = record c { recordings = map (forget cdr_id uuid) c.recordings }

-- `RecordingDAO.delete_media_by`
unfoldable pub delete_media_by : ℕ → String → List Cdr → List Cdr
delete_media_by cdr_id uuid table = map (forget_in cdr_id uuid) table

-- `RecordingDAO.find_by`
unfoldable pub find_by : String → ℕ → List Cdr → Option Media
find_by uuid cdr_id [] = none
find_by uuid cdr_id (c ∷ cs) = elim (find (is_media cdr_id uuid) c.recordings) [
  | some m ↦ some m
  | none ↦ find_by uuid cdr_id cs
]

-- The loop goes on after a recording, or stops with its error.
abbrev pub go_on : Media → Option FileError → Response × Archive → Archive → Response × Archive
go_on m none rest left = rest
go_on m (some file_not_found_error) rest left = rest
go_on m (some permission_error) rest left = (cdr_recording_fs_permission m.call_log_id m.uuid, left)
go_on m (some os_error) rest left = (uncaught, left)

module _ (os : Files) where
  -- `os.remove`, where there is a path
  unfoldable pub remove_recording : Option String → List String → Option FileError × List String
  remove_recording none files = (none, files)
  remove_recording (some path) files =
      let left = keep (λ f. not (f == path)) files in
      let tried : Option FileError × List String = elim (os.remove files path) [
        | none ↦ (none, left)
        | some e ↦ (some e, files)
      ] in
      if filled path then tried else (none, files)

  -- `RecordingService.delete_media`: the row first, then the file
  unfoldable pub delete_media : ℕ → String → Option String → Archive → Option FileError × Archive
  unfolding delete_media_by remove_recording
  delete_media cdr_id uuid path a =
      let (raised, left) = remove_recording path a.files in
      (raised, record { table = delete_media_by cdr_id uuid a.table; files = left })

  -- The loop over the recordings; a file that is gone is only logged.
  unfoldable pub delete_each : List Media → Archive → Response × Archive
  unfolding delete_media
  delete_each [] a = (no_content, a)
  delete_each (m ∷ ms) a =
      let (raised, left) = delete_media m.call_log_id m.uuid m.path a in
      let rest = delete_each ms left in go_on m raised rest left

-- A list of recordings, or the first call that is not found.
pub data Gathered : Type 0 where
  gathered : List Media → Gathered
  missing : ℕ → Gathered

abbrev pub with_recordings : List Media → Gathered → Gathered
with_recordings ms (gathered rest) = gathered (ms ++ rest)
with_recordings ms (missing id) = missing id

module _ (db : Database) (tenant_uuids : List String) where
  unfoldable pub gather : List ℕ → List Cdr → Gathered
  unfolding get_cdr
  gather [] table = gathered []
  gather (id ∷ ids) table = elim (get_cdr db table id tenant_uuids []) [
    | none ↦ missing id
    | some c ↦ with_recordings c.recordings (gather ids table)
  ]

unfoldable pub delete_gathered : Files → Gathered → Archive → Response × Archive
unfolding delete_each
delete_gathered os (missing id) a = (cdr_not_found id, a)
delete_gathered os (gathered ms) a = delete_each os ms a

abbrev pub answer_media : String → String → Option FileError → Response
answer_media uuid path none = file path
answer_media uuid path (some file_not_found_error) = media_fs_not_found uuid
answer_media uuid path (some permission_error) = media_fs_permission uuid
answer_media uuid path (some os_error) = uncaught

module _ (db : Database) (os : Files) (tenant_uuids : List String) where
  -- `RecordingsMediaResource.delete`
  unfoldable pub delete_recordings : List ℕ → Archive → Response × Archive
  unfolding gather delete_gathered
  delete_recordings ids a = delete_gathered os (gather db tenant_uuids ids a.table) a

  -- `RecordingMediaItemResource.delete`
  unfoldable pub delete_item : ℕ → String → Archive → Response × Archive
  unfolding get_cdr find_by delete_media
  delete_item cdr_id uuid a = elim (get_cdr db a.table cdr_id tenant_uuids []) [
    | none ↦ (cdr_not_found cdr_id, a)
    | some _ ↦ elim (find_by uuid cdr_id a.table) [
      | none ↦ (recording_not_found uuid, a)
      | some m ↦
          let (raised, left) = delete_media os cdr_id uuid m.path a in
          elim raised [
            | none ↦ (no_content, left)
            | some file_not_found_error ↦ (no_content, left)
            | some permission_error ↦ (media_fs_permission uuid, left)
            | some os_error ↦ (uncaught, left)
          ]
    ]
  ]

  -- `RecordingMediaItemResource.get`, and, for the calls of a user,
  -- `RecordingMediaItemUserMeResource.get`
  unfoldable pub get_item : ℕ → String → List String → Archive → Response
  unfolding get_cdr find_by
  get_item cdr_id uuid user_uuids a = elim (get_cdr db a.table cdr_id tenant_uuids user_uuids) [
    | none ↦ cdr_not_found cdr_id
    | some _ ↦ elim (find_by uuid cdr_id a.table) [
      | none ↦ recording_not_found uuid
      | some m ↦ elim m.path [
        | none ↦ media_not_found uuid
        | some path ↦
            if filled path
            then answer_media uuid path (os.send a.files path)
            else media_not_found uuid
      ]
    ]
  ]
