-- ===== src/Cdr/Media/Deleted.antt =====
-- What the deletion of recordings leaves.
use wazo_call_logd.Common.{
  ℕ, ◌≡◌, refl, sym, ◌∙◌, ap, subst, Bool, true, false, not, ◌&&◌, ◌||◌, Option, none, some, List,
  [], ◌∷◌, String, map, any, All, is_some, filled, inl, inr, Option-cases, arith,
}
use wazo_call_logd.Cdr.Rows.{Cdr, Media}
use wazo_call_logd.Cdr.Filters.{Database}
use wazo_call_logd.Cdr.Service.{get_cdr}
use wazo_call_logd.Export.{FileError, permission_error, file_not_found_error, os_error}
use wazo_call_logd.Cdr.Media.{
  Archive, Files, Response, no_content, is_media, forget, delete_media_by, remove_recording,
  delete_media, delete_each, Gathered, gathered, missing, with_recordings, go_on, gather,
  delete_gathered, delete_recordings,
}

-- A call of the list is not visible in the tenants.
abbrev pub is_hidden : Database → List String → List Cdr → ℕ → Bool
is_hidden db tenant_uuids table id = not (is_some (get_cdr db table id tenant_uuids []))

abbrev pub is_missing : Gathered → Bool
is_missing (missing id) = true
is_missing (gathered ms) = false

with_recordings-is_missing :
    (ms : List Media) (g : Gathered)
    → is_missing g ≡ true
    → is_missing (with_recordings ms g) ≡ true
with_recordings-is_missing ms (missing id) h = refl
with_recordings-is_missing ms (gathered rest) h = h

gather-is_missing :
    (db : Database) (tenant_uuids : List String) (ids : List ℕ) (table : List Cdr)
    → any (is_hidden db tenant_uuids table) ids ≡ true
    → is_missing (gather db tenant_uuids ids table) ≡ true
unfolding gather
gather-is_missing db tenant_uuids [] table h = h
gather-is_missing db tenant_uuids (id ∷ ids) table h =
    elim (Option-cases (get_cdr db table id tenant_uuids [])) [
      | inl e ↦ ground (arith, e)
      | inr (c, e) ↦
          let later = gather-is_missing db tenant_uuids ids table (ground (arith, e, h)) in
          ground (
            arith,
            e,
            with_recordings-is_missing c.recordings (gather db tenant_uuids ids table) later,
          )
    ]

abbrev pub is_done : Response → Bool
is_done no_content = true
is_done _ = false

delete_gathered-missing :
    (os : Files) (g : Gathered) (a : Archive)
    → is_missing g ≡ true
    → (is_done (delete_gathered os g a).0 ≡ false) × ((delete_gathered os g a).1 ≡ a)
unfolding delete_gathered
delete_gathered-missing os (missing id) a h = (refl, refl)
delete_gathered-missing os (gathered ms) a h = cc

-- If one of the calls is not found in the tenants, the request fails and nothing is deleted.
pub delete_recordings-hidden :
    (db : Database) (os : Files) (tenant_uuids : List String) (ids : List ℕ) (a : Archive)
    → any (is_hidden db tenant_uuids a.table) ids ≡ true
    → let (response, after) = delete_recordings db os tenant_uuids ids a in
      (is_done response ≡ false) × (after ≡ a)
unfolding delete_recordings
delete_recordings-hidden db os tenant_uuids ids a h =
    delete_gathered-missing os (gather db tenant_uuids ids a.table) a
      (gather-is_missing db tenant_uuids ids a.table h)

-- The table has a file for the recording.
abbrev pub has_path : Media → Media → Bool
has_path m x = is_media m.call_log_id m.uuid x && is_some x.path

abbrev pub is_stored : List Cdr → Media → Bool
is_stored [] m = false
is_stored (c ∷ cs) m = any (has_path m) c.recordings || is_stored cs m

any-forget :
    (m : Media) (cdr_id : ℕ) (uuid : String) (ms : List Media)
    → any (has_path m) ms ≡ false
    → any (has_path m) (map (forget cdr_id uuid) ms) ≡ false
any-forget m cdr_id uuid [] h = h
any-forget m cdr_id uuid (x ∷ xs) h =
    ground (arith, h, any-forget m cdr_id uuid xs (ground (arith, h)))

any-forget_own :
    (m : Media) (ms : List Media) → any (has_path m) (map (forget m.call_log_id m.uuid) ms) ≡ false
any-forget_own m [] = refl
any-forget_own m (x ∷ xs) = ground (arith, any-forget_own m xs)

is_stored-delete_media_by :
    (m : Media) (cdr_id : ℕ) (uuid : String) (table : List Cdr)
    → is_stored table m ≡ false
    → is_stored (delete_media_by cdr_id uuid table) m ≡ false
unfolding delete_media_by
is_stored-delete_media_by m cdr_id uuid [] h = h
is_stored-delete_media_by m cdr_id uuid (c ∷ cs) h = ground (
  arith,
  any-forget m cdr_id uuid c.recordings (ground (arith, h)),
  is_stored-delete_media_by m cdr_id uuid cs (ground (arith, h)),
)

is_stored-delete_own :
    (m : Media) (table : List Cdr)
    → is_stored (delete_media_by m.call_log_id m.uuid table) m ≡ false
unfolding delete_media_by
is_stored-delete_own m [] = refl
is_stored-delete_own m (c ∷ cs) =
    ground (arith, any-forget_own m c.recordings, is_stored-delete_own m cs)

go_on-is_stored :
    (m x : Media) (raised : Option FileError) (rest : Response × Archive) (left : Archive)
    → is_stored rest.1.table x ≡ false
    → is_stored left.table x ≡ false
    → is_stored (go_on m raised rest left).1.table x ≡ false
go_on-is_stored m x none rest left h k = h
go_on-is_stored m x (some file_not_found_error) rest left h k = h
go_on-is_stored m x (some permission_error) rest left h k = k
go_on-is_stored m x (some os_error) rest left h k = k

-- A path that is forgotten is not stored again.
delete_each-is_stored :
    (os : Files) (ms : List Media) (a : Archive) (x : Media)
    → is_stored a.table x ≡ false
    → is_stored (delete_each os ms a).1.table x ≡ false
unfolding delete_each delete_media
delete_each-is_stored os [] a x h = h
delete_each-is_stored os (m ∷ ms) a x h =
    let (raised, left) = delete_media os m.call_log_id m.uuid m.path a in
    let gone = is_stored-delete_media_by x m.call_log_id m.uuid a.table h in
    go_on-is_stored m x raised (delete_each os ms left) left
      (delete_each-is_stored os ms left x gone) gone

go_on-is_done :
    (m : Media) (raised : Option FileError) (rest : Response × Archive) (left : Archive)
    → is_done (go_on m raised rest left).0 ≡ true
    → go_on m raised rest left ≡ rest
go_on-is_done m none rest left h = refl
go_on-is_done m (some file_not_found_error) rest left h = refl
go_on-is_done m (some permission_error) rest left h = cc
go_on-is_done m (some os_error) rest left h = cc

delete_each_forgets :
    (os : Files) (ms : List Media) (a : Archive)
    → is_done (delete_each os ms a).0 ≡ true
    → All (λ m. is_stored (delete_each os ms a).1.table m ≡ false) ms
unfolding delete_each delete_media
delete_each_forgets os [] a h = tt
delete_each_forgets os (m ∷ ms) a h =
    let (raised, left) = delete_media os m.call_log_id m.uuid m.path a in
    let rest = delete_each os ms left in
    let same = go_on-is_done m raised rest left h in
    let done : is_done rest.0 ≡ true =
      sym (ap (λ (r : Response × Archive). is_done r.0) same) ∙ h in
    subst (λ (r : Response × Archive). All (λ x. is_stored r.1.table x ≡ false) (m ∷ ms)) (sym same)
      (
        delete_each-is_stored os ms left m (is_stored-delete_own m a.table),
        delete_each_forgets os ms left done,
      )

-- When the request is answered with success, no recording of the calls has a path any more.
pub delete_recordings_forgets :
    (db : Database) (os : Files) (tenant_uuids : List String) (ids : List ℕ) (a : Archive)
    (ms : List Media)
    → gather db tenant_uuids ids a.table ≡ gathered ms
    → is_done (delete_recordings db os tenant_uuids ids a).0 ≡ true
    → All (λ m. is_stored (delete_recordings db os tenant_uuids ids a).1.table m ≡ false) ms
unfolding delete_recordings
delete_recordings_forgets db os tenant_uuids ids a ms e =
    subst
      (λ g.
        is_done (delete_gathered os g a).0 ≡ true
        → All (λ m. is_stored (delete_gathered os g a).1.table m ≡ false) ms)
      (sym e) (unfold delete_gathered in delete_each_forgets os ms a)

-- A file that may not be removed stays, and its recording is forgotten all the same: the request
-- fails, but the recording has no path any more.
pub delete_media-denied :
    (os : Files) (m : Media) (path : String) (a : Archive)
    → filled path ≡ true
    → os.remove a.files path ≡ some permission_error
    → let (raised, after) = delete_media os m.call_log_id m.uuid (some path) a in
      (raised ≡ some permission_error) × (after.files ≡ a.files) × (is_stored after.table m ≡ false)
unfolding delete_media remove_recording
delete_media-denied os m path a h k =
    (ground (arith, h, k), ground (arith, h, k), is_stored-delete_own m a.table)
