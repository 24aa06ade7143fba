-- ===== src/Export/Task.antt =====
-- What a task makes of an export, and what a download answers then.
use Prim.Native.Char.{Char}
use wazo_call_logd.Common.Text.{chars, string, filled-string}
use wazo_call_logd.Common.{
  subst, ◌≡◌, ◌≢◌, refl, sym, ◌∙◌, ap, Bool, true, false, Option, none, some, List, [], ◌∷◌, ◌++◌,
  String, eq_iff, find, find-some, filled, map, all, arith,
}
use wazo_call_logd.Export.{
  processing, finished, error, Export, RecordingFile, FileError, permission_error,
  file_not_found_error, os_error, Disk, Exports, ExportError, export_not_found, export_visible,
  get_export, save, update_export, first_failure, finish_task, fill_archive, archive_path, run_task,
  sent, refused, download_found, download,
}

-- The row that is saved is the row that is found.
find-save :
    (tenants : Option (List String)) (e old : Export) (rows : List Export)
    → export_visible tenants e.uuid e ≡ true
    → find (export_visible tenants e.uuid) rows ≡ some old
    → find (export_visible tenants e.uuid) (save e rows) ≡ some e
find-save tenants e old [] h k = cc
find-save none e old (r ∷ rs) h k = ground (arith, h, find-save none e old rs h)
find-save (some ts) e old (r ∷ rs) h k = ground (arith, h, k, find-save (some ts) e old rs h)

append_two :
    (es : List Export) (e f : Export)
    → map (λ e. e.status) ((es ++ e ∷ []) ++ f ∷ [])
      ≡ map (λ e. e.status) es ++ e.status ∷ f.status ∷ []
append_two [] e f = refl
append_two (x ∷ es) e f = ap (λ l. x.status ∷ l) (append_two es e f)

get_export-save :
    (uuid : String) (tenants : Option (List String)) (e old : Export) (s : Exports)
    → e.uuid ≡ uuid
    → export_visible tenants uuid e ≡ true
    → get_export uuid tenants s ≡ some old
    → get_export uuid tenants (update_export e s) ≡ some e
unfolding get_export update_export
get_export-save uuid tenants e old s same h k =
    subst
      (λ u.
        export_visible tenants u e ≡ true
        → find (export_visible tenants u) s.rows ≡ some old
        → find (export_visible tenants u) (save e s.rows) ≡ some e)
      same (find-save tenants e old s.rows) h k

found_visible :
    (uuid : String) (tenants : Option (List String)) (s : Exports) (e : Export)
    → get_export uuid tenants s ≡ some e
    → export_visible tenants uuid e ≡ true
unfolding get_export
found_visible uuid tenants s e h = find-some (export_visible tenants uuid) s.rows e h

found_uuid :
    (uuid tenant : String) (e : Export)
    → export_visible (some (tenant ∷ [])) uuid e ≡ true
    → e.uuid ≡ uuid
found_uuid uuid tenant e h = ground (arith, h, eq_iff e.uuid uuid)

filled-archive_path : (output_dir uuid : String) → filled (archive_path output_dir uuid) ≡ true
unfolding archive_path
filled-archive_path output_dir uuid = go (chars output_dir)
  where
    go :
        (cs : List Char)
        → filled (string (cs ++ (chars "/" ++ (chars uuid ++ chars ".zip")))) ≡ true
    go [] = filled-string _ _
    go (c ∷ cs) = filled-string c _

-- The file can be added to the archive.
abbrev pub is_readable : Disk → RecordingFile → Bool
is_readable disk r = elim (disk.zip_write r.path) [ none ↦ true | some _ ↦ false ]

first_failure-none :
    (disk : Disk) (recordings : List RecordingFile)
    → all (is_readable disk) recordings ≡ true
    → first_failure disk recordings ≡ none
unfolding first_failure
first_failure-none disk [] h = refl
first_failure-none disk (r ∷ rs) h =
    ground (arith, h, first_failure-none disk rs (ground (arith, h)))

module _ (disk : Disk) (uuid tenant : String) (recordings : List RecordingFile)
    (output_dir : String) (s : Exports) (found : Export)
    (there : get_export uuid (some (tenant ∷ [])) s ≡ some found)
    (opened : disk.open_zip (archive_path output_dir uuid) ≡ none) where
  abbrev in_process : Export
  in_process = record found { status = processing }

  visible : export_visible (some (tenant ∷ [])) uuid in_process ≡ true
  visible = found_visible uuid (some (tenant ∷ [])) s found there

  processed : get_export uuid (some (tenant ∷ [])) (update_export in_process s) ≡ some in_process
  processed =
      get_export-save uuid (some (tenant ∷ [])) in_process found s
        (found_uuid uuid tenant in_process visible) visible there

  run_task_lem :
      run_task disk uuid tenant recordings output_dir s
      ≡ finish_task
          (archive_path output_dir uuid)
          in_process
          (first_failure disk recordings)
          (update_export in_process s)
  unfolding run_task fill_archive
  run_task_lem = rw (there, run_task) (rw (opened, fill_archive) refl)

  abbrev done : Export
  done = record in_process { path = some (archive_path output_dir uuid); status = finished }

  finished_lem :
      all (is_readable disk) recordings ≡ true
      → run_task disk uuid tenant recordings output_dir s
        ≡ (none, update_export done (update_export in_process s))
  unfolding finish_task
  finished_lem readable =
      run_task_lem
      ∙ ap
          (λ x.
            finish_task (archive_path output_dir uuid) in_process x (update_export in_process s))
          (first_failure-none disk recordings readable)

  found_done :
      get_export uuid (some (tenant ∷ [])) (update_export done (update_export in_process s))
      ≡ some done
  found_done =
      get_export-save uuid (some (tenant ∷ [])) done in_process (update_export in_process s)
        (found_uuid uuid tenant in_process visible) visible processed

  download_done :
      disk.send_file (archive_path output_dir uuid) ≡ none
      → download_found disk done ≡ sent (archive_path output_dir uuid)
  unfolding download_found
  download_done sendable = ground (arith, sendable, filled-archive_path output_dir uuid)

  statuses :
      (e f : Export) (t : Exports)
      → map (λ e. e.status) (update_export f (update_export e t)).announced
        ≡ map (λ e. e.status) t.announced ++ e.status ∷ f.status ∷ []
  unfolding update_export
  statuses e f t = append_two t.announced e f

  -- Where every recording can be read, a task that finds its export and opens the archive ends, the
  -- archive can be downloaded afterwards if the file can be sent, and both steps are announced.
  pub run_task-download :
      all (is_readable disk) recordings ≡ true
      → disk.send_file (archive_path output_dir uuid) ≡ none
      → let (raised, after) = run_task disk uuid tenant recordings output_dir s in
        (raised ≡ none)
        × (download disk uuid (tenant ∷ []) after ≡ sent (archive_path output_dir uuid))
        × (map (λ e. e.status) after.announced
            ≡ map (λ e. e.status) s.announced ++ processing ∷ finished ∷ [])
  unfolding download
  run_task-download readable sendable =
      let path = archive_path output_dir uuid in
      let last = update_export done (update_export in_process s) in
      let answered : download disk uuid (tenant ∷ []) last ≡ sent path =
        rw (found_done, download) (download_done sendable) in
      subst
        (λ (o : Option ExportError × Exports).
          (o.0 ≡ none)
          × (download disk uuid (tenant ∷ []) o.1 ≡ sent path)
          × (map (λ e. e.status) o.1.announced
              ≡ map (λ e. e.status) s.announced ++ processing ∷ finished ∷ []))
        (sym (finished_lem readable)) (refl, answered, statuses in_process done s)

  abbrev failed : Export
  failed = record in_process { status = error }

  finish_task-failed :
      (r : RecordingFile) (e : FileError)
      → e ≢ os_error
      → (finish_task
          (archive_path output_dir uuid)
          in_process
          (some (r, e))
          (update_export in_process s)).1
        ≡ update_export failed (update_export in_process s)
  unfolding finish_task
  finish_task-failed r permission_error h = refl
  finish_task-failed r file_not_found_error h = refl
  finish_task-failed r os_error h = elim (h refl) [ ]

  download_failed : found.path ≡ none → download_found disk failed ≡ refused export_not_found
  unfolding download_found
  download_failed unset = ground (arith, unset)

  -- A task that meets a recording that it may not read, or that is gone, marks the export as failed.
  -- A download then does not say so: it answers that there is no such export, if it had no file.
  pub run_task-failed :
      (r : RecordingFile) (e : FileError)
      → first_failure disk recordings ≡ some (r, e)
      → e ≢ os_error
      → found.path ≡ none
      → let (raised, after) = run_task disk uuid tenant recordings output_dir s in
        (get_export uuid (some (tenant ∷ [])) after ≡ some (record found { status = error }))
        × (download disk uuid (tenant ∷ []) after ≡ refused export_not_found)
  unfolding download
  run_task-failed r e fails known unset =
      let last = update_export failed (update_export in_process s) in
      let ended : (run_task disk uuid tenant recordings output_dir s).1 ≡ last =
        ap (λ (o : Option ExportError × Exports). o.1)
          (run_task_lem
            ∙ ap
                (λ x.
                  finish_task (archive_path output_dir uuid) in_process x
                    (update_export in_process s))
                fails)
        ∙ finish_task-failed r e known in
      let found_failed : get_export uuid (some (tenant ∷ [])) last ≡ some failed =
        get_export-save uuid (some (tenant ∷ [])) failed in_process (update_export in_process s)
          (found_uuid uuid tenant in_process visible) visible processed in
      let answered : download disk uuid (tenant ∷ []) last ≡ refused export_not_found =
        rw (found_failed, download) (download_failed unset) in
      subst
        (λ (t : Exports).
          (get_export uuid (some (tenant ∷ [])) t ≡ some failed)
          × (download disk uuid (tenant ∷ []) t ≡ refused export_not_found))
        (sym ended) (found_failed, answered)
