-- ===== src/Dbx/Scan/Found.antt =====
-- What the lookups of common/dbx/scan.go find after its insertions.
use lomo_backup.Common.{
  ℕ, suc, ◌≡◌, refl, ap, ◌∙◌, Bool, true, ◌&&◌, Option, none, some, [], ◌∷◌, ◌++◌, Bytes, ◌==◌,
  bytes_eq, bytes_eq_refl, bytes_eq_comm, arith,
}
use lomo_backup.Types.{FileInfo}
use lomo_backup.Dbx.{DirRow, FileRow, Tables, same_named}
use lomo_backup.Dbx.Table.{first, insert}
use lomo_backup.Dbx.Table.Found.{insert_free, found_new, found-append, select-update}
use lomo_backup.Dbx.Scan.{
  get_dir_id_by_path_and_root_id, insert_dir, new_dir, dir_key, update_dir_mod_time,
  get_file_by_name_and_dir_id, found_file, insert_file, new_file, file_key,
}

-- No directory and no file is lost: what was found before is found after, and is the same.
pub record Grows (t t' : Tables) : Type 0 where
  pub dirs :
      (path : Bytes) (root i : ℕ)
      → get_dir_id_by_path_and_root_id path root t ≡ some i
      → get_dir_id_by_path_and_root_id path root t' ≡ some i
  pub files :
      (name : Bytes) (dir_id : ℕ) (f : FileInfo)
      → get_file_by_name_and_dir_id name dir_id t ≡ some f
      → get_file_by_name_and_dir_id name dir_id t' ≡ some f

pub Grows-refl : (t : Tables) → Grows t t
Grows-refl t = record { dirs = λ path root i h. h; files = λ name dir_id f h. h }

pub Grows-trans : (t u v : Tables) → Grows t u → Grows u v → Grows t v
Grows-trans t u v g h = record {
  dirs = λ path root i e. h.dirs path root i (g.dirs path root i e);
  files = λ name dir_id f e. h.files name dir_id f (g.files name dir_id f e);
}

is_dir : Bytes → ℕ → DirRow → Bool
is_dir path root d = bytes_eq d.path path && (d.scan_root_dir_id == root)

is_file : Bytes → ℕ → FileRow → Bool
is_file name dir_id f = bytes_eq f.name name && (f.dir_id == dir_id)

itself : (s : Bytes) (n : ℕ) → (bytes_eq s s && (n == n)) ≡ true
itself s n = ground (arith, bytes_eq_refl s)

same_dir :
    (path : Bytes) (root : ℕ) (mod_time : Option ℕ) (now i : ℕ) (d : DirRow)
    → same_named (dir_key (new_dir path root mod_time now i)) (dir_key d) ≡ true
    → is_dir path root d ≡ true
unfolding new_dir is_dir
same_dir path root mod_time now i d h = ground (arith, h, bytes_eq_comm path d.path)

-- A directory that is not found is inserted, and then found under its new id.
pub insert_dir_lem :
    (path : Bytes) (root : ℕ) (mod_time : Option ℕ) (now : ℕ) (t : Tables)
    → get_dir_id_by_path_and_root_id path root t ≡ none
    → (t' : Tables) × (insert_dir path root mod_time now t ≡ some (t', suc t.last_dir))
      × (get_dir_id_by_path_and_root_id path root t' ≡ some (suc t.last_dir))
      × Grows t t'
unfolding insert_dir get_dir_id_by_path_and_root_id is_dir get_file_by_name_and_dir_id
insert_dir_lem path root mod_time now t h =
    let i = suc t.last_dir in
    let row = new_dir path root mod_time now i in
    let t' : Tables = record t { dirs = t.dirs ++ row ∷ []; last_dir = i } in
    let into : insert same_named dir_key row t.dirs ≡ some (t.dirs ++ row ∷ []) =
      insert_free same_named dir_key (λ d. d.id) (is_dir path root) row t.dirs
        (same_dir path root mod_time now i) h in
    (
      t',
      rw (insert_dir, into),
      found_new (λ d. d.id) (is_dir path root) t.dirs row h (itself path root),
      record {
        dirs = λ p r j e. found-append (λ d. d.id) (is_dir p r) t.dirs (row ∷ []) j e;
        files = λ name dir_id f e. e;
      },
    )

pub update_dir_mod_time-Grows :
    (dir_id mod_time : ℕ) (t : Tables) → Grows t (update_dir_mod_time dir_id mod_time t)
unfolding get_dir_id_by_path_and_root_id get_file_by_name_and_dir_id update_dir_mod_time is_dir
update_dir_mod_time-Grows dir_id mod_time t = record {
  dirs = λ p r j e.
      ap first (select-update (λ d. d.id) (is_dir p r) _ _ t.dirs (λ d. refl) (λ d. refl)) ∙ e;
  files = λ name id f e. e;
}

same_file :
    (extension : Bytes → Bytes) (fi : FileInfo) (now i : ℕ) (f : FileRow)
    → same_named (file_key (new_file extension fi now i)) (file_key f) ≡ true
    → is_file fi.name fi.dir_id f ≡ true
unfolding new_file is_file
same_file extension fi now i f h = ground (arith, h, bytes_eq_comm fi.name f.name)

-- A file that is not found is inserted, and then found.
pub insert_file_lem :
    (extension : Bytes → Bytes) (fi : FileInfo) (now : ℕ) (t : Tables)
    → get_file_by_name_and_dir_id fi.name fi.dir_id t ≡ none
    → (t' : Tables) × (found : FileInfo) × (insert_file extension fi now t
        ≡ some (t', suc t.last_file))
      × (get_file_by_name_and_dir_id fi.name fi.dir_id t' ≡ some found)
      × Grows t t'
unfolding insert_file get_file_by_name_and_dir_id is_file get_dir_id_by_path_and_root_id
insert_file_lem extension fi now t h =
    let i = suc t.last_file in
    let row = new_file extension fi now i in
    let into : insert same_named file_key row t.files ≡ some (t.files ++ row ∷ []) =
      insert_free same_named file_key (found_file fi.name fi.dir_id) (is_file fi.name fi.dir_id) row
        t.files (same_file extension fi now i) h in
    (
      record t { files = t.files ++ row ∷ []; last_file = i },
      found_file fi.name fi.dir_id row,
      rw (insert_file, into),
      found_new (found_file fi.name fi.dir_id) (is_file fi.name fi.dir_id) t.files row h
          (itself fi.name fi.dir_id),
      record {
        dirs = λ p r j e. e;
        files = λ n d g e. found-append (found_file n d) (is_file n d) t.files (row ∷ []) g e;
      },
    )
