-- ===== src/Dbx/Scan.antt =====
-- common/dbx/scan.go: the transactions on directories and files. The file's extension in lower case,
-- which the code takes with package filepath, is the parameter `extension`.
pub mod Found
pub mod Listing
use lomo_backup.Common.{ℕ, suc, ◌&&◌, Option, none, some, List, [], ◌∷◌, Bytes, map, ◌==◌, bytes_eq}
use lomo_backup.Common.Int.{pos}
use lomo_backup.Types.{FileInfo}
use lomo_backup.Dbx.{DirRow, FileRow, Tables, named_key, same_named}
use lomo_backup.Dbx.Table.{select, update, insert, sum, count, first}

-- `SuperScanRootDirID`
abbrev pub super_scan_root_dir_id : ℕ
super_scan_root_dir_id = 0

-- `GetDirIDByPathAndRootID`
unfoldable pub get_dir_id_by_path_and_root_id : Bytes → ℕ → Tables → Option ℕ
get_dir_id_by_path_and_root_id path root t =
    first
      (map (λ d. d.id) (select (λ d. bytes_eq d.path path && (d.scan_root_dir_id == root)) t.dirs))

unfoldable pub new_dir : Bytes → ℕ → Option ℕ → ℕ → ℕ → DirRow
new_dir path root mod_time now i = record {
  id = i;
  path = path;
  scan_root_dir_id = root;
  mod_time = mod_time;
  create_time = now;
}

abbrev pub dir_key : DirRow → ℕ × Bytes
dir_key = named_key (λ d. d.scan_root_dir_id) (λ d. d.path)

abbrev pub file_key : FileRow → ℕ × Bytes
file_key = named_key (λ f. f.dir_id) (λ f. f.name)

-- `InsertDir` at time `now`. The modification time may be missing.
unfoldable pub insert_dir : Bytes → ℕ → Option ℕ → ℕ → Tables → Option (Tables × ℕ)
unfolding new_dir
insert_dir path root mod_time now t =
    let i = suc t.last_dir in
    elim (insert same_named dir_key (new_dir path root mod_time now i) t.dirs) [
      | none ↦ none
      | some dirs ↦ some (record t { dirs = dirs; last_dir = i }, i)
    ]

-- `UpdateDirModTime`
unfoldable pub update_dir_mod_time : ℕ → ℕ → Tables → Tables
update_dir_mod_time dir_id mod_time t = record t {
  dirs = update (λ d. d.id == dir_id) (λ d. record d { mod_time = some mod_time }) t.dirs;
}

-- `ListScanRootDirs`, as the pairs of the map.
unfoldable pub list_scan_root_dirs : Tables → List (ℕ × Bytes)
list_scan_root_dirs t =
    map (λ d. (d.id, d.path)) (select (λ d. d.scan_root_dir_id == super_scan_root_dir_id) t.dirs)

-- The size and the number of the files in a directory, as `ListDirs` asks for them.
unfoldable pub get_total_files_in_dir : ℕ → Tables → ℕ × ℕ
get_total_files_in_dir dir_id t = (
  sum (λ f. f.size) (select (λ f. f.dir_id == dir_id) t.files),
  count (λ f. f.dir_id == dir_id) t.files,
)

unfoldable pub found_file : Bytes → ℕ → FileRow → FileInfo
found_file name dir_id f = record {
  id = 0;
  dir_id = dir_id;
  iso_id = f.iso_id;
  name = name;
  hash_local = f.hash_local;
  hash_remote = [];
  size = f.size;
  mod_time = f.mod_time;
}

-- `GetFileByNameAndDirID`, which does not read the file's id.
unfoldable pub get_file_by_name_and_dir_id : Bytes → ℕ → Tables → Option FileInfo
unfolding found_file
get_file_by_name_and_dir_id name dir_id t = first (
    map (found_file name dir_id)
      (select (λ f. bytes_eq f.name name && (f.dir_id == dir_id)) t.files))

module _ (extension : Bytes → Bytes) where
  unfoldable pub new_file : FileInfo → ℕ → ℕ → FileRow
  new_file f now i = record {
    id = i;
    dir_id = f.dir_id;
    iso_id = pos 0;
    name = f.name;
    ext = extension f.name;
    size = f.size;
    hash_local = f.hash_local;
    hash_remote = [];
    mod_time = f.mod_time;
    create_time = now;
  }

  -- `InsertFile` at time `now`: a new file is in no ISO image.
  unfoldable pub insert_file : FileInfo → ℕ → Tables → Option (Tables × ℕ)
  unfolding new_file
  insert_file f now t =
      let i = suc t.last_file in
      elim (insert same_named file_key (new_file f now i) t.files) [
        | none ↦ none
        | some files ↦ some (record t { files = files; last_file = i }, i)
      ]
