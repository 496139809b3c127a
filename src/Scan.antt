-- ===== src/Scan.antt =====
-- cmd/lomob/scan.go: each item that the walk of common/scan/scan.go meets is put into the database.
-- The tables, and the cache `dirs` of directories, are the state; the database's own errors are left
-- to `Dbx.Retry`, and a failed call leaves the state. The hash of a file, which may fail, and the
-- extension of a name are parameters. All insertions are made at time `now`.
pub mod Walk
pub mod Coherent
pub mod Complete
pub mod Channel
pub mod Whole
mod Tests
use lomo_backup.Common.{
  ℕ, suc, ◌-◌, Bool, true, false, Option, none, some, List, [], ◌∷◌, Bytes, length, take, drop,
  ◌==◌, bytes_eq, if◌then◌else◌,
}
use lomo_backup.Common.Int.{pos}
use lomo_backup.Types.{FileInfo}
use lomo_backup.Dbx.{Tables}
use lomo_backup.Dbx.Scan.{
  super_scan_root_dir_id, get_dir_id_by_path_and_root_id, insert_dir, update_dir_mod_time,
  get_file_by_name_and_dir_id, insert_file,
}

-- `strings.TrimPrefix`, `strings.TrimSuffix`, and `strings.Trim` with one character.
unfoldable pub trim_prefix : Bytes → Bytes → Bytes
trim_prefix s prefix =
    if bytes_eq (take (length prefix) s) prefix then drop (length prefix) s else s

unfoldable pub trim_suffix : Bytes → Bytes → Bytes
trim_suffix s suffix =
    let start = length s - length suffix in
    if bytes_eq (drop start s) suffix then take start s else s

trim_left_of : ℕ → Bytes → Bytes
trim_left_of c [] = []
trim_left_of c (d ∷ s) = let rest = trim_left_of c s in if d == c then rest else d ∷ s

kept_before : ℕ → ℕ → Bytes → Bytes
kept_before c d [] = if d == c then [] else d ∷ []
kept_before c d (e ∷ s) = d ∷ e ∷ s

trim_right_of : ℕ → Bytes → Bytes
unfolding kept_before
trim_right_of c [] = []
trim_right_of c (d ∷ s) = kept_before c d (trim_right_of c s)

unfoldable pub trim : ℕ → Bytes → Bytes
unfolding trim_left_of trim_right_of
trim c s = trim_left_of c (trim_right_of c s)

-- `scan.FileCallback`: the path of an item, and what the code reads of its `os.FileInfo`.
pub record Item : Type 0 where
  pub path : Bytes
  pub name : Bytes
  pub is_dir : Bool
  pub is_symlink : Bool
  pub size : ℕ
  pub mod_time : ℕ

-- `scanDirInfo`
pub record ScanDirInfo : Type 0 where
  pub id : ℕ
  pub mod_time : Option ℕ

-- The tables and the map `dirs`.
pub record Scanner : Type 0 where
  pub tables : Tables
  pub dirs : List (Bytes × ScanDirInfo)

-- `dirs[dir]`, and `dirs[dir] = info`, which hides what the key had.
unfoldable pub lookup : Bytes → List (Bytes × ScanDirInfo) → Option ScanDirInfo
lookup dir [] = none
lookup dir ((d, info) ∷ rest) =
    let later = lookup dir rest in if bytes_eq d dir then some info else later

abbrev pub put : Bytes → ScanDirInfo → List (Bytes × ScanDirInfo) → List (Bytes × ScanDirInfo)
put dir info dirs = (dir, info) ∷ dirs

abbrev pub separator : ℕ
separator = b'/'

module _ (now : ℕ) where
  -- `selectOrInsertScanRootDir`, for a root that was last changed at `mod_time`; `none` if the insertion
  -- fails.
  unfoldable pub select_or_insert_scan_root_dir : Bytes → ℕ → Tables → Option (Tables × ℕ)
  select_or_insert_scan_root_dir path mod_time t =
      elim (get_dir_id_by_path_and_root_id path super_scan_root_dir_id t) [
        | some i ↦ some (t, i)
        | none ↦ insert_dir path super_scan_root_dir_id (some mod_time) now t
      ]

  module _ (root_id : ℕ) where
    -- A directory that is cached. Its time is written when it is learned.
    unfoldable pub known : Bytes → Option ℕ → ScanDirInfo → Scanner → Scanner × Option ℕ
    known dir mod_time info s = elim info.mod_time [
      | some _ ↦ (s, some info.id)
      | none ↦ elim mod_time [
        | none ↦ (s, some info.id)
        | some m ↦ (
          record {
            tables = update_dir_mod_time info.id m s.tables;
            dirs = put dir (record info { mod_time = some m }) s.dirs;
          },
          some info.id,
        )
      ]
    ]

    unfoldable pub remembered : Bytes → Option ℕ → Scanner → Tables → ℕ → Scanner × Option ℕ
    remembered dir mod_time s t i = (
      record { tables = t; dirs = put dir (record { id = i; mod_time = mod_time }) s.dirs },
      some i,
    )

    unfoldable pub inserted_dir :
        Bytes → Option ℕ → Scanner → Option (Tables × ℕ) → Scanner × Option ℕ
    inserted_dir dir mod_time s none = (s, none)
    inserted_dir dir mod_time s (some (t, i)) = remembered dir mod_time s t i

    -- A directory that is not cached.
    unfoldable pub looked_up : Bytes → Option ℕ → Scanner → Option ℕ → Scanner × Option ℕ
    looked_up dir mod_time s (some i) = remembered dir mod_time s s.tables i
    looked_up dir mod_time s none =
        inserted_dir dir mod_time s (insert_dir dir root_id mod_time now s.tables)

    cached_or : Bytes → Option ℕ → Scanner → Option ScanDirInfo → Scanner × Option ℕ
    cached_or dir mod_time s (some info) = known dir mod_time info s
    cached_or dir mod_time s none =
        looked_up dir mod_time s (get_dir_id_by_path_and_root_id dir root_id s.tables)

    -- `selectOrInsertDir`: the id, or `none` with an error.
    unfoldable pub select_or_insert_dir : Bytes → Option ℕ → Scanner → Scanner × Option ℕ
    unfolding cached_or
    select_or_insert_dir dir mod_time s = cached_or dir mod_time s (lookup dir s.dirs)

    module _ (extension : Bytes → Bytes) (hash : Bytes → Option Bytes) where
      -- The row of a new file.
      abbrev pub file_of : ℕ → Item → Bytes → FileInfo
      file_of dir_id item h = record {
        id = 0;
        dir_id = dir_id;
        iso_id = pos 0;
        name = item.name;
        hash_local = h;
        hash_remote = [];
        size = item.size;
        mod_time = item.mod_time;
      }

      file_inserted : Scanner → Option (Tables × ℕ) → Scanner
      file_inserted s none = s
      file_inserted s (some (t, _)) = record s { tables = t }

      file_hashed : ℕ → Item → Scanner → Option Bytes → Scanner
      unfolding file_inserted
      file_hashed dir_id item s none = s
      file_hashed dir_id item s (some h) =
          file_inserted s (insert_file extension (file_of dir_id item h) now s.tables)

      -- `selectOrInsertFile`
      unfoldable pub select_or_insert_file : ℕ → Item → Scanner → Scanner
      unfolding file_hashed
      select_or_insert_file dir_id item s =
          elim (get_file_by_name_and_dir_id item.name dir_id s.tables) [
            | some _ ↦ s
            | none ↦ file_hashed dir_id item s (hash item.path)
          ]

      file_in_dir : Item → Scanner × Option ℕ → Scanner
      file_in_dir item (s, none) = s
      file_in_dir item (s, some i) = select_or_insert_file i item s

      module _ (scan_root_dir : Bytes) where
        -- The directory that an item stands for, and that a file stands in, below the root.
        abbrev pub dir_of : Item → Bytes
        dir_of item = trim separator (trim_prefix item.path scan_root_dir)

        abbrev pub parent_of : Item → Bytes
        parent_of item =
            trim separator (trim_prefix (trim_suffix item.path item.name) scan_root_dir)

        -- `handleScan`, whose error is only logged.
        unfoldable pub handle_scan : Item → Scanner → Scanner
        unfolding file_in_dir
        handle_scan item s =
            if item.is_dir
            then (select_or_insert_dir (dir_of item) (some item.mod_time) s).0
            else file_in_dir item (select_or_insert_dir (parent_of item) none s)

        -- The items that come through the channel, in turn.
        unfoldable pub handle_all : List Item → Scanner → Scanner
        handle_all [] s = s
        handle_all (item ∷ items) s = handle_all items (handle_scan item s)
