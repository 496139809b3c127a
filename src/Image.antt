-- ===== src/Image.antt =====
-- cmd/lomob/iso.go: files are copied into a staging directory until they reach the size of an image,
-- and the image is made of it. The calls of the file system, of `mkisofs` and of package filepath are
-- parameters that answer by their arguments alone. A size is a uint64.
pub mod Fate
pub mod Pack
pub mod Rounds
mod Tests
use lomo_backup.Common.{
  ℕ, zero, suc, ◌+◌, ◌-◌, ◌%◌, ◌^◌, Bool, true, false, not, ◌||◌, Option, none, some, List, [], ◌∷◌,
  ◌++◌, Bytes, codes, length, map, ltb, ◌==◌, bytes_eq, if◌then◌else◌,
}
use lomo_backup.Types.{FileInfo, IsoInfo, iso_creating}
use lomo_backup.Dbx.{Tables}
use lomo_backup.Dbx.Table.{any, sum}
use lomo_backup.Dbx.Iso.{
  create_iso_with_file_ids, delete_batch_files, get_iso_by_name, list_files_not_in_iso_or_cloud,
  total_file_size_not_in_iso,
}
use lomo_backup.Dbx.Scan.{list_scan_root_dirs}

-- Answers of the file system: no error, one for which `os.IsNotExist` holds, or another.
pub data Copying : Type 0 where
  copied : Copying
  not_exist : Copying
  not_copied : Copying

-- The calls: `MkdirAll`, `os.Open`, `os.Create`, `io.Copy` between two files, `mkisofs` with the content of the image, `filepath.Join`
-- and `filepath.Dir`, the name made of two times, and the two hashes.
pub record World : Type 0 where
  pub mkdir : Bytes → Bool
  pub open_file : Bytes → Copying
  pub create_file : Bytes → Copying
  pub io_copy : Bytes → Bytes → Copying
  pub make_image : Bytes → Bytes → Option Bytes
  pub join : Bytes → Bytes → Bytes
  pub dir : Bytes → Bytes
  pub image_name : ℕ → ℕ → Bytes
  pub sha256 : Bytes → Bytes
  pub hex : Bytes → Bytes
  pub staging_dir : Bytes
  pub future : ℕ

-- The variables of the loop of `createIso`.
pub record Staging : Type 0 where
  pub dirs_map : List (Bytes × Bytes)
  pub start : ℕ
  pub end : ℕ
  pub not_exist_files : List FileInfo
  pub ids : List ℕ
  pub file_count : ℕ
  pub files_size : ℕ

-- A round of the loop: `continue` before the size is looked at, or not.
pub data Staged : Type 0 where
  skipped : Staging → Staged
  packed : Staging → Staged

-- The end of the loop: the size is reached with files left over, or it is not.
pub data Packed : Type 0 where
  full : Staging → List FileInfo → Packed
  short : Staging → Packed

pub data IsoError : Type 0 where
  image_not_made : IsoError
  image_exists : IsoError
  iso_db_failed : IsoError
  no_size : IsoError

-- `(size, filename, leftFiles, notExistFiles, err)` of `createIso`, and the tables.
pub record Created : Type 0 where
  pub tables : Tables
  pub size : ℕ
  pub filename : Bytes
  pub left : List FileInfo
  pub gone : List FileInfo
  pub error : Option IsoError

abbrev pub add_u64 : ℕ → ℕ → ℕ
add_u64 a b = (a + b) % 2 ^ 64

abbrev pub sub_u64 : ℕ → ℕ → ℕ
sub_u64 a b = ((a + 2 ^ 64) - b) % 2 ^ 64

-- `flattenScanRootDir`
unfoldable pub flatten_scan_root_dir : Bytes → Bytes
flatten_scan_root_dir dir = map (λ c. if c == b'/' then b'_' else c) dir

-- `scanRootDirs[id]`
unfoldable pub root_of : ℕ → List (ℕ × Bytes) → Option Bytes
root_of i [] = none
root_of i ((j, path) ∷ roots) = let later = root_of i roots in if i == j then some path else later

-- `createFileInStaging`
unfoldable pub create_file_in_staging : World → Bytes → Bytes → Copying
create_file_in_staging W src dst = elim (W.open_file src) [
  | not_exist ↦ not_exist
  | not_copied ↦ not_copied
  | copied ↦ elim (W.create_file dst) [
    | not_exist ↦ not_exist
    | not_copied ↦ not_copied
    | copied ↦ W.io_copy src dst
  ]
]

module _ (W : World) (scan_root_dirs : List (ℕ × Bytes)) where
  abbrev pub src_file : Bytes → FileInfo → Bytes
  src_file root f = W.join root f.name

  abbrev pub dst_file : Bytes → FileInfo → Bytes
  dst_file root f = W.join (W.join W.staging_dir (flatten_scan_root_dir root)) f.name

  -- A file that was copied.
  abbrev pub add_file : FileInfo → Staging → Staging
  add_file f st = record st {
    start = if ltb f.mod_time st.start then f.mod_time else st.start;
    end = if ltb st.end f.mod_time then f.mod_time else st.end;
    ids = st.ids ++ f.id ∷ [];
    file_count = st.file_count + 1;
    files_size = add_u64 st.files_size f.size;
  }

  unfoldable pub after_copy : FileInfo → Staging → Copying → Staged
  after_copy f st copied = packed (add_file f st)
  after_copy f st not_exist = skipped (record st { not_exist_files = st.not_exist_files ++ f ∷ [] })
  after_copy f st not_copied = skipped st

  unfoldable pub is_made : Bytes → Staging → Bool
  is_made dst_dir st = any (λ d. bytes_eq d.0 dst_dir) st.dirs_map

  abbrev pub add_dir : Bytes → Bytes → Staging → Staging
  add_dir dst_dir src_dir st = record st { dirs_map = (dst_dir, src_dir) ∷ st.dirs_map }

  unfoldable pub stage_below : FileInfo → Staging → Option Bytes → Staged
  stage_below f st none = skipped st
  stage_below f st (some root) =
      let src = src_file root f in
      let dst = dst_file root f in
      if is_made (W.dir dst) st
      then after_copy f st (create_file_in_staging W src dst)
      else if W.mkdir (W.dir dst)
      then after_copy f (add_dir (W.dir dst) (W.dir src) st) (create_file_in_staging W src dst)
      else skipped st

  -- One file of the loop of `createIso`.
  unfoldable pub stage : FileInfo → Staging → Staged
  stage f st = stage_below f st (root_of f.dir_id scan_root_dirs)

  module _ (max_size : ℕ) where
    unfoldable pub after_stage : (Staging → Packed) → List FileInfo → Staged → Packed
    after_stage next left (skipped st) = next st
    after_stage next left (packed st) =
        let more = next st in if ltb st.files_size max_size then more else full st left

    unfoldable pub pack : List FileInfo → Staging → Packed
    pack [] st = short st
    pack (f ∷ files) st = after_stage (pack files) files (stage f st)

    abbrev pub no_staging : Staging
    no_staging = record {
      dirs_map = [];
      start = W.future;
      end = 0;
      not_exist_files = [];
      ids = [];
      file_count = 0;
      files_size = 0;
    }

    abbrev pub failure : Tables → IsoError → Created
    failure t e = record {
      tables = t;
      size = 0;
      filename = [];
      left = [];
      gone = [];
      error = some e;
    }

    -- The database's answer, with what `createIso` returns.
    unfoldable pub recorded :
        Staging → Bytes → List FileInfo → Tables → Option (Tables × (ℕ × ℕ)) → Created
    recorded st filename left t none = record {
      tables = t;
      size = st.files_size;
      filename = filename;
      left = left;
      gone = st.not_exist_files;
      error = some iso_db_failed;
    }
    recorded st filename left t (some (t', _)) = record {
      tables = t';
      size = st.files_size;
      filename = filename;
      left = left;
      gone = st.not_exist_files;
      error = none;
    }

    abbrev pub image_info : Bytes → Bytes → IsoInfo
    image_info filename content = record {
      id = 0;
      name = filename;
      region = [];
      bucket = [];
      upload_key = [];
      upload_id = [];
      hash_local = W.hex (W.sha256 content);
      hash_remote = [];
      size = length content;
      status = iso_creating;
      create_time = 0;
    }

    module _ (now : ℕ) where
      unfoldable pub image_made : Staging → Bytes → List FileInfo → Tables → Option Bytes → Created
      image_made st filename left t none = failure t image_not_made
      image_made st filename left t (some content) =
          recorded st filename left t
            (create_iso_with_file_ids (image_info filename content) st.ids now t)

      abbrev pub named : Bytes → Staging → Bytes
      named filename st =
          if bytes_eq filename [] then W.image_name st.start st.end ++ codes ".iso" else filename

      -- The files that are missing are not returned when the size is not reached.
      unfoldable pub finished : Bytes → Tables → Packed → Created
      finished filename t (short st) = record {
        tables = t;
        size = st.files_size;
        filename = filename;
        left = [];
        gone = [];
        error = none;
      }
      finished filename t (full st left) =
          image_made st (named filename st) left t
            (W.make_image (W.image_name st.start st.end) (named filename st))

      -- `createIso`
      unfoldable pub create_iso : Bytes → List FileInfo → Tables → Created
      create_iso filename files t = finished filename t (pack files no_staging)

      -- The loop of `mkISO`. `given` tells whether the command names the image.
      abbrev pub without_gone : Created → Tables
      without_gone c = elim c.gone [
        | [] ↦ c.tables
        | f ∷ gone ↦ (delete_batch_files (map (λ g. g.id) (f ∷ gone)) c.tables).0
      ]

      abbrev pub taken : Created → ℕ
      taken c = add_u64 c.size (sum (λ f. f.size) c.gone)

      unfoldable pub after_create :
          (ℕ → List FileInfo → Tables → Option (Tables × Option IsoError))
          → Bool
          → ℕ
          → Created
          → Option (Tables × Option IsoError)
      after_create again given current c = elim c.error [
        | some e ↦ some (c.tables, some e)
        | none ↦ elim c.left [
          | [] ↦ some (without_gone c, none)
          | f ∷ files ↦
              if given
              then some (without_gone c, none)
              else again (sub_u64 current (taken c)) (f ∷ files) (without_gone c)
        ]
      ]

      unfoldable pub mk_rounds :
          ℕ → Bytes → Bool → ℕ → List FileInfo → Tables → Option (Tables × Option IsoError)
      mk_rounds zero filename given current files t = none
      mk_rounds (suc fuel) filename given current files t =
          let made =
            after_create (mk_rounds fuel filename given) given current
              (create_iso filename files t) in
          if ltb current max_size then some (t, none) else elim (get_iso_by_name filename t) [
            | some _ ↦ some (t, some image_exists)
            | none ↦ made
          ]

-- `mkISO` behind its options: the image's name, which is empty if none is given, and its size.
unfoldable pub mk_iso : World → ℕ → ℕ → Bytes → ℕ → Tables → Option (Tables × Option IsoError)
mk_iso W max_size now filename fuel t = elim (total_file_size_not_in_iso t) [
  | none ↦ some (t, some no_size)
  | some current ↦
      mk_rounds W (list_scan_root_dirs t) max_size now fuel filename (not (bytes_eq filename []))
        current (list_files_not_in_iso_or_cloud W.join t) t
]
