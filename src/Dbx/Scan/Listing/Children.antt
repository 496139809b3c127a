-- ===== src/Dbx/Scan/Listing/Children.antt =====
-- The wildcards that a path may have in the query for what lies below it do no harm.
use lomo_backup.Common.{
  ℕ, ◌≡◌, false, none, some, List, ◌∷◌, ◌++◌, Bytes, codes, ◌≢◌, ◌⊎◌, ◌==◌, bytes_eq,
}
use lomo_backup.Dbx.{DirRow, Tables}
use lomo_backup.Dbx.Table.{select, any, count, sum}
use lomo_backup.Dbx.Scan.Listing.{DirInfo}

module _ (dir : Bytes → Bytes) (quoted : Bytes → List Bytes) where
  -- What `filepath.Dir` promises for a clean path: it is the start of the path, up to a separator,
  -- unless it is `/` or `.`.
  abbrev pub HasDir : Bytes → Type 0
  HasDir s = (dir s ≡ codes "/") ⊎ ((dir s ≡ codes ".") ⊎ ((r : Bytes) × (s ≡ dir s ++ b'/' ∷ r)))

  -- A path that a query can have between its quotes, and which the directory of another path can
  -- start with.
  abbrev pub IsProper : Bytes → Type 0
  IsProper path = (any (λ c. c == 39) path ≡ false) × (path ≢ codes "/") × (path ≢ codes ".")

  -- The directories whose own directory is a path.
  abbrev pub children : Tables → Bytes → ℕ
  children t path = count (λ e. bytes_eq (dir e.path) path) t.dirs

  -- What is listed of a row: its columns, the number and the size of its files, and its directories.
  unfoldable pub described : Tables → DirRow → DirInfo
  described t d = record {
    id = d.id;
    scan_root_dir_id = d.scan_root_dir_id;
    number_of_files = count (λ f. f.dir_id == d.id) t.files;
    number_of_dirs = children t d.path;
    total_file_size = sum (λ f. f.size) (select (λ f. f.dir_id == d.id) t.files);
    path = d.path;
    mod_time = elim d.mod_time [ none ↦ 0 | some m ↦ m ];
    create_time = d.create_time;
  }

  -- A row that `ListDirs` can read.
  abbrev pub IsReadable : DirRow → Type 0
  IsReadable d = ((m : ℕ) × (d.mod_time ≡ some m)) × IsProper d.path
