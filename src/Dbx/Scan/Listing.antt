-- ===== src/Dbx/Scan/Listing.antt =====
-- common/dbx/scan.go, `ListDirs` with the number of directories in each, and `ListFilesBySize`. Package
-- filepath is the parameters `dir` and `join`; `quoted` is what the database gives for the text of a
-- query that a quote in a path has cut, and nothing if that is no query; `by_size` is the order that
-- the database gives to files of one size.
pub mod Children
use lomo_backup.Common.{
  ℕ, suc, ◌+◌, ◌-◌, Bool, true, false, ◌&&◌, ◌||◌, Option, none, some, List, [], ◌∷◌, ◌++◌, Bytes,
  map, ltb, leb, ◌==◌, bytes_eq, if◌then◌else◌,
}
use lomo_backup.Dbx.{DirRow, FileRow, Tables}
use lomo_backup.Dbx.Table.{select, any, count}
use lomo_backup.Dbx.Iso.{joined}
use lomo_backup.Dbx.Scan.{get_total_files_in_dir}

-- `types.DirInfo`, as `ListDirs` fills it.
pub record DirInfo : Type 0 where
  pub id : ℕ
  pub scan_root_dir_id : ℕ
  pub number_of_files : ℕ
  pub number_of_dirs : ℕ
  pub total_file_size : ℕ
  pub path : Bytes
  pub mod_time : ℕ
  pub create_time : ℕ

-- What `ListFilesBySize` fills in.
pub record BigFile : Type 0 where
  pub scan_root_dir_id : ℕ
  pub name : Bytes
  pub id : ℕ
  pub size : ℕ

abbrev lower_ascii : ℕ → ℕ
lower_ascii c = if leb b'A' c && leb c b'Z' then c + 32 else c

-- `LIKE`: `%` stands for any text and `_` for any character, and letters match in both cases.
unfoldable pub like : Bytes → Bytes → Bool
like [] [] = true
like [] (c ∷ text) = false
like (p ∷ pattern) [] = let rest = like pattern [] in if p == b'%' then rest else false
like (p ∷ pattern) (c ∷ text) =
    let skipped = like pattern (c ∷ text) in
    let taken = like (p ∷ pattern) text in
    let next = like pattern text in
    if p == b'%'
    then skipped || taken
    else if p == b'_'
    then next
    else (lower_ascii p == lower_ascii c) && next

module _ (dir : Bytes → Bytes) (quoted : Bytes → List Bytes) where
  -- The query for all that lies below a path.
  unfoldable pub children_query : Bytes → Tables → List Bytes
  unfolding like
  children_query path t =
      if any (λ c. c == 39) path
      then quoted path
      else select (like (path ++ b'/' ∷ b'%' ∷ [])) (map (λ d. d.path) t.dirs)

  -- `getNumberOfChildDirsInDir`
  unfoldable pub get_number_of_child_dirs_in_dir : Bytes → Tables → ℕ
  get_number_of_child_dirs_in_dir path t =
      count (λ sub. bytes_eq (dir sub) path) (children_query path t)

  -- A row of `ListDirs`, which cannot be read without a modification time.
  unfoldable pub listed_dir : Tables → DirRow → Option DirInfo
  listed_dir t d = elim d.mod_time [
    | none ↦ none
    | some mod_time ↦
        let (size, files) = get_total_files_in_dir d.id t in
        some (record {
          id = d.id;
          scan_root_dir_id = d.scan_root_dir_id;
          number_of_files = files;
          number_of_dirs = get_number_of_child_dirs_in_dir d.path t;
          total_file_size = size;
          path = d.path;
          mod_time = mod_time;
          create_time = d.create_time;
        })
  ]

  abbrev listed_then : Option DirInfo → Option (List DirInfo) → Option (List DirInfo)
  listed_then none rest = none
  listed_then (some d) none = none
  listed_then (some d) (some ds) = some (d ∷ ds)

  unfoldable pub listed_dirs : Tables → List DirRow → Option (List DirInfo)
  listed_dirs t [] = some []
  listed_dirs t (d ∷ dirs) = listed_then (listed_dir t d) (listed_dirs t dirs)

  -- `ListDirs`; `none` if a row cannot be read.
  unfoldable pub list_dirs : Tables → Option (List DirInfo)
  unfolding listed_dirs
  list_dirs t = listed_dirs t t.dirs

-- `ListFilesBySize`
unfoldable pub list_files_by_size :
    (Bytes → Bytes → Bytes) → (List BigFile → List BigFile) → ℕ → Tables → List BigFile
list_files_by_size join by_size min_file_size t = by_size (
    map
      (λ r. record {
        scan_root_dir_id = r.1.scan_root_dir_id;
        name = join r.1.path r.0.name;
        id = r.0.id;
        size = r.0.size;
      })
      (joined (select (λ f. leb min_file_size f.size) t.files) t.dirs))
