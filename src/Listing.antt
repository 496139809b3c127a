-- ===== src/Listing.antt =====
-- cmd/lomob/list-local.go: what the commands print, as lists of the values in their lines. A size is
-- printed by `HR` and a time by its format, which are left out. `filepath.Join` is a parameter, and so
-- is the order of paths that `sort.Slice` makes.
pub mod Drive
mod Tests
use lomo_backup.Common.{
  ℕ, suc, Bool, true, false, Option, none, some, List, [], ◌∷◌, ◌++◌, Bytes, map, ltb, ◌==◌,
  bytes_eq, if◌then◌else◌,
}
use lomo_backup.Common.Int.{ℤ, eqb_ℤ}
use lomo_backup.Types.{FileInfo, iso_id_cloud}
use lomo_backup.Scan.{separator, trim_suffix}
use lomo_backup.Dbx.{Tables}
use lomo_backup.Dbx.Table.{any}
use lomo_backup.Dbx.Iso.{list_files_not_in_iso_or_cloud}
use lomo_backup.Dbx.Scan.{super_scan_root_dir_id, list_scan_root_dirs}
use lomo_backup.Dbx.Scan.Listing.{DirInfo, BigFile, list_files_by_size}
use lomo_backup.Image.{root_of}
use lomo_backup.Files.Folders.{split_path}

-- `dirs[id]`
unfoldable pub dir_with : ℕ → List DirInfo → Option DirInfo
dir_with i [] = none
dir_with i (d ∷ dirs) = let later = dir_with i dirs in if d.id == i then some d else later

-- A line of the table of directories.
pub record DirLine : Type 0 where
  pub number_of_files : ℕ
  pub total_file_size : ℕ
  pub mod_time : ℕ
  pub path : Bytes

-- Where a node of the tree is added: to the tree of a scan root, or to a directory before.
pub data TreeParent : Type 0 where
  of_root : ℕ → TreeParent
  of_dir : Bytes → TreeParent

-- A node of the tree: a branch if the directory has others.
pub record TreeNode : Type 0 where
  pub parent : TreeParent
  pub name : Bytes
  pub mod_time : ℕ
  pub is_branch : Bool

module _ (join : Bytes → Bytes → Bytes) where
  -- A file of a scan root that is known.
  big_line : List (ℕ × Bytes) → BigFile → List (Bytes × ℕ) → List (Bytes × ℕ)
  big_line roots f rest = elim (root_of f.scan_root_dir_id roots) [
    | none ↦ rest
    | some root ↦ (join root f.name, f.size) ∷ rest
  ]

  big_lines : List (ℕ × Bytes) → List BigFile → List (Bytes × ℕ)
  unfolding big_line
  big_lines roots [] = []
  big_lines roots (f ∷ files) = big_line roots f (big_lines roots files)

  -- `listBigfiles`: name and size.
  unfoldable pub list_big_files : (List BigFile → List BigFile) → ℕ → Tables → List (Bytes × ℕ)
  unfolding big_lines
  list_big_files by_size file_size t =
      big_lines (list_scan_root_dirs t) (list_files_by_size join by_size file_size t)

  iso_lines : List (ℕ × Bytes) → List FileInfo → List (Bool × Bytes)
  iso_lines roots [] = []
  iso_lines roots (f ∷ files) =
      let rest = iso_lines roots files in
      elim (root_of f.dir_id roots) [
        | none ↦ rest
        | some root ↦ (eqb_ℤ f.iso_id iso_id_cloud, join root f.name) ∷ rest
      ]

  -- `listFilesNotInIso`: whether the file is in the cloud, and its name.
  unfoldable pub list_files_not_in_iso : Tables → List (Bool × Bytes)
  unfolding iso_lines
  list_files_not_in_iso t =
      iso_lines (list_scan_root_dirs t) (list_files_not_in_iso_or_cloud join t)

  module _ (by_path : List DirInfo → List DirInfo) (dirs : List DirInfo) where
    -- The directories with their whole paths, without the scan roots; the tree also leaves out the
    -- entry of a scan root for its own files.
    whole_paths : Bool → List DirInfo → List DirInfo
    whole_paths skip_empty [] = []
    whole_paths skip_empty (d ∷ ds) =
        let rest = whole_paths skip_empty ds in
        let whole : List DirInfo = elim (dir_with d.scan_root_dir_id dirs) [
          | none ↦ rest
          | some root ↦ record d { path = join root.path d.path } ∷ rest
        ] in
        if d.scan_root_dir_id == super_scan_root_dir_id
        then rest
        else if skip_empty
        then (if bytes_eq d.path [] then rest else whole)
        else whole

    -- `printDirsByTable`
    unfoldable pub print_dirs_by_table : List DirLine
    unfolding whole_paths
    print_dirs_by_table =
        map
          (λ d. record {
            number_of_files = d.number_of_files;
            total_file_size = d.total_file_size;
            mod_time = d.mod_time;
            path = d.path;
          })
          (by_path (whole_paths false dirs))

    -- The parent of a path: the tree of its scan root, which there is only for the directory of such a
    -- root, or a directory that got a branch before.
    node_parent : List Bytes → DirInfo → Bytes → Option TreeParent
    node_parent branches root parent =
        if bytes_eq parent root.path
        then (if root.scan_root_dir_id == super_scan_root_dir_id
            then some (of_root root.id)
            else none)
        else if any (bytes_eq parent) branches
        then some (of_dir parent)
        else none

    node_then : Option (List TreeNode) → DirInfo → Option TreeParent → Option (List TreeNode)
    node_then rest d none = none
    node_then none d (some p) = none
    node_then (some nodes) d (some p) = some (
        record {
          parent = p;
          name = (split_path d.path).1;
          mod_time = d.mod_time;
          is_branch = ltb 0 d.number_of_dirs;
        }
        ∷ nodes)

    -- The loop; `none` where the node of a missing parent is used, which panics.
    nodes_from : List Bytes → List DirInfo → Option (List TreeNode)
    unfolding node_parent node_then
    nodes_from branches [] = some []
    nodes_from branches (d ∷ ds) =
        let branches' = if ltb 0 d.number_of_dirs then d.path ∷ branches else branches in
        let rest = nodes_from branches' ds in
        let skipped = nodes_from branches ds in
        elim (dir_with d.scan_root_dir_id dirs) [
          | none ↦ skipped
          | some root ↦
              node_then rest d
                (node_parent branches root (trim_suffix (split_path d.path).0 (separator ∷ [])))
        ]

    -- `printDirsByTree`: the nodes in the order in which they are added.
    unfoldable pub print_dirs_by_tree : Option (List TreeNode)
    unfolding nodes_from whole_paths
    print_dirs_by_tree = nodes_from [] (by_path (whole_paths true dirs))
