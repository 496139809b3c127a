-- ===== src/Listing/Tests.antt =====
-- Runs of the listings.
use lomo_backup.Common.{
  ℕ, ◌≡◌, refl, true, false, Bool, none, some, List, [], ◌∷◌, ◌++◌, Bytes, codes, bytes_eq,
}
use lomo_backup.Scan.{trim_suffix}
use lomo_backup.Dbx.Table.{any}
use lomo_backup.Dbx.Scan.Listing.{DirInfo}
use lomo_backup.Files.Folders.{split_path}
use lomo_backup.Listing.{dir_with, of_root, of_dir, TreeParent, TreeNode, print_dirs_by_tree}

abbrev joined_by_slash : Bytes → Bytes → Bytes
joined_by_slash a b = a ++ b'/' ∷ b

abbrev dir_entry : ℕ → ℕ → ℕ → Bytes → DirInfo
dir_entry id root children path = record {
  id = id;
  scan_root_dir_id = root;
  number_of_files = 0;
  number_of_dirs = children;
  total_file_size = 0;
  path = path;
  mod_time = 7;
  create_time = 7;
}

abbrev some_dirs : ℕ → List DirInfo
some_dirs children =
    dir_entry 1 0 1 (codes "/r")
    ∷ dir_entry 2 1 children (codes "a")
    ∷ dir_entry 3 1 0 (codes "a/b")
    ∷ []

abbrev node : TreeParent → Bytes → Bool → TreeNode
node parent name is_branch = record {
  parent = parent;
  name = name;
  mod_time = 7;
  is_branch = is_branch;
}

tree_printed :
    print_dirs_by_tree joined_by_slash (λ ds. ds) (some_dirs 1)
    ≡ some (node (of_root 1) (codes "a") true ∷ node (of_dir (codes "/r/a")) (codes "b") false ∷ [])
unfolding print_dirs_by_tree dir_with any bytes_eq split_path trim_suffix
tree_printed = refl

-- A directory that is counted as empty, and has another below it.
tree_panics : print_dirs_by_tree joined_by_slash (λ ds. ds) (some_dirs 0) ≡ none
unfolding print_dirs_by_tree dir_with any bytes_eq split_path trim_suffix
tree_panics = refl
