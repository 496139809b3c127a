-- ===== src/Listing/Drive.antt =====
-- cmd/lomob/list-cloud.go: the tree of the files in the drive.
use lomo_backup.Common.{
  ℕ, zero, suc, Option, none, some, List, [], ◌∷◌, Bytes, take, bytes_eq, if◌then◌else◌,
}
use lomo_backup.Io.{Result, ok, err}
use lomo_backup.Gcloud.{DriveService, CloudDir, CloudFile, get_file_id, list_files}

-- A file, with the starts of its hashes.
pub record CloudLeaf : Type 0 where
  pub name : Bytes
  pub size : ℕ
  pub mod_time : ℕ
  pub hash_local : Bytes
  pub hash_remote : Bytes

-- The nodes below a folder, in the order in which they are added.
mutual
  pub data CloudTree : Type 0 where
    branch : Bytes → ℕ → CloudTrees → CloudTree
    leaf : CloudLeaf → CloudTree

  pub data CloudTrees : Type 0 where
    no_trees : CloudTrees
    more_trees : CloudTree → CloudTrees → CloudTrees

unfoldable pub leaves : List CloudFile → CloudTrees
leaves [] = no_trees
leaves (f ∷ files) =
    more_trees
      (leaf (record {
        name = f.name;
        size = f.size;
        mod_time = f.mod_time;
        hash_local = take 6 f.hash_local;
        hash_remote = take 6 f.hash_remote;
      }))
      (leaves files)

module _ {V R S : Type 0} (srv : DriveService V R S) (parse_time : Bytes → ℕ) where
  abbrev Listed : Type 0
  Listed = Option (Result CloudTrees × V)

  -- A folder has been listed: the others follow, and then the files.
  branch_then : CloudDir → (V → Listed) → Listed → Listed
  branch_then d next none = none
  branch_then d next (some (err e, v)) = some (err e, v)
  branch_then d next (some (ok trees, v)) = elim (next v) [
    | none ↦ none
    | some (err e, v') ↦ some (err e, v')
    | some (ok rest, v') ↦ some (ok (more_trees (branch d.path d.mod_time trees) rest), v')
  ]

  -- The loop over the folders.
  branches : (Bytes → V → Listed) → List CloudDir → List CloudFile → V → Listed
  unfolding branch_then
  branches below [] files v = some (ok (leaves files), v)
  branches below (d ∷ dirs) files v = branch_then d (branches below dirs files) (below d.ref_id v)

  folder_listed : (Bytes → V → Listed) → Result (List CloudDir × List CloudFile) × V → Listed
  unfolding branches
  folder_listed below (err e, v) = some (err e, v)
  folder_listed below (ok (dirs, files), v) = branches below dirs files v

  -- `listFileTreeInGDrive`, with the fuel for the depth; `none` if that runs out.
  unfoldable pub list_file_tree_in_g_drive : ℕ → Bytes → V → Listed
  unfolding folder_listed
  list_file_tree_in_g_drive zero folder_id v = none
  list_file_tree_in_g_drive (suc fuel) folder_id v =
      folder_listed (list_file_tree_in_g_drive fuel) (list_files srv parse_time folder_id v)

  folder_found : ℕ → Result (Bytes × Bytes) × V → Option (Result (Option CloudTrees) × V)
  folder_found fuel (err e, v) = some (err e, v)
  folder_found fuel (ok (folder_id, _), v) =
      if bytes_eq folder_id []
      then some (ok none, v)
      else elim (list_file_tree_in_g_drive fuel folder_id v) [
        | none ↦ none
        | some (err e, v') ↦ some (err e, v')
        | some (ok trees, v') ↦ some (ok (some trees), v')
      ]

  -- `listFilesInGDrive` behind its options: no tree if the folder is not found.
  unfoldable pub list_files_in_g_drive : ℕ → Bytes → V → Option (Result (Option CloudTrees) × V)
  unfolding folder_found
  list_files_in_g_drive fuel folder v = folder_found fuel (get_file_id srv folder [] v)
