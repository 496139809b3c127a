-- ===== src/Scan/Walk.antt =====
-- common/scan/scan.go, `Directory`: which items of a tree go into the channel. `filepath.WalkDir` calls
-- the code on each entry, on a directory before what it contains, and once more on a directory that it
-- cannot read.
pub mod Sees
use lomo_backup.Common.{
  ℕ, ◌≡◌, refl, ap, ◌∙◌, Bool, true, false, ◌||◌, Bool-cases, inl, inr, List, [], ◌∷◌, ◌++◌, Bytes,
  bytes_eq, All, All-append, if◌then◌else◌, arith,
}
use lomo_backup.Scan.{Item}

-- Whether the entries of a directory can be read, and the kind of the error if not.
pub data Listing : Type 0 where
  readable : Listing
  forbidden : Listing
  broken : Listing

mutual
  -- An entry: what is not a directory, or a directory with its entries.
  pub data Node : Type 0 where
    leaf : (path name : Bytes) (is_symlink : Bool) (size mod_time : ℕ) → Node
    branch : (path name : Bytes) (mod_time : ℕ) → Listing → Nodes → Node

  pub data Nodes : Type 0 where
    no_more : Nodes
    more : Node → Nodes → Nodes

-- The items of a walk, and whether it ended with an error.
pub record Walked : Type 0 where
  pub items : List Item
  pub failed : Bool

abbrev pub leaf_item : Bytes → Bytes → Bool → ℕ → ℕ → Item
leaf_item path name is_symlink size mod_time = record {
  path = path;
  name = name;
  is_dir = false;
  is_symlink = is_symlink;
  size = size;
  mod_time = mod_time;
}

abbrev pub branch_item : Bytes → Bytes → ℕ → Item
branch_item path name mod_time = record {
  path = path;
  name = name;
  is_dir = true;
  is_symlink = false;
  size = 0;
  mod_time = mod_time;
}

unfoldable pub is_ignored : List Bytes → Bytes → Bool
is_ignored [] name = false
is_ignored (i ∷ ignored) name = bytes_eq i name || is_ignored ignored name

-- `processItem`, where the entry's info can be read: a symbolic link is passed over.
abbrev pub process_item : Item → List Item
process_item item = if item.is_symlink then [] else item ∷ []

-- The rest of a walk after a first part, unless that failed.
abbrev pub after : Walked → Walked → Walked
after first rest =
    if first.failed
    then first
    else record { items = first.items ++ rest.items; failed = rest.failed }

-- What the answer to an error of reading a directory makes of the walk: `fs.SkipDir` for a lack of
-- permission, and the error otherwise.
abbrev pub entries : Listing → Walked → Walked
entries readable below = below
entries forbidden below = record { items = []; failed = false }
entries broken below = record { items = []; failed = true }

module _ (ignore_files ignore_dirs : List Bytes) where
  mutual
    walk : Node → Walked
    walk (leaf path name is_symlink size mod_time) =
        if is_ignored ignore_files name then record { items = []; failed = false } else record {
          items = process_item (leaf_item path name is_symlink size mod_time);
          failed = false;
        }
    walk (branch path name mod_time listing nodes) =
        let below = entries listing (walk_all nodes) in
        if is_ignored ignore_dirs name
        then record { items = []; failed = false }
        else record { items = branch_item path name mod_time ∷ below.items; failed = below.failed }

    walk_all : Nodes → Walked
    walk_all no_more = record { items = []; failed = false }
    walk_all (more node nodes) = after (walk node) (walk_all nodes)

  -- `Directory`
  unfoldable pub directory : Node → Walked
  unfolding walk walk_all
  directory root = walk root
