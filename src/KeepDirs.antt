-- ===== src/KeepDirs.antt =====
-- common/util.go, `KeepDirsTime`: for which directories it sets the time, and in which order. A map is
-- the list of its entries in the order in which the code meets them. `filepath.Dir`, `strings.ToLower`
-- and `slices.SortFunc` are parameters; an error of `KeepTime` is only logged.
pub mod Order
mod Tests
use lomo_backup.Common.{
  ℕ, zero, suc, Bool, true, false, ◌&&◌, ◌||◌, Option, none, some, List, [], ◌∷◌, ◌++◌, Bytes, map,
  ltb, ◌==◌, bytes_eq, if◌then◌else◌,
}
use lomo_backup.Dbx.Table.{any}
use lomo_backup.Files.Folders.{id_of}

-- A map from copies to their originals.
abbrev pub Dirs : Type 0
Dirs = List (Bytes × Bytes)

-- `_, ok := dirs[dst]`
unfoldable pub is_key : Bytes → Dirs → Bool
is_key dst dirs = any (λ d. bytes_eq dst d.0) dirs

-- `cmp.Compare(a, b) < 0`
unfoldable pub bytes_less : Bytes → Bytes → Bool
bytes_less a [] = false
bytes_less [] (y ∷ b) = true
bytes_less (x ∷ a) (y ∷ b) = let later = bytes_less a b in ltb x y || ((x == y) && later)

module _ (dir : Bytes → Bytes) (root : Bytes) (dirs : Dirs) where
  -- The loop from a directory up to the root; `none` if the fuel runs out first.
  unfoldable pub parents_from : ℕ → Dirs → Bytes → Bytes → Option Dirs
  parents_from zero parents dst src = none
  parents_from (suc fuel) parents dst src =
      let src' = dir src in
      let dst' = dir dst in
      let parents' =
        if is_key dst' dirs || is_key dst' parents then parents else (dst', src') ∷ parents in
      elim (bytes_eq dst' root) [
        | true ↦ some parents
        | false ↦ parents_from fuel parents' dst' src'
      ]

  -- The loop over the map.
  unfoldable pub all_parents : ℕ → Dirs → Dirs → Option Dirs
  all_parents fuel parents [] = some parents
  all_parents fuel parents ((dst, src) ∷ ds) = elim (bytes_eq dst root) [
    | true ↦ all_parents fuel parents ds
    | false ↦ elim (parents_from fuel parents dst src) [
      | none ↦ none
      | some parents' ↦ all_parents fuel parents' ds
    ]
  ]

-- `dirs[dst]` of a key that is there.
unfoldable pub source_of : Dirs → Bytes → Bytes
source_of dirs dst = elim (id_of dst dirs) [ none ↦ [] | some src ↦ src ]

module _ (dir lower : Bytes → Bytes) (sort : (Bytes → Bytes → Bool) → List Bytes → List Bytes)
    (root : Bytes) (fuel : ℕ) where
  -- Whether one name comes before another in the order of the code.
  abbrev pub comes_before : Bytes → Bytes → Bool
  comes_before a b = bytes_less (lower b) (lower a)

  -- The calls of `KeepTime`, source and destination of each.
  abbrev calls_for : Dirs → List (Bytes × Bytes)
  calls_for dirs = map (λ dst. (source_of dirs dst, dst)) (sort comes_before (map (λ d. d.0) dirs))

  unfoldable pub keep_dirs_time : Dirs → Option (List (Bytes × Bytes))
  keep_dirs_time dirs = elim (all_parents dir root dirs fuel [] dirs) [
    | none ↦ none
    | some parents ↦ some (calls_for (parents ++ dirs))
  ]
