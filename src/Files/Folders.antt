-- ===== src/Files/Folders.antt =====
-- cmd/lomob/upload-files.go, `uploadFilesToGdrive`: the folder of a file in the cloud, with the map of the
-- folders that are known. `GetAndCreateFileIDIfNotExist` is the parameter `folder`, which answers the
-- same id whenever it is asked for the same name and parent; `stat` is `os.Stat`.
pub mod Found
use lomo_backup.Common.{
  ℕ, ◌+◌, ◌≡◌, ◌≢◌, refl, sym, ap, ◌∙◌, subst, Bool, true, false, Bool-cases, inl, inr, Option,
  none, some, Option-cases, List, [], ◌∷◌, ◌++◌, Bytes, map, All, ◌==◌, bytes_eq, bytes_eq_sound,
  if◌then◌else◌, arith,
}
use lomo_backup.Io.{IoError, Result, ok, err}
use lomo_backup.Scan.{trim, separator}
use lomo_backup.Image.{flatten_scan_root_dir}

-- `strings.Split` at one character.
unfoldable pub split : ℕ → Bytes → List Bytes
split c [] = [] ∷ []
split c (d ∷ s) = elim (split c s) [
  | [] ↦ [] ∷ []
  | p ∷ ps ↦ if d == c then [] ∷ p ∷ ps else (d ∷ p) ∷ ps
]

-- `filepath.Split`: up to the last separator, and behind it.
unfoldable pub split_path : Bytes → Bytes × Bytes
split_path [] = ([], [])
split_path (c ∷ s) = elim (split_path s).0 [
  | [] ↦ if c == separator then (c ∷ [], s) else ([], c ∷ s)
  | d ∷ dir ↦ (c ∷ d ∷ dir, (split_path s).1)
]

-- `existingDirsInCloud`: key and id.
unfoldable pub id_of : Bytes → List (Bytes × Bytes) → Option Bytes
id_of key [] = none
id_of key ((k, i) ∷ known) = let later = id_of key known in if bytes_eq k key then some i else later

module _ (folder : Bytes → Bytes → Result Bytes) (stat : Bytes → Option IoError)
    (join : Bytes → Bytes → Bytes) where
  -- A folder that is not known: it is made at `parent`, and remembered.
  made_folder : List (Bytes × Bytes) → Bytes → Result Bytes → Result (List (Bytes × Bytes) × Bytes)
  made_folder known key (err e) = err e
  made_folder known key (ok i) = ok ((key, i) ∷ known, i)

  unfoldable pub known_or_made :
      List (Bytes × Bytes) → Bytes → Bytes → Bytes → Bytes → Result (List (Bytes × Bytes) × Bytes)
  unfolding made_folder
  known_or_made known key name parent orig = elim (id_of key known) [
    | some i ↦ ok (known, i)
    | none ↦ elim (stat orig) [ some e ↦ err e | none ↦ made_folder known key (folder name parent) ]
  ]

  -- The loop over the parts of a directory.
  below_known :
      (List (Bytes × Bytes) → Bytes → Result (List (Bytes × Bytes) × Bytes))
      → Result (List (Bytes × Bytes) × Bytes)
      → Result (List (Bytes × Bytes) × Bytes)
  below_known next (err e) = err e
  below_known next (ok (known, i)) = next known i

  unfoldable pub folders_below :
      List Bytes
      → Bytes
      → Bytes
      → List (Bytes × Bytes)
      → Bytes
      → Result (List (Bytes × Bytes) × Bytes)
  unfolding below_known
  folders_below [] key orig known parent = ok (known, parent)
  folders_below (p ∷ ps) key orig known parent =
      let key' = key ++ b'/' ∷ p in
      let orig' = join orig p in
      below_known (folders_below ps key' orig') (known_or_made known key' p parent orig')

  -- `scanRootFolderInCloud`
  abbrev pub root_key : Bytes → Bytes
  root_key scan_root = flatten_scan_root_dir (trim separator scan_root)

  -- The parts of the directory of a file.
  abbrev pub dir_parts : Bytes → List Bytes
  dir_parts name = split separator (trim separator (split_path name).0)

  -- The folder of the file `name` below `scan_root`, and what is known then.
  unfoldable pub folder_for :
      Bytes → Bytes → Bytes → List (Bytes × Bytes) → Result (List (Bytes × Bytes) × Bytes)
  unfolding below_known
  folder_for root_id scan_root name known =
      below_known (folders_below (dir_parts name) (root_key scan_root) scan_root)
        (known_or_made known (root_key scan_root) (root_key scan_root) root_id scan_root)

  -- The folder that a list of names leads to, without a map.
  abbrev pub found_below : Result Bytes → Bytes → Result Bytes
  found_below (err e) p = err e
  found_below (ok parent) p = folder p parent

  abbrev pub folder_at : Bytes → List Bytes → Result Bytes
  folder_at parent [] = ok parent
  folder_at parent (p ∷ ps) = elim (folder p parent) [ err e ↦ err e | ok i ↦ folder_at i ps ]
