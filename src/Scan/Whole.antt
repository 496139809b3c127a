-- ===== src/Scan/Whole.antt =====
-- `scanDir` from the walk to the database.
use lomo_backup.Common.{ℕ, ◌≡◌, refl, sym, ◌∙◌, subst, false, Option, List, [], ◌∷◌, Bytes, arith}
use lomo_backup.Dbx.{Tables}
use lomo_backup.Dbx.Scan.Found.{Grows}
use lomo_backup.Scan.{Item, Scanner, lookup, handle_scan, handle_all}
use lomo_backup.Scan.Walk.{Node, directory}
use lomo_backup.Scan.Walk.Sees.{Sees, directory-Sees}
use lomo_backup.Scan.Channel.{Pipe, Reach, start, IsDone, handled}
use lomo_backup.Scan.Channel.Once.{Reach-IsDone}
use lomo_backup.Scan.Coherent.{IsCoherent}
use lomo_backup.Scan.Complete.{IsRecorded, handle_all-IsRecorded}

module _ (now root_id : ℕ) (extension : Bytes → Bytes) (hash : Bytes → Option Bytes)
    (scan_root_dir : Bytes) (capacity : ℕ) where
  abbrev pub handler : Item → Scanner → Scanner
  handler = handle_scan now root_id extension hash scan_root_dir

  abbrev pub fresh_scanner : Tables → Scanner
  fresh_scanner t = record { tables = t; dirs = [] }

  handled_lem :
      (items : List Item) (s : Scanner)
      → handled capacity handler items s
        ≡ handle_all now root_id extension hash scan_root_dir items s
  unfolding handle_all
  handled_lem [] s = refl
  handled_lem (item ∷ items) s = handled_lem items (handler item s)

  fresh-IsCoherent : (t : Tables) → IsCoherent root_id (fresh_scanner t)
  unfolding lookup
  fresh-IsCoherent t dir info h = absurd (ground (arith, h))

  -- A scan of a tree whose walk meets no error, with any capacity of the channel and however the two
  -- goroutines take turns: when it is over, the database has every directory that is seen, and every
  -- file that is seen and can be read under the id of its directory, and it has lost nothing.
  pub scan-IsRecorded :
      (ignore_files ignore_dirs : List Bytes) (root : Node) (t : Tables) (p : Pipe capacity handler)
      → (directory ignore_files ignore_dirs root).failed ≡ false
      → Reach capacity handler
          (start capacity handler (directory ignore_files ignore_dirs root).items (fresh_scanner t))
          p
      → IsDone capacity handler p
      → Grows t p.state.tables
        × ((item : Item)
            → Sees ignore_files ignore_dirs root item
            → IsRecorded now root_id extension hash scan_root_dir p.state.tables item)
  scan-IsRecorded ignore_files ignore_dirs root t p quiet reach over =
      let items = (directory ignore_files ignore_dirs root).items in
      let (c, grows, all) =
        handle_all-IsRecorded now root_id extension hash scan_root_dir items (fresh_scanner t)
          (fresh-IsCoherent t) in
      let last =
        Reach-IsDone capacity handler items (fresh_scanner t) p reach over
        ∙ handled_lem items (fresh_scanner t) in
      subst
        (λ s.
          Grows t s.tables
          × ((item : Item)
              → Sees ignore_files ignore_dirs root item
              → IsRecorded now root_id extension hash scan_root_dir s.tables item))
        (sym last)
        (
          grows,
          (directory-Sees ignore_files ignore_dirs
                (IsRecorded now root_id extension hash scan_root_dir _) root).1
              quiet all,
        )
