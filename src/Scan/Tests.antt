-- ===== src/Scan/Tests.antt =====
-- Runs of cmd/lomob/scan.go on a small tree, and its theorems there.
use lomo_backup.Common.{
  ◌<◌, ◌⊎◌, ◌≡◌, refl, false, Option, none, some, List, [], ◌∷◌, Bytes, All, codes, bytes_eq, arith,
}
use lomo_backup.Dbx.{Tables}
use lomo_backup.Dbx.Scan.Found.{Grows}
use lomo_backup.Scan.{Item, Scanner, lookup, trim_suffix, trim_prefix, trim, select_or_insert_dir}
use lomo_backup.Scan.Walk.{
  Node, leaf, branch, no_more, more, readable, directory, is_ignored, leaf_item, branch_item,
}
use lomo_backup.Scan.Walk.Sees.{Sees, directory-Sees}
use lomo_backup.Scan.Channel.{
  Pipe, Step, Reach, here, next, announce, hand_over, finish, start, IsDone, handled,
}
use lomo_backup.Scan.Channel.Once.{Reach-IsDone, Reach-progress, measure}
use lomo_backup.Scan.Coherent.{IsCoherent, Selects, select_or_insert_dir-Selects}
use lomo_backup.Scan.Complete.{IsRecorded}
use lomo_backup.Scan.Whole.{handler, fresh_scanner, scan-IsRecorded}

abbrev text : Bytes → Bytes
text name = codes "txt"

abbrev readable_file : Bytes → Option Bytes
readable_file path = some (codes "00")

abbrev root_dir : Bytes
root_dir = codes "/r"

trimmed :
    trim b'/' (trim_prefix (trim_suffix (codes "/r/sub/a.txt") (codes "a.txt")) root_dir)
    ≡ codes "sub"
unfolding trim trim_prefix trim_suffix bytes_eq
trimmed = refl

abbrev tree : Node
tree = branch root_dir (codes "r") 7 readable (
    more (leaf (codes "/r/.x") (codes ".x") false 1 8)
      (more (leaf (codes "/r/a") (codes "a") false 3 9) no_more))

abbrev ignored : List Bytes
ignored = codes ".x" ∷ []

abbrev the_root : Item
the_root = branch_item root_dir (codes "r") 7

abbrev the_file : Item
the_file = leaf_item (codes "/r/a") (codes "a") false 3 9

walked : directory ignored [] tree ≡ record { items = the_root ∷ the_file ∷ []; failed = false }
unfolding directory is_ignored bytes_eq
walked = refl

abbrev empty_tables : Tables
empty_tables = record {
  dirs = [];
  files = [];
  isos = [];
  parts = [];
  last_dir = 0;
  last_file = 0;
  last_iso = 0;
}

abbrev hand : Item → Scanner → Scanner
hand = handler 5 1 text readable_file root_dir 2

abbrev over : Pipe 2 hand
over = record {
  to_send = [];
  announced = none;
  queue = [];
  in_hand = none;
  pending = 0;
  state =
      hand the_file (hand the_root (fresh_scanner 5 1 text readable_file root_dir 2 empty_tables));
}

over-IsDone : IsDone 2 hand over
over-IsDone = record { nothing_to_send = refl; nothing_announced = refl; nothing_pending = refl }

abbrev began : Pipe 2 hand
began =
    start 2 hand (the_root ∷ the_file ∷ [])
      (fresh_scanner 5 1 text readable_file root_dir 2 empty_tables)

ran : Reach 2 hand began over
ran =
    next
      (next
        (next
          (next
            (next (next here (announce the_root (the_file ∷ []) refl refl refl))
              (hand_over the_root refl refl refl refl))
            (finish the_root refl refl))
          (announce the_file [] refl refl refl))
        (hand_over the_file refl refl refl refl))
      (finish the_file refl refl)

walked_ran :
    Reach 2 hand
      (start 2 hand
        (directory ignored [] tree).items
        (fresh_scanner 5 1 text readable_file root_dir 2 empty_tables))
      over
unfolding directory is_ignored bytes_eq
walked_ran = ran

walk_quiet : (directory ignored [] tree).failed ≡ false
unfolding directory is_ignored bytes_eq
walk_quiet = refl

scan-IsRecorded_example :
    Grows empty_tables over.state.tables
    × ((item : Item)
        → Sees ignored [] tree item
        → IsRecorded 5 1 text readable_file root_dir over.state.tables item)
scan-IsRecorded_example =
    scan-IsRecorded 5 1 text readable_file root_dir 2 ignored [] tree empty_tables over walk_quiet
      walked_ran over-IsDone

Reach-IsDone_example :
    over.state
    ≡ handled 2 hand
        (the_root ∷ the_file ∷ [])
        (fresh_scanner 5 1 text readable_file root_dir 2 empty_tables)
Reach-IsDone_example =
    Reach-IsDone 2 hand (the_root ∷ the_file ∷ [])
      (fresh_scanner 5 1 text readable_file root_dir 2 empty_tables) over ran over-IsDone

Reach-progress_example :
    (IsDone 2 hand began ⊎ ((q : Pipe 2 hand) × Step 2 hand began q))
    × ((q : Pipe 2 hand) → Step 2 hand began q → measure 2 hand q < measure 2 hand began)
Reach-progress_example =
    Reach-progress 2 hand (the_root ∷ the_file ∷ [])
      (fresh_scanner 5 1 text readable_file root_dir 2 empty_tables) began here

directory-Sees_example :
    (((item : Item) → Sees ignored [] tree item → item.is_symlink ≡ false)
      → All (λ item. item.is_symlink ≡ false) (directory ignored [] tree).items)
    × ((directory ignored [] tree).failed ≡ false
        → All (λ item. item.is_symlink ≡ false) (directory ignored [] tree).items
        → (item : Item) → Sees ignored [] tree item
        → item.is_symlink ≡ false)
directory-Sees_example = directory-Sees ignored [] (λ item. item.is_symlink ≡ false) tree

no_cache : IsCoherent 1 (record { tables = empty_tables; dirs = [] })
unfolding lookup
no_cache dir info h = absurd (ground (arith, h))

select_or_insert_dir-Selects_example :
    Selects 1 5
      (codes "sub")
      (record { tables = empty_tables; dirs = [] })
      (select_or_insert_dir 5 1
        (codes "sub")
        (some 8)
        (record { tables = empty_tables; dirs = [] }))
select_or_insert_dir-Selects_example =
    select_or_insert_dir-Selects 1 5 (codes "sub") (some 8)
      (record { tables = empty_tables; dirs = [] }) no_cache
