-- ===== src/Scan/Complete.antt =====
-- After a scan the database has every directory and every file that came through the channel.
use lomo_backup.Common.{
  ℕ, ◌≡◌, sym, subst, ap, ◌∙◌, true, false, Bool-cases, Option, none, some, Option-cases, inl, inr,
  List, [], ◌∷◌, Bytes, All, arith,
}
use lomo_backup.Types.{FileInfo}
use lomo_backup.Dbx.{Tables}
use lomo_backup.Dbx.Scan.{get_dir_id_by_path_and_root_id, get_file_by_name_and_dir_id}
use lomo_backup.Dbx.Scan.Found.{Grows, Grows-refl, Grows-trans, insert_file_lem}
use lomo_backup.Scan.{
  Item, Scanner, dir_of, parent_of, select_or_insert_dir, select_or_insert_file, file_of,
  file_hashed, file_inserted, file_in_dir, handle_scan, handle_all,
}
use lomo_backup.Scan.Coherent.{IsCoherent, select_or_insert_dir-Selects}

module _ (now root_id : ℕ) (extension : Bytes → Bytes) (hash : Bytes → Option Bytes) where
  -- A file that can be read is in the database after `selectOrInsertFile`, and nothing is lost.
  select_or_insert_file_lem :
      (dir_id : ℕ) (item : Item) (h : Bytes) (s : Scanner)
      → hash item.path ≡ some h
      → (t : Tables) × (f : FileInfo) × (select_or_insert_file now root_id extension hash dir_id
            item s
          ≡ record s { tables = t })
        × (get_file_by_name_and_dir_id item.name dir_id t ≡ some f)
        × Grows s.tables t
  unfolding select_or_insert_file file_hashed file_inserted
  select_or_insert_file_lem dir_id item h s readable =
      elim (Option-cases (get_file_by_name_and_dir_id item.name dir_id s.tables)) [
        | inl e ↦
            let (t, f, did, found, g) =
              insert_file_lem extension (file_of now root_id extension hash dir_id item h) now
                s.tables e in
            (
              t,
              f,
              rw (select_or_insert_file, e)
                  (ap (file_hashed now root_id extension hash dir_id item s) readable
                    ∙ ap (file_inserted now root_id extension hash s) did),
              found,
              g,
            )
        | inr (f, e) ↦ (s.tables, f, rw (select_or_insert_file, e), e, Grows-refl s.tables)
      ]

  -- Without a readable file the tables stay.
  select_or_insert_file-unreadable :
      (dir_id : ℕ) (item : Item) (s : Scanner)
      → hash item.path ≡ none
      → select_or_insert_file now root_id extension hash dir_id item s ≡ s
  unfolding select_or_insert_file file_hashed
  select_or_insert_file-unreadable dir_id item s unreadable =
      elim (Option-cases (get_file_by_name_and_dir_id item.name dir_id s.tables)) [
        | inl e ↦
            rw (select_or_insert_file, e)
              (ap (file_hashed now root_id extension hash dir_id item s) unreadable)
        | inr (f, e) ↦ rw (select_or_insert_file, e)
      ]

  module _ (scan_root_dir : Bytes) where
    -- A directory has an id, and so has the directory of a file, where the file is found if it could
    -- be read.
    pub record IsRecorded (t : Tables) (item : Item) : Type 0 where
      pub a_dir :
          item.is_dir ≡ true
          → (i : ℕ) × (get_dir_id_by_path_and_root_id
                (dir_of now root_id extension hash scan_root_dir item)
                root_id
                t
              ≡ some i)
      pub a_file :
          (h : Bytes)
          → item.is_dir ≡ false
          → hash item.path ≡ some h
          → (i : ℕ) × (f : FileInfo) × (get_dir_id_by_path_and_root_id
                (parent_of now root_id extension hash scan_root_dir item)
                root_id
                t
              ≡ some i)
            × (get_file_by_name_and_dir_id item.name i t ≡ some f)

    IsRecorded-Grows :
        (t t' : Tables) (item : Item) → Grows t t' → IsRecorded t item → IsRecorded t' item
    IsRecorded-Grows t t' item g r = record {
      a_dir = λ e. let (i, d) = r.a_dir e in (i, g.dirs _ root_id i d);
      a_file = λ h e k.
          let (i, f, d, found) = r.a_file h e k in
          (i, f, g.dirs _ root_id i d, g.files item.name i f found);
    }

    All-Grows :
        (t t' : Tables) (items : List Item)
        → Grows t t'
        → All (IsRecorded t) items
        → All (IsRecorded t') items
    All-Grows t t' [] g h = tt
    All-Grows t t' (item ∷ items) g (h, hs) =
        (IsRecorded-Grows t t' item g h, All-Grows t t' items g hs)

    abbrev Handles : Scanner → Item → Scanner → Type 0
    Handles s item s' = IsCoherent root_id s' × Grows s.tables s'.tables × IsRecorded s'.tables item

    handle_dir_lem :
        (item : Item) (s : Scanner)
        → IsCoherent root_id s
        → item.is_dir ≡ true
        → Handles s item (handle_scan now root_id extension hash scan_root_dir item s)
    unfolding handle_scan
    handle_dir_lem item s c d =
        let (s', i, e, c', found, g) =
          select_or_insert_dir-Selects root_id now
            (dir_of now root_id extension hash scan_root_dir item) (some item.mod_time) s c in
        rw (handle_scan, d, e)
          (
            c',
            g,
            record { a_dir = λ z. (i, found); a_file = λ h z k. absurd (ground (arith, d, z)) },
          )

    handle_file :
        (item : Item) (s : Scanner)
        → item.is_dir ≡ false
        → handle_scan now root_id extension hash scan_root_dir item s
          ≡ file_in_dir now root_id extension hash item (
              select_or_insert_dir now root_id
                (parent_of now root_id extension hash scan_root_dir item)
                none
                s)
    unfolding handle_scan
    handle_file item s d = ground (arith, d)

    handle_file_lem :
        (item : Item) (s : Scanner)
        → IsCoherent root_id s
        → item.is_dir ≡ false
        → Handles s item (handle_scan now root_id extension hash scan_root_dir item s)
    unfolding file_in_dir
    handle_file_lem item s c d =
        let (s', i, e, c', found, g) =
          select_or_insert_dir-Selects root_id now
            (parent_of now root_id extension hash scan_root_dir item) none s c in
        let in_dir = handle_file item s d ∙ ap (file_in_dir now root_id extension hash item) e in
        elim (Option-cases (hash item.path)) [
          | inl unreadable ↦
              subst (Handles s item)
                (sym (in_dir ∙ select_or_insert_file-unreadable i item s' unreadable))
                (
                  c',
                  g,
                  record {
                    a_dir = λ z. absurd (ground (arith, d, z));
                    a_file = λ h z k. absurd (ground (arith, unreadable, k));
                  },
                )
          | inr (h, readable) ↦
              let (t, f, did, stored, g') = select_or_insert_file_lem i item h s' readable in
              subst (Handles s item) (sym (in_dir ∙ did)) (
                λ dir info cached. g'.dirs dir root_id info.id (c' dir info cached),
                Grows-trans s.tables s'.tables t g g',
                record {
                  a_dir = λ z. absurd (ground (arith, d, z));
                  a_file = λ h' z k. (i, f, g'.dirs _ root_id i found, stored);
                },
              )
        ]

    handle_scan_lem :
        (item : Item) (s : Scanner)
        → IsCoherent root_id s
        → Handles s item (handle_scan now root_id extension hash scan_root_dir item s)
    handle_scan_lem item s c = elim (Bool-cases item.is_dir) [
      | inl d ↦ handle_dir_lem item s c d
      | inr d ↦ handle_file_lem item s c d
    ]

    -- Whatever items come, in whatever order, and however often: afterwards the cache agrees with the
    -- database, every directory that came is in it, and every file that came and could be read is in
    -- it under the id of its directory; and what could be looked up before still can.
    pub handle_all-IsRecorded :
        (items : List Item) (s : Scanner)
        → IsCoherent root_id s
        → let s' = handle_all now root_id extension hash scan_root_dir items s in
          IsCoherent root_id s' × Grows s.tables s'.tables × All (IsRecorded s'.tables) items
    unfolding handle_all
    handle_all-IsRecorded [] s c = (c, Grows-refl s.tables, tt)
    handle_all-IsRecorded (item ∷ items) s c =
        let (c1, g1, r1) = handle_scan_lem item s c in
        let s1 = handle_scan now root_id extension hash scan_root_dir item s in
        let (c2, g2, rs) = handle_all-IsRecorded items s1 c1 in
        (c2, Grows-trans _ _ _ g1 g2, (IsRecorded-Grows _ _ item g2 r1, rs))
