-- ===== src/Image/Pack.antt =====
-- Which files `createIso` packs: the shortest start of the list that reaches the size.
use lomo_backup.Common.{
  ℕ, ◌+◌, ◌^◌, ◌<◌, ◌≤◌, ◌≡◌, refl, sym, ap, ◌∙◌, true, Bool-cases, inl, inr, List, [], ◌∷◌, ◌++◌,
  append_assoc, append-nil, Bytes, map, ltb, ltb→lt, arith,
}
use lomo_backup.Types.{FileInfo}
use lomo_backup.Dbx.Table.{sum, select}
use lomo_backup.Dbx.Table.Found.{select-append, map-append, sum-append}
use lomo_backup.Image.Fate.{
  is_chosen, is_gone, size_of, AllMade, Took, IsStep, no_size, stage-IsStep,
}
use lomo_backup.Image.{
  World, Staging, Staged, skipped, packed, Packed, full, short, stage, after_stage, pack,
  no_staging,
}

module _ (W : World) (scan_root_dirs : List (ℕ × Bytes)) where
  size_of-cons :
      (f : FileInfo) (files : List FileInfo)
      → size_of W scan_root_dirs (f ∷ files)
        ≡ size_of W scan_root_dirs (f ∷ []) + size_of W scan_root_dirs files
  size_of-cons f files =
      ap (sum (λ g. g.size)) (select-append (is_chosen W scan_root_dirs) (f ∷ []) files)
      ∙ sum-append (λ g. g.size) (select (is_chosen W scan_root_dirs) (f ∷ []))
          (select (is_chosen W scan_root_dirs) files)

  size_of-nil : size_of W scan_root_dirs [] ≡ 0
  unfolding select sum
  size_of-nil = refl

  Took-nil : (st : Staging) → Took W scan_root_dirs [] st st
  unfolding select
  Took-nil st = record {
    took_ids = sym (append-nil st.ids);
    took_gone = sym (append-nil st.not_exist_files);
    took_size = omega (arith, size_of-nil);
  }

  Took-cons :
      (f : FileInfo) (files : List FileInfo) (st st1 st2 : Staging)
      → Took W scan_root_dirs (f ∷ []) st st1
      → Took W scan_root_dirs files st1 st2
      → Took W scan_root_dirs (f ∷ files) st st2
  Took-cons f files st st1 st2 a b =
      let chosen = map (λ g. g.id) (select (is_chosen W scan_root_dirs) files) in
      let missing = select (is_gone W scan_root_dirs) files in
      record {
        took_ids =
            b.took_ids
            ∙ ap (λ t. t ++ chosen) a.took_ids
            ∙ append_assoc st.ids (map (λ g. g.id) (select (is_chosen W scan_root_dirs) (f ∷ [])))
                chosen
            ∙ ap (λ t. st.ids ++ t)
                (sym (
                    map-append (λ g. g.id) (select (is_chosen W scan_root_dirs) (f ∷ []))
                      (select (is_chosen W scan_root_dirs) files))
                  ∙ ap (map (λ g. g.id))
                      (sym (select-append (is_chosen W scan_root_dirs) (f ∷ []) files)));
        took_gone =
            b.took_gone
            ∙ ap (λ t. t ++ missing) a.took_gone
            ∙ append_assoc st.not_exist_files (select (is_gone W scan_root_dirs) (f ∷ [])) missing
            ∙ ap (λ t. st.not_exist_files ++ t)
                (sym (select-append (is_gone W scan_root_dirs) (f ∷ []) files));
        took_size = omega (arith, b.took_size, a.took_size, size_of-cons f files);
      }

  module _ (max_size : ℕ) where
    -- How the loop ends: with a file that is packed and reaches the size, which the files before it did
    -- not, or after all files, without the size.
    abbrev pub Ends : List FileInfo → Staging → Packed → Type 0
    Ends files st (full st' left) =
        (before : List FileInfo) × (last : FileInfo) × (before ++ last ∷ left ≡ files)
        × (is_chosen W scan_root_dirs last ≡ true)
        × Took W scan_root_dirs (before ++ last ∷ []) st st'
        × (st.files_size + size_of W scan_root_dirs before < max_size)
        × (max_size ≤ st'.files_size)
    Ends files st (short st') = Took W scan_root_dirs files st st' × (st'.files_size < max_size)

    Ends-cons :
        (f : FileInfo) (files : List FileInfo) (st st1 : Staging) (p : Packed)
        → Took W scan_root_dirs (f ∷ []) st st1
        → Ends files st1 p
        → Ends (f ∷ files) st p
    Ends-cons f files st st1 (short st') a (b, h) = (Took-cons f files st st1 st' a b, h)
    Ends-cons f files st st1 (full st' left) a (before, last, split, chosen, b, h, k) = (
      f ∷ before,
      last,
      ap (λ t. f ∷ t) split,
      chosen,
      Took-cons f (before ++ last ∷ []) st st1 st' a b,
      omega (arith, h, a.took_size, size_of-cons f before),
      k,
    )

    after_stage-Ends :
        (next : Staging → Packed) (f : FileInfo) (files : List FileInfo) (st : Staging) (r : Staged)
        → IsStep W scan_root_dirs f st r
        → st.files_size < max_size
        → ((st1 : Staging)
            → AllMade W scan_root_dirs st1.dirs_map
            → Took W scan_root_dirs (f ∷ []) st st1
            → st1.files_size < max_size
            → Ends files st1 (next st1))
        → Ends (f ∷ files) st (after_stage W scan_root_dirs max_size next files r)
    unfolding after_stage
    after_stage-Ends next f files st (skipped st1) (c, a, m) l more =
        Ends-cons f files st st1 (next st1) a
          (more st1 m a (omega (arith, a.took_size, no_size W scan_root_dirs f c)))
    after_stage-Ends next f files st (packed st1) (c, a, m) l more =
        elim (Bool-cases (ltb st1.files_size max_size)) [
          | inl e ↦ rw e (Ends-cons f files st st1 (next st1) a (more st1 m a (ltb→lt _ _ e)))
          | inr e ↦ rw e ([], f, refl, c, a, omega (arith, size_of-nil), ground (arith, e))
        ]

    pack-Ends :
        (files : List FileInfo) (st : Staging)
        → AllMade W scan_root_dirs st.dirs_map
        → st.files_size < max_size
        → st.files_size + size_of W scan_root_dirs files < 2 ^ 64
        → Ends files st (pack W scan_root_dirs max_size files st)
    unfolding pack
    pack-Ends [] st m l h = (Took-nil st, l)
    pack-Ends (f ∷ files) st m l h =
        let cons = size_of-cons f files in
        after_stage-Ends (pack W scan_root_dirs max_size files) f files st
          (stage W scan_root_dirs f st) (stage-IsStep W scan_root_dirs f st m (omega arith)) l
          (λ st1 m1 a l1. pack-Ends files st1 m1 l1 (omega (arith, a.took_size)))

    -- For a size above 0 and files of less than 2^64 bytes that can be packed: if the loop of `createIso`
    -- ends with a full image, the files before those left over end with one that was packed, the ids
    -- are those of all that were packed among them, in order, and so is their size, which reaches the
    -- size of the image while it did not without the last file; and the files that are missing are
    -- listed. Otherwise all files were tried and do not reach the size.
    pub pack_lem :
        (files : List FileInfo)
        → 0 < max_size
        → size_of W scan_root_dirs files < 2 ^ 64
        → Ends files
            (no_staging W scan_root_dirs max_size)
            (pack W scan_root_dirs max_size files (no_staging W scan_root_dirs max_size))
    pack_lem files h k = pack-Ends files (no_staging W scan_root_dirs max_size) tt h (omega arith)
