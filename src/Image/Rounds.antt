-- ===== src/Image/Rounds.antt =====
-- `mkISO` ends: every round leaves fewer files.
use lomo_backup.Common.{
  ℕ, zero, suc, ◌<◌, ◌≡◌, refl, sym, ap, ◌∙◌, ◌⊎◌, Bool, not, Bool-cases, Option, none, some,
  Option-cases, inl, inr, List, [], ◌∷◌, Bytes, length, ltb, bytes_eq, arith,
}
use lomo_backup.Types.{FileInfo}
use lomo_backup.Dbx.{Tables}
use lomo_backup.Dbx.Iso.{
  create_iso_with_file_ids, get_iso_by_name, list_files_not_in_iso_or_cloud,
  total_file_size_not_in_iso,
}
use lomo_backup.Dbx.Scan.{list_scan_root_dirs}
use lomo_backup.Image.{
  World, Staging, Staged, skipped, packed, Packed, full, short, IsoError, image_exists, no_size,
  Created, stage, after_stage, pack, no_staging, recorded, image_info, image_made, named, finished,
  create_iso, after_create, without_gone, sub_u64, taken, mk_rounds, mk_iso,
}

module _ (W : World) (scan_root_dirs : List (ℕ × Bytes)) (max_size now : ℕ) where
  abbrev IsShorter : List FileInfo → Packed → Type 0
  IsShorter files (full st left) = length left < length files
  IsShorter files (short st) = Unit

  cons-IsShorter :
      (f : FileInfo) (files : List FileInfo) (p : Packed)
      → IsShorter files p
      → IsShorter (f ∷ files) p
  cons-IsShorter f files (full st left) h = omega arith
  cons-IsShorter f files (short st) h = tt

  after_stage-IsShorter :
      (next : Staging → Packed) (f : FileInfo) (files : List FileInfo) (r : Staged)
      → ((st : Staging) → IsShorter files (next st))
      → IsShorter (f ∷ files) (after_stage W scan_root_dirs max_size next files r)
  unfolding after_stage
  after_stage-IsShorter next f files (skipped st) h = cons-IsShorter f files (next st) (h st)
  after_stage-IsShorter next f files (packed st) h =
      elim (Bool-cases (ltb st.files_size max_size)) [
        | inl e ↦ rw e (cons-IsShorter f files (next st) (h st))
        | inr e ↦ rw e (omega arith)
      ]

  pack-IsShorter :
      (files : List FileInfo) (st : Staging)
      → IsShorter files (pack W scan_root_dirs max_size files st)
  unfolding pack
  pack-IsShorter [] st = tt
  pack-IsShorter (f ∷ files) st =
      after_stage-IsShorter (pack W scan_root_dirs max_size files) f files
        (stage W scan_root_dirs f st) (pack-IsShorter files)

  abbrev LeavesLess : List FileInfo → Created → Type 0
  LeavesLess files c = (c.left ≡ []) ⊎ (length c.left < length files)

  recorded-LeavesLess :
      (st : Staging) (filename : Bytes) (files left : List FileInfo) (t : Tables)
      (o : Option (Tables × (ℕ × ℕ)))
      → length left < length files
      → LeavesLess files (recorded W scan_root_dirs max_size st filename left t o)
  unfolding recorded
  recorded-LeavesLess st filename files left t none h = inr h
  recorded-LeavesLess st filename files left t (some (t', n)) h = inr h

  image_made-LeavesLess :
      (st : Staging) (filename : Bytes) (files left : List FileInfo) (t : Tables) (o : Option Bytes)
      → length left < length files
      → LeavesLess files (image_made W scan_root_dirs max_size now st filename left t o)
  unfolding image_made
  image_made-LeavesLess st filename files left t none h = inl refl
  image_made-LeavesLess st filename files left t (some content) h =
      recorded-LeavesLess st filename files left t
        (create_iso_with_file_ids (image_info W scan_root_dirs max_size filename content) st.ids now
          t)
        h

  finished-LeavesLess :
      (filename : Bytes) (files : List FileInfo) (t : Tables) (p : Packed)
      → IsShorter files p
      → LeavesLess files (finished W scan_root_dirs max_size now filename t p)
  unfolding finished
  finished-LeavesLess filename files t (short st) h = inl refl
  finished-LeavesLess filename files t (full st left) h =
      image_made-LeavesLess st (named W scan_root_dirs max_size now filename st) files left t _ h

  create_iso-LeavesLess :
      (filename : Bytes) (files : List FileInfo) (t : Tables)
      → LeavesLess files (create_iso W scan_root_dirs max_size now filename files t)
  unfolding create_iso
  create_iso-LeavesLess filename files t =
      finished-LeavesLess filename files t _
        (pack-IsShorter files (no_staging W scan_root_dirs max_size))

  abbrev Returns : Option (Tables × Option IsoError) → Type 0
  Returns result = (r : Tables × Option IsoError) × (result ≡ some r)

  list_cases :
      (l : List FileInfo) → (l ≡ []) ⊎ ((f : FileInfo) × (rest : List FileInfo) × (l ≡ f ∷ rest))
  list_cases [] = inl refl
  list_cases (f ∷ rest) = inr (f, rest, refl)

  after_create-Returns :
      (again : ℕ → List FileInfo → Tables → Option (Tables × Option IsoError)) (given : Bool)
      (current : ℕ) (files : List FileInfo) (c : Created)
      → LeavesLess files c
      → ((current' : ℕ) (left : List FileInfo) (t : Tables)
          → length left < length files
          → Returns (again current' left t))
      → Returns (after_create W scan_root_dirs max_size now again given current c)
  unfolding after_create
  after_create-Returns again given current files c less next = elim (Option-cases c.error) [
    | inr (e, failed) ↦ ((c.tables, some e), rw (after_create, failed))
    | inl fine ↦ elim (list_cases c.left) [
      | inl over ↦
          ((without_gone W scan_root_dirs max_size now c, none), rw (after_create, fine, over))
      | inr (f, rest, left) ↦ elim (Bool-cases given) [
        | inl g ↦
            ((without_gone W scan_root_dirs max_size now c, none), rw (after_create, fine, left, g))
        | inr g ↦
            let short_left : length (f ∷ rest) < length files = shorter f rest left in
            let (r, e) =
              next (sub_u64 current (taken W scan_root_dirs max_size now c)) (f ∷ rest)
                (without_gone W scan_root_dirs max_size now c) short_left in
            (r, rw (after_create, fine, left, g) e)
      ]
    ]
  ]
    where
      shorter :
          (f : FileInfo) (rest : List FileInfo)
          → c.left ≡ f ∷ rest
          → length (f ∷ rest) < length files
      shorter f rest h = elim less [
        | inl none_left ↦ absurd (omega (arith, ap length (sym h ∙ none_left)))
        | inr l ↦ omega (arith, l, ap length h)
      ]

  mk_rounds-Returns :
      (fuel : ℕ) (filename : Bytes) (given : Bool) (current : ℕ) (files : List FileInfo)
      (t : Tables)
      → length files < fuel
      → Returns (mk_rounds W scan_root_dirs max_size now fuel filename given current files t)
  unfolding mk_rounds
  mk_rounds-Returns zero filename given current files t h = absurd (omega arith)
  mk_rounds-Returns (suc fuel) filename given current files t h =
      elim (Bool-cases (ltb current max_size)) [
        | inl small ↦ ((t, none), rw (mk_rounds, small))
        | inr large ↦ elim (Option-cases (get_iso_by_name filename t)) [
          | inr (iso, e) ↦ ((t, some image_exists), rw (mk_rounds, large, e))
          | inl e ↦
              let (r, made) =
                after_create-Returns (mk_rounds W scan_root_dirs max_size now fuel filename given)
                  given current files (create_iso W scan_root_dirs max_size now filename files t)
                  (create_iso-LeavesLess filename files t)
                  (λ current' left t' less.
                    mk_rounds-Returns fuel filename given current' left t' (omega arith)) in
              (r, rw (mk_rounds, large, e) made)
        ]
      ]

-- With a round for each file that is listed and one more, `mkISO` ends, whatever the file system and
-- `mkisofs` answer.
pub mk_iso-Returns :
    (W : World) (max_size now : ℕ) (filename : Bytes) (fuel : ℕ) (t : Tables)
    → length (list_files_not_in_iso_or_cloud W.join t) < fuel
    → (r : Tables × Option IsoError) × (mk_iso W max_size now filename fuel t ≡ some r)
unfolding mk_iso
mk_iso-Returns W max_size now filename fuel t h =
    elim (Option-cases (total_file_size_not_in_iso t)) [
      | inl e ↦ ((t, some no_size), rw (mk_iso, e))
      | inr (current, e) ↦
          let (r, made) =
            mk_rounds-Returns W (list_scan_root_dirs t) max_size now fuel filename
              (not (bytes_eq filename [])) current (list_files_not_in_iso_or_cloud W.join t) t h in
          (r, rw (mk_iso, e) made)
    ]
