-- ===== src/Image/Fate.antt =====
-- What becomes of a file in the loop of `createIso`, and one round of the loop.
use lomo_backup.Common.{
  ℕ, ◌+◌, ◌^◌, ◌<◌, ◌≡◌, refl, sym, ap, ◌∙◌, subst, Bool, true, false, Bool-cases, Option, none,
  some, inl, inr, List, [], ◌∷◌, ◌++◌, append-nil, Bytes, map, bytes_eq, bytes_eq_sound, All,
  if◌then◌else◌, arith,
}
use lomo_backup.Types.{FileInfo}
use lomo_backup.Dbx.Table.{any, sum, select}
use lomo_backup.Dbx.Table.Found.{select_yes, select_no}
use lomo_backup.Image.{
  World, Copying, create_file_in_staging, copied, not_exist, not_copied, Staging, Staged, skipped,
  packed, root_of, src_file, dst_file, after_copy, is_made, stage_below, stage,
}

module _ (W : World) (scan_root_dirs : List (ℕ × Bytes)) where
  -- What becomes of a file: nothing without its scan root or its staging directory, and else what the
  -- copy answers.
  abbrev pub fate_below : FileInfo → Option Bytes → Option Copying
  fate_below f none = none
  fate_below f (some root) =
      if W.mkdir (W.dir (dst_file W scan_root_dirs root f))
      then some (
          create_file_in_staging W (src_file W scan_root_dirs root f)
            (dst_file W scan_root_dirs root f))
      else none

  abbrev pub fate : FileInfo → Option Copying
  fate f = fate_below f (root_of f.dir_id scan_root_dirs)

  abbrev pub is_copied : Option Copying → Bool
  is_copied (some copied) = true
  is_copied _ = false

  abbrev pub is_missing : Option Copying → Bool
  is_missing (some not_exist) = true
  is_missing _ = false

  abbrev pub is_chosen : FileInfo → Bool
  is_chosen f = is_copied (fate f)

  abbrev pub is_gone : FileInfo → Bool
  is_gone f = is_missing (fate f)

  abbrev pub size_of : List FileInfo → ℕ
  size_of files = sum (λ f. f.size) (select is_chosen files)

  abbrev pub AllMade : List (Bytes × Bytes) → Type 0
  AllMade ds = All (λ d. W.mkdir d.0 ≡ true) ds

  abbrev with_dirs : List (Bytes × Bytes) → Staging → Staging
  with_dirs ds st = record st { dirs_map = ds }

  any-made :
      (ds : List (Bytes × Bytes)) (dst : Bytes)
      → AllMade ds
      → any (λ d. bytes_eq d.0 dst) ds ≡ true
      → W.mkdir dst ≡ true
  unfolding any
  any-made [] dst m h = ground (arith, h)
  any-made ((d, s) ∷ ds) dst (md, m) h = elim (Bool-cases (bytes_eq d dst)) [
    | inl e ↦ subst (λ p. W.mkdir p ≡ true) (bytes_eq_sound d dst e) md
    | inr e ↦ any-made ds dst m (rw e at h)
  ]

  abbrev expected : FileInfo → Staging → Option Copying → Staged
  expected f st none = skipped st
  expected f st (some c) = after_copy W scan_root_dirs f st c

  -- The map of directories does not change what becomes of a file.
  abbrev Stages : FileInfo → Staging → Option Copying → Staged → Type 0
  Stages f st what result =
      (ds : List (Bytes × Bytes)) × AllMade ds × (result ≡ expected f (with_dirs ds st) what)

  stage_below-Stages :
      (f : FileInfo) (st : Staging) (o : Option Bytes)
      → AllMade st.dirs_map
      → Stages f st (fate_below f o) (stage_below W scan_root_dirs f st o)
  unfolding stage_below
  stage_below-Stages f st none m = (st.dirs_map, m, refl)
  stage_below-Stages f st (some root) m =
      let dst = W.dir (dst_file W scan_root_dirs root f) in
      elim (Bool-cases (is_made W scan_root_dirs dst st)) [
        | inl made ↦ let ok_dir = made_before dst made in (st.dirs_map, m, rw (made, ok_dir))
        | inr new ↦ elim (Bool-cases (W.mkdir dst)) [
          | inl ok_dir ↦ (
            (dst, W.dir (src_file W scan_root_dirs root f)) ∷ st.dirs_map,
            (ok_dir, m),
            rw (new, ok_dir),
          )
          | inr bad ↦ (st.dirs_map, m, rw (new, bad))
        ]
      ]
    where
      made_before : (dst : Bytes) → is_made W scan_root_dirs dst st ≡ true → W.mkdir dst ≡ true
      made_before dst h = any-made st.dirs_map dst m (unfold is_made in h)

  -- What the loop has packed and missed of some files, from one state to another.
  pub record Took (files : List FileInfo) (st st' : Staging) : Type 0 where
    pub took_ids : st'.ids ≡ st.ids ++ map (λ f. f.id) (select is_chosen files)
    pub took_gone : st'.not_exist_files ≡ st.not_exist_files ++ select is_gone files
    pub took_size : st'.files_size ≡ st.files_size + size_of files

  abbrev pub IsStep : FileInfo → Staging → Staged → Type 0
  IsStep f st (skipped st') = (is_chosen f ≡ false) × Took (f ∷ []) st st' × AllMade st'.dirs_map
  IsStep f st (packed st') = (is_chosen f ≡ true) × Took (f ∷ []) st st' × AllMade st'.dirs_map

  none_chosen :
      (f : FileInfo) (st : Staging)
      → is_chosen f ≡ false
      → st.ids ≡ st.ids ++ map (λ g. g.id) (select is_chosen (f ∷ []))
  unfolding select
  none_chosen f st h =
      sym (append-nil st.ids)
      ∙ ap (λ s. st.ids ++ map (λ g. g.id) s) (sym (select_no is_chosen f [] h))

  none_gone :
      (f : FileInfo) (st : Staging)
      → is_gone f ≡ false
      → st.not_exist_files ≡ st.not_exist_files ++ select is_gone (f ∷ [])
  unfolding select
  none_gone f st h =
      sym (append-nil st.not_exist_files)
      ∙ ap (λ s. st.not_exist_files ++ s) (sym (select_no is_gone f [] h))

  pub no_size : (f : FileInfo) → is_chosen f ≡ false → size_of (f ∷ []) ≡ 0
  unfolding select sum
  no_size f h = ap (sum (λ g. g.size)) (select_no is_chosen f [] h)

  its_size : (f : FileInfo) → is_chosen f ≡ true → size_of (f ∷ []) ≡ f.size
  unfolding select sum
  its_size f h = ap (sum (λ g. g.size)) (select_yes is_chosen f [] h) ∙ omega arith

  expected-IsStep :
      (f : FileInfo) (st : Staging) (ds : List (Bytes × Bytes)) (o : Option Copying)
      → fate f ≡ o
      → AllMade ds
      → st.files_size + size_of (f ∷ []) < 2 ^ 64
      → IsStep f st (expected f (with_dirs ds st) o)
  unfolding after_copy select
  expected-IsStep f st ds none e m h =
      let c = ap is_copied e in
      (
        c,
        record {
          took_ids = none_chosen f st c;
          took_gone = none_gone f st (ap is_missing e);
          took_size = omega (arith, no_size f c);
        },
        m,
      )
  expected-IsStep f st ds (some copied) e m h =
      let c = ap is_copied e in
      (
        c,
        record {
          took_ids = ap (λ s. st.ids ++ map (λ g. g.id) s) (sym (select_yes is_chosen f [] c));
          took_gone = none_gone f st (ap is_missing e);
          took_size = omega (arith, its_size f c);
        },
        m,
      )
  expected-IsStep f st ds (some not_exist) e m h =
      let c = ap is_copied e in
      (
        c,
        record {
          took_ids = none_chosen f st c;
          took_gone =
              ap (λ s. st.not_exist_files ++ s) (sym (select_yes is_gone f [] (ap is_missing e)));
          took_size = omega (arith, no_size f c);
        },
        m,
      )
  expected-IsStep f st ds (some not_copied) e m h =
      let c = ap is_copied e in
      (
        c,
        record {
          took_ids = none_chosen f st c;
          took_gone = none_gone f st (ap is_missing e);
          took_size = omega (arith, no_size f c);
        },
        m,
      )

  pub stage-IsStep :
      (f : FileInfo) (st : Staging)
      → AllMade st.dirs_map
      → st.files_size + size_of (f ∷ []) < 2 ^ 64
      → IsStep f st (stage W scan_root_dirs f st)
  unfolding stage
  stage-IsStep f st m h =
      let (ds, made, e) = stage_below-Stages f st (root_of f.dir_id scan_root_dirs) m in
      subst (IsStep f st) (sym e) (expected-IsStep f st ds (fate f) refl made h)
