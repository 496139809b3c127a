-- ===== src/Files/Folders/Found.antt =====
-- The map of known folders does not change in which folder a file is put.
use lomo_backup.Common.{
  ℕ, ◌≡◌, ◌≢◌, refl, sym, ap, ◌∙◌, subst, false, Bool-cases, inl, inr, Option, none, some,
  Option-cases, List, [], ◌∷◌, ◌++◌, append_assoc, append-nil, Bytes, All, ◌==◌, ==_refl, bytes_eq,
  bytes_eq_sound, arith,
}
use lomo_backup.Io.{IoError, Result, ok, err}
use lomo_backup.Scan.{trim, separator}
use lomo_backup.Image.{flatten_scan_root_dir}
use lomo_backup.Files.Folders.{
  split, split_path, id_of, made_folder, known_or_made, below_known, folders_below, root_key,
  dir_parts, folder_for, folder_at, found_below,
}

abbrev IsPlain : ℕ → Bytes → Type 0
IsPlain c s = All (λ d. (d == c) ≡ false) s

split_cases : (c : ℕ) (s : Bytes) → (p : Bytes) × (ps : List Bytes) × (split c s ≡ p ∷ ps)
unfolding split
split_cases c [] = ([], [], refl)
split_cases c (d ∷ s) =
    let (p, ps, e) = split_cases c s in
    elim (Bool-cases (d == c)) [ inl h ↦ ([], p ∷ ps, rw (e, h)) | inr h ↦ (d ∷ p, ps, rw (e, h)) ]

split-plain : (c : ℕ) (s : Bytes) → IsPlain c s → split c s ≡ s ∷ []
unfolding split
split-plain c [] h = refl
split-plain c (d ∷ s) (h, k) = rw (split-plain c s k, h) refl

split-snoc : (c : ℕ) (s q : Bytes) → IsPlain c q → split c (s ++ c ∷ q) ≡ split c s ++ q ∷ []
unfolding split
split-snoc c [] q h = rw (split-plain c q h, ==_refl c) refl
split-snoc c (d ∷ s) q h =
    let (p, ps, e) = split_cases c s in
    elim (Bool-cases (d == c)) [
      | inl k ↦ rw (split-snoc c s q h, e, k) refl
      | inr k ↦ rw (split-snoc c s q h, e, k) refl
    ]

split-IsPlain : (c : ℕ) (s : Bytes) → All (IsPlain c) (split c s)
unfolding split
split-IsPlain c [] = (tt, tt)
split-IsPlain c (d ∷ s) =
    let (p, ps, e) = split_cases c s in
    let (first, rest) = subst (All (IsPlain c)) e (split-IsPlain c s) in
    elim (Bool-cases (d == c)) [
      | inl k ↦ rw (e, k) (tt, (first, rest))
      | inr k ↦ rw (e, k) ((k, first), rest)
    ]

flatten-IsPlain : (dir : Bytes) → IsPlain separator (flatten_scan_root_dir dir)
unfolding flatten_scan_root_dir
flatten-IsPlain [] = tt
flatten-IsPlain (c ∷ dir) = elim (Bool-cases (c == separator)) [
  | inl k ↦ (rw k refl, flatten-IsPlain dir)
  | inr k ↦ (rw k k, flatten-IsPlain dir)
]

module _ (folder : Bytes → Bytes → Result Bytes) (stat : Bytes → Option IoError)
    (join : Bytes → Bytes → Bytes) (root_id : Bytes) where
  abbrev at : List Bytes → Result Bytes
  at = folder_at folder stat join root_id

  result_same : (r : Result Bytes) → elim r [ err e ↦ err e | ok i ↦ ok i ] ≡ r
  result_same (err e) = refl
  result_same (ok i) = refl

  after_first :
      (xs : List Bytes) (p : Bytes) (r : Result Bytes)
      → ((i : Bytes)
          → folder_at folder stat join i (xs ++ p ∷ [])
            ≡ found_below folder stat join (folder_at folder stat join i xs) p)
      → elim r [ err e ↦ err e | ok i ↦ folder_at folder stat join i (xs ++ p ∷ []) ]
        ≡ found_below folder stat join
            (elim r [ err e ↦ err e | ok i ↦ folder_at folder stat join i xs ])
            p
  after_first xs p (err e) h = refl
  after_first xs p (ok i) h = h i

  folder_at-snoc :
      (parent : Bytes) (xs : List Bytes) (p : Bytes)
      → folder_at folder stat join parent (xs ++ p ∷ [])
        ≡ found_below folder stat join (folder_at folder stat join parent xs) p
  folder_at-snoc parent [] p = result_same (folder p parent)
  folder_at-snoc parent (x ∷ xs) p = after_first xs p (folder x parent) (λ i. folder_at-snoc i xs p)

  -- The id of a key is that of the folder which its parts lead to.
  abbrev pub IsCoherent : List (Bytes × Bytes) → Type 0
  IsCoherent known =
      (key i : Bytes)
      → key ≢ []
      → id_of key known ≡ some i
      → folder_at folder stat join root_id (split separator key) ≡ ok i

  abbrev Finds : List Bytes → Result (List (Bytes × Bytes) × Bytes) → Type 0
  Finds xs (err e) = Unit
  Finds xs (ok (known, i)) = IsCoherent known × (at xs ≡ ok i)

  made_folder-Finds :
      (known : List (Bytes × Bytes)) (key : Bytes) (xs : List Bytes) (r : Result Bytes)
      → IsCoherent known
      → split separator key ≡ xs
      → at xs ≡ r
      → Finds xs (made_folder folder stat join known key r)
  unfolding made_folder id_of
  made_folder-Finds known key xs (err e) c s h = tt
  made_folder-Finds known key xs (ok i) c s h = (here, h)
    where
      here : IsCoherent ((key, i) ∷ known)
      here k j ne l = elim (Bool-cases (bytes_eq key k)) [
        | inl same ↦
            let found : some i ≡ some j = rw same at l in
            ap at (ap (split separator) (sym (bytes_eq_sound key k same)) ∙ s)
            ∙ h
            ∙ ap found_or found
        | inr other ↦ c k j ne (rw other at l)
      ]
        where
          found_or : Option Bytes → Result Bytes
          found_or none = ok []
          found_or (some x) = ok x

  known_or_made-Finds :
      (known : List (Bytes × Bytes)) (key p parent orig : Bytes) (xs : List Bytes)
      → IsCoherent known
      → key ≢ []
      → split separator key ≡ xs ++ p ∷ []
      → at xs ≡ ok parent
      → Finds (xs ++ p ∷ []) (known_or_made folder stat join known key p parent orig)
  unfolding known_or_made
  known_or_made-Finds known key p parent orig xs c ne s h = elim (Option-cases (id_of key known)) [
    | inr (i, e) ↦ rw (known_or_made, e) (c, ap at (sym s) ∙ c key i ne e)
    | inl e ↦ elim (Option-cases (stat orig)) [
      | inr (x, f) ↦ rw (known_or_made, e, f) tt
      | inl f ↦
          rw (known_or_made, e, f)
            (made_folder-Finds known key (xs ++ p ∷ []) (folder p parent) c s
              (folder_at-snoc root_id xs p ∙ ap (λ r. found_below folder stat join r p) h))
    ]
  ]

  below_known-Finds :
      (next : List (Bytes × Bytes) → Bytes → Result (List (Bytes × Bytes) × Bytes))
      (xs ys : List Bytes) (r : Result (List (Bytes × Bytes) × Bytes))
      → Finds xs r
      → ((known : List (Bytes × Bytes)) (i : Bytes)
          → IsCoherent known
          → at xs ≡ ok i
          → Finds ys (next known i))
      → Finds ys (below_known folder stat join next r)
  unfolding below_known
  below_known-Finds next xs ys (err e) h k = tt
  below_known-Finds next xs ys (ok (known, i)) (c, h) k = k known i c h

  longer_key : (key p : Bytes) → key ++ b'/' ∷ p ≢ []
  longer_key [] p h = absurd (ground (arith, h))
  longer_key (c ∷ key) p h = absurd (ground (arith, h))

  folders_below-Finds :
      (ps : List Bytes) (key orig : Bytes) (known : List (Bytes × Bytes)) (parent : Bytes)
      (xs : List Bytes)
      → All (IsPlain separator) ps
      → IsCoherent known
      → split separator key ≡ xs
      → at xs ≡ ok parent
      → Finds (xs ++ ps) (folders_below folder stat join ps key orig known parent)
  unfolding folders_below
  folders_below-Finds [] key orig known parent xs plain c s h = (c, ap at (append-nil xs) ∙ h)
  folders_below-Finds (p ∷ ps) key orig known parent xs (plain, plain_rest) c s h =
      let key' = key ++ b'/' ∷ p in
      let s' : split separator key' ≡ xs ++ p ∷ [] =
        split-snoc separator key p plain ∙ ap (λ t. t ++ p ∷ []) s in
      subst (λ t. Finds t (folders_below folder stat join (p ∷ ps) key orig known parent))
        (append_assoc xs (p ∷ []) ps)
        (below_known-Finds (folders_below folder stat join ps key' (join orig p)) (xs ++ p ∷ [])
          ((xs ++ p ∷ []) ++ ps) (known_or_made folder stat join known key' p parent (join orig p))
          (known_or_made-Finds known key' p parent (join orig p) xs c (longer_key key p) s' h)
          (λ known' i c' h'.
            folders_below-Finds ps key' (join orig p) known' i (xs ++ p ∷ []) plain_rest c' s' h'))

  folder_for-Finds :
      (scan_root name : Bytes) (known : List (Bytes × Bytes))
      → root_key folder stat join scan_root ≢ []
      → IsCoherent known
      → Finds
          (root_key folder stat join scan_root ∷ dir_parts folder stat join name)
          (folder_for folder stat join root_id scan_root name known)
  unfolding folder_for
  folder_for-Finds scan_root name known ne c =
      let key = root_key folder stat join scan_root in
      let s : split separator key ≡ key ∷ [] =
        split-plain separator key (flatten-IsPlain (trim separator scan_root)) in
      below_known-Finds
        (folders_below folder stat join (dir_parts folder stat join name) key scan_root) (key ∷ [])
        (key ∷ dir_parts folder stat join name)
        (known_or_made folder stat join known key key root_id scan_root)
        (known_or_made-Finds known key key root_id scan_root [] c ne s refl)
        (λ known' i c' h'.
          folders_below-Finds (dir_parts folder stat join name) key scan_root known' i (key ∷ [])
            (split-IsPlain separator (trim separator (split_path name).0)) c' s h')

  -- For a scan root other than `/`, whose key is not empty, a folder call that answers the same id for the
  -- same name and parent, and a map of which every entry has the id of the folder that its key spells: if the folder of a file is found or made, it is the one that
  -- asking the cloud for the names one by one leads to, and the new map is such a map as well.
  pub folder_for-uncached :
      (scan_root name : Bytes) (known known' : List (Bytes × Bytes)) (i : Bytes)
      → root_key folder stat join scan_root ≢ []
      → IsCoherent known
      → folder_for folder stat join root_id scan_root name known ≡ ok (known', i)
      → IsCoherent known'
        × (folder_at folder stat join root_id
              (root_key folder stat join scan_root ∷ dir_parts folder stat join name)
            ≡ ok i)
  folder_for-uncached scan_root name known known' i ne c h =
      subst (Finds (root_key folder stat join scan_root ∷ dir_parts folder stat join name)) h
        (folder_for-Finds scan_root name known ne c)

-- The map that the loop begins with.
pub start-IsCoherent :
    (folder : Bytes → Bytes → Result Bytes) (stat : Bytes → Option IoError)
    (join : Bytes → Bytes → Bytes) (root_id : Bytes)
    → IsCoherent folder stat join root_id (([], root_id) ∷ [])
unfolding id_of bytes_eq
start-IsCoherent folder stat join root_id [] i ne h = absurd (ne refl)
start-IsCoherent folder stat join root_id (c ∷ key) i ne h = absurd (ground (arith, h))
