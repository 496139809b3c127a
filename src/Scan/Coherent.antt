-- ===== src/Scan/Coherent.antt =====
-- The cache of directories agrees with the database, and a directory that is selected or inserted has
-- the id that the database gives it.
use lomo_backup.Common.{
  ℕ, suc, ◌≡◌, refl, ap, ◌∙◌, subst, Bool-cases, Option, none, some, Option-cases, inl, inr, Bytes,
  bytes_eq, bytes_eq_sound,
}
use lomo_backup.Dbx.{Tables}
use lomo_backup.Dbx.Scan.{get_dir_id_by_path_and_root_id, update_dir_mod_time}
use lomo_backup.Dbx.Scan.Found.{Grows, Grows-refl, insert_dir_lem, update_dir_mod_time-Grows}
use lomo_backup.Scan.{
  Scanner, ScanDirInfo, lookup, put, select_or_insert_dir, cached_or, known, looked_up, remembered,
  inserted_dir,
}

module _ (root_id : ℕ) where
  -- A cached directory is in the database, under the cached id.
  abbrev pub IsCoherent : Scanner → Type 0
  IsCoherent s =
      (dir : Bytes) (info : ScanDirInfo)
      → lookup dir s.dirs ≡ some info
      → get_dir_id_by_path_and_root_id dir root_id s.tables ≡ some info.id

  put-IsCoherent :
      (s : Scanner) (t : Tables) (dir : Bytes) (info : ScanDirInfo)
      → IsCoherent s
      → Grows s.tables t
      → get_dir_id_by_path_and_root_id dir root_id t ≡ some info.id
      → IsCoherent (record { tables = t; dirs = put dir info s.dirs })
  unfolding lookup
  put-IsCoherent s t dir info c g found d other h = elim (Bool-cases (bytes_eq dir d)) [
    | inl e ↦
        let same = bytes_eq_sound dir d e in
        let it : info ≡ other =
          ap (λ o. elim o [ none ↦ info | some x ↦ x ]) (rw (lookup, e) at h) in
        subst (λ p. get_dir_id_by_path_and_root_id p root_id t ≡ some other.id) same
          (found ∙ ap (λ x. some x.id) it)
    | inr e ↦ g.dirs d root_id other.id (c d other (rw (lookup, e) at h))
  ]

  module _ (now : ℕ) where
    -- What a call of `selectOrInsertDir` leaves, with its answer.
    abbrev pub Selects : Bytes → Scanner → Scanner × Option ℕ → Type 0
    Selects dir s result =
        (s' : Scanner) × (i : ℕ) × (result ≡ (s', some i))
        × IsCoherent s'
        × (get_dir_id_by_path_and_root_id dir root_id s'.tables ≡ some i)
        × Grows s.tables s'.tables

    remembered-Selects :
        (dir : Bytes) (mod_time : Option ℕ) (s : Scanner) (t : Tables) (i : ℕ)
        → IsCoherent s
        → Grows s.tables t
        → get_dir_id_by_path_and_root_id dir root_id t ≡ some i
        → Selects dir s (remembered now root_id dir mod_time s t i)
    unfolding remembered
    remembered-Selects dir mod_time s t i c g found = (
      _,
      i,
      refl,
      put-IsCoherent s t dir (record { id = i; mod_time = mod_time }) c g found,
      found,
      g,
    )

    looked_up-Selects :
        (dir : Bytes) (mod_time : Option ℕ) (s : Scanner) (o : Option ℕ)
        → IsCoherent s
        → get_dir_id_by_path_and_root_id dir root_id s.tables ≡ o
        → Selects dir s (looked_up now root_id dir mod_time s o)
    unfolding looked_up inserted_dir
    looked_up-Selects dir mod_time s (some i) c h =
        remembered-Selects dir mod_time s s.tables i c (Grows-refl s.tables) h
    looked_up-Selects dir mod_time s none c h =
        let (t, did, found, g) = insert_dir_lem dir root_id mod_time now s.tables h in
        let (s', i, e, c', f', g') =
          remembered-Selects dir mod_time s t (suc s.tables.last_dir) c g found in
        (s', i, ap (inserted_dir now root_id dir mod_time s) did ∙ e, c', f', g')

    known-Selects :
        (dir : Bytes) (mod_time : Option ℕ) (info : ScanDirInfo) (s : Scanner)
        → IsCoherent s
        → lookup dir s.dirs ≡ some info
        → Selects dir s (known now root_id dir mod_time info s)
    unfolding known
    known-Selects dir none info s c h = elim (Option-cases info.mod_time) [
      | inl e ↦ (s, info.id, rw (known, e), c, c dir info h, Grows-refl s.tables)
      | inr (m, e) ↦ (s, info.id, rw (known, e), c, c dir info h, Grows-refl s.tables)
    ]
    known-Selects dir (some m) info s c h = elim (Option-cases info.mod_time) [
      | inl e ↦
          let g = update_dir_mod_time-Grows info.id m s.tables in
          let found = g.dirs dir root_id info.id (c dir info h) in
          (
            record {
              tables = update_dir_mod_time info.id m s.tables;
              dirs = put dir (record info { mod_time = some m }) s.dirs;
            },
            info.id,
            rw (known, e),
            put-IsCoherent s (update_dir_mod_time info.id m s.tables) dir
                (record info { mod_time = some m }) c g found,
            found,
            g,
          )
      | inr (n, e) ↦ (s, info.id, rw (known, e), c, c dir info h, Grows-refl s.tables)
    ]

    -- With a cache that agrees with the database, `selectOrInsertDir` succeeds with the id that the
    -- database has for the directory afterwards; the cache still agrees, and nothing that could be
    -- looked up is lost.
    pub select_or_insert_dir-Selects :
        (dir : Bytes) (mod_time : Option ℕ) (s : Scanner)
        → IsCoherent s
        → Selects dir s (select_or_insert_dir now root_id dir mod_time s)
    unfolding select_or_insert_dir cached_or
    select_or_insert_dir-Selects dir mod_time s c = elim (Option-cases (lookup dir s.dirs)) [
      | inl e ↦
          let (s', i, r, c', f', g') =
            looked_up-Selects dir mod_time s (get_dir_id_by_path_and_root_id dir root_id s.tables) c
              refl in
          (s', i, ap (cached_or now root_id dir mod_time s) e ∙ r, c', f', g')
      | inr (info, e) ↦
          let (s', i, r, c', f', g') = known-Selects dir mod_time info s c e in
          (s', i, ap (cached_or now root_id dir mod_time s) e ∙ r, c', f', g')
    ]
