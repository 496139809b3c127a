-- ===== src/Dbx/Table/Laws.antt =====
-- UNIQUE constraints are kept, and what a table holds after a statement.
use lomo_backup.Common.{
  ◌≡◌, refl, sym, ap, ◌∙◌, Bool, false, ◌||◌, some, List, [], ◌∷◌, ◌++◌, map, Bool-cases, inl, inr,
  arith,
}
use mathlib.Core.Path.{ap₂}
use lomo_backup.Dbx.Table.{delete, update, any, insert}

-- No two keys are the same.
abbrev pub IsDistinct {ℓ} : {K : Type ℓ} → (K → K → Bool) → List K → Type 0
IsDistinct same [] = Unit
IsDistinct same (k ∷ ks) = (any (same k) ks ≡ false) × IsDistinct same ks

module _ {ℓ} {A : Type ℓ} where
  any-append :
      (test : A → Bool) (xs ys : List A)
      → any test xs ≡ false
      → any test ys ≡ false
      → any test (xs ++ ys) ≡ false
  unfolding any
  any-append test [] ys h k = k
  any-append test (x ∷ xs) ys h k = ground (arith, any-append test xs ys)

module _ {ℓ} {K : Type ℓ} (same : K → K → Bool) (same_comm : (a b : K) → same a b ≡ same b a) where
  pub IsDistinct-append_one :
      (ks : List K) (k : K)
      → any (same k) ks ≡ false
      → IsDistinct same ks
      → IsDistinct same (ks ++ k ∷ [])
  unfolding any
  IsDistinct-append_one [] k h d = (refl, tt)
  IsDistinct-append_one (j ∷ ks) k h (f, d) = (
    any-append (same j) ks (k ∷ []) f (rw (same_comm j k) (ground (arith, h))),
    IsDistinct-append_one ks k (ground (arith, h)) d,
  )

module _ {ℓ κ} {A : Type ℓ} {K : Type κ} (same : K → K → Bool) (key : A → K) where
  any-map : (k : K) (rows : List A) → any (λ b. same k (key b)) rows ≡ any (same k) (map key rows)
  unfolding any
  any-map k [] = refl
  any-map k (a ∷ rows) = ap (λ t. same k (key a) || t) (any-map k rows)

  -- An update that leaves the key of every row leaves the column of the keys.
  pub map-update :
      (test : A → Bool) (change : A → A) (rows : List A)
      → ((a : A) → key (change a) ≡ key a)
      → map key (update test change rows) ≡ map key rows
  unfolding update
  map-update test change [] h = refl
  map-update test change (a ∷ rows) h =
      ap₂ ◌∷◌ (ground (arith, h a)) (map-update test change rows h)

  any-delete :
      (test : A → Bool) (k : K) (rows : List A)
      → any (same k) (map key rows) ≡ false
      → any (same k) (map key (delete test rows)) ≡ false
  unfolding any delete
  any-delete test k [] h = refl
  any-delete test k (a ∷ rows) h = ground (arith, any-delete test k rows)

  pub IsDistinct-delete :
      (test : A → Bool) (rows : List A)
      → IsDistinct same (map key rows)
      → IsDistinct same (map key (delete test rows))
  unfolding delete
  IsDistinct-delete test [] d = tt
  IsDistinct-delete test (a ∷ rows) (f, d) = elim (Bool-cases (test a)) [
    | inl e ↦ rw e (IsDistinct-delete test rows d)
    | inr e ↦ rw e (any-delete test (key a) rows f, IsDistinct-delete test rows d)
  ]

  pub insert_lem :
      (a : A) (rows rows' : List A)
      → insert same key a rows ≡ some rows'
      → (any (same (key a)) (map key rows) ≡ false) × (rows ++ a ∷ [] ≡ rows')
  unfolding insert
  insert_lem a rows rows' h = elim (Bool-cases (any (λ b. same (key a) (key b)) rows)) [
    | inl e ↦ ground (arith, h)
    | inr e ↦ (sym (any-map (key a) rows) ∙ e, ground (arith, h))
  ]
