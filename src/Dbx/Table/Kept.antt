-- ===== src/Dbx/Table/Kept.antt =====
-- A table with a UNIQUE key and an AUTOINCREMENT id keeps both under every statement.
use lomo_backup.Common.{
  ℕ, suc, ◌≤◌, ◌≡◌, refl, ap, Bool, false, some, List, [], ◌∷◌, ◌++◌, map, All, All-append,
  Bool-cases, inl, inr, arith, ◌==◌, subst,
}
use lomo_backup.Dbx.Table.{delete, update, any, insert}
use lomo_backup.Dbx.Table.Laws.{
  IsDistinct, IsDistinct-append_one, IsDistinct-delete, map-update, insert_lem,
}

pub map-append_one :
    {A B : Type 0} → (f : A → B) (xs : List A) (a : A) → map f (xs ++ a ∷ []) ≡ map f xs ++ f a ∷ []
map-append_one f [] a = refl
map-append_one f (x ∷ xs) a = ap (λ t. f x ∷ t) (map-append_one f xs a)

==_comm : (a b : ℕ) → (a == b) ≡ (b == a)
==_comm a b = ground arith

-- Ids up to `last` do not have the next one.
fresh_id :
    (last : ℕ) (ids : List ℕ) → All (λ i. i ≤ last) ids → any (λ j. suc last == j) ids ≡ false
unfolding any
fresh_id last [] h = refl
fresh_id last (i ∷ ids) (b, h) = ground (arith, fresh_id last ids h)

below_suc : (last : ℕ) (ids : List ℕ) → All (λ i. i ≤ last) ids → All (λ i. i ≤ suc last) ids
below_suc last [] h = tt
below_suc last (i ∷ ids) (b, h) = (omega arith, below_suc last ids h)

below-delete :
    {A : Type 0}
    → (id : A → ℕ) (last : ℕ) (test : A → Bool) (rows : List A) → All (λ i. i ≤ last) (map id rows)
    → All (λ i. i ≤ last) (map id (delete test rows))
unfolding delete
below-delete id last test [] h = tt
below-delete id last test (a ∷ rows) (b, h) = elim (Bool-cases (test a)) [
  | inl e ↦ rw e (below-delete id last test rows h)
  | inr e ↦ rw e (b, below-delete id last test rows h)
]

module _ {A K : Type 0} (same : K → K → Bool) (key : A → K) (id : A → ℕ) where
  -- No two rows have the same key or the same id, and no id is above the last one given.
  pub record IsKept (last : ℕ) (rows : List A) : Type 0 where
    pub keys : IsDistinct same (map key rows)
    pub ids : IsDistinct (λ i j. i == j) (map id rows)
    pub below : All (λ i. i ≤ last) (map id rows)

module _ {A K : Type 0} (same : K → K → Bool) (same_comm : (a b : K) → same a b ≡ same b a)
    (key : A → K) (id : A → ℕ) where
  pub IsKept-insert :
      (a : A) (last : ℕ) (rows rows' : List A)
      → id a ≡ suc last
      → insert same key a rows ≡ some rows'
      → IsKept same key id last rows
      → IsKept same key id (suc last) rows'
  IsKept-insert a last rows rows' e h k =
      let (free, grown) = insert_lem same key a rows rows' h in
      subst (IsKept same key id (suc last)) grown (record {
        keys =
            rw (map-append_one key rows a)
              (IsDistinct-append_one same same_comm (map key rows) (key a) free k.keys);
        ids =
            rw (map-append_one id rows a, e)
              (IsDistinct-append_one (λ i j. i == j) ==_comm (map id rows) (suc last)
                (fresh_id last (map id rows) k.below) k.ids);
        below = rw (map-append_one id rows a) (
            All-append (λ i. i ≤ suc last) (map id rows) (id a ∷ [])
              (below_suc last (map id rows) k.below) (omega arith, tt));
      })

  pub IsKept-update :
      (test : A → Bool) (change : A → A) (last : ℕ) (rows : List A)
      → ((a : A) → key (change a) ≡ key a)
      → ((a : A) → id (change a) ≡ id a)
      → IsKept same key id last rows
      → IsKept same key id last (update test change rows)
  IsKept-update test change last rows hk hi k = record {
    keys = rw (map-update same key test change rows hk) k.keys;
    ids = rw (map-update (λ i j. i == j) id test change rows hi) k.ids;
    below = rw (map-update (λ i j. i == j) id test change rows hi) k.below;
  }

  pub IsKept-delete :
      (test : A → Bool) (last : ℕ) (rows : List A)
      → IsKept same key id last rows
      → IsKept same key id last (delete test rows)
  IsKept-delete test last rows k = record {
    keys = IsDistinct-delete same key test rows k.keys;
    ids = IsDistinct-delete (λ i j. i == j) id test rows k.ids;
    below = below-delete id last test rows k.below;
  }
