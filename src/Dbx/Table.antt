-- ===== src/Dbx/Table.antt =====
-- What the statements of common/dbx do to a table, which is the list of its rows in the order of
-- their insertion: `select`, `update`, `delete`, and an `insert` under a UNIQUE constraint.
pub mod Laws
pub mod Kept
pub mod Found
use lomo_backup.Common.{
  ℕ, zero, suc, ◌+◌, Bool, true, false, not, ◌||◌, Option, none, some, List, [], ◌∷◌, ◌++◌,
  if◌then◌else◌, map,
}

module _ {ℓ} {A : Type ℓ} where
  -- `select ... where test`
  unfoldable pub select : (A → Bool) → List A → List A
  select test [] = []
  select test (a ∷ rows) = let rest = select test rows in if test a then a ∷ rest else rest

  -- The row that `QueryRow` gives.
  abbrev pub first : List A → Option A
  first [] = none
  first (a ∷ _) = some a

  -- `delete ... where test`
  unfoldable pub delete : (A → Bool) → List A → List A
  delete test [] = []
  delete test (a ∷ rows) = let rest = delete test rows in if test a then rest else a ∷ rest

  -- `update ... set change where test`
  unfoldable pub update : (A → Bool) → (A → A) → List A → List A
  update test change [] = []
  update test change (a ∷ rows) = (if test a then change a else a) ∷ update test change rows

  unfoldable pub any : (A → Bool) → List A → Bool
  any test [] = false
  any test (a ∷ rows) = test a || any test rows

  -- `count`
  unfoldable pub count : (A → Bool) → List A → ℕ
  count test [] = 0
  count test (a ∷ rows) = let rest = count test rows in if test a then suc rest else rest

  -- `sum` of a column.
  unfoldable pub sum : (A → ℕ) → List A → ℕ
  sum column [] = 0
  sum column (a ∷ rows) = column a + sum column rows

-- `insert`: a row whose key is there already is refused.
module _ {ℓ κ} {A : Type ℓ} {K : Type κ} (same : K → K → Bool) (key : A → K) where
  unfoldable pub insert : A → List A → Option (List A)
  unfolding any
  insert a rows = if any (λ b. same (key a) (key b)) rows then none else some (rows ++ a ∷ [])
