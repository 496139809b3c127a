-- ===== src/Dbx/Table/Found.antt =====
-- What a query finds in a table that grows.
use mathlib.Core.Path.{ap₂}
use lomo_backup.Common.{
  ℕ, ◌+◌, ◌≡◌, refl, ap, ◌∙◌, Bool, true, false, none, some, List, [], ◌∷◌, ◌++◌, map, Bool-cases,
  inl, inr, arith,
}
use lomo_backup.Dbx.Table.{sum, select, update, any, insert, first}

pub select-append :
    {A : Type 0}
    → (test : A → Bool) (xs ys : List A) → select test (xs ++ ys) ≡ select test xs ++ select test ys
unfolding select
select-append test [] ys = refl
select-append test (x ∷ xs) ys = ground (arith, select-append test xs ys)

pub map-append :
    {A B : Type 0} → (f : A → B) (xs ys : List A) → map f (xs ++ ys) ≡ map f xs ++ map f ys
map-append f [] ys = refl
map-append f (x ∷ xs) ys = ap (λ t. f x ∷ t) (map-append f xs ys)

pub first-append :
    {A : Type 0} → (xs ys : List A) (a : A) → first xs ≡ some a → first (xs ++ ys) ≡ some a
first-append [] ys a h = ground (arith, h)
first-append (x ∷ xs) ys a h = h

-- What a query finds stays the first that it finds when rows are appended.
pub found-append :
    {A B : Type 0}
    → (column : A → B) (test : A → Bool) (rows more : List A) (b : B)
    → first (map column (select test rows)) ≡ some b
    → first (map column (select test (rows ++ more))) ≡ some b
found-append column test rows more b h =
    ap (λ r. first (map column r)) (select-append test rows more)
    ∙ ap first (map-append column (select test rows) (select test more))
    ∙ first-append (map column (select test rows)) (map column (select test more)) b h

-- A query that finds nothing finds the row that is appended for it.
pub found_new :
    {A B : Type 0}
    → (column : A → B) (test : A → Bool) (rows : List A) (a : A)
    → first (map column (select test rows)) ≡ none
    → test a ≡ true
    → first (map column (select test (rows ++ a ∷ []))) ≡ some (column a)
unfolding select
found_new column test [] a h e = rw e
found_new column test (b ∷ rows) a h e = elim (Bool-cases (test b)) [
  | inl e' ↦ absurd (ground (arith, rw e' at h))
  | inr e' ↦ rw e' (found_new column test rows a (rw e' at h) e)
]

not_any :
    {A B : Type 0}
    → (column : A → B) (test clash : A → Bool) (rows : List A)
    → ((b : A) → clash b ≡ true → test b ≡ true)
    → first (map column (select test rows)) ≡ none
    → any clash rows ≡ false
unfolding select any
not_any column test clash [] imp h = refl
not_any column test clash (b ∷ rows) imp h = elim (Bool-cases (test b)) [
  | inl e ↦ absurd (ground (arith, rw e at h))
  | inr e ↦ elim (Bool-cases (clash b)) [
    | inl c ↦ absurd (ground (arith, e, imp b c))
    | inr c ↦ rw c (not_any column test clash rows imp (rw e at h))
  ]
]

-- Where the query for a key finds nothing, a row with that key can be inserted.
pub insert_free :
    {A B K : Type 0}
    → (same : K → K → Bool) (key : A → K) (column : A → B) (test : A → Bool) (a : A) (rows : List A)
    → ((b : A) → same (key a) (key b) ≡ true → test b ≡ true)
    → first (map column (select test rows)) ≡ none
    → insert same key a rows ≡ some (rows ++ a ∷ [])
unfolding insert
insert_free same key column test a rows imp h =
    rw (insert, not_any column test (λ b. same (key a) (key b)) rows imp h)

-- An update that leaves the tested and the read columns leaves what a query finds.
pub select-update :
    {A B : Type 0}
    → (column : A → B) (test which : A → Bool) (change : A → A) (rows : List A)
    → ((a : A) → test (change a) ≡ test a)
    → ((a : A) → column (change a) ≡ column a)
    → map column (select test (update which change rows)) ≡ map column (select test rows)
unfolding select update
select-update column test which change [] ht hc = refl
select-update column test which change (a ∷ rows) ht hc = elim (Bool-cases (which a)) [
  | inl w ↦ elim (Bool-cases (test a)) [
    | inl e ↦ rw (w, ht a, e) (ap₂ ◌∷◌ (hc a) (select-update column test which change rows ht hc))
    | inr e ↦ rw (w, ht a, e) (select-update column test which change rows ht hc)
  ]
  | inr w ↦ elim (Bool-cases (test a)) [
    | inl e ↦ rw (w, e) (ap (λ r. column a ∷ r) (select-update column test which change rows ht hc))
    | inr e ↦ rw (w, e) (select-update column test which change rows ht hc)
  ]
]

pub select_yes :
    {A : Type 0}
    → (test : A → Bool) (a : A) (rows : List A) → test a ≡ true
    → select test (a ∷ rows) ≡ a ∷ select test rows
unfolding select
select_yes test a rows h = rw h refl

pub select_no :
    {A : Type 0}
    → (test : A → Bool) (a : A) (rows : List A) → test a ≡ false
    → select test (a ∷ rows) ≡ select test rows
unfolding select
select_no test a rows h = rw h refl

pub sum-append :
    {A : Type 0}
    → (column : A → ℕ) (xs ys : List A) → sum column (xs ++ ys) ≡ sum column xs + sum column ys
unfolding sum
sum-append column [] ys = omega arith
sum-append column (x ∷ xs) ys = omega (arith, sum-append column xs ys)
