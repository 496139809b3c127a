-- ===== src/KeepDirs/Order.antt =====
-- Every directory between a copied one and the root gets its time, and after all that it contains.
use lomo_backup.Common.{
  ℕ, zero, suc, ◌≡◌, refl, sym, ap, ◌∙◌, Bool, true, false, ◌&&◌, ◌||◌, Bool-cases, inl, inr, some,
  List, [], ◌∷◌, ◌++◌, Bytes, map, All, All-map, ◌==◌, ==_iff, bytes_eq, bytes_eq_refl,
  if◌then◌else◌, arith,
}
use mathlib.Core.Path.{ap₂}
use mathlib.Core.Bool.{true≢false}
use lomo_backup.Dbx.Table.{any}
use lomo_backup.KeepDirs.{
  Dirs, is_key, bytes_less, parents_from, all_parents, source_of, comes_before, keep_dirs_time,
}

-- Whether a directory contains another name.
unfoldable pub contains : Bytes → Bytes → Bool
contains [] [] = false
contains [] (c ∷ y) = c == b'/'
contains (a ∷ x) [] = false
contains (a ∷ x) (b ∷ y) = (a == b) && contains x y

-- No later element comes before an earlier one.
abbrev pub IsOrdered : (Bytes → Bytes → Bool) → List Bytes → Type 0
IsOrdered before [] = Unit
IsOrdered before (x ∷ xs) = All (λ y. before y x ≡ false) xs × IsOrdered before xs

module _ (dir : Bytes → Bytes) (root : Bytes) where
  -- The directories above one, up to the root, and whether the root is reached.
  unfoldable pub above : ℕ → Bytes → List Bytes
  above zero dst = []
  above (suc n) dst =
      let rest = above n (dir dst) in if bytes_eq (dir dst) root then [] else dir dst ∷ rest

  unfoldable pub reaches : ℕ → Bytes → Bool
  reaches zero dst = false
  reaches (suc n) dst = bytes_eq (dir dst) root || reaches n (dir dst)

  module _ (dirs : Dirs) where
    abbrev Has : Dirs → Bytes → Type 0
    Has ps name = (is_key name dirs || is_key name ps) ≡ true

    abbrev Grows : Dirs → Dirs → Type 0
    Grows ps ps' = (name : Bytes) → Has ps name → Has ps' name

    with_parent : Dirs → Bytes → Bytes → Dirs
    with_parent ps dst src = if is_key dst dirs || is_key dst ps then ps else (dst, src) ∷ ps

    with_parent-Grows : (ps : Dirs) (dst src : Bytes) → Grows ps (with_parent ps dst src)
    unfolding is_key any with_parent
    with_parent-Grows ps dst src name h = ground (arith, h)

    with_parent-Has : (ps : Dirs) (dst src : Bytes) → Has (with_parent ps dst src) dst
    unfolding is_key any with_parent
    with_parent-Has ps dst src = elim (Bool-cases (is_key dst dirs || is_key dst ps)) [
      | inl e ↦ rw e e
      | inr e ↦ ground (arith, e, bytes_eq_refl dst)
    ]

    parents_from_lem :
        (fuel : ℕ) (ps : Dirs) (dst src : Bytes)
        → reaches fuel dst ≡ true
        → (ps' : Dirs) × (parents_from dir root dirs fuel ps dst src ≡ some ps')
          × Grows ps ps'
          × All (Has ps') (above fuel dst)
    unfolding parents_from reaches above with_parent
    parents_from_lem zero ps dst src h = ground (arith, h)
    parents_from_lem (suc fuel) ps dst src h = elim (Bool-cases (bytes_eq (dir dst) root)) [
      | inl e ↦ (ps, rw (parents_from, e) refl, (λ name k. k), rw e tt)
      | inr e ↦
          let (ps', did, grows, has) =
            parents_from_lem fuel (with_parent ps (dir dst) (dir src)) (dir dst) (dir src)
              (ground (arith, h, e)) in
          (
            ps',
            rw (parents_from, e) did,
            (λ name k. grows name (with_parent-Grows ps (dir dst) (dir src) name k)),
            rw e (grows (dir dst) (with_parent-Has ps (dir dst) (dir src)), has),
          )
    ]

    -- Whether the loop handles an entry, and which directories lie above it.
    abbrev IsHandled : ℕ → Bytes × Bytes → Type 0
    IsHandled fuel d = (bytes_eq d.0 root || reaches fuel d.0) ≡ true

    abbrev above_entry : ℕ → Bytes × Bytes → List Bytes
    above_entry fuel d = if bytes_eq d.0 root then [] else above fuel d.0

    all_parents_lem :
        (fuel : ℕ) (ps : Dirs) (ds : Dirs)
        → All (IsHandled fuel) ds
        → (ps' : Dirs) × (all_parents dir root dirs fuel ps ds ≡ some ps')
          × Grows ps ps'
          × All (λ d. All (Has ps') (above_entry fuel d)) ds
    unfolding all_parents
    all_parents_lem fuel ps [] h = (ps, refl, (λ name k. k), tt)
    all_parents_lem fuel ps ((dst, src) ∷ ds) (h, hs) = elim (Bool-cases (bytes_eq dst root)) [
      | inl e ↦
          let (ps', did, grows, has) = all_parents_lem fuel ps ds hs in
          (ps', rw (all_parents, e) did, grows, (rw e tt, has))
      | inr e ↦
          let (ps₁, did₁, grows₁, has₁) = parents_from_lem fuel ps dst src (ground (arith, h, e)) in
          let (ps', did, grows, has) = all_parents_lem fuel ps₁ ds hs in
          (
            ps',
            rw (all_parents, e, did₁) did,
            (λ name k. grows name (grows₁ name k)),
            (rw e (All-map grows (above fuel dst) has₁), has),
          )
    ]

any-append :
    {A : Type 0} (test : A → Bool) (xs ys : List A)
    → any test (xs ++ ys) ≡ (any test xs || any test ys)
unfolding any
any-append test [] ys = refl
any-append test (x ∷ xs) ys = ground (arith, any-append test xs ys)

is_key-map : (name : Bytes) (ds : Dirs) → any (bytes_eq name) (map (λ d. d.0) ds) ≡ is_key name ds
unfolding any is_key
is_key-map name [] = refl
is_key-map name (d ∷ ds) = ap (λ t. bytes_eq name d.0 || t) (is_key-map name ds)

-- A text comes before every text that goes on from it.
less_longer : (a b : Bytes) (c : ℕ) → bytes_less a (a ++ c ∷ b) ≡ true
unfolding bytes_less
less_longer [] b c = refl
less_longer (x ∷ a) b c = ground (arith, less_longer a b c)

contains-cut : (x y : Bytes) → contains x y ≡ true → (r : Bytes) × (y ≡ x ++ b'/' ∷ r)
unfolding contains
contains-cut [] [] h = ground (arith, h)
contains-cut [] (c ∷ y) h = (y, ap (λ t. t ∷ y) ((==_iff c b'/').0 h))
contains-cut (a ∷ x) [] h = ground (arith, h)
contains-cut (a ∷ x) (b ∷ y) h =
    let (r, e) = contains-cut x y (ground (arith, h)) in
    let same : a ≡ b = (==_iff a b).0 (ground (arith, h)) in (r, ap₂ ◌∷◌ (sym same) e)

IsOrdered-weaken :
    (before before' : Bytes → Bytes → Bool)
    → ((y x : Bytes) → before y x ≡ false → before' y x ≡ false)
    → (xs : List Bytes) → IsOrdered before xs
    → IsOrdered before' xs
IsOrdered-weaken before before' weaker [] _ = tt
IsOrdered-weaken before before' weaker (x ∷ xs) (h, hs) =
    (All-map (λ y. weaker y x) xs h, IsOrdered-weaken before before' weaker xs hs)

is_key-append :
    (name : Bytes) (xs ys : Dirs) → is_key name (xs ++ ys) ≡ (is_key name xs || is_key name ys)
unfolding is_key
is_key-append name xs ys = any-append (λ d. bytes_eq name d.0) xs ys

-- The directories whose time is set, in order.
abbrev pub destinations : List (Bytes × Bytes) → List Bytes
destinations calls = map (λ c. c.1) calls

map-destination :
    (ds : Dirs) (xs : List Bytes) → destinations (map (λ dst. (source_of ds dst, dst)) xs) ≡ xs
map-destination ds [] = refl
map-destination ds (x ∷ xs) = ap (λ t. x ∷ t) (map-destination ds xs)

-- What `slices.SortFunc` promises: the same elements, in the order it is given.
pub record Sorts (before : Bytes → Bytes → Bool) (sort : List Bytes → List Bytes) : Type 0 where
  pub keeps :
      (xs : List Bytes) (name : Bytes) → any (bytes_eq name) (sort xs) ≡ any (bytes_eq name) xs
  pub ordered : (xs : List Bytes) → IsOrdered before (sort xs)

module _ (dir lower : Bytes → Bytes) (sort : (Bytes → Bytes → Bool) → List Bytes → List Bytes)
    (root : Bytes) (fuel : ℕ) where
  deepest_first :
      ((a r : Bytes) → lower (a ++ b'/' ∷ r) ≡ lower a ++ b'/' ∷ lower r)
      → (y x : Bytes) → comes_before dir lower sort root fuel y x ≡ false
      → contains x y ≡ false
  deepest_first lower_path y x h = elim (Bool-cases (contains x y)) [
    | inr e ↦ e
    | inl e ↦
        let (r, cut) = contains-cut x y e in
        absurd (
          true≢false (
            sym (less_longer (lower x) (lower r) b'/')
            ∙ ap (bytes_less (lower x)) (sym (ap lower cut ∙ lower_path x r))
            ∙ h))
  ]

  -- For directories from each of which, unless it is the root, going up reaches the root within the
  -- fuel, a `strings.ToLower` that works on the parts of a path, and a sort as documented: the command
  -- ends; among the directories whose time it sets are all those between one it was given and the root;
  -- and no directory comes before one that it contains.
  pub keep_dirs_time-order :
      (dirs : Dirs)
      → All (λ d. (bytes_eq d.0 root || reaches dir root fuel d.0) ≡ true) dirs
      → ((a r : Bytes) → lower (a ++ b'/' ∷ r) ≡ lower a ++ b'/' ∷ lower r)
      → Sorts (comes_before dir lower sort root fuel) (sort (comes_before dir lower sort root fuel))
      → (calls : List (Bytes × Bytes)) × (keep_dirs_time dir lower sort root fuel dirs ≡ some calls)
        × All
            (λ d.
              All
                (λ name. any (bytes_eq name) (destinations calls) ≡ true)
                (if bytes_eq d.0 root then [] else above dir root fuel d.0))
            dirs
        × IsOrdered (λ y x. contains x y) (destinations calls)
  unfolding keep_dirs_time
  keep_dirs_time-order dirs all_reach lower_path sorts =
      let before = comes_before dir lower sort root fuel in
      let (ps, did, grows, has) = all_parents_lem dir root dirs fuel [] dirs all_reach in
      let names = map (λ d. d.0) (ps ++ dirs) in
      let there : (name : Bytes)
          → (is_key name dirs || is_key name ps) ≡ true
          → any (bytes_eq name) (sort before names) ≡ true =
        λ name k.
          sorts.keeps names name
          ∙ is_key-map name (ps ++ dirs)
          ∙ is_key-append name ps dirs
          ∙ ground (arith, k) in
      let plain = map-destination (ps ++ dirs) (sort before names) in
      (
        map (λ dst. (source_of (ps ++ dirs) dst, dst)) (sort before names),
        rw (keep_dirs_time, did) refl,
        All-map
            (λ d h.
              All-map (λ name k. ap (any (bytes_eq name)) plain ∙ there name k)
                (if bytes_eq d.0 root then [] else above dir root fuel d.0) h)
            dirs has,
        rw plain (
            IsOrdered-weaken before (λ y x. contains x y) (deepest_first lower_path)
              (sort before names) (sorts.ordered names)),
      )
