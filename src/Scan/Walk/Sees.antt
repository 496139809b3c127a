-- ===== src/Scan/Walk/Sees.antt =====
-- A walk that does not fail gives exactly the items that are seen: what is not ignored, is no symbolic
-- link, and stands below directories that are not ignored and can be read.
use lomo_backup.Common.{
  ◌≡◌, refl, subst, true, false, Bool-cases, inl, inr, List, [], ◌∷◌, ◌++◌, Bytes, All, All-append,
  arith, ℕ,
}
use lomo_backup.Scan.{Item}
use lomo_backup.Scan.Walk.{
  Listing, readable, forbidden, broken, Node, leaf, branch, Nodes, no_more, more, Walked, leaf_item,
  branch_item, is_ignored, after, walk, walk_all, directory,
}

module _ (ignore_files ignore_dirs : List Bytes) where
  mutual
    pub data Sees : Node → Item → Type 0 where
      seen_leaf :
          {path name : Bytes} {size mod_time : ℕ} {item : Item}
          → is_ignored ignore_files name ≡ false
          → leaf_item path name false size mod_time ≡ item
          → Sees (leaf path name false size mod_time) item
      seen_branch :
          {path name : Bytes} {mod_time : ℕ} {listing : Listing} {nodes : Nodes} {item : Item}
          → is_ignored ignore_dirs name ≡ false
          → branch_item path name mod_time ≡ item
          → Sees (branch path name mod_time listing nodes) item
      seen_below :
          {path name : Bytes} {mod_time : ℕ} {nodes : Nodes} {item : Item}
          → is_ignored ignore_dirs name ≡ false
          → SeesIn nodes item
          → Sees (branch path name mod_time readable nodes) item

    pub data SeesIn : Nodes → Item → Type 0 where
      seen_here :
          {node : Node} {nodes : Nodes} {item : Item}
          → Sees node item
          → SeesIn (more node nodes) item
      seen_later :
          {node : Node} {nodes : Nodes} {item : Item}
          → SeesIn nodes item
          → SeesIn (more node nodes) item

  All-left : (P : Item → Type 0) (xs ys : List Item) → All P (xs ++ ys) → All P xs
  All-left P [] ys h = tt
  All-left P (x ∷ xs) ys (p, h) = (p, All-left P xs ys h)

  All-right : (P : Item → Type 0) (xs ys : List Item) → All P (xs ++ ys) → All P ys
  All-right P [] ys h = h
  All-right P (x ∷ xs) ys (p, h) = All-right P xs ys h

  after_lem :
      (a b : Walked)
      → (after a b).failed ≡ false
      → (a.failed ≡ false) × (b.failed ≡ false) × ((after a b).items ≡ a.items ++ b.items)
  after_lem a b h = elim (Bool-cases a.failed) [
    | inl e ↦ absurd (ground (arith, e, h))
    | inr e ↦ (e, ground (arith, e, h), ground (arith, e))
  ]

  mutual
    unfolding walk walk_all

    Sees-walk :
        (P : Item → Type 0) (node : Node) (item : Item)
        → Sees node item
        → (walk ignore_files ignore_dirs node).failed ≡ false
        → All P (walk ignore_files ignore_dirs node).items
        → P item
    Sees-walk P (leaf path name false size mod_time) item (seen_leaf e same) f h =
        subst P same (rw e at h).0
    Sees-walk P (leaf path name true size mod_time) item s f h = elim s [ ]
    Sees-walk P (branch path name mod_time listing nodes) item (seen_branch e same) f h =
        subst P same (rw e at h).0
    Sees-walk P (branch path name mod_time readable nodes) item (seen_below e below) f h =
        SeesIn-walk P nodes item below (rw e at f) (rw e at h).1

    SeesIn-walk :
        (P : Item → Type 0) (nodes : Nodes) (item : Item)
        → SeesIn nodes item
        → (walk_all ignore_files ignore_dirs nodes).failed ≡ false
        → All P (walk_all ignore_files ignore_dirs nodes).items
        → P item
    SeesIn-walk P no_more item s f h = elim s [ ]
    SeesIn-walk P (more node nodes) item (seen_here s) f h =
        let (fa, fb, all) =
          after_lem (walk ignore_files ignore_dirs node) (walk_all ignore_files ignore_dirs nodes)
            f in
        Sees-walk P node item s fa (All-left P _ _ (subst (All P) all h))
    SeesIn-walk P (more node nodes) item (seen_later s) f h =
        let (fa, fb, all) =
          after_lem (walk ignore_files ignore_dirs node) (walk_all ignore_files ignore_dirs nodes)
            f in
        SeesIn-walk P nodes item s fb
          (All-right P (walk ignore_files ignore_dirs node).items _ (subst (All P) all h))

  All-after :
      (P : Item → Type 0) (a b : Walked) → All P a.items → All P b.items → All P (after a b).items
  All-after P a b ha hb = elim (Bool-cases a.failed) [
    | inl e ↦ rw e ha
    | inr e ↦ rw e (All-append P a.items b.items ha hb)
  ]

  mutual
    unfolding walk walk_all

    walk-Sees :
        (P : Item → Type 0) (node : Node)
        → ((item : Item) → Sees node item → P item)
        → All P (walk ignore_files ignore_dirs node).items
    walk-Sees P (leaf path name true size mod_time) imp =
        elim (Bool-cases (is_ignored ignore_files name)) [ inl e ↦ rw e tt | inr e ↦ rw e tt ]
    walk-Sees P (leaf path name false size mod_time) imp =
        elim (Bool-cases (is_ignored ignore_files name)) [
          | inl e ↦ rw e tt
          | inr e ↦ rw e (imp _ (seen_leaf e refl), tt)
        ]
    walk-Sees P (branch path name mod_time readable nodes) imp =
        elim (Bool-cases (is_ignored ignore_dirs name)) [
          | inl e ↦ rw e tt
          | inr e ↦ rw e (
            imp _ (seen_branch e refl),
            walk_all-Sees P nodes (λ item s. imp item (seen_below e s)),
          )
        ]
    walk-Sees P (branch path name mod_time forbidden nodes) imp =
        elim (Bool-cases (is_ignored ignore_dirs name)) [
          | inl e ↦ rw e tt
          | inr e ↦ rw e (imp _ (seen_branch e refl), tt)
        ]
    walk-Sees P (branch path name mod_time broken nodes) imp =
        elim (Bool-cases (is_ignored ignore_dirs name)) [
          | inl e ↦ rw e tt
          | inr e ↦ rw e (imp _ (seen_branch e refl), tt)
        ]

    walk_all-Sees :
        (P : Item → Type 0) (nodes : Nodes)
        → ((item : Item) → SeesIn nodes item → P item)
        → All P (walk_all ignore_files ignore_dirs nodes).items
    walk_all-Sees P no_more imp = tt
    walk_all-Sees P (more node nodes) imp =
        All-after P (walk ignore_files ignore_dirs node) (walk_all ignore_files ignore_dirs nodes)
          (walk-Sees P node (λ item s. imp item (seen_here s)))
          (walk_all-Sees P nodes (λ item s. imp item (seen_later s)))

  -- A property that holds of what is seen holds of every item that the walk gives; and one that holds
  -- of every item that a walk without an error gives holds of all that is seen.
  pub directory-Sees :
      (P : Item → Type 0) (root : Node)
      → (((item : Item) → Sees root item → P item)
          → All P (directory ignore_files ignore_dirs root).items)
        × ((directory ignore_files ignore_dirs root).failed ≡ false
            → All P (directory ignore_files ignore_dirs root).items
            → (item : Item) → Sees root item
            → P item)
  unfolding directory
  directory-Sees P root = (walk-Sees P root, λ f h item s. Sees-walk P root item s f h)
