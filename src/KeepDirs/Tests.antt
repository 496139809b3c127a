-- ===== src/KeepDirs/Tests.antt =====
-- A sort by insertion, and the times of some directories.
use lomo_backup.Common.{
  ◌≡◌, refl, ap, ◌∙◌, Bool, true, false, ◌||◌, Bool-cases, inl, inr, some, List, [], ◌∷◌, Bytes,
  codes, All, All-map, ◌==◌, bytes_eq, if◌then◌else◌, arith,
}
use lomo_backup.Dbx.Table.{any}
use lomo_backup.KeepDirs.{bytes_less, is_key, parents_from, all_parents, source_of, keep_dirs_time}
use lomo_backup.Files.Folders.{id_of}
use lomo_backup.KeepDirs.Order.{
  IsOrdered, contains, above, reaches, destinations, keep_dirs_time-order,
}

abbrev put_in : (Bytes → Bytes → Bool) → Bytes → List Bytes → List Bytes
put_in before x [] = x ∷ []
put_in before x (y ∷ ys) =
    let rest = put_in before x ys in if before x y then x ∷ y ∷ ys else y ∷ rest

abbrev sort : (Bytes → Bytes → Bool) → List Bytes → List Bytes
sort before [] = []
sort before (x ∷ xs) = put_in before x (sort before xs)

less_asym : (a b : Bytes) → bytes_less a b ≡ true → bytes_less b a ≡ false
unfolding bytes_less
less_asym a [] h = ground (arith, h)
less_asym [] (y ∷ b) h = refl
less_asym (x ∷ a) (y ∷ b) h = ground (arith, h, less_asym a b)

less_trans : (a b c : Bytes) → bytes_less a b ≡ true → bytes_less b c ≡ true → bytes_less a c ≡ true
unfolding bytes_less
less_trans a [] c h k = ground (arith, h)
less_trans a (y ∷ b) [] h k = ground (arith, k)
less_trans [] (y ∷ b) (z ∷ c) h k = refl
less_trans (x ∷ a) (y ∷ b) (z ∷ c) h k = ground (arith, h, k, less_trans a b c)

-- The order of the names, from the last to the first.
abbrev down : Bytes → Bytes → Bool
down a b = bytes_less b a

any-put_in :
    (name x : Bytes) (xs : List Bytes)
    → any (bytes_eq name) (put_in down x xs) ≡ (bytes_eq name x || any (bytes_eq name) xs)
unfolding any
any-put_in name x [] = refl
any-put_in name x (y ∷ ys) = ground (arith, any-put_in name x ys)

any-sort :
    (xs : List Bytes) (name : Bytes) → any (bytes_eq name) (sort down xs) ≡ any (bytes_eq name) xs
unfolding any
any-sort [] name = refl
any-sort (x ∷ xs) name =
    any-put_in name x (sort down xs) ∙ ap (λ t. bytes_eq name x || t) (any-sort xs name)

All-put_in :
    (P : Bytes → Type 0) (x : Bytes) (xs : List Bytes) → P x → All P xs → All P (put_in down x xs)
All-put_in P x [] p h = (p, tt)
All-put_in P x (y ∷ ys) p (q, h) = elim (Bool-cases (down x y)) [
  | inl e ↦ rw e (p, (q, h))
  | inr e ↦ rw e (q, All-put_in P x ys p h)
]

not_down : (x y z : Bytes) → down z y ≡ false → down x y ≡ true → down z x ≡ false
not_down x y z k e = elim (Bool-cases (down z x)) [
  | inl f ↦ ground (arith, k, less_trans y x z e f)
  | inr f ↦ f
]

put_in-IsOrdered :
    (x : Bytes) (xs : List Bytes) → IsOrdered down xs → IsOrdered down (put_in down x xs)
put_in-IsOrdered x [] h = (tt, tt)
put_in-IsOrdered x (y ∷ ys) (h, hs) = elim (Bool-cases (down x y)) [
  | inl e ↦ rw e ((less_asym y x e, All-map (λ z k. not_down x y z k e) ys h), (h, hs))
  | inr e ↦ rw e (All-put_in (λ z. down z y ≡ false) x ys e h, put_in-IsOrdered x ys hs)
]

sort-IsOrdered : (xs : List Bytes) → IsOrdered down (sort down xs)
sort-IsOrdered [] = tt
sort-IsOrdered (x ∷ xs) = put_in-IsOrdered x (sort down xs) (sort-IsOrdered xs)

-- `filepath.Dir` of a clean path below the root directory.
abbrev up : Bytes → Bytes
up [] = []
up (c ∷ s) = let rest = up s in if any (λ d. d == b'/') s then c ∷ rest else []

abbrev two_dirs : List (Bytes × Bytes)
two_dirs = (codes "st/a/b", codes "src/a/b") ∷ (codes "st/c", codes "src/c") ∷ []

calls_made :
    keep_dirs_time up (λ s. s) sort (codes "st") 5 two_dirs
    ≡ some (
        (codes "src/c", codes "st/c")
        ∷ (codes "src/a/b", codes "st/a/b")
        ∷ (codes "src/a", codes "st/a")
        ∷ [])
unfolding keep_dirs_time all_parents parents_from is_key any bytes_eq bytes_less source_of id_of
calls_made = refl

up_reached : All (λ d. (bytes_eq d.0 (codes "st") || reaches up (codes "st") 5 d.0) ≡ true) two_dirs
unfolding reaches any bytes_eq
up_reached = (refl, (refl, tt))

keep_dirs_time-order_example :
    (calls : List (Bytes × Bytes)) × (keep_dirs_time up (λ s. s) sort (codes "st") 5 two_dirs
      ≡ some calls)
    × All
        (λ d.
          All
            (λ name. any (bytes_eq name) (destinations calls) ≡ true)
            (if bytes_eq d.0 (codes "st") then [] else above up (codes "st") 5 d.0))
        two_dirs
    × IsOrdered (λ y x. contains x y) (destinations calls)
keep_dirs_time-order_example =
    keep_dirs_time-order up (λ s. s) sort (codes "st") 5 two_dirs up_reached (λ a r. refl)
      (record { keeps = any-sort; ordered = sort-IsOrdered })
