-- ===== src/Common/Lists.antt =====
-- Lists measured and cut by native numbers, under the library's names.
use Prim.Native.Nat.{ℕ, zero, suc, ◌+◌, ◌-◌, ◌≤◌, ◌<◌, min}
use mathlib.Core.Path.{◌≡◌, refl, sym, ap, ap₂}
use mathlib.Core.Logic.{◌≢◌}
use mathlib.Core.Option.{Option, none, some}
use mathlib.Core.List.{List, [], ◌∷◌, ◌++◌, map, head-eq_of_cons-eq, tail-eq_of_cons-eq}
use native.Mathlib.Omega.{arith}

module _ {ℓ} {A : Type ℓ} where
  abbrev pub length : List A → ℕ
  length [] = 0
  length (x ∷ xs) = suc (length xs)

  abbrev pub take : ℕ → List A → List A
  take zero xs = []
  take (suc n) [] = []
  take (suc n) (x ∷ xs) = x ∷ take n xs

  abbrev pub drop : ℕ → List A → List A
  drop zero xs = xs
  drop (suc n) [] = []
  drop (suc n) (x ∷ xs) = drop n xs

  pub length-append : (xs ys : List A) → length (xs ++ ys) ≡ length xs + length ys
  length-append [] ys = omega arith
  length-append (x ∷ xs) ys = omega (arith, length-append xs ys)

  pub length-take : (n : ℕ) (xs : List A) → length (take n xs) ≡ min n (length xs)
  length-take zero xs = omega arith
  length-take (suc n) [] = omega arith
  length-take (suc n) (x ∷ xs) = omega (arith, length-take n xs)

  pub length-drop : (n : ℕ) (xs : List A) → length (drop n xs) ≡ length xs - n
  length-drop zero xs = omega arith
  length-drop (suc n) [] = omega arith
  length-drop (suc n) (x ∷ xs) = omega (arith, length-drop n xs)

  pub length_pos : (xs : List A) → xs ≢ [] → 0 < length xs
  length_pos [] h = absurd (h refl)
  length_pos (x ∷ xs) h = omega arith

  pub take-append-drop : (n : ℕ) (xs : List A) → take n xs ++ drop n xs ≡ xs
  take-append-drop zero xs = refl
  take-append-drop (suc n) [] = refl
  take-append-drop (suc n) (x ∷ xs) = rw (take-append-drop n xs)

  pub take_all : (n : ℕ) (xs : List A) → length xs ≤ n → take n xs ≡ xs
  take_all zero [] h = refl
  take_all zero (x ∷ xs) h = elim h [ ]
  take_all (suc n) [] h = refl
  take_all (suc n) (x ∷ xs) h = ap (λ t. x ∷ t) (take_all n xs (omega arith))

  pub drop_all : (n : ℕ) (xs : List A) → length xs ≤ n → drop n xs ≡ []
  drop_all zero [] h = refl
  drop_all zero (x ∷ xs) h = elim h [ ]
  drop_all (suc n) [] h = refl
  drop_all (suc n) (x ∷ xs) h = drop_all n xs (omega arith)

  pub drop-nil : (n : ℕ) → drop n [] ≡ []
  drop-nil zero = refl
  drop-nil (suc n) = refl

  -- Cutting off in two rounds is cutting off at once. The sum is a variable with an equation.
  pub drop-drop : (n m k : ℕ) (xs : List A) → n + m ≡ k → drop m (drop n xs) ≡ drop k xs
  drop-drop zero m k xs h = let e : m ≡ k = omega arith in rw e
  drop-drop (suc n) m zero xs h = absurd (omega arith)
  drop-drop (suc n) m (suc k) [] h = drop-nil m
  drop-drop (suc n) m (suc k) (x ∷ xs) h = drop-drop n m k xs (omega arith)

  pub take-add : (n m k : ℕ) (xs : List A) → n + m ≡ k → take n xs ++ take m (drop n xs) ≡ take k xs
  take-add zero m k xs h = let e : m ≡ k = omega arith in rw e
  take-add (suc n) m zero xs h = absurd (omega arith)
  take-add (suc n) zero (suc k) [] h = refl
  take-add (suc n) (suc m) (suc k) [] h = refl
  take-add (suc n) m (suc k) (x ∷ xs) h = ap (λ t. x ∷ t) (take-add n m k xs (omega arith))

  pub take_of_take : (n m : ℕ) (xs : List A) → n ≤ m → take n (take m xs) ≡ take n xs
  take_of_take zero m xs h = refl
  take_of_take (suc n) zero xs h = elim h [ ]
  take_of_take (suc n) (suc m) [] h = refl
  take_of_take (suc n) (suc m) (x ∷ xs) h = ap (λ t. x ∷ t) (take_of_take n m xs (omega arith))

  pub drop-append_length : (xs ys : List A) (n : ℕ) → length xs ≡ n → drop n (xs ++ ys) ≡ ys
  drop-append_length [] ys zero h = refl
  drop-append_length [] ys (suc n) h = absurd (omega arith)
  drop-append_length (x ∷ xs) ys zero h = absurd (omega arith)
  drop-append_length (x ∷ xs) ys (suc n) h = drop-append_length xs ys n (omega arith)

  pub take-append_length : (xs ys : List A) (n : ℕ) → length xs ≡ n → take n (xs ++ ys) ≡ xs
  take-append_length [] ys zero h = refl
  take-append_length [] ys (suc n) h = absurd (omega arith)
  take-append_length (x ∷ xs) ys zero h = absurd (omega arith)
  take-append_length (x ∷ xs) ys (suc n) h =
      ap (λ t. x ∷ t) (take-append_length xs ys n (omega arith))

  -- Dropping what was taken, which may be less than asked for.
  pub drop-length-take : (n : ℕ) (xs : List A) → drop n xs ≡ drop (length (take n xs)) xs
  drop-length-take zero xs = refl
  drop-length-take (suc n) [] = refl
  drop-length-take (suc n) (x ∷ xs) = drop-length-take n xs

  -- A part that lies within the first list.
  pub take-drop-append :
      (i l : ℕ) (xs ys : List A)
      → i + l ≤ length xs
      → take l (drop i (xs ++ ys)) ≡ take l (drop i xs)
  take-drop-append zero zero xs ys h = refl
  take-drop-append zero (suc l) [] ys h = absurd (omega arith)
  take-drop-append zero (suc l) (x ∷ xs) ys h =
      ap (λ t. x ∷ t) (take-drop-append zero l xs ys (omega arith))
  take-drop-append (suc i) zero [] ys h = absurd (omega arith)
  take-drop-append (suc i) (suc l) [] ys h = absurd (omega arith)
  take-drop-append (suc i) l (x ∷ xs) ys h = take-drop-append i l xs ys (omega arith)

module _ {ℓ} {A : Type ℓ} where
  -- Of two ways to cut a list, the one that cuts later goes on from the other.
  pub append-split :
      (xs ys zs ws : List A)
      → xs ++ ys ≡ zs ++ ws
      → length zs ≤ length xs
      → (t : List A) × (xs ≡ zs ++ t) × (ws ≡ t ++ ys)
  append-split xs ys [] ws h l = (xs, refl, sym h)
  append-split [] ys (z ∷ zs) ws h l = absurd (omega arith)
  append-split (x ∷ xs) ys (z ∷ zs) ws h l =
      let (t, e, f) = append-split xs ys zs ws (tail-eq_of_cons-eq h) (omega arith) in
      (t, ap₂ ◌∷◌ (head-eq_of_cons-eq h) e, f)

module _ {ℓ κ} {A : Type ℓ} {B : Type κ} (f : A → B) where
  pub length-map : (xs : List A) → length (map f xs) ≡ length xs
  length-map [] = refl
  length-map (x ∷ xs) = ap suc (length-map xs)

module _ {ℓ κ} {A : Type ℓ} (P : A → Type κ) where
  abbrev pub All : List A → Type κ
  All [] = Unit
  All (x ∷ xs) = P x × All xs

  pub All-append : (xs ys : List A) → All xs → All ys → All (xs ++ ys)
  All-append [] ys _ hy = hy
  All-append (x ∷ xs) ys (px, hx) hy = (px, All-append xs ys hx hy)

module _ {ℓ κ} {A : Type ℓ} {P : A → Type κ} where
  pub All-every : ((a : A) → P a) → (xs : List A) → All P xs
  All-every f [] = tt
  All-every f (x ∷ xs) = (f x, All-every f xs)

module _ {ℓ κ₁ κ₂} {A : Type ℓ} {P : A → Type κ₁} {Q : A → Type κ₂} where
  pub All-map : ((a : A) → P a → Q a) → (xs : List A) → All P xs → All Q xs
  All-map f [] _ = tt
  All-map f (x ∷ xs) (p, h) = (f x p, All-map f xs h)

module _ {ℓ} {A : Type ℓ} where
  abbrev pub get_elem? : List A → ℕ → Option A
  get_elem? [] i = none
  get_elem? (x ∷ xs) zero = some x
  get_elem? (x ∷ xs) (suc i) = get_elem? xs i
