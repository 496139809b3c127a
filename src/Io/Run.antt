-- ===== src/Io/Run.antt =====
-- Calls of a service: each changes the state of the service, or of whatever it stands for, whether it
-- answers a value or an error.
use lomo_backup.Common.{◌≡◌, refl, ap, arith}
use lomo_backup.Io.{IoError, Result, ok, err}

abbrev pub Action : Type 0 → Type 0 → Type 0
Action V A = V → Result A × V

-- A call that answers an error or nothing.
abbrev pub Call : Type 0 → Type 0
Call V = Action V (Unit {0})

module _ {V A : Type 0} where
  abbrev pub pure : A → Action V A
  pure a v = (ok a, v)

  abbrev pub raise : IoError → Action V A
  raise e v = (err e, v)

infixl 5 ◌>>=◌ ◌>>◌
abbrev pub ◌>>=◌ : {V A B : Type 0} → Action V A → (A → Action V B) → Action V B
◌>>=◌ m f v = let (r, v') = m v in elim r [ ok a ↦ f a v' | err e ↦ raise e v' ]

abbrev pub ◌>>◌ : {V A B : Type 0} → Action V A → Action V B → Action V B
m >> k = m >>= λ _. k

-- `if err != nil` with a way out of some errors.
abbrev pub rescue : {V A : Type 0} → Action V A → (IoError → Action V A) → Action V A
rescue m f v = let (r, v') = m v in elim r [ ok a ↦ (ok a, v') | err e ↦ f e v' ]

abbrev follow : {V A B : Type 0} → (A → Action V B) → Result A × V → Result B × V
follow f (r, v) = elim r [ ok a ↦ f a v | err e ↦ raise e v ]

-- A call that succeeds is followed by the rest, and one that fails by nothing.
module _ {V A B : Type 0} (m : Action V A) (f : A → Action V B) {v v' : V} where
  pub then_ok : {a : A} → m v ≡ (ok a, v') → (m >>= f) v ≡ f a v'
  then_ok e = ap (follow f) e

  pub then_err : {x : IoError} → m v ≡ (err x, v') → (m >>= f) v ≡ (err x, v')
  then_err e = ap (follow f) e

abbrev rescued : {V A : Type 0} → (IoError → Action V A) → Result A × V → Result A × V
rescued f (r, v) = elim r [ ok a ↦ (ok a, v) | err e ↦ f e v ]

pub rescue_ok :
    {V A : Type 0} (m : Action V A) (f : IoError → Action V A) {v v' : V} {a : A}
    → m v ≡ (ok a, v')
    → rescue m f v ≡ (ok a, v')
rescue_ok m f e = ap (rescued f) e

-- What succeeds as a whole has succeeded at first, and then in the rest.
follow_inv :
    {V A B : Type 0} (f : A → Action V B) (p : Result A × V) (b : B) (v' : V)
    → follow f p ≡ (ok b, v')
    → (a : A) × (v : V) × (p ≡ (ok a, v)) × (f a v ≡ (ok b, v'))
follow_inv f (ok a, v) b v' h = (a, v, refl, h)
follow_inv f (err e, v) b v' h = ground (arith, h)

pub then_inv :
    {V A B : Type 0} (m : Action V A) (f : A → Action V B) (v v' : V) (b : B)
    → (m >>= f) v ≡ (ok b, v')
    → (a : A) × (v₁ : V) × (m v ≡ (ok a, v₁)) × (f a v₁ ≡ (ok b, v'))
then_inv m f v v' b h = follow_inv f (m v) b v' h

pub pure_inv :
    {V A : Type 0} (a b : A) (v v' : V)
    → ◌≡◌ {A = Result A × V} (ok a, v) (ok b, v')
    → (a ≡ b) × (v ≡ v')
pure_inv a b v v' h = (ap (λ p. elim p.0 [ ok x ↦ x | err _ ↦ a ]) h, ap (λ p. p.1) h)
