-- ===== src/Datasize/Decimal.antt =====
-- Decimal digits: what a run of digits is worth, and what `%d` prints.
use mathlib.Core.List.{cons-ne-nil}
use lomo_backup.Common.{
  ℕ, zero, suc, ◌+◌, ◌-◌, ◌*◌, ◌/◌, ◌%◌, ◌≤◌, true, [], ◌∷◌, ◌≡◌, ◌≢◌, refl, inl, inr, Bytes, All,
  arith, ◌==◌, Bool-cases,
}
use lomo_backup.Datasize.{digits_onto, decimal, is_digit}

-- The number that digits spell behind `v`, with no bound.
abbrev pub value : ℕ → Bytes → ℕ
value v [] = v
value v (c ∷ s) = value (v * 10 + (c - b'0')) s

abbrev pub IsDigit : ℕ → Type 0
IsDigit c = is_digit c ≡ true

pub le-value : (v : ℕ) (s : Bytes) → v ≤ value v s
le-value v [] = omega arith
le-value v (c ∷ s) = omega (arith, le-value (v * 10 + (c - b'0')) s)

value-digits_onto :
    (fuel n : ℕ) (out : Bytes) → n ≤ fuel → value 0 (digits_onto fuel n out) ≡ value n out
unfolding digits_onto
value-digits_onto zero n out h = let e : n ≡ 0 = omega arith in rw e
value-digits_onto (suc fuel) n out h = elim (Bool-cases (n == 0)) [
  | inl z ↦ let e : n ≡ 0 = ground arith in rw (z, e)
  | inr p ↦
      rw p (ground (arith, value-digits_onto fuel (n / 10) ((b'0' + n % 10) ∷ out) (ground arith)))
]

digits_onto-IsDigit :
    (fuel n : ℕ) (out : Bytes) → All IsDigit out → All IsDigit (digits_onto fuel n out)
unfolding digits_onto
digits_onto-IsDigit zero n out h = h
digits_onto-IsDigit (suc fuel) n out h = elim (Bool-cases (n == 0)) [
  | inl z ↦ rw z h
  | inr p ↦ rw p (digits_onto-IsDigit fuel (n / 10) ((b'0' + n % 10) ∷ out) (ground arith, h))
]

digits_onto-ne-nil : (fuel n : ℕ) (out : Bytes) → out ≢ [] → digits_onto fuel n out ≢ []
unfolding digits_onto
digits_onto-ne-nil zero n out h = h
digits_onto-ne-nil (suc fuel) n out h = elim (Bool-cases (n == 0)) [
  | inl z ↦ rw z h
  | inr p ↦ rw p (digits_onto-ne-nil fuel (n / 10) ((b'0' + n % 10) ∷ out) (cons-ne-nil _ _))
]

-- The print of a number spells it.
pub value-decimal : (n : ℕ) → value 0 (decimal n) ≡ n
unfolding decimal
value-decimal n = elim (Bool-cases (n == 0)) [
  | inl z ↦ let e : n ≡ 0 = ground arith in rw (z, e)
  | inr p ↦ rw p (value-digits_onto n n [] (omega arith))
]

pub decimal-IsDigit : (n : ℕ) → All IsDigit (decimal n)
unfolding decimal
decimal-IsDigit n = elim (Bool-cases (n == 0)) [
  | inl z ↦ rw z (refl, tt)
  | inr p ↦ rw p (digits_onto-IsDigit n n [] tt)
]

pub decimal-ne-nil : (n : ℕ) → decimal n ≢ []
unfolding decimal digits_onto
decimal-ne-nil zero = λ e. cc
decimal-ne-nil (suc n) = ground (
  arith,
  digits_onto-ne-nil n (suc n / 10) ((b'0' + suc n % 10) ∷ []) (cons-ne-nil (b'0' + suc n % 10) []),
)
