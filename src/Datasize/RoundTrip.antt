-- ===== src/Datasize/RoundTrip.antt =====
-- Every size is read back from its print.
use native.Mathlib.Nat.{div-add-mod', div-le_self}
use lomo_backup.Common.{
  ℕ, ◌*◌, ◌/◌, ◌%◌, ◌≤◌, false, [], ◌∷◌, ◌++◌, ◌≡◌, ◌≢◌, refl, ap, inl, inr, ◌∙◌, Bytes, codes,
  arith, ◌==◌, if◌then◌else◌, Bool-cases, All, ==_iff,
}
use lomo_backup.Datasize.{
  kb, mb, gb, tb, pb, eb, max_uint64, accepted, is_digit, decimal, string, parse, trim_space,
  to_lower, one_of,
}
use lomo_backup.Datasize.Decimal.{value, IsDigit, value-decimal, decimal-IsDigit, decimal-ne-nil}
use lomo_backup.Datasize.Parse.{
  leading_digits, after_digits, exact, unit_reference, reference, parse-eq-reference,
}

module _ (c : ℕ) (t : Bytes) (behind : is_digit c ≡ false) where
  leading_digits-append : (ds : Bytes) → All IsDigit ds → leading_digits (ds ++ c ∷ t) ≡ ds
  leading_digits-append [] h = rw behind
  leading_digits-append (d ∷ ds) (hd, h) = rw hd (ap (λ s. d ∷ s) (leading_digits-append ds h))

  after_digits-append : (ds : Bytes) → All IsDigit ds → after_digits (ds ++ c ∷ t) ≡ c ∷ t
  after_digits-append [] h = rw behind
  after_digits-append (d ∷ ds) (hd, h) = rw hd (after_digits-append ds h)

  reference-append :
      (ds : Bytes)
      → All IsDigit ds
      → ds ≢ []
      → value 0 ds ≤ max_uint64
      → reference (ds ++ c ∷ t) ≡ unit_reference (value 0 ds) (c ∷ t)
  reference-append [] h ne fits = absurd (ne refl)
  reference-append (d ∷ ds) (hd, h) ne fits =
      ground (arith, leading_digits-append ds h, after_digits-append ds h)

  parse-decimal : (n : ℕ) → n ≤ max_uint64 → parse (decimal n ++ c ∷ t) ≡ unit_reference n (c ∷ t)
  parse-decimal n h =
      parse-eq-reference _
      ∙ reference-append (decimal n) (decimal-IsDigit n) (decimal-ne-nil n) (rw value-decimal h)
      ∙ ap (λ m. unit_reference m (c ∷ t)) (value-decimal n)

module _ (n : ℕ) where
  unit_B : unit_reference n (codes "B") ≡ exact n 1
  unfolding trim_space to_lower one_of
  unit_B = refl

  unit_kb : unit_reference n (codes "KB") ≡ exact n kb
  unfolding trim_space to_lower one_of
  unit_kb = refl

  unit_mb : unit_reference n (codes "MB") ≡ exact n mb
  unfolding trim_space to_lower one_of
  unit_mb = refl

  unit_gb : unit_reference n (codes "GB") ≡ exact n gb
  unfolding trim_space to_lower one_of
  unit_gb = refl

  unit_tb : unit_reference n (codes "TB") ≡ exact n tb
  unfolding trim_space to_lower one_of
  unit_tb = refl

  unit_pb : unit_reference n (codes "PB") ≡ exact n pb
  unfolding trim_space to_lower one_of
  unit_pb = refl

  unit_eb : unit_reference n (codes "EB") ≡ exact n eb
  unfolding trim_space to_lower one_of
  unit_eb = refl

zero_bytes : parse (codes "0B") ≡ accepted 0
zero_bytes = parse-eq-reference (codes "0B") ∙ unit_B 0

-- One case of the `switch`: a size that the unit divides is read back from its number of units.
case_unit :
    (b m c : ℕ) (t rest : Bytes)
    → b ≤ max_uint64
    → is_digit c ≡ false
    → ((n : ℕ) → unit_reference n (c ∷ t) ≡ exact n m)
    → parse rest ≡ accepted b
    → parse (if b % m == 0 then decimal (b / m) ++ c ∷ t else rest) ≡ accepted b
case_unit b m c t rest h behind unit other = elim (Bool-cases (b % m == 0)) [
  | inl divides ↦
      let whole : b / m * m ≡ b = omega (arith, (==_iff (b % m) 0).0 divides, div-add-mod' b m) in
      rw divides (
        parse-decimal c t behind (b / m) (omega (arith, div-le_self b m))
        ∙ unit (b / m)
        ∙ ground (arith, whole))
  | inr rests ↦ rw rests other
]

-- `Parse` reads every size back from its `String`, with no error and no rounding.
pub parse-string : (b : ℕ) → b ≤ max_uint64 → parse (string b) ≡ accepted b
unfolding string
parse-string b h = elim (Bool-cases (b == 0)) [
  | inl z ↦ let e : b ≡ 0 = (==_iff b 0).0 z in rw (z, e) zero_bytes
  | inr p ↦ rw p (
      case_unit b eb b'E' (codes "B") _ h refl unit_eb (
        case_unit b pb b'P' (codes "B") _ h refl unit_pb (
          case_unit b tb b'T' (codes "B") _ h refl unit_tb (
            case_unit b gb b'G' (codes "B") _ h refl unit_gb (
              case_unit b mb b'M' (codes "B") _ h refl unit_mb (
                case_unit b kb b'K' (codes "B") _ h refl unit_kb
                  (parse-decimal b'B' [] refl b h ∙ unit_B b ∙ ground arith)))))))
]
