-- ===== src/Datasize/Parse.antt =====
-- What `UnmarshalText` computes on every text, stated in arithmetic without a bound.
use native.Mathlib.Nat.{div-lt_iff_lt-mul}
use lomo_backup.Common.{
  ℕ, ◌+◌, ◌-◌, ◌*◌, ◌%◌, ◌^◌, ◌≤◌, ◌<◌, Bool, true, false, Option, none, some, [], ◌∷◌, ◌≡◌, refl,
  inl, inr, Bytes, codes, arith, leb, if◌then◌else◌, Bool-cases, leb→le, ap,
}
use lomo_backup.Datasize.{
  kb, mb, gb, tb, pb, eb, max_uint64, Parsed, accepted, overflow, syntax_error, bits_error,
  is_digit, trim_space, to_lower, one_of, scale_by, scale, finish, parse_loop, parse,
}
use lomo_backup.Datasize.Decimal.{value, le-value}

abbrev pub leading_digits : Bytes → Bytes
leading_digits [] = []
leading_digits (c ∷ t) = let ds = c ∷ leading_digits t in if is_digit c then ds else []

abbrev pub after_digits : Bytes → Bytes
after_digits [] = []
after_digits (c ∷ t) = let rest = after_digits t in if is_digit c then rest else c ∷ t

-- A number of units of `m` bytes: exact if it fits into 64 bits.
abbrev pub exact : ℕ → ℕ → Parsed
exact n m = if leb (n * m) max_uint64 then accepted (n * m) else overflow

scale_by-exact : (n m : ℕ) → 0 < m → scale_by n m ≡ exact n m
unfolding scale_by
scale_by-exact n m h = ground (
  arith,
  (div-lt_iff_lt-mul {k = m} {x = max_uint64} {y = n} h).0,
  (div-lt_iff_lt-mul {k = m} {x = max_uint64} {y = n} h).1,
)

-- The units of `UnmarshalText`, in lower case, and the bytes that each stands for.
abbrev pub unit_size : Bytes → Option ℕ
unit_size u =
    if one_of u ([] ∷ codes "b" ∷ codes "byte" ∷ [])
    then some 1
    else if one_of u
        (codes "k" ∷ codes "kb" ∷ codes "kilo" ∷ codes "kilobyte" ∷ codes "kilobytes" ∷ [])
    then some (10 ^ 3)
    else if one_of u
        (codes "m" ∷ codes "mb" ∷ codes "mega" ∷ codes "megabyte" ∷ codes "megabytes" ∷ [])
    then some (10 ^ 6)
    else if one_of u
        (codes "g" ∷ codes "gb" ∷ codes "giga" ∷ codes "gigabyte" ∷ codes "gigabytes" ∷ [])
    then some (10 ^ 9)
    else if one_of u
        (codes "t" ∷ codes "tb" ∷ codes "tera" ∷ codes "terabyte" ∷ codes "terabytes" ∷ [])
    then some (10 ^ 12)
    else if one_of u
        (codes "p" ∷ codes "pb" ∷ codes "peta" ∷ codes "petabyte" ∷ codes "petabytes" ∷ [])
    then some (10 ^ 15)
    else if one_of u (codes "E" ∷ codes "EB" ∷ codes "e" ∷ codes "eb" ∷ codes "eB" ∷ [])
    then some (10 ^ 18)
    else none

-- What stands behind the digits, for a number that fits.
abbrev pub unit_reference : ℕ → Bytes → Parsed
unit_reference n rest =
    if one_of (trim_space rest)
      (codes "Kb" ∷ codes "Mb" ∷ codes "Gb" ∷ codes "Tb" ∷ codes "Pb" ∷ codes "Eb" ∷ [])
    then bits_error
    else elim (unit_size (to_lower (trim_space rest))) [ none ↦ syntax_error | some m ↦ exact n m ]

-- The whole parser: no digit is a syntax error, but for the empty text.
abbrev pub reference : Bytes → Parsed
reference [] = accepted 0
reference (c ∷ t) =
    let n = value 0 (leading_digits (c ∷ t)) in
    if is_digit c
    then if leb n max_uint64 then unit_reference n (after_digits (c ∷ t)) else overflow
    else syntax_error

scale_reference :
    (n : ℕ) (u : Bytes)
    → n ≤ max_uint64
    → scale n u ≡ elim (unit_size u) [ none ↦ syntax_error | some m ↦ exact n m ]
unfolding scale
scale_reference n u h = ground (
  arith,
  scale_by-exact n kb (omega arith),
  scale_by-exact n mb (omega arith),
  scale_by-exact n gb (omega arith),
  scale_by-exact n tb (omega arith),
  scale_by-exact n pb (omega arith),
  scale_by-exact n eb (omega arith),
)

finish_reference : (n : ℕ) (rest : Bytes) → n ≤ max_uint64 → finish n rest ≡ unit_reference n rest
unfolding finish
finish_reference n rest h = ground (arith, scale_reference n (to_lower (trim_space rest)) h)

-- One digit of the loop: the two tests refuse exactly what does not fit into 64 bits.
parse_loop_digit :
    (first : Bool) (v c : ℕ) (t : Bytes)
    → is_digit c ≡ true
    → v ≤ max_uint64
    → parse_loop first v (c ∷ t) ≡ (
        if leb (v * 10 + (c - b'0')) max_uint64
        then parse_loop false (v * 10 + (c - b'0')) t
        else overflow)
unfolding parse_loop
parse_loop_digit first v c t d h = elim (Bool-cases (leb (v * 10 + (c - b'0')) max_uint64)) [
  | inl fits ↦
      let fits' : v * 10 + (c - b'0') ≤ max_uint64 = leb→le _ _ fits in
      let e : ((v * 10) % 2 ^ 64 + (c - b'0')) % 2 ^ 64 ≡ v * 10 + (c - b'0') = omega arith in
      ground (arith, ap (parse_loop false) e)
  | inr large ↦ ground arith
]

loop_reference :
    (v : ℕ) (t : Bytes)
    → v ≤ max_uint64
    → parse_loop false v t ≡ (
        let n = value v (leading_digits t) in
        if leb n max_uint64 then unit_reference n (after_digits t) else overflow)
unfolding parse_loop
loop_reference v [] h = ground (arith, finish_reference v [] h)
loop_reference v (c ∷ t) h = ground (
  arith,
  parse_loop_digit false v c t,
  loop_reference (v * 10 + (c - b'0')) t,
  finish_reference v (c ∷ t) h,
  le-value (v * 10 + (c - b'0')) (leading_digits t),
)

finish-nil : finish 0 [] ≡ accepted 0
unfolding finish trim_space to_lower scale one_of
finish-nil = refl

-- `Parse` computes the reference on every text: the arithmetic in 64 bits never wraps around
-- unnoticed, and the overflow tests refuse exactly the sizes of 2^64 bytes and more.
pub parse-eq-reference : (t : Bytes) → parse t ≡ reference t
unfolding parse
parse-eq-reference [] = finish-nil
parse-eq-reference (c ∷ t) = ground (
  arith,
  parse_loop_digit true 0 c t,
  loop_reference (c - b'0') t,
  le-value (c - b'0') (leading_digits t),
)
