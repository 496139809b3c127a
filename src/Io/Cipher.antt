-- ===== src/Io/Cipher.antt =====
-- `cipher.Stream`: a key stream and how much of it is used. `XORKeyStream` combines each byte with
-- the next byte of the key stream. The key stream of a block cipher in counter mode is a parameter
-- wherever one is made.
use native.Mathlib.Nat.{pow-suc}
use mathlib.Core.Path.{ap₂}
use lomo_backup.Common.{
  ℕ, zero, suc, ◌+◌, ◌*◌, ◌/◌, ◌%◌, ◌^◌, ◌<◌, ◌≡◌, refl, [], ◌∷◌, ◌++◌, Bytes, length, arith, All,
  ap,
}

-- Exclusive or of numbers of `k` bits, from the lowest bit.
xor_bits : ℕ → ℕ → ℕ → ℕ
xor_bits zero a b = 0
xor_bits (suc k) a b = (a + b) % 2 + 2 * xor_bits k (a / 2) (b / 2)

unfoldable pub xor8 : ℕ → ℕ → ℕ
unfolding xor_bits
xor8 a b = xor_bits 8 a b

xor_bits_twice : (k a b : ℕ) → a < 2 ^ k → xor_bits k (xor_bits k a b) b ≡ a
unfolding xor_bits
xor_bits_twice zero a b h = omega arith
xor_bits_twice (suc k) a b h =
    let r = xor_bits k (a / 2) (b / 2) in
    let half : ((a + b) % 2 + 2 * r) / 2 ≡ r = omega arith in
    let low : ((a + b) % 2 + 2 * r + b) % 2 ≡ a % 2 = omega arith in
    let small : a / 2 < 2 ^ k = omega (arith, pow-suc 2 k) in
    rw (half, xor_bits_twice k (a / 2) (b / 2) small) (omega arith)

abbrev pub IsByte : ℕ → Type 0
IsByte c = c < 256

pub record Stream : Type 0 where
  pub key_byte : ℕ → ℕ
  pub used : ℕ

unfoldable pub xor_from : (ℕ → ℕ) → ℕ → Bytes → Bytes
xor_from key i [] = []
xor_from key i (c ∷ s) = xor8 c (key i) ∷ xor_from key (suc i) s

-- `XORKeyStream(dst, src)`: the new bytes, and the stream behind them.
abbrev pub xor_key_stream : Stream → Bytes → Bytes × Stream
xor_key_stream st src =
    (xor_from st.key_byte st.used src, record st { used = st.used + length src })

pub xor_from-nil : (key : ℕ → ℕ) (i : ℕ) → xor_from key i [] ≡ []
unfolding xor_from
xor_from-nil key i = refl

pub length-xor_from : (key : ℕ → ℕ) (i : ℕ) (s : Bytes) → length (xor_from key i s) ≡ length s
unfolding xor_from
length-xor_from key i [] = refl
length-xor_from key i (c ∷ s) = ap suc (length-xor_from key (suc i) s)

-- Two pieces in turn are one piece. The place of the second is a variable with an equation.
pub xor_from-append :
    (key : ℕ → ℕ) (i j : ℕ) (s t : Bytes)
    → i + length s ≡ j
    → xor_from key i (s ++ t) ≡ xor_from key i s ++ xor_from key j t
unfolding xor_from
xor_from-append key i j [] t h = let e : i ≡ j = omega arith in rw e
xor_from-append key i j (c ∷ s) t h =
    ap (λ r. xor8 c (key i) ∷ r) (xor_from-append key (suc i) j s t (omega arith))

-- The same key stream takes the cipher away again.
pub xor_from-twice :
    (key : ℕ → ℕ) (i : ℕ) (s : Bytes) → All IsByte s → xor_from key i (xor_from key i s) ≡ s
unfolding xor_from xor8
xor_from-twice key i [] h = refl
xor_from-twice key i (c ∷ s) (hc, h) =
    ap₂ ◌∷◌ (xor_bits_twice 8 c (key i) hc) (xor_from-twice key (suc i) s h)
