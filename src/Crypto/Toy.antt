-- ===== src/Crypto/Toy.antt =====
-- Toy primitives with the lengths that the documentation promises, for runs at concrete inputs.
use lomo_backup.Common.{ℕ, zero, suc, ◌+◌, ◌*◌, ◌%◌, ◌≡◌, refl, ap, [], ◌∷◌, Bytes, length}
use lomo_backup.Crypto.{Primitives, IsLawful}

abbrev pub copies : ℕ → ℕ → Bytes
copies zero c = []
copies (suc n) c = c ∷ copies n c

length-copies : (n c : ℕ) → length (copies n c) ≡ n
length-copies zero c = refl
length-copies (suc n) c = ap suc (length-copies n c)

abbrev pub toy : Primitives
toy = record {
  sha256 = λ b. copies 32 (length b % 256);
  id_key = λ password salt time memory threads key_len. copies key_len (length password);
  key_stream = λ key iv i. (7 * i + length key) % 256;
}

pub toy-IsLawful : IsLawful toy
toy-IsLawful = record {
  length-sha256 = λ b. length-copies 32 (length b % 256);
  length-id_key =
      λ password salt time memory threads key_len. length-copies key_len (length password);
}
