-- ===== src/Crypto/Received.antt =====
-- Decrypting what any reader sends, in pieces of any size: the end of `restoreGdriveFile`.
use lomo_backup.Common.{
  ℕ, ◌<◌, ◌+◌, ◌≡◌, ap, ◌∙◌, subst, none, some, [], ◌++◌, Bytes, length, All, arith,
}
use lomo_backup.Io.{WriteResult, ReadSeeker, Accepts, Sends}
use lomo_backup.Io.Cipher.{IsByte, xor_from, xor_from-twice, length-xor_from}
use lomo_backup.Io.CopyInto.{copy_into-Finishes}
use lomo_backup.Io.ReadFull.{read_full-Fills}
use lomo_backup.Io.CryptoStream
use lomo_backup.Io.CryptoStream.Write.{IsOpening, write-Accepts}
use lomo_backup.Crypto.{
  Primitives, IsLawful, block_size, decrypt_stream, copy_buffer, decrypt_with, decrypted_copy,
  decrypt_after_nonce,
}
use lomo_backup.Crypto.Encrypt.{file_key, file_stream, encrypted}
use lomo_backup.Crypto.Decrypt.{new_decryptor_lem, IsOpening-start}

module _ (P : Primitives) (L : IsLawful P) (plain : Bytes) (bytes : All IsByte plain) {W S : Type 0}
    (write : W → Bytes → WriteResult W) (Holds : W → Bytes → Type 0) (accepts : Accepts write Holds)
    (inner : ReadSeeker S) (Inv : S → Bytes → Type 0)
    (sends : (n : ℕ) → 0 < n → Sends inner.read n Inv) where
  -- A reader that sends a file encrypted under the same master key, in reads of any sizes of which the
  -- last may come together with the end, is decrypted without an error, and its bytes are appended to the destination.
  pub decrypt_stream-Sends :
      (master_key iv : Bytes) (fuel : ℕ) (s : S) (dst : W) (before : Bytes)
      → length iv ≡ block_size
      → length plain + 16 < fuel
      → Inv s (encrypted P master_key iv plain)
      → Holds dst before
      → (dst' : W) × (decrypt_stream P inner write fuel s dst master_key
          ≡ some (record { dst = dst'; error = none }))
        × Holds dst' (before ++ plain)
  unfolding decrypt_stream decrypted_copy
  decrypt_stream-Sends master_key iv fuel s dst before block enough i h =
      let key = file_key P master_key iv in
      let cipher = xor_from key 0 plain in
      let (s₁, nonce, i₁) =
        read_full-Fills inner.read Inv sends block_size fuel s [] iv cipher (omega arith)
          (omega arith) (omega arith) i in
      let (s₂, w, done, ended, written) =
        copy_into-Finishes (CryptoStream.write write) inner.read copy_buffer Inv
          (sends copy_buffer (omega arith)) (IsOpening write Holds accepts key before)
          (write-Accepts write Holds accepts key before) fuel s₁
          (record { f = dst; stream = file_stream P master_key iv }) cipher []
          (omega (arith, length-xor_from key 0 plain)) i₁
          (IsOpening-start P L plain bytes write Holds accepts master_key iv block dst before h) in
      (
        w.f,
        ap (decrypt_after_nonce P inner write fuel master_key dst) nonce
            ∙ ap (decrypt_with P inner write fuel s₁ dst)
                (new_decryptor_lem P L plain bytes write Holds accepts master_key iv block dst)
            ∙ ap (decrypted_copy P inner write fuel) done,
        subst (λ t. Holds w.f (before ++ t)) (xor_from-twice key 0 plain bytes) written.inner_holds,
      )
