-- ===== src/Crypto/Decrypt.antt =====
-- Decrypting what was encrypted gives the file back: `decryptLocalFile` and `MasterDecryptor`.
use lomo_backup.Common.{
  ℕ, zero, suc, ◌<◌, ◌≡◌, refl, sym, ap, ◌∙◌, subst, none, some, [], ◌++◌, Bytes, length, drop, All,
  arith, append-nil, drop-append_length,
}
use lomo_backup.Io.{WriteResult, Accepts, ok, Serves-Sends}
use lomo_backup.Io.Cipher.{IsByte, xor_from, xor_from-nil, xor_from-twice, length-xor_from}
use lomo_backup.Io.CopyInto.{copy_into-Finishes}
use lomo_backup.Io.File.{opened, file_read, os_file}
use lomo_backup.Io.File.Read.{IsReading, file_read-Serves, file_read-start}
use lomo_backup.Io.ReadFull.{read_full, read_full-first}
use lomo_backup.Io.CryptoStream
use lomo_backup.Io.CryptoStream.{CryptoStreamWriter}
use lomo_backup.Io.CryptoStream.Write.{IsOpening, write-Accepts}
use lomo_backup.Crypto.{
  Primitives, IsLawful, block_size, derive_key_from_master_key, new_decryptor, decrypt_stream,
  copy_buffer, decrypt_with, decrypted_copy, decrypt_after_nonce,
}
use lomo_backup.Crypto.Encrypt.{file_key, file_stream, encrypted, new_cipher_stream_lem}

module _ (P : Primitives) (L : IsLawful P) (plain : Bytes) (bytes : All IsByte plain) {W : Type 0}
    (write : W → Bytes → WriteResult W) (Holds : W → Bytes → Type 0) (accepts : Accepts write Holds)
    (master_key iv : Bytes) (block : length iv ≡ block_size) where
  pub new_decryptor_lem :
      (w : W)
      → new_decryptor P write w (derive_key_from_master_key P master_key iv) iv
        ≡ ok (record { f = w; stream = file_stream P master_key iv })
  unfolding new_decryptor
  new_decryptor_lem w = rw (new_decryptor, new_cipher_stream_lem P master_key iv L block)

  pub IsOpening-start :
      (w : W) (before : Bytes)
      → Holds w before
      → IsOpening write Holds accepts
          (file_key P master_key iv)
          before
          (record { f = w; stream = file_stream P master_key iv })
          []
  IsOpening-start w before h = record {
    at_place = refl;
    inner_holds = rw (xor_from-nil (file_key P master_key iv) 0, append-nil) h;
  }

  nonce :
      (fuel : ℕ)
      → length plain < fuel
      → read_full file_read block_size fuel (opened (encrypted P master_key iv plain) 0) []
        ≡ some (record {
          state = opened (encrypted P master_key iv plain) block_size;
          bytes = iv;
          error = none;
        })
  nonce zero h = ground arith
  nonce (suc fuel) h =
      read_full-first file_read block_size fuel _ _ iv
        (file_read-start iv (xor_from (file_key P master_key iv) 0 plain) block_size (omega arith)
          block)
        block

  -- With a round for each byte and one for the end, decrypting an open file that was encrypted under
  -- the same master key appends the original bytes to the destination, without an error.
  pub decrypt-encrypted :
      (fuel : ℕ) (dst : W) (before : Bytes)
      → length plain < fuel
      → Holds dst before
      → (dst' : W) × (decrypt_stream P os_file write fuel
            (opened (encrypted P master_key iv plain) 0)
            dst
            master_key
          ≡ some (record { dst = dst'; error = none }))
        × Holds dst' (before ++ plain)
  unfolding decrypted_copy
  decrypt-encrypted fuel dst before enough holds =
      let key = file_key P master_key iv in
      let cipher = xor_from key 0 plain in
      let content = encrypted P master_key iv plain in
      let n_pos : 0 < copy_buffer = omega arith in
      let behind : cipher ≡ drop block_size content =
        sym (drop-append_length iv cipher block_size block) in
      let size : length cipher < fuel = omega (arith, length-xor_from key 0 plain) in
      let (s, w, done, ended, written) =
        copy_into-Finishes (CryptoStream.write write) file_read copy_buffer
          (IsReading content copy_buffer n_pos)
          (Serves-Sends file_read copy_buffer (IsReading content copy_buffer n_pos)
            (file_read-Serves content copy_buffer n_pos))
          (IsOpening write Holds accepts key before) (write-Accepts write Holds accepts key before)
          fuel (opened content block_size)
          (record { f = dst; stream = file_stream P master_key iv }) cipher [] size
          (record { done = block_size; is_open = refl; left = behind })
          (IsOpening-start dst before holds) in
      (
        w.f,
        unfold decrypt_stream in
            ap (decrypt_after_nonce P os_file write fuel master_key dst) (nonce fuel enough)
            ∙ ap (decrypt_with P os_file write fuel (opened content block_size) dst)
                (new_decryptor_lem dst)
            ∙ ap (decrypted_copy P os_file write fuel) done,
        subst (λ t. Holds w.f (before ++ t)) (xor_from-twice key 0 plain bytes) written.inner_holds,
      )
