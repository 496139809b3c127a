-- ===== src/Crypto/Encrypt.antt =====
-- `encryptLocalFile` writes the nonce and the file under the key stream, and returns the hash of all
-- that it wrote.
use lomo_backup.Common.{
  ℕ, ◌+◌, ◌<◌, ◌^◌, ◌*◌, ◌≡◌, refl, ap, ◌∙◌, true, Option, none, some, ◌++◌, Bytes, length, arith,
  length-append,
}
use lomo_backup.Common.Int.{pos, add64_pos}
use lomo_backup.Io.{WriteResult, Accepts, ok, seek_start, seek_end, Serves-Sends}
use lomo_backup.Io.Cipher.{Stream, xor_from, length-xor_from}
use lomo_backup.Io.CopyInto.{copy_into-Finishes}
use lomo_backup.Io.File.{opened, file_seek, os_file}
use lomo_backup.Io.File.Read.{IsReading, file_read-Serves}
use lomo_backup.Io.CryptoStream
use lomo_backup.Io.CryptoStream.{Slice, CryptoStreamReader, Made, made, new_crypto_stream_reader}
use lomo_backup.Io.CryptoStream.Read.{
  new_crypto_stream_reader-made, fresh, fresh-IsSealing, IsSealing, read-Serves, at_end-HasHashed,
}
use lomo_backup.Crypto.{
  Primitives, IsLawful, block_size, new_cipher_stream, derive_key_from_master_key, new_encryptor,
  encrypt_local_file, copy_buffer, argon2_key_length, encrypt_with, encrypted_copy, encryptor_made,
}

module _ (P : Primitives) (master_key iv : Bytes) where
  -- The key stream of a file.
  abbrev pub file_key : ℕ → ℕ
  file_key = P.key_stream (derive_key_from_master_key P master_key iv) iv

  abbrev pub file_stream : Stream
  file_stream = record { key_byte = file_key; used = 0 }

  -- The nonce and the file under the key stream.
  abbrev pub encrypted : Bytes → Bytes
  encrypted plain = iv ++ xor_from file_key 0 plain

  -- The derived key has a size that AES knows.
  pub new_cipher_stream_lem :
      IsLawful P
      → length iv ≡ block_size
      → new_cipher_stream P (derive_key_from_master_key P master_key iv) iv ≡ ok file_stream
  unfolding new_cipher_stream derive_key_from_master_key
  new_cipher_stream_lem L block =
      ground (arith, L.length-id_key master_key iv 1 (64 * 1024) 4 argon2_key_length, block)

-- `NewCryptoStreamReader` measures an open file and goes back to its start.
new_reader_lem :
    (content : Bytes) (p : ℕ) (nonce : Slice) (stream : Option Stream)
    → length content < 2 ^ 63
    → new_crypto_stream_reader os_file (opened content p) nonce stream
      ≡ made (fresh (opened content 0) (pos (length content)) nonce stream)
new_reader_lem content p nonce stream small =
    new_crypto_stream_reader-made os_file (opened content p) (opened content (length content))
      (opened content 0) (pos (length content)) (pos 0) nonce stream (to_end small) to_start
  where
    to_end :
        length content < 2 ^ 63
        → file_seek (opened content p) (pos 0) seek_end ≡ record {
          state = opened content (length content);
          position = pos (length content);
          error = none;
        }
    to_end h =
        unfold file_seek in
        rw (file_seek, add64_pos (length content) 0 (omega arith)) (ground arith)

    to_start :
        file_seek (opened content (length content)) (pos 0) seek_start
        ≡ record { state = opened content 0; position = pos 0; error = none }
    to_start = unfold file_seek in refl

module _ (P : Primitives) (L : IsLawful P) (plain : Bytes) (small : length plain < 2 ^ 63) where
  pub new_encryptor_lem :
      (master_key : Bytes) (iv : Slice) (p : ℕ)
      → length iv.elements ≡ block_size
      → new_encryptor P os_file
          (opened plain p)
          (derive_key_from_master_key P master_key iv.elements)
          iv
          true
        ≡ ok (
            fresh
              (opened plain 0)
              (pos (length plain))
              iv
              (some (file_stream P master_key iv.elements)))
  unfolding new_encryptor encryptor_made
  new_encryptor_lem master_key iv p block = rw (
    new_encryptor,
    new_cipher_stream_lem P master_key iv.elements L block,
    new_reader_lem plain p iv (some (file_stream P master_key iv.elements)) small,
  )

  module _ {W : Type 0} (write : W → Bytes → WriteResult W) (Holds : W → Bytes → Type 0)
      (accepts : Accepts write Holds) where
    -- With a round for each byte and one for the end, encrypting an open file, which may stand
    -- anywhere, appends the nonce and the file under the key stream to the destination, and returns
    -- the hash of what it appended.
    pub encrypt_local_file_lem :
        (master_key : Bytes) (iv : Slice) (p fuel : ℕ) (dst : W) (before : Bytes)
        → length iv.elements ≡ block_size
        → length plain + block_size < fuel
        → Holds dst before
        → (dst' : W) × (encrypt_local_file P os_file write fuel
              (opened plain p)
              dst
              master_key
              iv
              true
            ≡ some (record {
              dst = dst';
              hash = ok (P.sha256 (encrypted P master_key iv.elements plain));
            }))
          × Holds dst' (before ++ encrypted P master_key iv.elements plain)
    unfolding CryptoStream.get_hash_encrypt encrypted_copy
    encrypt_local_file_lem master_key iv p fuel dst before block enough holds =
        let n_pos : 0 < copy_buffer = omega arith in
        let key = file_key P master_key iv.elements in
        let Reading = IsReading plain copy_buffer n_pos in
        let serves = file_read-Serves plain copy_buffer n_pos in
        let start =
          fresh (opened plain 0) (pos (length plain)) iv
            (some (file_stream P master_key iv.elements)) in
        let size : length (encrypted P master_key iv.elements plain) < fuel =
          omega (
            arith,
            length-append iv.elements (xor_from key 0 plain),
            length-xor_from key 0 plain,
          ) in
        let (r, w, done, ended, written) =
          copy_into-Finishes write (CryptoStream.read os_file) copy_buffer
            (IsSealing os_file copy_buffer Reading serves iv key plain)
            (Serves-Sends (CryptoStream.read os_file) copy_buffer
              (IsSealing os_file copy_buffer Reading serves iv key plain)
              (read-Serves os_file copy_buffer Reading serves iv key plain n_pos))
            Holds accepts fuel start dst (encrypted P master_key iv.elements plain) before size
            (fresh-IsSealing os_file copy_buffer Reading serves iv key plain (opened plain 0) _
              (record { done = 0; is_open = refl; left = refl }))
            holds in
        let hashed = at_end-HasHashed os_file copy_buffer Reading serves iv key plain r ended in
        (
          w,
          unfold encrypt_local_file in
              ap (encrypt_with P os_file write fuel (opened plain p) dst)
                (new_encryptor_lem master_key iv p block)
              ∙ ap (encrypted_copy P os_file write fuel) done
              ∙ ap (λ h. some (record { dst = w; hash = ok (P.sha256 h) })) hashed.1,
          written,
        )
