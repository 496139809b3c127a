-- ===== src/Crypto/RoundTrip.antt =====
-- `encryptLocalFile` into a new file, and then `decryptLocalFile` of that file into another.
use lomo_backup.Common.{
  ℕ, ◌+◌, ◌<◌, ◌^◌, ◌≡◌, refl, sym, ap, ◌∙◌, true, some, none, [], Bytes, length, All, arith,
}
use lomo_backup.Io.{ok}
use lomo_backup.Io.Cipher.{IsByte}
use lomo_backup.Io.CryptoStream.{Slice}
use lomo_backup.Io.File.{File, opened, os_file, file_write}
use lomo_backup.Io.File.Write.{IsWritten, file_write-Accepts}
use lomo_backup.Crypto.{Primitives, IsLawful, block_size, encrypt_local_file, decrypt_stream}
use lomo_backup.Crypto.Encrypt.{encrypted, encrypt_local_file_lem}
use lomo_backup.Crypto.Decrypt.{decrypt-encrypted}

-- For a file of bytes below 2^63, a nonce of one block and a round for each byte: encrypting leaves a
-- file and returns the hash of its content, and decrypting that content under the same master key,
-- with no error, leaves a file that is the original.
pub decrypt-encrypt_local_file :
    (P : Primitives)
    → IsLawful P
    → (plain : Bytes) → All IsByte plain
    → length plain < 2 ^ 63
    → (master_key : Bytes) (iv : Slice) (p fuel : ℕ) → length iv.elements ≡ block_size
    → length plain + block_size < fuel
    → (out : File) × (encrypt_local_file P os_file file_write fuel
          (opened plain p)
          (opened [] 0)
          master_key
          iv
          true
        ≡ some (record { dst = out; hash = ok (P.sha256 out.content) }))
      × (decrypt_stream P os_file file_write fuel (opened out.content 0) (opened [] 0) master_key
          ≡ some (record { dst = opened plain (length plain); error = none }))
decrypt-encrypt_local_file P L plain bytes small master_key iv p fuel block enough =
    let (out, did, wrote) =
      encrypt_local_file_lem P L plain small file_write IsWritten file_write-Accepts master_key iv p
        fuel (opened [] 0) [] block enough refl in
    let (back, undid, is_plain) =
      decrypt-encrypted P L plain bytes file_write IsWritten file_write-Accepts master_key
        iv.elements block fuel (opened [] 0) [] (omega arith) refl in
    let content : out.content ≡ encrypted P master_key iv.elements plain =
      ap (λ f. f.content) wrote in
    (
      out,
      did ∙ ap (λ c. some (record { dst = out; hash = ok (P.sha256 c) })) (sym content),
      ap (λ c. decrypt_stream P os_file file_write fuel (opened c 0) (opened [] 0) master_key)
            content
          ∙ undid
          ∙ ap (λ f. some (record { dst = f; error = none })) is_plain,
    )
