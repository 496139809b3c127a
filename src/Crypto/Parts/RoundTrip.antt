-- ===== src/Crypto/Parts/RoundTrip.antt =====
-- `encryptCmd` with a part size into new files, and then `decryptLocalFile`.
use lomo_backup.Common.{
  ℕ, ◌+◌, ◌<◌, ◌≤◌, ◌^◌, ◌≡◌, refl, sym, ap, ◌∙◌, subst, some, none, List, [], Bytes, length, All,
  arith,
}
use lomo_backup.Common.Int.{pos}
use lomo_backup.Io.{ok}
use lomo_backup.Io.Cipher.{IsByte}
use lomo_backup.Io.CryptoStream.{Slice}
use lomo_backup.Io.File.{File, opened, os_file, file_write}
use lomo_backup.Io.File.Write.{IsWritten, file_write-Accepts}
use lomo_backup.Crypto.{Primitives, IsLawful, block_size, decrypt_stream}
use lomo_backup.Crypto.Encrypt.{encrypted}
use lomo_backup.Crypto.Decrypt.{decrypt-encrypted}
use lomo_backup.Crypto.Parts.{encrypt_in_parts}
use lomo_backup.Crypto.Parts.Whole.{AreParts, encrypt_in_parts_lem}

-- For a file of at least 16 bytes and parts of at least 16: encrypting it in parts leaves an encrypted
-- file whose consecutive pieces the part files have, and decrypting the encrypted file under the same
-- master key gives the original back without an error.
pub decrypt-encrypt_in_parts :
    (P : Primitives)
    → IsLawful P
    → (plain : Bytes) → All IsByte plain
    → 16 ≤ length plain
    → length plain + 16 < 2 ^ 63
    → (master_key : Bytes) (salt : Slice) (p s fuel : ℕ) → length salt.elements ≡ block_size
    → 16 ≤ s
    → length plain + 1 < fuel
    → (out : File) × (parts : List File) × (encrypt_in_parts P fuel file_write
          (λ i. ok (opened [] 0))
          master_key
          salt
          (pos s)
          (opened plain p)
          (pos (length plain))
          fuel
          (opened [] 0)
        ≡ some (record { dst = out; parts = parts; error = none }))
      × AreParts IsWritten s parts out.content
      × (decrypt_stream P os_file file_write fuel (opened out.content 0) (opened [] 0) master_key
          ≡ some (record { dst = opened plain (length plain); error = none }))
decrypt-encrypt_in_parts P L plain bytes long small master_key salt p s fuel block s_long enough =
    let (out, parts, did, wrote, are) =
      encrypt_in_parts_lem P L plain small master_key salt block file_write IsWritten
        file_write-Accepts (λ i. ok (opened [] 0)) (λ i. (opened [] 0, refl, refl)) fuel
        (omega arith) s s_long p fuel [] (opened [] 0) long enough refl in
    let (back, undid, is_plain) =
      decrypt-encrypted P L plain bytes file_write IsWritten file_write-Accepts master_key
        salt.elements block fuel (opened [] 0) [] (omega arith) refl in
    let content : out.content ≡ encrypted P master_key salt.elements plain =
      ap (λ f. f.content) wrote in
    (
      out,
      parts,
      did,
      subst (AreParts IsWritten s parts) (sym content) are,
      ap (λ c. decrypt_stream P os_file file_write fuel (opened c 0) (opened [] 0) master_key)
            content
          ∙ undid
          ∙ ap (λ f. some (record { dst = f; error = none })) is_plain,
    )
