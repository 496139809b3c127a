-- ===== src/Files/Puts.antt =====
-- What `uploadEncryptFileToS3` puts into the bucket.
use lomo_backup.Common.{
  ℕ, ◌+◌, ◌<◌, ◌^◌, ◌≡◌, refl, ap, ◌∙◌, Option, none, some, [], Bytes, length, length-append,
  length-take, take, drop, All, arith,
}
use lomo_backup.Common.Int.{pos, add64_pos}
use lomo_backup.Io.{IoError, Result, ok, seek_end}
use lomo_backup.Io.Cipher.{IsByte, xor_from, length-xor_from}
use lomo_backup.Io.CryptoStream.{Slice}
use lomo_backup.Io.File.{opened, os_file, file_seek, file_write}
use lomo_backup.Crypto.{Primitives, IsLawful, block_size, salt_len, gen_salt, decrypt_stream}
use lomo_backup.Io.File.Write.{IsWritten, file_write-Accepts}
use lomo_backup.Crypto.Encrypt.{file_key, encrypted, encrypt_local_file_lem}
use lomo_backup.Crypto.Decrypt.{decrypt-encrypted}
use lomo_backup.Upload.Request.{RemoteInfo}
use lomo_backup.Files.{
  Object, put, headed, upload_file_to_s3, measured, sent_from_start, file_encrypted, salted_file,
  upload_encrypt_file_to_s3,
}

-- The salt of a file is the first block of its hash.
pub gen_salt_lem :
    (P : Primitives)
    → IsLawful P
    → (content : Bytes)
    → (salt : Slice) × (gen_salt P content ≡ ok salt) × (length salt.elements ≡ block_size)
unfolding gen_salt
gen_salt_lem P L content =
    let h = P.sha256 content in
    let long : length h ≡ 32 = L.length-sha256 content in
    (
      record { elements = take salt_len h; spare = drop salt_len h },
      ground (arith, long),
      omega (arith, length-take salt_len h, long),
    )

seek-end :
    (content : Bytes) (p : ℕ)
    → length content < 2 ^ 63
    → file_seek (opened content p) (pos 0) seek_end ≡ record {
      state = opened content (length content);
      position = pos (length content);
      error = none;
    }
unfolding file_seek
seek-end content p small = rw (file_seek, add64_pos (length content) 0 (omega arith)) (ground arith)

module _ (P : Primitives) (L : IsLawful P) (base64 base : Bytes → Bytes)
    (head : Bytes → Bytes → Result (Option RemoteInfo))
    (put_object : Bytes → Object → Option IoError) (fuel : ℕ) where
  file_encrypted_lem :
      (bucket filename hash content : Bytes) (p : ℕ)
      → length content < 2 ^ 63
      → head bucket (base filename) ≡ ok none
      → file_encrypted P base64 base head put_object fuel bucket filename
          (some (record { dst = opened content p; hash = ok hash }))
        ≡ some (
            put
              (record { key = base filename; hash = base64 hash; body = content })
              (put_object bucket
                (record { key = base filename; hash = base64 hash; body = content })))
  unfolding file_encrypted measured sent_from_start upload_file_to_s3 headed file_seek
  file_encrypted_lem bucket filename hash content p small absent =
      let o : Object = record { key = base filename; hash = base64 hash; body = content } in
      ap (λ r. some (measured P base64 base head put_object fuel bucket filename hash r))
        (seek-end content p small)
      ∙ ap (λ r. some (headed P base64 base head put_object bucket o r)) absent

  -- The object that an encrypted upload puts, for a salt.
  abbrev sealed_object : Bytes → Bytes → Bytes → Slice → Object
  sealed_object filename plain master_key salt = record {
    key = base filename;
    hash = base64 (P.sha256 (encrypted P master_key salt.elements plain));
    body = encrypted P master_key salt.elements plain;
  }

  pub upload_encrypt_file_to_s3_lem :
      (bucket filename plain master_key : Bytes)
      → length plain + 16 < 2 ^ 63
      → length plain + 16 < fuel
      → head bucket (base filename) ≡ ok none
      → (salt : Slice) × (length salt.elements ≡ block_size)
        × (upload_encrypt_file_to_s3 P base64 base head put_object fuel bucket filename plain
              master_key
            ≡ some (
                put
                  (sealed_object filename plain master_key salt)
                  (put_object bucket (sealed_object filename plain master_key salt))))
  unfolding upload_encrypt_file_to_s3 salted_file
  upload_encrypt_file_to_s3_lem bucket filename plain master_key small enough absent =
      let (salt, salt_is, block) = gen_salt_lem P L plain in
      let sealed = encrypted P master_key salt.elements plain in
      let (tmp, did, wrote) =
        encrypt_local_file_lem P L plain (omega arith) file_write IsWritten file_write-Accepts
          master_key salt 0 fuel (opened [] 0) [] block (omega arith) refl in
      let long : length sealed < 2 ^ 63 = omega (
        arith,
        length-append salt.elements (xor_from (file_key P master_key salt.elements) 0 plain),
        length-xor_from (file_key P master_key salt.elements) 0 plain,
        block,
      ) in
      (
        salt,
        block,
        ap (salted_file P base64 base head put_object fuel bucket filename plain master_key) salt_is
            ∙ ap (file_encrypted P base64 base head put_object fuel bucket filename) did
            ∙ ap
                (λ f.
                  file_encrypted P base64 base head put_object fuel bucket filename
                    (some (record { dst = f; hash = ok (P.sha256 sealed) })))
                wrote
            ∙ file_encrypted_lem bucket filename (P.sha256 sealed) sealed (length sealed) long
                absent,
      )

  -- For a file of bytes below 2^63 - 16, fuel above its size and the salt, and no object of its name in the
  -- bucket: one object is put there, under that name, with the encoded hash of its own body, and
  -- decrypting the body under the same master key gives the file back without an error.
  pub upload_encrypt_file_to_s3-decrypts :
      (bucket filename plain master_key : Bytes)
      → All IsByte plain
      → length plain + 16 < 2 ^ 63
      → length plain + 16 < fuel
      → head bucket (base filename) ≡ ok none
      → (o : Object) × (upload_encrypt_file_to_s3 P base64 base head put_object fuel bucket filename
            plain master_key
          ≡ some (put o (put_object bucket o)))
        × (o.key ≡ base filename)
        × (o.hash ≡ base64 (P.sha256 o.body))
        × (decrypt_stream P os_file file_write fuel (opened o.body 0) (opened [] 0) master_key
            ≡ some (record { dst = opened plain (length plain); error = none }))
  upload_encrypt_file_to_s3-decrypts bucket filename plain master_key bytes small enough absent =
      let (salt, block, did) =
        upload_encrypt_file_to_s3_lem bucket filename plain master_key small enough absent in
      let (back, undid, is_plain) =
        decrypt-encrypted P L plain bytes file_write IsWritten file_write-Accepts master_key
          salt.elements block fuel (opened [] 0) [] (omega arith) refl in
      (
        sealed_object filename plain master_key salt,
        did,
        refl,
        refl,
        undid ∙ ap (λ f. some (record { dst = f; error = none })) is_plain,
      )
