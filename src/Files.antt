-- ===== src/Files.antt =====
-- cmd/lomob/upload-files.go: single files that are put into a bucket, as they are or encrypted. The calls
-- of the client, base 64 and `filepath.Base` are parameters. A temporary file can always be made.
pub mod Puts
pub mod Folders
pub mod Drive
mod Tests
use lomo_backup.Common.{
  ℕ, suc, ◌+◌, Bool, true, false, Option, none, some, List, [], ◌∷◌, Bytes, length, drop, bytes_eq,
  if◌then◌else◌,
}
use lomo_backup.Common.Int.{pos}
use lomo_backup.Io.{IoError, Result, ok, err, SeekResult, seek_start, seek_end}
use lomo_backup.Io.File.{File, opened, os_file, file_seek, file_write}
use lomo_backup.Io.CryptoStream.{Slice}
use lomo_backup.Crypto.{Primitives, Encrypted, copy_buffer, salt_len, gen_salt, encrypt_local_file}
use lomo_backup.Hash.{calculate_hash_file}
use lomo_backup.Upload.Request.{RemoteInfo}

-- What `cli.PutObject` is called with; the body is what the reader has left.
pub record Object : Type 0 where
  pub key : Bytes
  pub hash : Bytes
  pub body : Bytes

-- What becomes of a file: an error before the upload, an object of that name that is there already, or
-- the answer to `PutObject`.
pub data Put : Type 0 where
  failed_before : IoError → Put
  exists_already : Put
  put : Object → Option IoError → Put

-- Whether the command goes on with the next file.
abbrev pub goes_on : Put → Bool
goes_on exists_already = true
goes_on (put o none) = true
goes_on _ = false

module _ (P : Primitives) (base64 base : Bytes → Bytes)
    (head : Bytes → Bytes → Result (Option RemoteInfo))
    (put_object : Bytes → Object → Option IoError) where
  headed : Bytes → Object → Result (Option RemoteInfo) → Put
  headed bucket o (err e) = failed_before e
  headed bucket o (ok (some remote)) = exists_already
  headed bucket o (ok none) = put o (put_object bucket o)

  -- `uploadFileToS3`. Size and hash of an object that is there are not looked at: the code that would
  -- do so is never reached.
  unfoldable pub upload_file_to_s3 : Bytes → Bytes → Bytes → File → Put
  unfolding headed
  upload_file_to_s3 bucket name hash reader =
      headed bucket (record { key = name; hash = hash; body = drop reader.position reader.content })
        (head bucket name)

  raw_hashed : Bytes → Bytes → Bytes → Option (Result Bytes) → Option Put
  raw_hashed bucket filename content none = none
  raw_hashed bucket filename content (some (err e)) = some (failed_before e)
  raw_hashed bucket filename content (some (ok h)) =
      some (upload_file_to_s3 bucket (base filename) (base64 h) (opened content 0))

  module _ (fuel : ℕ) where
    -- `uploadRawFileToS3` of a file with the given content; `none` if the fuel of a copy runs out.
    unfoldable pub upload_raw_file_to_s3 : Bytes → Bytes → Bytes → Option Put
    unfolding raw_hashed
    upload_raw_file_to_s3 bucket filename content =
        raw_hashed bucket filename content
          (calculate_hash_file P.sha256 copy_buffer fuel (opened content 0))

    sent_from_start : Bytes → Bytes → Bytes → SeekResult File → Put
    sent_from_start bucket filename hash r = elim r.error [
      | some e ↦ failed_before e
      | none ↦ upload_file_to_s3 bucket (base filename) (base64 hash) r.state
    ]

    -- After `Seek` to the end, which tells the size: back to the start.
    measured : Bytes → Bytes → Bytes → SeekResult File → Put
    measured bucket filename hash end = elim end.error [
      | some e ↦ failed_before e
      | none ↦ sent_from_start bucket filename hash (file_seek end.state (pos 0) seek_start)
    ]

    file_encrypted : Bytes → Bytes → Option (Encrypted File) → Option Put
    unfolding measured sent_from_start
    file_encrypted bucket filename none = none
    file_encrypted bucket filename (some e) = some (elim e.hash [
      | err x ↦ failed_before x
      | ok h ↦ measured bucket filename h (file_seek e.dst (pos 0) seek_end)
    ])

    salted_file : Bytes → Bytes → Bytes → Bytes → Result Slice → Option Put
    unfolding file_encrypted
    salted_file bucket filename content master_key (err e) = some (failed_before e)
    salted_file bucket filename content master_key (ok salt) = file_encrypted bucket filename (
        encrypt_local_file P os_file file_write fuel (opened content 0) (opened [] 0) master_key
          salt true)

    -- `uploadEncryptFileToS3`
    unfoldable pub upload_encrypt_file_to_s3 : Bytes → Bytes → Bytes → Bytes → Option Put
    unfolding salted_file
    upload_encrypt_file_to_s3 bucket filename content master_key =
        salted_file bucket filename content master_key (gen_salt P content)

    abbrev pub one_file : Bytes → Bytes → Bytes × Bytes → Option Put
    one_file bucket master_key (filename, content) =
        if bytes_eq master_key []
        then upload_raw_file_to_s3 bucket filename content
        else upload_encrypt_file_to_s3 bucket filename content master_key

    -- The loop of `uploadFilesToS3` over names and contents, up to the first error.
    files_from : Option Put → Option (List Put) → Option (List Put)
    files_from none rest = none
    files_from (some p) none = if goes_on p then none else some (p ∷ [])
    files_from (some p) (some ps) = if goes_on p then some (p ∷ ps) else some (p ∷ [])

    unfoldable pub upload_files_to_s3 : Bytes → Bytes → List (Bytes × Bytes) → Option (List Put)
    unfolding files_from
    upload_files_to_s3 bucket master_key [] = some []
    upload_files_to_s3 bucket master_key (f ∷ files) =
        files_from (one_file bucket master_key f) (upload_files_to_s3 bucket master_key files)
