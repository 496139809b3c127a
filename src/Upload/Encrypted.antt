-- ===== src/Upload/Encrypted.antt =====
-- cmd/lomob/upload-iso.go, the loop of `uploadEncryptParts` without the files of `saveParts`. A part is
-- encrypted into a temporary file, which can always be made and sought back to its start. The client
-- and the decoding of base 64 are parameters.
pub mod Command
pub mod Sent
pub mod Whole
pub mod Fresh
mod Tests
use lomo_backup.Common.{
  ℕ, zero, suc, ◌+◌, Bool, true, false, Option, none, some, List, [], ◌∷◌, ◌++◌, Bytes, length,
  ◌==◌, if◌then◌else◌,
}
use lomo_backup.Common.Int.{ℤ, pos, add64, sub64}
use lomo_backup.Types.{PartInfo, part_uploaded, part_upload_failed}
use lomo_backup.Io.{IoError, Result, ok, err, WriteResult}
use lomo_backup.Io.File.{File, opened, file_write}
use lomo_backup.Io.MultiWriter.{multi_write}
use lomo_backup.Io.CryptoStream.{Slice}
use lomo_backup.Crypto.{Primitives, salt_len}
use lomo_backup.Crypto.Parts.{Encryptor, PartWritten, encrypt_part}
use lomo_backup.Dbx.{Tables}
use lomo_backup.Dbx.Iso.Parts.{update_part_status, update_part_etag_and_status_hash}
use lomo_backup.Upload.Raw.{is_uploaded}

-- Writing to a hash does not fail.
abbrev pub hash_write : Bytes → Bytes → WriteResult Bytes
hash_write text b = record { state = text ++ b; written = length b; error = none }

-- What `cli.Upload` is called with.
pub record Given : Type 0 where
  pub number : ℕ
  pub size : ℕ
  pub body : Bytes
  pub hash : Bytes

-- The variables of the loop, with the parts that are done, what the client was given, and the error
-- that ended the loop.
pub record EncryptUpload : Type 0 where
  pub encryptor : Option Encryptor
  pub tables : Tables
  pub parts : List PartInfo
  pub failed : List ℕ
  pub hashes : List Bytes
  pub sent : List Given
  pub stopped : Option IoError

-- The last part is longer by the salt.
unfoldable pub sized : PartInfo → List PartInfo → PartInfo
sized p [] = record p { size = p.size + salt_len }
sized p (q ∷ ps) = p

module _ (P : Primitives) (fuel : ℕ) (key : Bytes) (salt : Slice) (base64 : Bytes → Bytes)
    (unbase64 : Bytes → Result Bytes) (upload : Given → Result Bytes) (src : File) where
  abbrev pub given_of : PartInfo → Bytes → File → Given
  given_of p text tmp = record {
    number = p.part_no;
    size = p.size;
    body = tmp.content;
    hash = base64 (P.sha256 text);
  }

  -- After the client's answer.
  pub answered :
      PartInfo → Given → Bytes → Option Encryptor → EncryptUpload → Result Bytes → EncryptUpload
  answered p g h en st (err e) = record st {
    encryptor = en;
    tables = update_part_status p.iso_id p.part_no part_upload_failed st.tables;
    parts = st.parts ++ record p { hash_remote = g.hash; etag = [] } ∷ [];
    failed = st.failed ++ p.part_no ∷ [];
    sent = st.sent ++ g ∷ [];
  }
  answered p g h en st (ok etag) = record st {
    encryptor = en;
    tables =
        update_part_etag_and_status_hash p.iso_id p.part_no etag p.hash_local g.hash part_uploaded
          st.tables;
    parts = st.parts ++ record p { hash_remote = g.hash; etag = etag } ∷ [];
    hashes = st.hashes ++ h ∷ [];
    sent = st.sent ++ g ∷ [];
  }

  -- After the part is encrypted.
  pub part_encrypted :
      (EncryptUpload → Option EncryptUpload)
      → PartInfo
      → EncryptUpload
      → Option (PartWritten (Bytes × File))
      → Option EncryptUpload
  unfolding answered
  part_encrypted next p st none = none
  part_encrypted next p st (some r) =
      let g = given_of p r.writer.0 r.writer.1 in
      let later = next (answered p g (P.sha256 r.writer.0) r.encryptor st (upload g)) in
      elim r.error [
        | some e ↦ some (record st { encryptor = r.encryptor; stopped = some e })
        | none ↦ later
      ]

  -- A part that was uploaded before.
  pub part_kept :
      (EncryptUpload → Option EncryptUpload)
      → PartInfo
      → EncryptUpload
      → Result Bytes
      → Option EncryptUpload
  part_kept next p st (err e) = some (record st { stopped = some e })
  part_kept next p st (ok h) =
      next (record st { parts = st.parts ++ p ∷ []; hashes = st.hashes ++ h ∷ [] })

  -- The part [start, end) of the image.
  pub upload_part :
      (EncryptUpload → Option EncryptUpload)
      → PartInfo
      → ℤ
      → ℤ
      → EncryptUpload
      → Option EncryptUpload
  unfolding part_encrypted part_kept
  upload_part next p start end st =
      let kept = part_kept next p st (unbase64 p.hash_remote) in
      let made = part_encrypted next p st (
        encrypt_part P fuel key salt (multi_write hash_write file_write) src start end st.encryptor
          ([], opened [] 0)) in
      if is_uploaded p.status then kept else made

  -- The parts behind the first, which begin at `end`.
  unfoldable pub later_parts : List PartInfo → ℤ → EncryptUpload → Option EncryptUpload
  unfolding upload_part
  later_parts [] end st = some st
  later_parts (p ∷ ps) end st =
      let q = sized p ps in
      upload_part (later_parts ps (add64 end (pos q.size))) q end (add64 end (pos q.size)) st

  -- All parts; the first has the salt.
  unfoldable pub encrypt_parts : List PartInfo → EncryptUpload → Option EncryptUpload
  unfolding upload_part
  encrypt_parts [] st = some st
  encrypt_parts (p ∷ ps) st =
      let q = sized p ps in
      let end = sub64 (pos q.size) (pos salt_len) in
      upload_part (later_parts ps end) q (pos 0) end st
