-- ===== src/Upload/Encrypted/Command.antt =====
-- cmd/lomob/upload-iso.go, `uploadEncryptParts` as a whole, without the files of `saveParts`, and
-- `uploadISO` behind the upload of the meta file. The calls of the client and the decodings of text are
-- parameters.
use lomo_backup.Common.{
  ℕ, suc, ◌+◌, Bool, true, false, Option, none, some, List, [], ◌∷◌, Bytes, length, take, drop, ltb,
  bytes_eq, if◌then◌else◌,
}
use lomo_backup.Types.{IsoInfo, PartInfo, iso_uploaded}
use lomo_backup.Io.{IoError, Result, ok, err}
use lomo_backup.Io.File.{opened}
use lomo_backup.Io.CryptoStream.{Slice}
use lomo_backup.Crypto.{Primitives, salt_len, derive_key_from_master_key}
use lomo_backup.Dbx.{Tables}
use lomo_backup.Dbx.Iso.{update_iso_status_remote_hash, reset_iso_upload_info}
use lomo_backup.Hash.{concat_and_calculate_base64_hash}
use lomo_backup.Upload.{Prepared, prepared, not_prepared, prepare_upload_parts}
use lomo_backup.Upload.Command.{upload_raw_parts}
use lomo_backup.Upload.Encrypted.{Given, EncryptUpload, encrypt_parts}
use lomo_backup.Upload.Request.{
  UploadRequest, RemoteInfo, Decision, client_failed, other_size, other_hash, no_need, resumed,
  created, prepare_upload_request,
}

-- The state before the first part.
abbrev pub not_begun : Tables → EncryptUpload
not_begun t = record {
  encryptor = none;
  tables = t;
  parts = [];
  failed = [];
  hashes = [];
  sent = [];
  stopped = none;
}

module _ (P : Primitives) (hex base64 base before_dash : Bytes → Bytes)
    (unhex unbase64 : Bytes → Result Bytes) (head : Bytes → Bytes → Result (Option RemoteInfo))
    (create : Bytes → Bytes → Result UploadRequest) (upload : UploadRequest → Given → Result Bytes)
    (complete : UploadRequest → List PartInfo → Bytes → Option IoError) where
  -- The end, with the client's answer to `CompleteMultipartUpload`.
  completed : IsoInfo → Bytes → Tables → Option IoError → Tables × Bool
  completed iso hash t (some e) = (t, false)
  completed iso hash t none = (update_iso_status_remote_hash iso.id hash iso_uploaded t, true)

  -- After the loop: an error, parts that failed, or the hash of the hashes.
  unfoldable pub finish_encrypted : IsoInfo → UploadRequest → EncryptUpload → Tables × Bool
  unfolding completed
  finish_encrypted iso request st = elim st.stopped [
    | some e ↦ (st.tables, false)
    | none ↦ elim st.failed [
      | n ∷ failed ↦ (st.tables, false)
      | [] ↦
          let hash = concat_and_calculate_base64_hash P.sha256 base64 st.hashes in
          completed iso hash st.tables (complete request st.parts hash)
    ]
  ]

  encrypted_looped : IsoInfo → UploadRequest → Option EncryptUpload → Option (Tables × Bool)
  encrypted_looped iso request none = none
  encrypted_looped iso request (some st) = some (finish_encrypted iso request st)

  encrypted_decided :
      Bytes → Bytes → Slice → IsoInfo → List PartInfo → Tables → Decision → Option (Tables × Bool)
  unfolding encrypted_looped
  encrypted_decided content key salt iso parts t (client_failed e) = some (t, false)
  encrypted_decided content key salt iso parts t other_size = some (t, false)
  encrypted_decided content key salt iso parts t other_hash = some (t, false)
  encrypted_decided content key salt iso parts t no_need = some (t, true)
  encrypted_decided content key salt iso parts t (resumed request) = encrypted_looped iso request (
      encrypt_parts P (suc (length content)) key salt base64 unbase64 (upload request)
        (opened content 0) parts (not_begun t))
  encrypted_decided content key salt iso parts t (created request iso' t') =
      encrypted_looped iso' request (
        encrypt_parts P (suc (length content)) key salt base64 unbase64 (upload request)
          (opened content 0) parts (not_begun t'))

  -- The salt is the start of the image's hash, and the size grows by it.
  salt_found :
      Bytes
      → Bytes
      → Bytes
      → Bytes
      → Bool
      → IsoInfo
      → List PartInfo
      → Tables
      → Result Bytes
      → Option (Tables × Bool)
  unfolding encrypted_decided
  salt_found region bucket content master_key force iso parts t (err e) = some (t, false)
  salt_found region bucket content master_key force iso parts t (ok decoded) =
      let salt : Slice = record {
        elements = take salt_len decoded;
        spare = drop salt_len decoded;
      } in
      let iso' = record iso { size = iso.size + salt_len; hash_remote = [] } in
      let rest =
        encrypted_decided content (derive_key_from_master_key P master_key salt.elements) salt iso'
          parts t
          (prepare_upload_request base before_dash head create region bucket iso' force t) in
      if ltb (length decoded) salt_len then some (t, false) else rest

  encrypted_prepared :
      Bytes → Bytes → Bytes → Bytes → Bool → Tables → Prepared → Option (Tables × Bool)
  unfolding salt_found
  encrypted_prepared region bucket content master_key force t (not_prepared e) = some (t, false)
  encrypted_prepared region bucket content master_key force t (prepared iso parts t') =
      salt_found region bucket content master_key force iso parts t' (unhex iso.hash_local)

  -- `uploadEncryptParts`: the tables, and whether it succeeded.
  unfoldable pub upload_encrypt_parts :
      Bytes → Bytes → Bytes → Bytes → Bytes → ℕ → Bool → ℕ → Tables → Option (Tables × Bool)
  unfolding encrypted_prepared
  upload_encrypt_parts region bucket name content master_key part_size force now t =
      encrypted_prepared region bucket content master_key force t
        (prepare_upload_parts P.sha256 hex base64 name content part_size false now t)

  -- `uploadISO` after the meta file is uploaded.
  unfoldable pub upload_iso :
      Bytes → Bytes → Bytes → Bytes → Bytes → ℕ → Bool → ℕ → Tables → Option (Tables × Bool)
  upload_iso region bucket name content master_key part_size force now t =
      let t' = if force then reset_iso_upload_info name t else t in
      if bytes_eq master_key []
      then upload_raw_parts P.sha256 hex base64 base before_dash head create
          (λ request number size body hash.
            upload request (record { number = number; size = size; body = body; hash = hash }))
          complete region bucket name content part_size force now t'
      else upload_encrypt_parts region bucket name content master_key part_size force now t'
