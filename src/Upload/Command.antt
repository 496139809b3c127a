-- ===== src/Upload/Command.antt =====
-- cmd/lomob/upload-iso.go, `uploadRawParts` as a whole, without the files of `saveParts`. The client's
-- four calls are parameters.
use lomo_backup.Common.{ℕ, suc, Bool, true, false, Option, none, some, List, Bytes, length}
use lomo_backup.Types.{IsoInfo, PartInfo}
use lomo_backup.Io.{IoError, Result}
use lomo_backup.Io.File.{opened}
use lomo_backup.Dbx.{Tables}
use lomo_backup.Upload.{Prepared, prepared, not_prepared, prepare_upload_parts}
use lomo_backup.Upload.Raw.{RawUpload, raw_parts}
use lomo_backup.Upload.Request.{
  UploadRequest, RemoteInfo, Decision, client_failed, other_size, other_hash, no_need, resumed,
  created, prepare_upload_request, finish_upload,
}

module _ (sha256 hex base64 base before_dash : Bytes → Bytes)
    (head : Bytes → Bytes → Result (Option RemoteInfo))
    (create : Bytes → Bytes → Result UploadRequest)
    (upload : UploadRequest → ℕ → ℕ → Bytes → Bytes → Result Bytes)
    (complete : UploadRequest → List PartInfo → Bytes → Option IoError) where
  -- The tables, and whether the command succeeded; `none` if the fuel of a copy runs out.
  looped : IsoInfo → UploadRequest → Option RawUpload → Option (Tables × Bool)
  looped iso request none = none
  looped iso request (some r) =
      some (finish_upload iso r.failed (complete request r.parts iso.hash_remote) r.tables)

  decided : Bytes → IsoInfo → List PartInfo → Tables → Decision → Option (Tables × Bool)
  unfolding looped
  decided content iso parts t (client_failed e) = some (t, false)
  decided content iso parts t other_size = some (t, false)
  decided content iso parts t other_hash = some (t, false)
  decided content iso parts t no_need = some (t, true)
  decided content iso parts t (resumed request) =
      looped iso request
        (raw_parts (upload request) (suc (length content)) parts 0 (opened content 0) t)
  decided content iso parts t (created request iso' t') =
      looped iso' request
        (raw_parts (upload request) (suc (length content)) parts 0 (opened content 0) t')

  upload_prepared : Bytes → Bytes → Bytes → Bool → Tables → Prepared → Option (Tables × Bool)
  unfolding decided
  upload_prepared region bucket content force t (not_prepared e) = some (t, false)
  upload_prepared region bucket content force t (prepared iso parts t') =
      decided content iso parts t'
        (prepare_upload_request base before_dash head create region bucket iso force t')

  unfoldable pub upload_raw_parts :
      Bytes → Bytes → Bytes → Bytes → ℕ → Bool → ℕ → Tables → Option (Tables × Bool)
  unfolding upload_prepared
  upload_raw_parts region bucket name content part_size force now t =
      upload_prepared region bucket content force t
        (prepare_upload_parts sha256 hex base64 name content part_size true now t)
