-- ===== src/Upload/Metafile.antt =====
-- cmd/lomob/upload-iso.go, `uploadISOMetafile`, and `uploadISO` with it. The tree of an image is the
-- answer of `genTreeInIso`, and `found` is what opening and reading the meta file gives.
use lomo_backup.Common.{
  ℕ, Bool, false, Option, none, some, [], ◌∷◌, ◌++◌, List, Bytes, codes, bytes_eq, if◌then◌else◌,
}
use lomo_backup.Types.{PartInfo}
use lomo_backup.Io.{IoError, Result, ok, err}
use lomo_backup.Crypto.{Primitives}
use lomo_backup.Dbx.{Tables}
use lomo_backup.Upload.Request.{UploadRequest, RemoteInfo, FoundMeta, validate_iso_metafile}
use lomo_backup.Upload.Encrypted.{Given}
use lomo_backup.Upload.Encrypted.Command.{upload_iso}
use lomo_backup.Files.{
  Object, Put, failed_before, goes_on, upload_raw_file_to_s3, upload_encrypt_file_to_s3,
}

-- `mkIsoMetadataFilename`
abbrev pub mk_iso_metadata_filename : Bytes → Bytes
mk_iso_metadata_filename iso_filename = iso_filename ++ codes ".meta.txt"

module _ (P : Primitives) (hex base64 base before_dash : Bytes → Bytes)
    (unhex unbase64 : Bytes → Result Bytes) (head : Bytes → Bytes → Result (Option RemoteInfo))
    (create : Bytes → Bytes → Result UploadRequest) (upload : UploadRequest → Given → Result Bytes)
    (complete : UploadRequest → List PartInfo → Bytes → Option IoError)
    (put_object : Bytes → Object → Option IoError) (fuel : ℕ) where
  put_done : Option Put → Option (Option Put)
  put_done none = none
  put_done (some p) = some (some p)

  -- With the answer of `validateISOMetafile`, whose error is not returned: then nothing is uploaded.
  validated : Bytes → Bytes → Bytes → Result Bytes → Option (Option Put)
  unfolding put_done
  validated bucket name master_key (err e) = some none
  validated bucket name master_key (ok content) = put_done (
      if bytes_eq master_key []
      then upload_raw_file_to_s3 P base64 base head put_object fuel bucket name content
      else upload_encrypt_file_to_s3 P base64 base head put_object fuel bucket name content
          master_key)

  -- `uploadISOMetafile`, with the error of `os.WriteFile` for the meta file; `none` if the fuel of a copy
  -- runs out, and `some none` if it returns before an upload without an error. The tree is written with a
  -- line break behind it.
  unfoldable pub upload_iso_metafile :
      Bytes → Bytes → Bytes → Result Bytes → FoundMeta → Option IoError → Option (Option Put)
  unfolding validated
  upload_iso_metafile bucket iso_filename master_key (err e) found write =
      some (some (failed_before e))
  upload_iso_metafile bucket iso_filename master_key (ok tree) found write =
      validated bucket (mk_iso_metadata_filename iso_filename) master_key
        (validate_iso_metafile found write (tree ++ b'\n' ∷ []))

  -- After the meta file: the upload of the image, or the end.
  behind_metafile : Tables → Option (Option Put) → Option (Tables × Bool) → Option (Tables × Bool)
  behind_metafile t none uploaded = none
  behind_metafile t (some none) uploaded = uploaded
  behind_metafile t (some (some p)) uploaded = if goes_on p then uploaded else some (t, false)

  -- `uploadISO`
  unfoldable pub upload_iso_whole :
      Bytes
      → Bytes
      → Bytes
      → Bytes
      → Bytes
      → ℕ
      → Bool
      → ℕ
      → Result Bytes
      → FoundMeta
      → Option IoError
      → Tables
      → Option (Tables × Bool)
  unfolding behind_metafile
  upload_iso_whole region bucket name content master_key part_size force now tree found write t =
      behind_metafile t (upload_iso_metafile bucket name master_key tree found write) (
        upload_iso P hex base64 base before_dash unhex unbase64 head create upload complete region
          bucket name content master_key part_size force now t)
