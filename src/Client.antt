-- ===== src/Client.antt =====
-- clients/upload.go: what `AWSClient` makes of the calls of the SDK, which are the parameter `Service`.
-- A pointer that may be nil is an Option, and `panicked` where it is followed all the same.
pub mod Abort
pub mod Calls
mod Tests
use lomo_backup.Common.{
  ℕ, zero, suc, Bool, true, false, Option, none, some, List, [], ◌∷◌, Bytes, codes, map, bytes_eq,
  if◌then◌else◌,
}
use lomo_backup.Types.{PartInfo}
use lomo_backup.Io.{
  IoError, service, wrapped, panicked, empty_upload_id, empty_bucket, empty_key, Result, ok, err,
  ReadResult, WriteResult,
}
use lomo_backup.Io.Run.{Action, Call, pure, raise, ◌>>=◌, ◌>>◌, rescue}
use lomo_backup.Io.CopyInto.{CopiedInto, copy_into}
use lomo_backup.Crypto.{copy_buffer}
use lomo_backup.Upload.Request.{UploadRequest, RemoteInfo}

-- `s3.PutObjectInput`, whose body is a reader in R.
pub record PutInput (R : Type 0) : Type 0 where
  pub body : R
  pub bucket : Bytes
  pub key : Bytes
  pub content_type : Bytes
  pub checksum : Bytes
  pub storage_class : Bytes

-- `s3.CreateMultipartUploadInput`
pub record CreateInput : Type 0 where
  pub bucket : Bytes
  pub key : Bytes
  pub content_type : Bytes
  pub storage_class : Bytes

-- `s3.CreateMultipartUploadOutput`
pub record CreateOutput : Type 0 where
  pub upload_id : Option Bytes
  pub bucket : Option Bytes
  pub key : Option Bytes

-- `s3.UploadPartInput`
pub record PartInput (R : Type 0) : Type 0 where
  pub body : R
  pub bucket : Bytes
  pub key : Bytes
  pub part_number : ℕ
  pub upload_id : Bytes
  pub content_length : ℕ
  pub checksum : Bytes

-- `s3.CompletedPart`
pub record CompletedPart : Type 0 where
  pub part_number : ℕ
  pub etag : Bytes
  pub checksum : Bytes

-- `s3.HeadObjectOutput`
pub record HeadOutput : Type 0 where
  pub content_length : Option ℕ
  pub checksum : Option Bytes

-- `s3.MultipartUpload`
pub record MultipartUpload : Type 0 where
  pub initiated : Option ℕ
  pub upload_id : Option Bytes
  pub key : Option Bytes

-- An upload in a list: `UploadRequest` with its time and without its bucket.
pub record Uploading : Type 0 where
  pub time : ℕ
  pub id : Bytes
  pub key : Bytes

-- The calls of `s3.S3`; the body of an object is a reader in S.
pub record Service (V R S : Type 0) : Type 0 where
  pub head_bucket : Bytes → Call V
  pub create_bucket : Bytes → Call V
  pub head_object : Bytes → Bytes → Action V HeadOutput
  pub put_object : PutInput R → Call V
  pub create_multipart_upload : CreateInput → Action V CreateOutput
  pub upload_part : PartInput R → Action V (Option Bytes)
  pub complete_multipart_upload : UploadRequest → List CompletedPart → Bytes → Call V
  pub abort_multipart_upload : UploadRequest → Call V
  pub list_multipart_uploads : Bytes → Action V (List MultipartUpload)
  pub get_object : Bytes → Bytes → Action V S

-- Whether an error has the code of something that is not there.
unfoldable pub is_not_found : IoError → Bool
is_not_found (service code) = bytes_eq code (codes "NotFound")
is_not_found _ = false

-- `maxRetries`
abbrev pub max_retries : ℕ
max_retries = 1

-- The requests of a list of uploads.
unfoldable pub requests_of : List MultipartUpload → Result (List Uploading)
requests_of [] = ok []
requests_of (u ∷ us) =
    let rest = requests_of us in
    elim u.initiated [
      | none ↦ err panicked
      | some t ↦ elim u.upload_id [
        | none ↦ err panicked
        | some i ↦ elim u.key [
          | none ↦ err panicked
          | some k ↦ elim rest [
            | err e ↦ err e
            | ok rs ↦ ok (record { time = t; id = i; key = k } ∷ rs)
          ]
        ]
      ]
    ]

-- The ids of a new upload, which must all be there.
unfoldable pub request_of : CreateOutput → Result UploadRequest
request_of o = elim o.upload_id [
  | none ↦ err empty_upload_id
  | some i ↦ elim o.bucket [
    | none ↦ err empty_bucket
    | some b ↦ elim o.key [
      | none ↦ err empty_key
      | some k ↦ ok (record { id = i; bucket = b; key = k })
    ]
  ]
]

-- What `GetObject` leaves: the writer, the count and the error.
pub record Got (W : Type 0) : Type 0 where
  pub writer : W
  pub written : ℕ
  pub error : Option IoError

module _ {V R S : Type 0} (svc : Service V R S) where
  -- `ListMultipartUploads`
  unfoldable pub list_multipart_uploads : Bytes → Action V (List Uploading)
  list_multipart_uploads bucket v =
      let (r, v') = svc.list_multipart_uploads bucket v in
      elim r [ err e ↦ (err e, v') | ok us ↦ (requests_of us, v') ]

  -- `HeadObject`; no information without an error says that there is no such object.
  unfoldable pub head_object : Bytes → Bytes → Action V (Option RemoteInfo)
  head_object bucket remote_path v =
      let (r, v') = svc.head_object bucket remote_path v in
      elim r [
        | ok o ↦ (
          ok (
              some (record {
                size = elim o.content_length [ none ↦ 0 | some n ↦ n ];
                hash_remote = elim o.checksum [ none ↦ [] | some h ↦ h ];
              })),
          v',
        )
        | err e ↦ if is_not_found e then (ok none, v') else (err e, v')
      ]

  -- A bucket that was not found is made.
  abbrev made_if_missing : Bytes → IoError → Call V
  made_if_missing bucket e v = if is_not_found e then svc.create_bucket bucket v else raise e v

  -- `createBucketIfNotExist`
  unfoldable pub create_bucket_if_not_exist : Bytes → Call V
  create_bucket_if_not_exist bucket = rescue (svc.head_bucket bucket) (made_if_missing bucket)

  -- `PutObject`
  unfoldable pub put_object : Bytes → Bytes → Bytes → Bytes → Bytes → R → Call V
  put_object bucket remote_path checksum file_type storage_class reader = do
    create_bucket_if_not_exist bucket
    svc.put_object (record {
      body = reader;
      bucket = bucket;
      key = remote_path;
      content_type = file_type;
      checksum = checksum;
      storage_class = storage_class;
    })

  -- `CreateMultipartUpload`
  unfoldable pub create_multipart_upload : Bytes → Bytes → Bytes → Bytes → Action V UploadRequest
  create_multipart_upload bucket remote_path file_type storage_class = do
    create_bucket_if_not_exist bucket
    output ← svc.create_multipart_upload (record {
      bucket = bucket;
      key = remote_path;
      content_type = file_type;
      storage_class = storage_class;
    })
    λ v. (request_of output, v)

  -- `retErr`: the first error, and then each later one around it.
  abbrev joined_error : ℕ → Option IoError → IoError → IoError
  joined_error retry none e = e
  joined_error retry (some first) e = wrapped first retry e

  -- The loop of `Upload` from round `retry` on.
  unfoldable pub upload_rounds : PartInput R → ℕ → ℕ → Option IoError → Action V Bytes
  upload_rounds input zero retry none v = (ok [], v)
  upload_rounds input zero retry (some e) v = (err e, v)
  upload_rounds input (suc rounds) retry ret_err v =
      let (r, v') = svc.upload_part input v in
      elim r [
        | ok none ↦ (ok [], v')
        | ok (some etag) ↦ (ok etag, v')
        | err e ↦ upload_rounds input rounds (suc retry) (some (joined_error retry ret_err e)) v'
      ]

  -- `Upload`
  unfoldable pub upload : ℕ → ℕ → UploadRequest → R → Bytes → Action V Bytes
  unfolding upload_rounds
  upload part_no length request reader checksum =
      upload_rounds
        (record {
          body = reader;
          bucket = request.bucket;
          key = request.key;
          part_number = part_no;
          upload_id = request.id;
          content_length = length;
          checksum = checksum;
        })
        max_retries 1 none

  -- `CompleteMultipartUpload`
  unfoldable pub complete_multipart_upload : UploadRequest → List PartInfo → Bytes → Call V
  complete_multipart_upload request parts checksum =
      svc.complete_multipart_upload request
        (map (λ p. record { part_number = p.part_no; etag = p.etag; checksum = p.hash_remote })
          parts)
        checksum

  -- `AbortMultipartUpload`
  unfoldable pub abort_multipart_upload : UploadRequest → Call V
  abort_multipart_upload request = svc.abort_multipart_upload request

  module _ {W : Type 0} (write : W → Bytes → WriteResult W) (read : S → ℕ → ReadResult S)
      (fuel : ℕ) where
    copied : Option (CopiedInto S W) → Option (Got W)
    copied none = none
    copied (some c) = some (record { writer = c.writer; written = c.written; error = c.error })

    got_body : W → Result S × V → Option (Got W) × V
    unfolding copied
    got_body w (err e, v) = (some (record { writer = w; written = 0; error = some e }), v)
    got_body w (ok body, v) = (copied (copy_into write read copy_buffer fuel body w), v)

    -- `GetObject`; `none` if the fuel of the copy runs out.
    unfoldable pub get_object : Bytes → Bytes → W → V → Option (Got W) × V
    unfolding got_body
    get_object bucket remote_path w v =
        got_body w ((do create_bucket_if_not_exist bucket; svc.get_object bucket remote_path) v)
