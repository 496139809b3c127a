-- ===== src/Restore/Aws.antt =====
-- A file that `uploadEncryptFileToS3` has put into a bucket is what `restoreAwsFile` brings back.
use lomo_backup.Common.{ℕ, ◌<◌, ◌≤◌, ◌≡◌, ◌⊎◌, Option, none, some, [], Bytes, codes, length}
use lomo_backup.Io.{IoError, Result, ok, err, ReadResult, Sends, buffer_too_short}
use lomo_backup.Io.File.{File, opened}
use lomo_backup.Crypto.{Decrypted, block_size, copy_buffer}
use lomo_backup.Client.{Service, PutInput, head_object, put_object}
use lomo_backup.Upload.Request.{RemoteInfo}
use lomo_backup.Files.{Object}

-- `binContentType`
abbrev bin_content_type : Bytes
bin_content_type = codes "application/octet-stream"

abbrev error_of : Result (Unit {0}) → Option IoError
error_of (ok _) = none
error_of (err e) = some e

-- The client's answers to `HeadObject` and then to `PutObject`, and the service behind each.
module _ {V S : Type 0} (svc : Service V Bytes S) (class : Bytes) (v : V) where
  abbrev pub head_answer : Bytes → Bytes → Result (Option RemoteInfo)
  head_answer bucket name = (head_object svc bucket name v).0

  abbrev pub put_call : Bytes → Object → Result (Unit {0}) × V
  put_call bucket o =
      put_object svc bucket o.key o.hash bin_content_type class o.body
        (head_object svc bucket o.key v).1

  abbrev pub put_answer : Bytes → Object → Option IoError
  put_answer bucket o = error_of (put_call bucket o).0

-- A service that reads back what it has taken: the bucket is there, and to get the object gives a reader
-- that sends its body, in reads of any sizes of which the last may come together with the end.
pub record ReadsBack {V S : Type 0} (svc : Service V Bytes S) (read : S → ℕ → ReadResult S)
    (Inv : S → Bytes → Type 0) : Type 0 where
  pub sends : Sends read copy_buffer Inv
  pub has_bucket :
      (v v' : V) (o : PutInput Bytes)
      → svc.put_object o v ≡ (ok tt, v')
      → svc.head_bucket o.bucket v' ≡ (ok tt, v')
  pub gives :
      (v v' : V) (o : PutInput Bytes)
      → svc.put_object o v ≡ (ok tt, v')
      → (s : S) × (v'' : V) × (svc.get_object o.bucket o.key v' ≡ (ok s, v'')) × Inv s o.body

-- What restoring a file of the bytes `plain` from the body `s` ends with: the file, without an error, if
-- the first read of the body gives at least a block, and else an error and an empty file.
abbrev pub DependsOnFirstRead :
    {S : Type 0} → (S → ℕ → ReadResult S) → Bytes → S → Option (Decrypted File) → Type 0
DependsOnFirstRead read plain s result =
    ((block_size ≤ length (read s copy_buffer).bytes)
      × (result ≡ some (record { dst = opened plain (length plain); error = none })))
    ⊎ ((length (read s copy_buffer).bytes < block_size)
        × (result ≡ some (record { dst = opened [] 0; error = some buffer_too_short })))
