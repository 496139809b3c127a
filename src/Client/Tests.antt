-- ===== src/Client/Tests.antt =====
-- A service that keeps a list of uploads.
use lomo_backup.Common.{
  ◌≡◌, refl, not, ◌||◌, Bool, List, [], ◌∷◌, Bytes, codes, map, take, bytes_eq, if◌then◌else◌,
}
use lomo_backup.Io.{ok, service}
use lomo_backup.Io.Run.{raise, pure}
use lomo_backup.Dbx.Table.{select, delete, any}
use lomo_backup.Client.{Service, Uploading}
use lomo_backup.Client.Abort.{
  listed, asks, named, max_uploads, KeepsUploads, abort_upload, abort_upload-leaves,
}

abbrev refuses : Bytes → Bool
refuses id = bytes_eq id (codes "2")

abbrev uploader : Service (List Uploading) Bytes Bytes
uploader = record {
  head_bucket = λ bucket. pure tt;
  create_bucket = λ bucket. pure tt;
  head_object = λ bucket key. raise (service (codes "NotFound"));
  put_object = λ o. raise (service []);
  create_multipart_upload = λ i. raise (service []);
  upload_part = λ i. raise (service []);
  complete_multipart_upload = λ r ps c. raise (service []);
  abort_multipart_upload = λ r us. (ok tt, if refuses r.id then us else delete (asks r) us);
  list_multipart_uploads = λ b us. (ok (map listed (take max_uploads us)), us);
  get_object = λ bucket key. raise (service []);
}

uploader-KeepsUploads : KeepsUploads uploader (codes "bucket") (λ us. us) refuses
uploader-KeepsUploads = record { lists = λ us. refl; aborts = λ us id key. refl }

abbrev three : List Uploading
three =
    record { time = 1; id = codes "1"; key = codes "a" }
    ∷ record { time = 2; id = codes "2"; key = codes "a" }
    ∷ record { time = 3; id = codes "3"; key = codes "b" }
    ∷ []

abort_upload-leaves_example :
    (left : List Uploading) × (abort_upload uploader (codes "bucket") (codes "a" ∷ []) three
      ≡ (ok tt, left))
    × (left
        ≡ select
            (λ u.
              (not (bytes_eq u.key (codes "a")) || refuses u.id)
              || not (any (named u) (take max_uploads three)))
            three)
abort_upload-leaves_example =
    abort_upload-leaves uploader (codes "bucket") (λ us. us) refuses uploader-KeepsUploads
      (codes "a") three
