-- ===== src/Restore/Tests.antt =====
-- A service that keeps objects, for runs of what is restored from it.
use lomo_backup.Common.{
  ℕ, ◌<◌, ◌≡◌, refl, sym, ap, ◌∙◌, ◌&&◌, none, some, List, [], ◌∷◌, Bytes, codes, length,
  length-take, take, drop, take-append-drop, map, bytes_eq, if◌then◌else◌, arith,
}
use lomo_backup.Io.{
  eof, service, Result, ok, err, ReadResult, ReadSeeker, not_implemented, Serves, at_end, given,
  Sends, Serves-Sends,
}
use lomo_backup.Io.Run.{raise, pure}
use lomo_backup.Io.File.{opened}
use lomo_backup.Crypto.Encrypt.{encrypted}
use lomo_backup.Dbx.Table.{select, any}
use lomo_backup.Files.Folders.{split}
use lomo_backup.Gcloud.{DriveFile, get_file_id, first_id, query}
use lomo_backup.Gcloud.Again.{lies_in}
use lomo_backup.Gcloud.Toy.{marked, drive, drive-FindsFiles}
use lomo_backup.Restore.Gdrive.{Leads, there, through, restore_gdrive_file-restores}
use lomo_backup.Crypto.Toy.{toy, toy-IsLawful}
use lomo_backup.Client.{Service, PutInput, head_object}
use lomo_backup.Restore.{restore_gdrive_file}

abbrev Store : Type 0
Store = List (PutInput Bytes)

abbrev stored : Bytes → Bytes → Store → Result Bytes
stored bucket key [] = err (service (codes "NotFound"))
stored bucket key (o ∷ os) =
    let rest = stored bucket key os in
    if bytes_eq o.bucket bucket && bytes_eq o.key key then ok o.body else rest

-- A bucket that is always there.
abbrev keeper : Service Store Bytes Bytes
keeper = record {
  head_bucket = λ bucket. pure tt;
  create_bucket = λ bucket. pure tt;
  head_object = λ bucket key v. elim (stored bucket key v) [
    | ok body ↦ (ok (record { content_length = some (length body); checksum = none }), v)
    | err e ↦ (err e, v)
  ];
  put_object = λ o v. (ok tt, o ∷ v);
  create_multipart_upload = λ i. raise (service []);
  upload_part = λ i. raise (service []);
  complete_multipart_upload = λ r ps c. raise (service []);
  abort_multipart_upload = λ r. raise (service []);
  list_multipart_uploads = λ b. pure [];
  get_object = λ bucket key v. (stored bucket key v, v);
}

abbrev read_bytes : Bytes → ℕ → ReadResult Bytes
read_bytes [] n = record { state = []; bytes = []; error = some eof }
read_bytes (x ∷ s) n = record { state = drop n (x ∷ s); bytes = take n (x ∷ s); error = none }

reads-Serves : (n : ℕ) → 0 < n → Serves read_bytes n (λ s rest. s ≡ rest)
reads-Serves n some_n [] rest h = at_end (sym h) refl
reads-Serves n some_n (x ∷ s) rest h =
    given (λ z. absurd (omega (arith, ap length z, length-take n (x ∷ s))))
      (omega (arith, length-take n (x ∷ s))) (sym h ∙ sym (take-append-drop n (x ∷ s))) refl

reads-Sends : (n : ℕ) → 0 < n → Sends read_bytes n (λ s rest. s ≡ rest)
reads-Sends n some_n = Serves-Sends read_bytes n (λ s rest. s ≡ rest) (reads-Serves n some_n)

-- A file that is served to reads of any sizes.
abbrev body : ReadSeeker Bytes
body = record {
  read = read_bytes;
  seek = λ s p w. record { state = s; position = p; error = some not_implemented };
}

abbrev sealed : Bytes
sealed = encrypted toy (codes "key") (codes "0123456789abcdef") (codes "hi there")

abbrev file_named : Bytes → Bytes → Bytes → DriveFile
file_named id name parent = record {
  id = id;
  name = name;
  parents = parent ∷ [];
  size = 0;
  mime_type = [];
  created_time = [];
  app_properties = [];
}

-- `a/f` below the folder `top`.
abbrev in_drive : List DriveFile
in_drive =
    file_named (codes "1") (codes "top") []
    ∷ file_named (codes "2") (codes "a") (codes "#1")
    ∷ file_named (codes "3") (codes "f") (codes "#2")
    ∷ []

root_found :
    get_file_id (drive (λ id. sealed)) (codes "top") [] in_drive ≡ (ok (codes "#1", []), in_drive)
unfolding get_file_id select lies_in first_id bytes_eq query any
root_found = refl

Leads-there : Leads (map marked in_drive) (codes "#1") (split b'/' (codes "a/f")) (codes "#3")
unfolding split select lies_in bytes_eq any
Leads-there =
    through (marked (file_named (codes "2") (codes "a") (codes "#1"))) [] (ground arith)
      (ground arith) (λ h. ground (arith, h)) refl
      (through (marked (file_named (codes "3") (codes "f") (codes "#2"))) [] (ground arith)
        (ground arith) (λ h. ground (arith, h)) refl there)

restore_gdrive_file-restores_example :
    restore_gdrive_file
      (drive (λ id. sealed))
      toy
      body
      40
      (codes "top")
      (codes "a/f")
      (codes "key")
      in_drive
    ≡ (some (record { dst = opened (codes "hi there") 8; error = none }), in_drive)
restore_gdrive_file-restores_example =
    restore_gdrive_file-restores (drive (λ id. sealed)) (map marked)
      (drive-FindsFiles (λ id. sealed)) in_drive toy toy-IsLawful body (λ s rest. s ≡ rest)
      reads-Sends 40 (codes "top") (codes "a/f") (codes "key") (codes "0123456789abcdef")
      (codes "hi there") (codes "#1") [] (codes "#3") sealed in_drive (ground arith) refl
      (omega arith) root_found Leads-there refl refl
