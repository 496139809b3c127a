-- ===== src/Gcloud/Tests.antt =====
-- Asking for a folder twice.
use lomo_backup.Common.{◌≡◌, refl, true, false, none, List, [], ◌∷◌, codes, map, bytes_eq, arith}
use lomo_backup.Io.{ok}
use lomo_backup.Dbx.Table.{select}
use lomo_backup.Gcloud.{
  DriveFile, first_id, get_file_id, create_file, file_to_create,
  get_and_create_file_id_if_not_exist,
}
use lomo_backup.Gcloud.Again.{get_and_create_file_id_if_not_exist-again}
use lomo_backup.Gcloud.Toy.{marked, drive, drive-FindsFiles}

abbrev made_there : List DriveFile
made_there =
    record {
      id = [];
      name = codes "photos";
      parents = codes "top" ∷ [];
      size = 0;
      mime_type = codes "application/vnd.google-apps.folder";
      created_time = [];
      app_properties = [];
    }
    ∷ []

first_answer :
    get_and_create_file_id_if_not_exist
      (drive (λ id. []))
      (λ t. [])
      (codes "photos")
      (codes "top")
      none
      5
      []
    ≡ (ok (false, codes "#"), made_there)
unfolding get_and_create_file_id_if_not_exist get_file_id bytes_eq first_id select create_file
    file_to_create
first_answer = refl

get_and_create_file_id_if_not_exist-again_example :
    get_and_create_file_id_if_not_exist
      (drive (λ id. []))
      (λ t. [])
      (codes "photos")
      (codes "top")
      none
      7
      made_there
    ≡ (ok (true, codes "#"), made_there)
get_and_create_file_id_if_not_exist-again_example =
    get_and_create_file_id_if_not_exist-again (drive (λ id. [])) (map marked)
      (drive-FindsFiles (λ id. [])) (λ t. []) (codes "photos") (codes "top") (ground arith)
      (ground arith) (λ h. ground (arith, h)) none none 5 7 [] made_there false (codes "#")
      first_answer
