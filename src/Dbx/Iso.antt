-- ===== src/Dbx/Iso.antt =====
-- common/dbx/iso.go: the transactions on files, ISO images and their parts. A body is `none` where
-- its SQL fails, and `Dbx.Retry` runs it. The list of ids that the code writes into a statement is a
-- list of numbers, and `filepath.Join` is the parameter `join`.
pub mod Parts
pub mod Stored
use lomo_backup.Common.{
  ℕ, zero, suc, ◌+◌, Bool, true, false, not, ◌&&◌, ◌||◌, Option, none, some, List, [], ◌∷◌, ◌++◌,
  Bytes, map, ltb, leb, ◌==◌, bytes_eq, if◌then◌else◌,
}
use lomo_backup.Common.Int.{ℤ, pos, eqb_ℤ}
use lomo_backup.Types.{
  IsoStatus, iso_creating, iso_created, iso_uploading, PartStatus, part_uploading, FileInfo,
  IsoInfo, PartInfo, iso_id_cloud,
}
use lomo_backup.Dbx.{DirRow, FileRow, IsoRow, PartRow, Tables, part_key, same_part}
use lomo_backup.Dbx.Table.{select, delete, update, any, insert, count, sum}

-- `id in (...)`
unfoldable pub is_in : List ℕ → ℕ → Bool
unfolding any
is_in ids i = any (λ j. i == j) ids

-- `files inner join dirs on f.dir_id = d.id`
joined_with : FileRow → List DirRow → List (FileRow × DirRow)
joined_with f [] = []
joined_with f (d ∷ dirs) =
    let rest = joined_with f dirs in if f.dir_id == d.id then (f, d) ∷ rest else rest

unfoldable pub joined : List FileRow → List DirRow → List (FileRow × DirRow)
unfolding joined_with
joined [] dirs = []
joined (f ∷ files) dirs = joined_with f dirs ++ joined files dirs

-- `order by f.dir_id, f.id`
before : FileRow × DirRow → FileRow × DirRow → Bool
before (f, _) (g, _) = ltb f.dir_id g.dir_id || ((f.dir_id == g.dir_id) && leb f.id g.id)

placed : FileRow × DirRow → List (FileRow × DirRow) → List (FileRow × DirRow)
unfolding before
placed p [] = p ∷ []
placed p (q ∷ rest) = let later = placed p rest in if before p q then p ∷ q ∷ rest else q ∷ later

unfoldable pub ordered : List (FileRow × DirRow) → List (FileRow × DirRow)
unfolding placed
ordered [] = []
ordered (p ∷ rest) = placed p (ordered rest)

module _ (join : Bytes → Bytes → Bytes) where
  -- The columns that the first listing scans; the directory's id is that of its scan root.
  scanned : FileRow × DirRow → FileInfo
  scanned (f, d) = record {
    id = f.id;
    dir_id = d.scan_root_dir_id;
    iso_id = pos 0;
    name = join d.path f.name;
    hash_local = f.hash_local;
    hash_remote = [];
    size = f.size;
    mod_time = f.mod_time;
  }

  -- `ListFilesNotInISOAndCloud`
  unfoldable pub list_files_not_in_iso_and_cloud : Tables → List FileInfo
  unfolding scanned
  list_files_not_in_iso_and_cloud t =
      map scanned (ordered (joined (select (λ f. eqb_ℤ f.iso_id (pos 0)) t.files) t.dirs))

  -- The second listing scans the ISO's id, and not the hash.
  scanned_with_iso : FileRow × DirRow → FileInfo
  unfolding scanned
  scanned_with_iso (f, d) = record (scanned (f, d)) { iso_id = f.iso_id; hash_local = [] }

  -- `ListFilesNotInISOOrCloud`
  unfoldable pub list_files_not_in_iso_or_cloud : Tables → List FileInfo
  unfolding scanned_with_iso
  list_files_not_in_iso_or_cloud t = map scanned_with_iso (
      ordered (
        joined (select (λ f. eqb_ℤ f.iso_id (pos 0) || eqb_ℤ f.iso_id iso_id_cloud) t.files)
          t.dirs))

-- The `sum` of no row is NULL, which `Scan` cannot read.
summed : List FileRow → Option ℕ
summed [] = none
summed (f ∷ files) = some (sum (λ g. g.size) (f ∷ files))

-- `TotalFileSizeNotInISO`
unfoldable pub total_file_size_not_in_iso : Tables → Option ℕ
unfolding summed
total_file_size_not_in_iso t = summed (select (λ f. eqb_ℤ f.iso_id (pos 0)) t.files)

-- `GetTotalFilesInIso`
unfoldable pub get_total_files_in_iso : ℕ → Tables → Option (ℕ × ℕ)
unfolding summed
get_total_files_in_iso iso_id t =
    elim (summed (select (λ f. eqb_ℤ f.iso_id (pos iso_id)) t.files)) [
      | none ↦ none
      | some size ↦ some (size, count (λ f. eqb_ℤ f.iso_id (pos iso_id)) t.files)
    ]

-- `GetIsoByName`, which does not read the status.
first_iso : List IsoRow → Option IsoInfo
first_iso [] = none
first_iso (r ∷ _) = some (record {
  id = r.id;
  name = r.name;
  region = r.region;
  bucket = r.bucket;
  upload_key = r.upload_key;
  upload_id = r.upload_id;
  hash_local = r.hash_local;
  hash_remote = r.hash_remote;
  size = r.size;
  status = iso_creating;
  create_time = r.create_time;
})

unfoldable pub get_iso_by_name : Bytes → Tables → Option IsoInfo
unfolding first_iso
get_iso_by_name name t = first_iso (select (λ r. bytes_eq r.name name) t.isos)

-- `ListISOs`, which does not read the key and the id of an upload.
listed_iso : IsoRow → IsoInfo
listed_iso r = record {
  id = r.id;
  name = r.name;
  region = r.region;
  bucket = r.bucket;
  upload_key = [];
  upload_id = [];
  hash_local = r.hash_local;
  hash_remote = r.hash_remote;
  size = r.size;
  status = r.status;
  create_time = r.create_time;
}

unfoldable pub list_isos : Tables → List IsoInfo
unfolding listed_iso
list_isos t = map listed_iso t.isos

-- `InsertISO` at time `now`, with the id that the row got.
unfoldable pub new_iso : IsoInfo → ℕ → ℕ → IsoRow
new_iso iso now i = record {
  id = i;
  name = iso.name;
  region = [];
  bucket = [];
  size = iso.size;
  status = iso_created;
  hash_local = iso.hash_local;
  hash_remote = [];
  upload_key = [];
  upload_id = [];
  create_time = now;
}

unfoldable pub insert_iso : IsoInfo → ℕ → Tables → Option (Tables × ℕ)
unfolding new_iso
insert_iso iso now t =
    let i = suc t.last_iso in
    elim (insert bytes_eq (λ r. r.name) (new_iso iso now i) t.isos) [
      | none ↦ none
      | some isos ↦ some (record t { isos = isos; last_iso = i }, i)
    ]

-- `CreateIsoWithFileIDs`: the files move to the new image, and their number is returned.
unfoldable pub files_moved : List ℕ → Option (Tables × ℕ) → Option (Tables × (ℕ × ℕ))
files_moved ids none = none
files_moved ids (some (t, i)) = some (
  record t { files = update (λ f. is_in ids f.id) (λ f. record f { iso_id = pos i }) t.files },
  (i, count (λ f. is_in ids f.id) t.files),
)

unfoldable pub create_iso_with_file_ids : IsoInfo → List ℕ → ℕ → Tables → Option (Tables × (ℕ × ℕ))
unfolding files_moved
create_iso_with_file_ids iso ids now t = files_moved ids (insert_iso iso now t)

-- `DeleteBatchFiles`
unfoldable pub delete_batch_files : List ℕ → Tables → Tables × ℕ
delete_batch_files ids t =
    (record t { files = delete (λ f. is_in ids f.id) t.files }, count (λ f. is_in ids f.id) t.files)

-- `delete from parts where iso_id = (select id ...)`, for the rows that are selected: the first counts,
-- and nothing is deleted if there is none.
unfoldable pub delete_parts_of : List IsoRow → List PartRow → List PartRow
delete_parts_of [] parts = parts
delete_parts_of (r ∷ _) parts = delete (λ p. p.iso_id == r.id) parts

abbrev pub reset_row : IsoRow → IsoRow
reset_row r = record r { status = iso_uploading; region = []; bucket = []; hash_remote = [] }

-- `ResetISOUploadInfo`
unfoldable pub reset_iso_upload_info : Bytes → Tables → Tables
reset_iso_upload_info name t =
    let isos = update (λ r. bytes_eq r.name name) reset_row t.isos in
    record t {
      isos = isos;
      parts = delete_parts_of (select (λ r. bytes_eq r.name name) isos) t.parts;
    }

-- `UpdateFileIsoIDAndRemoteHash`
unfoldable pub update_file_iso_id_and_remote_hash : ℤ → ℕ → Bytes → Tables → Tables
update_file_iso_id_and_remote_hash iso_id file_id hash t = record t {
  files =
      update (λ f. f.id == file_id) (λ f. record f { iso_id = iso_id; hash_remote = hash }) t.files;
}

unfoldable pub update_iso : ℕ → (IsoRow → IsoRow) → Tables → Tables
update_iso i change t = record t { isos = update (λ r. r.id == i) change t.isos }

unfoldable pub update_iso_remote_hash : ℕ → Bytes → Tables → Tables
unfolding update_iso
update_iso_remote_hash i hash = update_iso i (λ r. record r { hash_remote = hash })

unfoldable pub update_iso_status : ℕ → IsoStatus → Tables → Tables
unfolding update_iso
update_iso_status i status = update_iso i (λ r. record r { status = status })

unfoldable pub update_iso_status_remote_hash : ℕ → Bytes → IsoStatus → Tables → Tables
unfolding update_iso
update_iso_status_remote_hash i hash status =
    update_iso i (λ r. record r { status = status; hash_remote = hash })

unfoldable pub update_iso_upload_info : IsoInfo → Tables → Tables
unfolding update_iso
update_iso_upload_info info = update_iso info.id (λ r. record r {
  region = info.region;
  bucket = info.bucket;
  upload_key = info.upload_key;
  upload_id = info.upload_id;
})
