-- ===== src/Upload/Tests.antt =====
-- Runs of cmd/lomob/upload-iso.go with the text itself for its hash, and its theorems at a small file.
use lomo_backup.Common.{
  ◌↔◌, List, false, length, ℕ, ◌≤◌, ◌==◌, if◌then◌else◌, ◌≡◌, refl, true, some, [], ◌∷◌, Bytes,
  bytes_eq, codes, map, get_elem?, arith,
}
use lomo_backup.Types.{PartInfo, IsoInfo, iso_creating, iso_created, part_uploaded}
use lomo_backup.Io.Copy.{copy}
use lomo_backup.Io.{Result, ok, err, panicked}
use lomo_backup.Io.File.{opened, file_read}
use lomo_backup.Hash.{calculate_hash_file}
use lomo_backup.Hash.Parts.{pieces, pieces_within}
use lomo_backup.Dbx.{Tables}
use lomo_backup.Dbx.Table.{select, insert}
use lomo_backup.Dbx.Iso.{get_iso_by_name, update_iso_remote_hash}
use lomo_backup.Dbx.Iso.Parts.{
  in_part_order, get_parts_by_iso_id, insert_iso_parts, insert_parts, new_part,
  update_part_etag_and_status,
}
use lomo_backup.Dbx.Iso.Stored.{
  stored, IsAscending, change_part, get_parts-insert, get_parts-update,
}
use lomo_backup.Upload.{prepared, valid, validate_iso, prepare_upload_parts, parts_with, raw_ranges}
use lomo_backup.Upload.Fresh.{
  new_parts, described_parts, described_part, parts_hash, prepare_upload_parts-fresh,
}
use lomo_backup.Upload.Raw.{RawUpload, raw_parts}
use lomo_backup.Upload.Raw.Sent.{end_of, pending, raw_parts-Sends}
use lomo_backup.Upload.Request.{
  RemoteInfo, no_need, HasSame, prepare_upload_request, prepare_upload_request-no_need,
}
use lomo_backup.Upload.Tiles.{range_of, raw_ranges-parts_with}
use lomo_backup.Upload.PartHash.{all_printed, one_printed, calculate_part_hash}
use lomo_backup.Upload.PartHash.Agrees.{shown, calculate_part_hash-agrees}
use lomo_backup.Hash.{concat_and_calculate_base64_hash}

abbrev same : Bytes → Bytes
same b = b

abbrev content : Bytes
content = codes "hello world"

abbrev image : IsoInfo
image = record {
  id = 1;
  name = codes "i.iso";
  region = [];
  bucket = [];
  upload_key = [];
  upload_id = [];
  hash_local = content;
  hash_remote = [];
  size = 11;
  status = iso_creating;
  create_time = 3;
}

abbrev tables : Tables
tables = record {
  dirs = [];
  files = [];
  isos =
      record {
        id = 1;
        name = codes "i.iso";
        region = [];
        bucket = [];
        size = 11;
        status = iso_created;
        hash_local = content;
        hash_remote = [];
        upload_key = [];
        upload_id = [];
        create_time = 3;
      }
      ∷ [];
  parts = [];
  last_dir = 0;
  last_file = 0;
  last_iso = 1;
}

abbrev with_parts : Tables
with_parts = record tables { parts = map (new_part 1 9) (new_parts same same same 4 content) }

image_valid : validate_iso same same same (codes "i.iso") content tables ≡ valid image
unfolding validate_iso get_iso_by_name select bytes_eq calculate_hash_file copy file_read
image_valid = refl

no_parts : get_parts_by_iso_id 1 tables ≡ []
unfolding get_parts_by_iso_id in_part_order select
no_parts = refl

parts_taken : insert_iso_parts 1 9 (new_parts same same same 4 content) tables ≡ some with_parts
unfolding insert_iso_parts insert_parts insert new_part described_parts described_part pieces
parts_taken = refl

prepare_upload_parts-fresh_example :
    (prepare_upload_parts same same same (codes "i.iso") content 4 true 9 tables
      ≡ prepared
          (record image { hash_remote = parts_hash same same same 4 content })
          (new_parts same same same 4 content)
          (update_iso_remote_hash 1 (parts_hash same same same 4 content) with_parts))
    × (get_parts_by_iso_id 1
          (update_iso_remote_hash 1 (parts_hash same same same 4 content) with_parts)
        ≡ map (stored 1 9) (new_parts same same same 4 content))
prepare_upload_parts-fresh_example =
    prepare_upload_parts-fresh same same same 4 content (codes "i.iso") 9 tables with_parts image
      (omega arith) (omega arith) image_valid refl no_parts parts_taken

abbrev made_parts : List PartInfo
made_parts = parts_with same same same 4 1 (length content) (map same (pieces 4 content))

raw_ranges-parts_with_example :
    (map (range_of content) (raw_ranges 0 made_parts) ≡ pieces 4 content)
    × (map (λ p. p.hash_remote) made_parts
        ≡ map (λ r. same (same (range_of content r))) (raw_ranges 0 made_parts))
raw_ranges-parts_with_example = raw_ranges-parts_with same same same 4 content

numbers_ascend : IsAscending (new_parts same same same 4 content)
unfolding IsAscending described_parts described_part pieces
numbers_ascend = ground arith

get_parts-insert_example :
    get_parts_by_iso_id 1 with_parts ≡ map (stored 1 9) (new_parts same same same 4 content)
get_parts-insert_example =
    get_parts-insert 1 9 (new_parts same same same 4 content) tables with_parts numbers_ascend
      no_parts parts_taken

get_parts-update_example :
    get_parts_by_iso_id 1 (update_part_etag_and_status 1 2 (codes "e") part_uploaded with_parts)
    ≡ map (change_part 2 (codes "e") part_uploaded) (get_parts_by_iso_id 1 with_parts)
get_parts-update_example = get_parts-update 1 2 (codes "e") part_uploaded with_parts

-- A client that refuses the second part.
abbrev refuses_second : ℕ → ℕ → Bytes → Bytes → Result Bytes
refuses_second number size body hash = if number == 2 then err panicked else ok (codes "etag")

within : end_of 0 (new_parts same same same 4 content) ≤ length content
unfolding described_parts described_part pieces
within = omega arith

raw_parts-Sends_example :
    (r : RawUpload) × (raw_parts refuses_second 20
        (new_parts same same same 4 content)
        0
        (opened content 5)
        with_parts
      ≡ some r)
    × (r.sent ≡ pending content 0 (new_parts same same same 4 content))
raw_parts-Sends_example =
    raw_parts-Sends refuses_second content (omega arith) 20 (omega arith)
      (new_parts same same same 4 content) 0 5 with_parts (omega arith) within

abbrev remote_object : RemoteInfo
remote_object = record { size = 12; hash_remote = [] }

prepare_upload_request-no_need_example :
    (prepare_upload_request same same
        (λ bucket key. ok (some remote_object))
        (λ bucket key. err panicked)
        []
        []
        image
        false
        tables
      ≡ no_need)
    ↔ ((false ≡ false)
        × ((remote : RemoteInfo) × (ok (some remote_object) ≡ ok (some remote))
            × HasSame same same
                (λ bucket key. ok (some remote_object))
                (λ bucket key. err panicked)
                image
                remote))
prepare_upload_request-no_need_example =
    prepare_upload_request-no_need same same (λ bucket key. ok (some remote_object))
      (λ bucket key. err panicked) [] [] image false tables

calculate_part_hash-agrees_example :
    (calculate_part_hash same same 20 20 (codes "hello world") 3 0
      ≡ some (
          all_printed (map same (map same (pieces 3 (codes "hello world")))) (
            concat_and_calculate_base64_hash same same
              (map same (pieces 3 (codes "hello world"))))))
    × (calculate_part_hash same same 20 20 (codes "hello world") 3 2
        ≡ some (shown same same (get_elem? (pieces 3 (codes "hello world")) 1)))
calculate_part_hash-agrees_example =
    calculate_part_hash-agrees same same (codes "hello world") (omega arith) 3 (omega arith) 20
      (omega arith) 20 1 (omega arith)

second_shown :
    shown same same (get_elem? (pieces 3 (codes "hello world")) 1) ≡ one_printed (codes "lo ")
unfolding shown pieces pieces_within
second_shown = refl
