-- ===== src/Types.antt =====
-- common/types/types.go: the records that the database package hands out, and their states. A time
-- is a number, and hashes are texts.
use lomo_backup.Common.{ℕ, Bytes, codes}
use lomo_backup.Common.Int.{ℤ, negsuc}

-- `IsoIDCloud`: the file is in the cloud and in no ISO image.
abbrev pub iso_id_cloud : ℤ
iso_id_cloud = negsuc 0

-- `IsoStatus`
pub data IsoStatus : Type 0 where
  iso_creating : IsoStatus
  iso_created : IsoStatus
  iso_uploading : IsoStatus
  iso_uploaded : IsoStatus

-- `PartStatus`
pub data PartStatus : Type 0 where
  part_uploading : PartStatus
  part_uploaded : PartStatus
  part_upload_failed : PartStatus

-- `IsoStatus.String`
unfoldable pub iso_status_string : IsoStatus → Bytes
iso_status_string iso_creating = codes "Creating"
iso_status_string iso_created = codes "Created, not uploaded"
iso_status_string iso_uploading = codes "Uploadinging"
iso_status_string iso_uploaded = codes "Uploaded"

-- `PartStatus.String`, which has no text of its own for a failed part.
unfoldable pub part_status_string : PartStatus → Bytes
part_status_string part_uploading = codes "Uploadinging"
part_status_string part_uploaded = codes "Uploaded"
part_status_string part_upload_failed = codes "Unknown"

-- `FileInfo`, as the queries fill it.
pub record FileInfo : Type 0 where
  pub id : ℕ
  pub dir_id : ℕ
  pub iso_id : ℤ
  pub name : Bytes
  pub hash_local : Bytes
  pub hash_remote : Bytes
  pub size : ℕ
  pub mod_time : ℕ

-- `ISOInfo`
pub record IsoInfo : Type 0 where
  pub id : ℕ
  pub name : Bytes
  pub region : Bytes
  pub bucket : Bytes
  pub upload_key : Bytes
  pub upload_id : Bytes
  pub hash_local : Bytes
  pub hash_remote : Bytes
  pub size : ℕ
  pub status : IsoStatus
  pub create_time : ℕ

-- `PartInfo`
pub record PartInfo : Type 0 where
  pub iso_id : ℕ
  pub part_no : ℕ
  pub size : ℕ
  pub status : PartStatus
  pub etag : Bytes
  pub hash_local : Bytes
  pub hash_remote : Bytes
  pub create_time : ℕ
