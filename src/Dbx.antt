-- ===== src/Dbx.antt =====
-- common/dbx: the database. A table is the list of its rows in the order of their insertion, a
-- statement is what its SQL text does to the tables, and an error of the database itself is a
-- parameter of `Dbx.Retry`. The columns are those of schema/1.sql.
pub mod Table
pub mod Retry
pub mod Iso
pub mod Scan
mod Tests
use lomo_backup.Common.{ℕ, Bytes, Bool, Option, List, ◌==◌, ◌&&◌, bytes_eq}
use lomo_backup.Common.Int.{ℤ}
use lomo_backup.Types.{IsoStatus, PartStatus}

pub record DirRow : Type 0 where
  pub id : ℕ
  pub path : Bytes
  pub scan_root_dir_id : ℕ
  pub mod_time : Option ℕ
  pub create_time : ℕ

pub record FileRow : Type 0 where
  pub id : ℕ
  pub dir_id : ℕ
  pub iso_id : ℤ
  pub name : Bytes
  pub ext : Bytes
  pub size : ℕ
  pub hash_local : Bytes
  pub hash_remote : Bytes
  pub mod_time : ℕ
  pub create_time : ℕ

pub record IsoRow : Type 0 where
  pub id : ℕ
  pub name : Bytes
  pub region : Bytes
  pub bucket : Bytes
  pub size : ℕ
  pub status : IsoStatus
  pub hash_local : Bytes
  pub hash_remote : Bytes
  pub upload_key : Bytes
  pub upload_id : Bytes
  pub create_time : ℕ

pub record PartRow : Type 0 where
  pub iso_id : ℕ
  pub part_no : ℕ
  pub hash_local : Bytes
  pub hash_remote : Bytes
  pub etag : Bytes
  pub size : ℕ
  pub status : PartStatus
  pub create_time : ℕ

-- The tables, and the last id that each AUTOINCREMENT column gave.
pub record Tables : Type 0 where
  pub dirs : List DirRow
  pub files : List FileRow
  pub isos : List IsoRow
  pub parts : List PartRow
  pub last_dir : ℕ
  pub last_file : ℕ
  pub last_iso : ℕ

-- The keys of the UNIQUE constraints, and when two are the same.
abbrev pub part_key : PartRow → ℕ × ℕ
part_key p = (p.iso_id, p.part_no)

abbrev pub same_part : ℕ × ℕ → ℕ × ℕ → Bool
same_part (i, n) (j, m) = (i == j) && (n == m)

abbrev pub named_key : {A : Type 0} → (A → ℕ) → (A → Bytes) → A → ℕ × Bytes
named_key of name a = (of a, name a)

abbrev pub same_named : ℕ × Bytes → ℕ × Bytes → Bool
same_named (i, s) (j, t) = (i == j) && bytes_eq s t
