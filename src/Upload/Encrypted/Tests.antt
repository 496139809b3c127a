-- ===== src/Upload/Encrypted/Tests.antt =====
-- Runs of `uploadEncryptParts` with toy primitives, and its theorem there.
use lomo_backup.Common.{ℕ, [], Bytes, codes, ◌==◌, if◌then◌else◌}
use lomo_backup.Types.{PartInfo, part_uploading}
use lomo_backup.Io.{Result, ok, err, panicked}
use lomo_backup.Io.CryptoStream.{Slice}
use lomo_backup.Dbx.{Tables}
use lomo_backup.Upload.Encrypted.{Given}

abbrev image : Bytes
image = codes "the quick brown fox jumps over the lazy dog"

abbrev salt : Slice
salt = record { elements = codes "0123456789abcdef"; spare = [] }

abbrev a_part : ℕ → ℕ → PartInfo
a_part number size = record {
  iso_id = 1;
  part_no = number;
  size = size;
  status = part_uploading;
  etag = [];
  hash_local = [];
  hash_remote = [];
  create_time = 0;
}

abbrev no_tables : Tables
no_tables = record {
  dirs = [];
  files = [];
  isos = [];
  parts = [];
  last_dir = 0;
  last_file = 0;
  last_iso = 0;
}

abbrev decode : Bytes → Result Bytes
decode b = ok b

-- A client that refuses the second part.
abbrev client : Given → Result Bytes
client g = if g.number == 2 then err panicked else ok (codes "etag")
