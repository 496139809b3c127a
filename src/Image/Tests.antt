-- ===== src/Image/Tests.antt =====
-- Runs of cmd/lomob/iso.go on three files, and its theorems there.
use lomo_backup.Common.{
  ℕ, ◌+◌, ◌<◌, ◌^◌, ◌≡◌, true, Option, none, some, List, [], ◌∷◌, ◌++◌, Bytes, codes, length,
  bytes_eq, if◌then◌else◌, arith,
}
use lomo_backup.Common.Int.{pos}
use lomo_backup.Types.{FileInfo}
use lomo_backup.Dbx.{Tables}
use lomo_backup.Dbx.Table.{select, sum}
use lomo_backup.Dbx.Iso.{list_files_not_in_iso_or_cloud}
use lomo_backup.Dbx.Scan.{insert_dir, insert_file}
use lomo_backup.Image.{
  World, copied, not_exist, no_staging, IsoError, pack, mk_iso, root_of, create_file_in_staging,
}
use lomo_backup.Image.Fate.{size_of}
use lomo_backup.Image.Pack.{Ends, pack_lem}
use lomo_backup.Image.Rounds.{mk_iso-Returns}

abbrev world : World
world = record {
  mkdir = λ p. true;
  open_file = λ p. if bytes_eq p (codes "/r/b") then not_exist else copied;
  create_file = λ p. copied;
  io_copy = λ p q. copied;
  make_image = λ volume name. some (codes "image");
  join = λ a b. a ++ codes "/" ++ b;
  dir = λ p. codes "/staging/_r";
  image_name = λ from upto. codes "0-1";
  sha256 = λ b. codes "hash";
  hex = λ b. b;
  staging_dir = codes "/staging";
  future = 1000;
}

abbrev a_file : ℕ → Bytes → FileInfo
a_file id name = record {
  id = id;
  dir_id = 1;
  iso_id = pos 0;
  name = name;
  hash_local = codes "00";
  hash_remote = [];
  size = 7;
  mod_time = id;
}

abbrev three : List FileInfo
three = a_file 1 (codes "a") ∷ a_file 2 (codes "b") ∷ a_file 3 (codes "c") ∷ []

abbrev roots : List (ℕ × Bytes)
roots = (1, codes "/r") ∷ []

three_small : size_of world roots three < 2 ^ 64
unfolding select sum root_of create_file_in_staging bytes_eq
three_small = omega arith

pack_lem_example :
    Ends world roots 10 three
      (no_staging world roots 10)
      (pack world roots 10 three (no_staging world roots 10))
pack_lem_example = pack_lem world roots 10 three (omega arith) three_small

abbrev no_tables : Tables
no_tables = record {
  dirs = [];
  files = [];
  isos = [];
  parts = [];
  last_dir = 0;
  last_file = 0;
  last_iso = 0;
}

abbrev behind : Option (Tables × ℕ) → Tables
behind none = no_tables
behind (some (t, _)) = t

abbrev with_file : Bytes → Tables → Tables
with_file name t = behind (insert_file (λ n. []) (a_file 0 name) 9 t)

abbrev stored : Tables
stored = with_file (codes "c") (
    with_file (codes "b")
      (with_file (codes "a") (behind (insert_dir (codes "/r") 0 none 9 no_tables))))

abbrev rounds : ℕ
rounds = 1 + length (list_files_not_in_iso_or_cloud world.join stored)

mk_iso-Returns_example :
    (r : Tables × Option IsoError) × (mk_iso world 10 50 (codes "i.iso") rounds stored ≡ some r)
mk_iso-Returns_example = mk_iso-Returns world 10 50 (codes "i.iso") rounds stored (omega arith)
