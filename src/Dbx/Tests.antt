-- ===== src/Dbx/Tests.antt =====
-- Runs of common/dbx, and its theorems at concrete tables.
use lomo_backup.Common.{
  ℕ, zero, suc, ◌+◌, ◌==◌, if◌then◌else◌, take, length, bytes_eq, Bytes, ◌≡◌, refl, Option, some,
  none, [], ◌∷◌, codes,
}
use lomo_backup.Dbx.{Tables}
use lomo_backup.Dbx.Retry.{Run, RunError, busy, retry_if_locked, Ends, retry_if_locked-Ends}
use lomo_backup.Dbx.Table.{select, any, count}
use lomo_backup.Dbx.Scan.Listing.{like, children_query, get_number_of_child_dirs_in_dir}

abbrev no_tables : Tables
no_tables = record {
  dirs = [];
  files = [];
  isos = [];
  parts = [];
  last_dir = 0;
  last_file = 0;
  last_iso = 0;
}

-- A run that adds one, and is locked in the first two attempts.
abbrev locked_twice : ℕ → ℕ → ℕ → Run ℕ ℕ
locked_twice zero db vars = record { tx = db; vars = vars; error = some busy }
locked_twice (suc zero) db vars = record { tx = db; vars = vars; error = some busy }
locked_twice (suc (suc _)) db vars = record { tx = db + 1; vars = 4; error = none }

-- Three attempts, the last of which succeeds, and a commit that does.
abbrev commits : ℕ → Option RunError
commits tx = none

retry_if_locked-Ends_example :
    Ends none locked_twice commits 7 3 (retry_if_locked none locked_twice commits 7 3)
retry_if_locked-Ends_example = retry_if_locked-Ends none locked_twice commits 7 3

-- `a_b` holds `a_b/c`, and `axb` holds `axb/d`.
abbrev with_wildcard : Tables
with_wildcard = record no_tables {
  dirs =
      record {
        id = 1;
        path = codes "a_b";
        scan_root_dir_id = 9;
        mod_time = some 5;
        create_time = 1;
      }
      ∷ record {
        id = 2;
        path = codes "a_b/c";
        scan_root_dir_id = 9;
        mod_time = some 6;
        create_time = 1;
      }
      ∷ record {
        id = 3;
        path = codes "axb/d";
        scan_root_dir_id = 9;
        mod_time = some 7;
        create_time = 1;
      }
      ∷ [];
}

-- The directory of a path of two parts, of which the first has three characters.
abbrev dir_of_three : Bytes → Bytes
dir_of_three s = if length s == 5 then take 3 s else codes "."

children_counted :
    get_number_of_child_dirs_in_dir dir_of_three (λ p. []) (codes "a_b") with_wildcard ≡ 1
unfolding get_number_of_child_dirs_in_dir children_query like any select count bytes_eq
children_counted = refl
