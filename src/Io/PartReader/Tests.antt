-- ===== src/Io/PartReader/Tests.antt =====
-- The theorems on `FilePartReadSeeker` at a concrete file.
use lomo_backup.Common.{◌+◌, ◌≡◌, some, none, [], codes, take, drop, arith}
use lomo_backup.Common.Int.{pos, negsuc, ◌+ℤ◌}
use lomo_backup.Io.{seek_end}
use lomo_backup.Io.Copy.{copy}
use lomo_backup.Io.File.{opened}
use lomo_backup.Io.PartReader.{FilePartReadSeeker, new_file_part_read_seeker, read, seek}
use lomo_backup.Io.PartReader.Read.{part, IsReading, copy-part}
use lomo_backup.Io.PartReader.Seek.{hold, origin, seek_lem}

copy-part_example :
    (s : FilePartReadSeeker) × (copy read 4 10
        (new_file_part_read_seeker (opened (codes "hello world") 9) (pos 2) (pos 8))
      ≡ some (record { state = s; bytes = take 6 (drop 2 (codes "hello world")); error = none }))
    × IsReading (codes "hello world") (omega arith) 2 8 4 (omega arith) (omega arith) s []
copy-part_example =
    copy-part (codes "hello world") (omega arith) 2 8 4 (omega arith) (omega arith) 9 10
      (omega arith) (omega arith) (omega arith)

seek_lem_example : seek (part (codes "hello world") 9 2 8 3) (negsuc 4) seek_end ≡ record {
  state =
      part
        (codes "hello world")
        (2 + hold 6 (pos (origin 6 1 seek_end) +ℤ negsuc 4))
        2
        8
        (2 + hold 6 (pos (origin 6 1 seek_end) +ℤ negsuc 4));
  position = pos (hold 6 (pos (origin 6 1 seek_end) +ℤ negsuc 4));
  error = none;
}
seek_lem_example =
    seek_lem (codes "hello world") 9 2 8 3 (omega arith) (omega arith) (negsuc 4) seek_end tt
      (omega arith) (omega arith)
