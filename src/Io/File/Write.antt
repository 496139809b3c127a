-- ===== src/Io/File/Write.antt =====
-- Writing to the end of an open file.
use lomo_backup.Common.{◌≡◌, sym, ap, ◌++◌, Bytes, length, length-append}
use lomo_backup.Io.{Accepts}
use lomo_backup.Io.File.{File, opened, file_write, file_write-append}

-- The file holds what was written, and stands at its end.
abbrev pub IsWritten : File → Bytes → Type 0
IsWritten f out = f ≡ opened out (length out)

pub file_write-Accepts : Accepts file_write IsWritten
file_write-Accepts = record {
  takes = λ f out b h. rw (h, file_write-append out b);
  succeeds = λ f out b h. rw (h, file_write-append out b);
  appends = λ f out b h.
      rw (h, file_write-append out b) (ap (opened (out ++ b)) (sym (length-append out b)));
}
