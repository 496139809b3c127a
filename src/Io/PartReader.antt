-- ===== src/Io/PartReader.antt =====
-- common/io/readseeker.go, `FilePartReadSeeker`: the part [start, end) of a file as a reader of its
-- own. Every part of one file shares the file, so a read first moves it to the part's own place.
-- The offsets are int64; the trace log is left out.
pub mod Read
pub mod Seek
mod Tests
use lomo_backup.Common.{
  ℕ, ◌≡◌, Bool, true, false, Option, none, some, [], Bytes, length, leb, ◌==◌, if◌then◌else◌,
}
use lomo_backup.Common.Int.{ℤ, pos, pos_part, add64, sub64, ltb_ℤ, leb_ℤ, eqb_ℤ}
use lomo_backup.Io.{
  IoError, eof, fail_to_seek, not_implemented, Whence, seek_start, seek_current, seek_end,
  seek_other, ReadResult, SeekResult, ReadSeeker,
}
use lomo_backup.Io.File.{File, file_read, file_seek}

pub record FilePartReadSeeker : Type 0 where
  pub f : File
  pub start : ℤ
  pub end : ℤ
  pub current : ℤ

abbrev pub new_file_part_read_seeker : File → ℤ → ℤ → FilePartReadSeeker
new_file_part_read_seeker f start end = record { f = f; start = start; end = end; current = start }

abbrev pub size : FilePartReadSeeker → ℤ
size prs = sub64 prs.end prs.start

abbrev pub set_start_end : FilePartReadSeeker → ℤ → ℤ → FilePartReadSeeker
set_start_end prs start end = record prs { start = start; end = end; current = start }

fail : FilePartReadSeeker → IoError → ReadResult FilePartReadSeeker
fail prs e = record { state = prs; bytes = []; error = some e }

-- What `Read` does with the answer of the file: `prs.current += int64(n)`, unless there is an error.
advance : FilePartReadSeeker → ReadResult File → ReadResult FilePartReadSeeker
advance prs r = elim r.error [
  | some e ↦ record { state = record prs { f = r.state }; bytes = r.bytes; error = some e }
  | none ↦ record {
    state = record prs { f = r.state; current = add64 prs.current (pos (length r.bytes)) };
    bytes = r.bytes;
    error = none;
  }
]

-- What `Read` does with a buffer of `n` bytes once the file stands at `current`; `int(currLen)` is
-- what the part has left.
read_at_current : FilePartReadSeeker → ℕ → ReadResult FilePartReadSeeker
read_at_current prs n =
    if leb_ℤ prs.end prs.current
    then fail prs eof
    else let curr_len = sub64 prs.end prs.current in
      if leb_ℤ (pos n) curr_len
      then advance prs (file_read prs.f n)
      else advance prs (file_read prs.f (pos_part curr_len))

-- After the second `Seek`, to `current`, and after the first, which asks where the file stands.
read_moved : FilePartReadSeeker → ℕ → SeekResult File → ReadResult FilePartReadSeeker
read_moved prs n moved = elim moved.error [
  | some e ↦ fail (record prs { f = moved.state }) e
  | none ↦
      if eqb_ℤ moved.position prs.current
      then read_at_current (record prs { f = moved.state }) n
      else fail (record prs { f = moved.state }) fail_to_seek
]

read_found : FilePartReadSeeker → ℕ → SeekResult File → ReadResult FilePartReadSeeker
read_found prs n now = elim now.error [
  | some e ↦ fail (record prs { f = now.state }) e
  | none ↦
      if eqb_ℤ now.position prs.current
      then read_at_current (record prs { f = now.state }) n
      else read_moved (record prs { f = now.state }) n (file_seek now.state prs.current seek_start)
]

unfoldable pub read : FilePartReadSeeker → ℕ → ReadResult FilePartReadSeeker
unfolding read_found read_moved read_at_current advance fail
read prs n = read_found prs n (file_seek prs.f (pos 0) seek_current)

-- The exits of `Seek` that go to an end of the part, whatever the file answers, and those that take
-- the file's answer.
unfoldable pub to_edge : FilePartReadSeeker → ℤ → ℤ → SeekResult FilePartReadSeeker
to_edge prs edge n =
    let r = file_seek prs.f edge seek_start in
    record { state = record prs { f = r.state; current = edge }; position = n; error = r.error }

unfoldable pub to_place : FilePartReadSeeker → ℤ → SeekResult FilePartReadSeeker
to_place prs place =
    let r = file_seek prs.f place seek_start in
    let n = sub64 r.position prs.start in
    record {
      state = record prs { f = r.state; current = add64 prs.start n };
      position = n;
      error = r.error;
    }

unfoldable pub to_end : FilePartReadSeeker → SeekResult FilePartReadSeeker
to_end prs =
    let r = file_seek prs.f prs.end seek_start in
    record {
      state = record prs { f = r.state; current = prs.end };
      position = sub64 r.position prs.start;
      error = r.error;
    }

unfoldable pub seek : FilePartReadSeeker → ℤ → Whence → SeekResult FilePartReadSeeker
seek prs offset seek_start =
    if leb_ℤ offset (pos 0)
    then to_edge prs prs.start (pos 0)
    else if leb_ℤ (sub64 prs.end prs.start) offset
    then to_edge prs prs.end (sub64 prs.end prs.start)
    else to_place prs (add64 prs.start offset)
seek prs offset seek_current =
    if ltb_ℤ offset (pos 0)
    then if ltb_ℤ (add64 prs.current offset) prs.start
      then to_edge prs prs.start (pos 0)
      else to_place prs (add64 prs.current offset)
    else if leb_ℤ prs.end (add64 prs.current offset)
    then to_end prs
    else to_place prs (add64 prs.current offset)
seek prs offset seek_end =
    if leb_ℤ (pos 0) offset
    then to_edge prs prs.end (sub64 prs.end prs.start)
    else if ltb_ℤ (sub64 prs.end prs.start) (sub64 (pos 0) offset)
    then to_edge prs prs.start (pos 0)
    else to_place prs (add64 prs.end offset)
seek prs offset seek_other = record { state = prs; position = pos 0; error = some not_implemented }

abbrev pub part_reader : ReadSeeker FilePartReadSeeker
part_reader = record { read = read; seek = seek }
