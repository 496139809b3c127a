-- ===== src/Io/File.antt =====
-- `os.File` on a regular file, as far as the code uses it: a read gives what is left, up to the
-- buffer's length, and a closed file refuses every call.
pub mod Read
pub mod Write
use lomo_backup.Common.{
  ℕ, zero, suc, ◌+◌, ◌-◌, ◌<◌, ◌≡◌, refl, Bool, true, false, Option, none, some, [], ◌∷◌, ◌++◌,
  Bytes, length, take, drop, leb, ◌==◌, if◌then◌else◌, take_all, drop_all, append-nil, arith,
}
use lomo_backup.Common.Int.{ℤ, pos, negsuc, add64}
use lomo_backup.Io.{
  IoError, eof, closed, invalid, Whence, seek_start, seek_current, seek_end, seek_other, ReadResult,
  SeekResult, WriteResult, ReadSeeker,
}

pub record File : Type 0 where
  pub content : Bytes
  pub position : ℕ
  pub is_closed : Bool

-- An open file.
abbrev pub opened : Bytes → ℕ → File
opened content p = record { content = content; position = p; is_closed = false }

unfoldable pub file_read : File → ℕ → ReadResult File
file_read f n =
    if f.is_closed
    then record { state = f; bytes = []; error = some closed }
    else if n == 0
    then record { state = f; bytes = []; error = none }
    else if leb (length f.content) f.position
    then record { state = f; bytes = []; error = some eof }
    else let b = take n (drop f.position f.content) in
      record { state = record f { position = f.position + length b }; bytes = b; error = none }

-- To an absolute offset, which may lie behind the end of the file.
unfoldable pub seek_to : File → ℤ → SeekResult File
seek_to f (pos p) = record { state = record f { position = p }; position = pos p; error = none }
seek_to f (negsuc p) = record { state = f; position = pos 0; error = some invalid }

unfoldable pub file_seek : File → ℤ → Whence → SeekResult File
unfolding seek_to
file_seek f offset whence =
    if f.is_closed
    then record { state = f; position = pos 0; error = some closed }
    else elim whence [
      | seek_start ↦ seek_to f offset
      | seek_current ↦ seek_to f (add64 (pos f.position) offset)
      | seek_end ↦ seek_to f (add64 (pos (length f.content)) offset)
      | seek_other ↦ record { state = f; position = pos 0; error = some invalid }
    ]

abbrev pub os_file : ReadSeeker File
os_file = record { read = file_read; seek = file_seek }

abbrev zeros : ℕ → Bytes
zeros zero = []
zeros (suc n) = 0 ∷ zeros n

-- A write replaces what it covers; a hole before it reads as zeros.
unfoldable pub file_write : File → Bytes → WriteResult File
file_write f b =
    if f.is_closed
    then record { state = f; written = 0; error = some closed }
    else let hole = zeros (f.position - length f.content) in
      record {
        state = record f {
          content =
              take f.position f.content ++ hole ++ b ++ drop (f.position + length b) f.content;
          position = f.position + length b;
        };
        written = length b;
        error = none;
      }

-- At the end of an open file a write appends.
pub file_write-append :
    (content b : Bytes)
    → file_write (opened content (length content)) b ≡ record {
      state = opened (content ++ b) (length content + length b);
      written = length b;
      error = none;
    }
unfolding file_write
file_write-append content b =
    let none_between : length content - length content ≡ 0 = omega arith in
    let all = take_all (length content) content (omega arith) in
    let end = drop_all (length content + length b) content (omega arith) in
    ground (arith, none_between, all, end, append-nil content, append-nil (content ++ b))
