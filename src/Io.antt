-- ===== src/Io.antt =====
-- common/io: what the readers of the program share. `ReadSeeker` is Go's interface of that name over
-- a state, with one step for each call; `copy` is the loop of `io.Copy`, which the code calls. An
-- offset is an int64, and a buffer is given by its length.
pub mod Copy
pub mod CopyInto
pub mod MultiWriter
pub mod ReadFull
pub mod File
pub mod PartReader
pub mod Saver
pub mod Cipher
pub mod CryptoStream
pub mod Run
use lomo_backup.Common.{
  ℕ, zero, suc, ◌+◌, ◌<◌, ◌≡◌, ◌≢◌, Option, none, some, [], ◌++◌, Bytes, length, ◌≤◌, arith,
}
use lomo_backup.Common.Int.{ℤ}

-- `eof` and `unexpected_eof` are those of package io; `closed` and `invalid` are the errors of
-- `os.File`; `panicked` stands for a run-time panic, such as a slice out of bounds. The others are
-- the errors that the code makes with a text of its own, and `key_size` is that of `aes.NewCipher`.
-- `service` is the error of a web service, with its code; `wrapped` is an error with the number of a
-- retry and a later error.
pub data IoError : Type 0 where
  eof : IoError
  closed : IoError
  invalid : IoError
  fail_to_seek : IoError
  not_implemented : IoError
  short_write : IoError
  panicked : IoError
  unexpected_eof : IoError
  key_size : IoError
  buffer_too_short : IoError
  hash_too_short : IoError
  salt_differs : IoError
  count_differs : IoError
  empty_upload_id : IoError
  empty_bucket : IoError
  empty_key : IoError
  wrong_parent : IoError
  usage : IoError
  service : Bytes → IoError
  wrapped : IoError → ℕ → IoError → IoError

-- A value or an error.
pub data Result {ℓ} (A : Type ℓ) : Type ℓ where
  ok : A → Result A
  err : IoError → Result A

-- `io.SeekStart`, `io.SeekCurrent`, `io.SeekEnd`, and any other number.
pub data Whence : Type 0 where
  seek_start : Whence
  seek_current : Whence
  seek_end : Whence
  seek_other : Whence

-- `(n int, err error)` of `Read`: the bytes that were put into the buffer, n of them.
pub record ReadResult (S : Type 0) : Type 0 where
  pub state : S
  pub bytes : Bytes
  pub error : Option IoError

-- `(n int64, err error)` of `Seek`.
pub record SeekResult (S : Type 0) : Type 0 where
  pub state : S
  pub position : ℤ
  pub error : Option IoError

-- `(n int, err error)` of `Write`.
pub record WriteResult (W : Type 0) : Type 0 where
  pub state : W
  pub written : ℕ
  pub error : Option IoError

pub record ReadSeeker (S : Type 0) : Type 0 where
  pub read : S → ℕ → ReadResult S
  pub seek : S → ℤ → Whence → SeekResult S

-- What one call of `Read` with a buffer of `n` bytes does to a reader that still has `before` to
-- give: at the end it reports `eof`, and before the end it gives at least one byte and no error.
pub data Served {S : Type 0} (Inv : S → Bytes → Type 0) (n : ℕ) (before : Bytes)
    : ReadResult S → Type 0 where
  at_end :
      {s : S}
      → before ≡ []
      → Inv s []
      → Served Inv n before (record { state = s; bytes = []; error = some eof })
  given :
      {s : S} {b after : Bytes}
      → b ≢ []
      → length b ≤ n
      → before ≡ b ++ after
      → Inv s after
      → Served Inv n before (record { state = s; bytes = b; error = none })

-- A reader serves a stream: `Inv s rest` says that `rest` is what state `s` still has to give to
-- reads with a buffer of `n` bytes.
abbrev pub Serves : {S : Type 0} → (S → ℕ → ReadResult S) → ℕ → (S → Bytes → Type 0) → Type 0
Serves {S} read n Inv = (s : S) (rest : Bytes) → Inv s rest → Served Inv n rest (read s n)

-- The same of a reader that may report `eof` together with its last bytes, as `io.Reader` allows.
pub data Sent {S : Type 0} (Inv : S → Bytes → Type 0) (n : ℕ) (before : Bytes)
    : ReadResult S → Type 0 where
  sent_end :
      {s : S} {b : Bytes}
      → length b ≤ n
      → before ≡ b
      → Inv s []
      → Sent Inv n before (record { state = s; bytes = b; error = some eof })
  sent :
      {s : S} {b after : Bytes}
      → b ≢ []
      → length b ≤ n
      → before ≡ b ++ after
      → Inv s after
      → Sent Inv n before (record { state = s; bytes = b; error = none })

abbrev pub Sends : {S : Type 0} → (S → ℕ → ReadResult S) → ℕ → (S → Bytes → Type 0) → Type 0
Sends {S} read n Inv = (s : S) (rest : Bytes) → Inv s rest → Sent Inv n rest (read s n)

Served-Sent :
    {S : Type 0} {Inv : S → Bytes → Type 0} {n : ℕ} {before : Bytes} {r : ReadResult S}
    → Served Inv n before r
    → Sent Inv n before r
Served-Sent (at_end e i) = sent_end (omega arith) e i
Served-Sent (given ne short e i) = sent ne short e i

pub Serves-Sends :
    {S : Type 0} (read : S → ℕ → ReadResult S) (n : ℕ) (Inv : S → Bytes → Type 0)
    → Serves read n Inv
    → Sends read n Inv
Serves-Sends read n Inv serves s rest i = Served-Sent (serves s rest i)

-- A writer takes all that it is given: `Holds w out` says that `out` was written to `w` so far.
pub record Accepts {W : Type 0} (write : W → Bytes → WriteResult W) (Holds : W → Bytes → Type 0)
    : Type 0 where
  pub takes : (w : W) (out b : Bytes) → Holds w out → (write w b).written ≡ length b
  pub succeeds : (w : W) (out b : Bytes) → Holds w out → (write w b).error ≡ none
  pub appends : (w : W) (out b : Bytes) → Holds w out → Holds (write w b).state (out ++ b)
