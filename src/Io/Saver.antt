-- ===== src/Io/Saver.antt =====
-- common/io/readseeker.go, `ReadSeekSaver`: a reader that writes all it reads to a file.
use lomo_backup.Common.{
  ℕ, ◌+◌, ◌≡◌, none, some, [], ◌++◌, Bytes, length, ◌==◌, if◌then◌else◌, arith, append_assoc, ◌∙◌,
  refl, sym, ap, length-append,
}
use lomo_backup.Common.Int.{ℤ, pos}
use lomo_backup.Io.{
  short_write, Whence, ReadResult, SeekResult, WriteResult, ReadSeeker, Served, at_end, given,
  Serves,
}
use lomo_backup.Io.File.{File, file_seek, file_write, opened, file_write-append}

pub record ReadSeekSaver (S : Type 0) : Type 0 where
  pub f : File
  pub rs : S

module _ {S : Type 0} (inner : ReadSeeker S) where
  -- What `Read` returns once the file has answered the write of the bytes.
  saved : S → Bytes → WriteResult File → ReadResult (ReadSeekSaver S)
  saved rs b w = elim w.error [
    | some e ↦ record { state = record { f = w.state; rs = rs }; bytes = b; error = some e }
    | none ↦
        if length b == w.written
        then record { state = record { f = w.state; rs = rs }; bytes = b; error = none }
        else record {
          state = record { f = w.state; rs = rs };
          bytes = [];
          error = some short_write;
        }
  ]

  save : File → ReadResult S → ReadResult (ReadSeekSaver S)
  save f r = elim r.error [
    | some e ↦ record { state = record { f = f; rs = r.state }; bytes = r.bytes; error = some e }
    | none ↦ saved r.state r.bytes (file_write f r.bytes)
  ]

  unfoldable pub read : ReadSeekSaver S → ℕ → ReadResult (ReadSeekSaver S)
  unfolding save saved
  read rss n = save rss.f (inner.read rss.rs n)

  seek_inner : S → ℤ → Whence → SeekResult File → SeekResult (ReadSeekSaver S)
  seek_inner rs offset whence moved = elim moved.error [
    | some e ↦ record {
      state = record { f = moved.state; rs = rs };
      position = moved.position;
      error = some e;
    }
    | none ↦
        let r = inner.seek rs offset whence in
        let s : ReadSeekSaver S = record { f = moved.state; rs = r.state } in
        elim r.error [
          | some e ↦ record { state = s; position = pos 0; error = some e }
          | none ↦ record { state = s; position = moved.position; error = none }
        ]
  ]

  unfoldable pub seek : ReadSeekSaver S → ℤ → Whence → SeekResult (ReadSeekSaver S)
  unfolding seek_inner
  seek rss offset whence = seek_inner rss.rs offset whence (file_seek rss.f offset whence)

  saved_lem :
      (rs : S) (done b : Bytes)
      → saved rs b (file_write (opened done (length done)) b) ≡ record {
        state = record { f = opened (done ++ b) (length done + length b); rs = rs };
        bytes = b;
        error = none;
      }
  unfolding saved
  saved_lem rs done b = ap (saved rs b) (file_write-append done b) ∙ ground arith

  module _ (n : ℕ) (Inv : S → Bytes → Type 0) (stream : Bytes) where
    -- The file holds what was read so far of the stream, and stands at its end.
    pub record IsSaving (rss : ReadSeekSaver S) (rest : Bytes) : Type 0 where
      pub done : Bytes
      pub split : stream ≡ done ++ rest
      pub holds : rss.f ≡ opened done (length done)
      pub inner_left : Inv rss.rs rest

    save-Served :
        (done before : Bytes) {r : ReadResult S}
        → stream ≡ done ++ before
        → Served Inv n before r
        → Served IsSaving n before (save (opened done (length done)) r)
    unfolding save
    save-Served done before split (at_end {s} e inv) =
        at_end e (record { done = done; split = rw e at split; holds = refl; inner_left = inv })
    save-Served done before split (given {s} {b} {after} ne short e inv) = rw (saved_lem s done b) (
        given ne short e (record {
          done = done ++ b;
          split = split ∙ ap (λ t. done ++ t) e ∙ sym (append_assoc done b after);
          holds = ap (opened (done ++ b)) (sym (length-append done b));
          inner_left = inv;
        }))

    -- A saver serves the stream that the reader inside serves, and the file gets a copy of it.
    pub read-Serves : Serves inner.read n Inv → Serves read n IsSaving
    unfolding read
    read-Serves serves rss rest inv =
        rw inv.holds (save-Served inv.done rest inv.split (serves rss.rs rest inv.inner_left))
