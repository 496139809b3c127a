-- ===== src/Io/CryptoStream.antt =====
-- common/io/crypto.go: `CryptoStreamReader` gives a nonce and then a file, enciphered on the fly, and
-- hashes what it reads and what it gives; `CryptoStreamWriter` takes the cipher away again. A hash is
-- the text written to it: `Sum` is sha256 of that text, a parameter of `get_hash_orig` and
-- `get_hash_encrypt`. A state that a run-time panic would leave is not used again.
pub mod Read
pub mod Write
use lomo_backup.Common.{
  ℕ, ◌+◌, ◌-◌, ◌≡◌, Bool, true, false, Option, none, some, [], ◌++◌, Bytes, length, take, drop, ltb,
  leb, ◌==◌, if◌then◌else◌,
}
use lomo_backup.Common.Int.{ℤ, pos, pos_part, ltb_ℤ, leb_ℤ, add64, sub64}
use lomo_backup.Io.{
  IoError, not_implemented, panicked, Whence, seek_start, seek_current, seek_end, seek_other,
  ReadResult, SeekResult, WriteResult, ReadSeeker,
}
use lomo_backup.Io.Cipher.{Stream, xor_from}

-- A slice of bytes: its elements, and those between its length and its capacity, which slicing
-- reaches too.
pub record Slice : Type 0 where
  pub elements : Bytes
  pub spare : Bytes

-- `s[i:j]`, which panics behind the capacity.
unfoldable pub slice_of : Slice → ℕ → ℕ → Option Bytes
slice_of s i j =
    if leb j (length s.elements + length s.spare)
    then some (take (j - i) (drop i (s.elements ++ s.spare)))
    else none

pub record CryptoStreamReader (S : Type 0) : Type 0 where
  pub f : S
  pub file_len : ℤ
  pub nonce : Slice
  pub stream : Option Stream
  pub offset : ℕ
  pub hash_orig : Bytes
  pub hash_encrypt : Bytes

-- `nonceLen`, and `len(r.nonce)`.
abbrev pub nonce_len : {S : Type 0} → CryptoStreamReader S → ℕ
nonce_len r = length r.nonce.elements

-- `(*CryptoStreamReader, error)`
pub data Made (S : Type 0) : Type 0 where
  made : CryptoStreamReader S → Made S
  refused : IoError → Made S

-- `l` of `Read`: how much of the nonce a buffer of `n` bytes takes.
abbrev pub nonce_part : ℕ → ℕ → ℕ → ℕ
nonce_part l offset n = if ltb n l then if ltb (offset + n) l then n else l - offset else l

module _ {S : Type 0} (inner : ReadSeeker S) where
  make_sought : ℤ → Slice → Option Stream → SeekResult S → Made S
  make_sought l nonce stream back = elim back.error [
    | some e ↦ refused e
    | none ↦ made (record {
      f = back.state;
      file_len = l;
      nonce = nonce;
      stream = stream;
      offset = 0;
      hash_orig = [];
      hash_encrypt = [];
    })
  ]

  make_measured : Slice → Option Stream → SeekResult S → Made S
  make_measured nonce stream end = elim end.error [
    | some e ↦ refused e
    | none ↦ make_sought end.position nonce stream (inner.seek end.state (pos 0) seek_start)
  ]

  -- `NewCryptoStreamReader`
  unfoldable pub new_crypto_stream_reader : S → Slice → Option Stream → Made S
  unfolding make_measured make_sought
  new_crypto_stream_reader f nonce stream =
      make_measured nonce stream (inner.seek f (pos 0) seek_end)

  unfoldable pub read_nonce :
      CryptoStreamReader S → ℕ → Option Bytes → ReadResult (CryptoStreamReader S)
  read_nonce r l part = elim part [
    | none ↦ record { state = r; bytes = []; error = some panicked }
    | some b ↦ record {
      state = record r { offset = r.offset + l; hash_encrypt = r.hash_encrypt ++ b };
      bytes = b;
      error = none;
    }
  ]

  -- Without a cipher: the error comes with what was read, and the nonce decides on the second hash.
  unfoldable pub read_plain :
      CryptoStreamReader S → ReadResult S → ReadResult (CryptoStreamReader S)
  read_plain r got = elim got.error [
    | some e ↦ record { state = record r { f = got.state }; bytes = got.bytes; error = some e }
    | none ↦ record {
      state = record r {
        f = got.state;
        offset = r.offset + length got.bytes;
        hash_orig = r.hash_orig ++ got.bytes;
        hash_encrypt = if nonce_len r == 0 then r.hash_encrypt else r.hash_encrypt ++ got.bytes;
      };
      bytes = got.bytes;
      error = none;
    }
  ]

  -- With a cipher an error drops what was read.
  unfoldable pub read_cipher :
      CryptoStreamReader S → Stream → ReadResult S → ReadResult (CryptoStreamReader S)
  read_cipher r st got = elim got.error [
    | some e ↦ record { state = record r { f = got.state }; bytes = []; error = some e }
    | none ↦
        let out = xor_from st.key_byte st.used got.bytes in
        record {
          state = record r {
            f = got.state;
            stream = some (record st { used = st.used + length got.bytes });
            offset = r.offset + length got.bytes;
            hash_orig = r.hash_orig ++ got.bytes;
            hash_encrypt = r.hash_encrypt ++ out;
          };
          bytes = out;
          error = none;
        }
  ]

  unfoldable pub read : CryptoStreamReader S → ℕ → ReadResult (CryptoStreamReader S)
  read r n =
      let l = nonce_part (nonce_len r) r.offset n in
      if ltb r.offset (nonce_len r)
      then read_nonce r l (slice_of r.nonce r.offset (r.offset + l))
      else elim r.stream [
        | none ↦ read_plain r (inner.read r.f n)
        | some st ↦ read_cipher r st (inner.read r.f n)
      ]

  -- `Seek` of the file inside, with the reader's new offset and the answer given to the caller.
  moved : CryptoStreamReader S → ℕ → ℤ → SeekResult S → SeekResult (CryptoStreamReader S)
  moved r offset answer at = record {
    state = record r { f = at.state; offset = offset };
    position = answer;
    error = at.error;
  }

  abbrev whole : CryptoStreamReader S → ℤ
  whole r = add64 (pos (nonce_len r)) r.file_len

  seek_from_current : CryptoStreamReader S → ℤ → SeekResult S → SeekResult (CryptoStreamReader S)
  seek_from_current r offset at = elim at.error [
    | some e ↦ record { state = record r { f = at.state }; position = at.position; error = some e }
    | none ↦
        let r' : CryptoStreamReader S = record r { f = at.state } in
        let target = add64 at.position offset in
        let back = inner.seek at.state (pos 0) seek_start in
        let place = add64 (pos (nonce_len r)) target in
        if leb_ℤ target (pos 0)
        then moved r' 0 back.position back
        else if leb_ℤ r.file_len target
        then moved r' (pos_part (whole r)) (whole r) (inner.seek at.state (pos 0) seek_end)
        else if ltb_ℤ target (pos (nonce_len r))
        then moved r' (pos_part target) target (inner.seek at.state (pos 0) seek_start)
        else moved r' (pos_part place) place (inner.seek at.state target seek_start)
  ]

  unfoldable pub seek : CryptoStreamReader S → ℤ → Whence → SeekResult (CryptoStreamReader S)
  unfolding seek_from_current moved
  seek r offset seek_start =
      if leb_ℤ offset (pos 0)
      then moved r 0 (pos 0) (inner.seek r.f (pos 0) seek_start)
      else if ltb_ℤ (whole r) offset
      then moved r (pos_part (whole r)) (whole r) (inner.seek r.f (pos 0) seek_end)
      else if ltb_ℤ offset (pos (nonce_len r))
      then moved r (pos_part offset) offset (inner.seek r.f (pos 0) seek_start)
      else moved r (pos_part offset) offset
          (inner.seek r.f (sub64 offset (pos (nonce_len r))) seek_start)
  seek r offset seek_current = seek_from_current r offset (inner.seek r.f (pos 0) seek_current)
  seek r offset seek_end =
      let place = add64 (pos (nonce_len r)) (add64 r.file_len offset) in
      if leb_ℤ place (pos 0)
      then moved r 0 (pos 0) (inner.seek r.f (pos 0) seek_start)
      else if leb_ℤ (whole r) place
      then moved r (pos_part (whole r)) (whole r) (inner.seek r.f (pos 0) seek_end)
      else if ltb_ℤ place (pos (nonce_len r))
      then moved r (pos_part place) place (inner.seek r.f (pos 0) seek_start)
      else moved r (pos_part place) (add64 (whole r) offset)
          (inner.seek r.f (add64 r.file_len offset) seek_start)
  seek r offset seek_other = record { state = r; position = pos 0; error = some not_implemented }

  abbrev pub crypto_reader : ReadSeeker (CryptoStreamReader S)
  crypto_reader = record { read = read; seek = seek }

-- `Size`
abbrev pub size : {S : Type 0} → CryptoStreamReader S → ℤ
size r = add64 (pos (nonce_len r)) r.file_len

-- `GetHashOrig` and `GetHashEncrypt`
module _ (sha256 : Bytes → Bytes) {S : Type 0} where
  unfoldable pub get_hash_orig : CryptoStreamReader S → Bytes
  get_hash_orig r = sha256 r.hash_orig

  unfoldable pub get_hash_encrypt : CryptoStreamReader S → Bytes
  get_hash_encrypt r = sha256 r.hash_encrypt

-- `CryptoStreamWriter` over any `io.Writer`.
pub record CryptoStreamWriter (W : Type 0) : Type 0 where
  pub f : W
  pub stream : Stream

module _ {W : Type 0} (inner_write : W → Bytes → WriteResult W) where
  passed : CryptoStreamWriter W → ℕ → WriteResult W → WriteResult (CryptoStreamWriter W)
  passed w n r = record {
    state = record { f = r.state; stream = record (w.stream) { used = w.stream.used + n } };
    written = r.written;
    error = r.error;
  }

  unfoldable pub write : CryptoStreamWriter W → Bytes → WriteResult (CryptoStreamWriter W)
  unfolding passed
  write w p = passed w (length p) (inner_write w.f (xor_from w.stream.key_byte w.stream.used p))
