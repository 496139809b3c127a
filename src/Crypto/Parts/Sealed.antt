-- ===== src/Crypto/Parts/Sealed.antt =====
-- One part of a file under the encryptor: the key stream goes on where the part before ended.
use lomo_backup.Common.{
  ℕ, ◌-◌, ◌<◌, ◌≤◌, ◌^◌, ◌≡◌, refl, sym, ap, ◌∙◌, Option, none, some, inl, inr, [], ◌++◌, Bytes,
  length, take, drop, take-add, length-take, length-drop, arith,
}
use lomo_backup.Common.Int.{pos, sub64_pos}
use lomo_backup.Io.{WriteResult, Accepts, Serves-Sends}
use lomo_backup.Io.Cipher.{xor_from, length-xor_from}
use lomo_backup.Io.CopyInto.{copy_into-Finishes}
use lomo_backup.Io.PartReader.{FilePartReadSeeker, part_reader, set_start_end}
use lomo_backup.Io.PartReader.Read.{part, IsReading, read-Serves}
use lomo_backup.Io.CryptoStream
use lomo_backup.Io.CryptoStream.{Slice, CryptoStreamReader, made, new_crypto_stream_reader}
use lomo_backup.Io.CryptoStream.Read.{
  fresh, new_crypto_stream_reader-made, IsSealing, InFile, at_end-HasHashed,
}
use lomo_backup.Io.CryptoStream.Read
use lomo_backup.Crypto.{Primitives, copy_buffer}
use lomo_backup.Crypto.Parts.{Encryptor, PartWritten, encrypt_part, copy_part, copied_part}

abbrev pub no_nonce : Slice
no_nonce = record { elements = []; spare = [] }

-- The bytes of a file from `a` up to `e`.
abbrev pub between : Bytes → ℕ → ℕ → Bytes
between content a e = take (e - a) (drop a content)

module _ (content : Bytes) (small : length content < 2 ^ 63) (key : ℕ → ℕ) where
  -- An encryptor that has given the first `d` bytes of the file.
  pub record HasSealed (r : Encryptor) (d : ℕ) : Type 0 where
    pub place : ℕ
    pub from : ℕ
    pub upto : ℕ
    pub current : ℕ
    pub is_part : r.f ≡ part content place from upto current
    pub place_small : place < 2 ^ 63
    pub has_nonce : r.nonce ≡ no_nonce
    pub has_stream : r.stream ≡ some (record { key_byte = key; used = d })
    pub plain_hash : r.hash_orig ≡ take d content
    pub given_hash : r.hash_encrypt ≡ xor_from key 0 (take d content)

  abbrev n_pos : 0 < copy_buffer
  n_pos = omega arith

  module _ (a e : ℕ) (ordered : a ≤ e) (within : e ≤ length content) where
    abbrev Reading : FilePartReadSeeker → Bytes → Type 0
    Reading = IsReading content small a e copy_buffer n_pos within

    abbrev Sealing : Encryptor → Bytes → Type 0
    Sealing =
        IsSealing part_reader copy_buffer Reading
          (read-Serves content small a e copy_buffer n_pos within) no_nonce key (take e content)

    -- The encryptor at the start of the part.
    pub enter :
        (r : Encryptor)
        → HasSealed r a
        → Sealing
            (record r { f = set_start_end r.f (pos a) (pos e) })
            (xor_from key a (between content a e))
    enter r s =
        let length_done : length (take a content) ≡ a = omega (arith, length-take a content) in
        inr (record {
          done = take a content;
          to_do = between content a e;
          has_nonce = s.has_nonce;
          split = sym (take-add a (e - a) e content (omega arith));
          has_stream = rw length_done s.has_stream;
          behind = omega arith;
          unread = record {
            place = s.place;
            done = a;
            is_part = ap (λ f. set_start_end f (pos a) (pos e)) s.is_part;
            place_small = s.place_small;
            done_le = ordered;
            left = refl;
          };
          left = ap (λ k. xor_from key k (between content a e)) (sym length_done);
          plain_hash = s.plain_hash;
          given_hash = s.given_hash;
        })

    leave : (r : Encryptor) → Sealing r [] → HasSealed r e
    leave r (inl inv) = absurd (omega (arith, inv.before))
    leave r (inr inv) =
        let (orig, given) =
          at_end-HasHashed part_reader copy_buffer Reading
            (read-Serves content small a e copy_buffer n_pos within) no_nonce key (take e content) r
            (inr inv) in
        let all : length inv.done ≡ e =
          omega (arith, ap length (sym inv.plain_hash ∙ orig), length-take e content) in
        record {
          place = inv.unread.place;
          from = a;
          upto = e;
          current = inv.unread.done;
          is_part = inv.unread.is_part;
          place_small = inv.unread.place_small;
          has_nonce = inv.has_nonce;
          has_stream = inv.has_stream ∙ ap (λ u. some (record { key_byte = key; used = u })) all;
          plain_hash = orig;
          given_hash = given;
        }

    pub length-between : length (between content a e) ≡ e - a
    length-between = omega (arith, length-take (e - a) (drop a content), length-drop a content)

  module _ (P : Primitives) (k : Bytes) (salt : Slice) {W : Type 0}
      (write : W → Bytes → WriteResult W) (Holds : W → Bytes → Type 0)
      (accepts : Accepts write Holds) (fuel : ℕ) (enough : length content < fuel) where
    -- The part is written behind `out`, and the encryptor has given all up to its end.
    abbrev pub Seals : ℕ → Bytes → Option (PartWritten W) → Type 0
    Seals e out result =
        (r : Encryptor) × (w : W) × (result
          ≡ some (record { encryptor = some r; writer = w; error = none }))
        × HasSealed r e
        × Holds w out

    module _ (a e : ℕ) (ordered : a ≤ e) (within : e ≤ length content) where
      copied_lem :
          (r : Encryptor) (w : W) (n : ℕ)
          → n ≡ e - a
          → copied_part P fuel k salt write
              (pos a)
              (pos e)
              (some (record { reader = r; writer = w; written = n; error = none }))
            ≡ some (record { encryptor = some r; writer = w; error = none })
      unfolding copied_part
      copied_lem r w n h = rw (sub64_pos e a ordered (omega arith)) (ground arith)

      pub copy_part-Seals :
          (en : Encryptor) (w : W) (out : Bytes)
          → Sealing a e ordered within en (xor_from key a (between content a e))
          → Holds w out
          → Seals e
              (out ++ xor_from key a (between content a e))
              (copy_part P fuel k salt write (pos a) (pos e) en w)
      unfolding copy_part copied_part
      copy_part-Seals en w out sealing holds =
          let cipher = xor_from key a (between content a e) in
          let size : length cipher ≡ e - a =
            length-xor_from key a (between content a e) ∙ length-between a e ordered within in
          let (r, w', done, ended, written) =
            copy_into-Finishes write (CryptoStream.read part_reader) copy_buffer
              (Sealing a e ordered within)
              (Serves-Sends (CryptoStream.read part_reader) copy_buffer (Sealing a e ordered within)
                (Read.read-Serves part_reader copy_buffer (Reading a e ordered within)
                  (read-Serves content small a e copy_buffer n_pos within) no_nonce key
                  (take e content) n_pos))
              Holds accepts fuel en w cipher out (omega arith) sealing holds in
          (
            r,
            w',
            ap (copied_part P fuel k salt write (pos a) (pos e)) done ∙ copied_lem r w' _ size,
            leave a e ordered within r ended,
            written,
          )

      -- A part behind the first: the encryptor is moved to it.
      pub encrypt_part_lem :
          (src : _) (en : Encryptor) (w : W) (out : Bytes)
          → HasSealed en a
          → Holds w out
          → Seals e
              (out ++ xor_from key a (between content a e))
              (encrypt_part P fuel k salt write src (pos a) (pos e) (some en) w)
      unfolding encrypt_part
      encrypt_part_lem src en w out s holds =
          copy_part-Seals (record en { f = set_start_end en.f (pos a) (pos e) }) w out
            (enter a e ordered within en s) holds
