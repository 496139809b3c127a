-- ===== src/Crypto/Master.antt =====
-- `MasterDecryptor`: its first write brings the nonce.
use mathlib.Core.Path.{ap₂}
use lomo_backup.Common.{
  ℕ, suc, ◌+◌, ◌<◌, ◌≤◌, ◌≡◌, ◌≢◌, refl, sym, ap, ◌∙◌, subst, true, false, none, some, [], ◌++◌,
  Bytes, length, length-append, All, arith, ltb, take-append_length, append-split,
  drop-append_length, append-nil, length_pos, ◌⊎◌, inl, inr, Option, Bool-cases,
}
use lomo_backup.Io.{
  eof, WriteResult, ReadResult, Accepts, buffer_too_short, Sent, sent_end, sent, Sends,
}
use lomo_backup.Io.Cipher.{IsByte, xor_from, xor_from-twice}
use lomo_backup.Io.CopyInto.{
  CopiedInto, copy_into, copy_into-first, copy_into-first_end, copy_into-refused,
}
use lomo_backup.Io.CryptoStream
use lomo_backup.Io.CryptoStream.{CryptoStreamWriter}
use lomo_backup.Io.CryptoStream.Write.{IsOpening, write-Accepts}
use lomo_backup.Crypto.{
  Primitives, IsLawful, MasterDecryptor, new_master_decryptor, master_write, master_passed,
  master_first, block_size, copy_buffer,
}
use lomo_backup.Crypto.Encrypt.{file_key, file_stream, encrypted}
use lomo_backup.Crypto.Decrypt.{new_decryptor_lem, IsOpening-start}

-- The writer of a `MasterDecryptor`, which its decryptor has as soon as there is one.
unfoldable pub written_to : {W : Type 0} → MasterDecryptor W → W
written_to md = elim md.decryptor [ some d ↦ d.f | none ↦ md.writer ]

-- A reader that gives between one and fifteen bytes with its first read ends the copy to a new
-- `MasterDecryptor` with an error, whatever it would give later, and nothing is written.
master_write-short :
    (P : Primitives) {W S : Type 0} (write : W → Bytes → WriteResult W)
    (read : S → ℕ → ReadResult S) (fuel : ℕ) (master_key b : Bytes) (dst : W) (s s' : S)
    → read s copy_buffer ≡ record { state = s'; bytes = b; error = none }
    → 0 < length b
    → length b < block_size
    → copy_into
        (master_write P write)
        read
        copy_buffer
        (suc fuel)
        s
        (new_master_decryptor P write dst master_key)
      ≡ some (record {
        reader = s';
        writer = new_master_decryptor P write dst master_key;
        written = 0;
        error = some buffer_too_short;
      })
unfolding master_write
master_write-short P write read fuel master_key b dst s s' is_read some_b short =
    let refuses : ltb (length b) block_size ≡ true = ground arith in
    copy_into-refused (master_write P write) read copy_buffer fuel s s' _ _ b buffer_too_short
      is_read (λ none_b. absurd (omega (arith, ap length none_b))) (rw refuses)

module _ (P : Primitives) (L : IsLawful P) (plain : Bytes) (bytes : All IsByte plain) {W : Type 0}
    (write : W → Bytes → WriteResult W) (Holds : W → Bytes → Type 0) (accepts : Accepts write Holds)
    (master_key iv : Bytes) (block : length iv ≡ block_size) (before : Bytes) where
  abbrev key : ℕ → ℕ
  key = file_key P master_key iv

  abbrev Opening : CryptoStreamWriter W → Bytes → Type 0
  Opening = IsOpening write Holds accepts key before

  -- Behind its first write.
  record HasOpened (md : MasterDecryptor W) (out : Bytes) : Type 0 where
    opener : CryptoStreamWriter W
    has_opener : md.decryptor ≡ some opener
    opening : Opening opener out

  later_write :
      (md : MasterDecryptor W) (out b : Bytes) (h : HasOpened md out)
      → master_write P write md b ≡ record {
        state = record md { decryptor = some (CryptoStream.write write h.opener b).state };
        written = length b;
        error = none;
      }
  unfolding master_write master_passed
  later_write md out b h =
      let A = write-Accepts write Holds accepts key before in
      rw (master_write, h.has_opener)
        (ap₂
          (λ n e. record {
            state = record md { decryptor = some (CryptoStream.write write h.opener b).state };
            written = n;
            error = e;
          })
          (ap (λ n. n + 0) (A.takes h.opener out b h.opening) ∙ omega arith)
          (A.succeeds h.opener out b h.opening))

  later-Accepts : Accepts (master_write P write) HasOpened
  later-Accepts = record {
    takes = λ md out b h. ap (λ r. r.written) (later_write md out b h);
    succeeds = λ md out b h. ap (λ r. r.error) (later_write md out b h);
    appends = λ md out b h.
        subst (λ r. HasOpened r.state (out ++ b)) (sym (later_write md out b h))
          (record {
            opener = (CryptoStream.write write h.opener b).state;
            has_opener = refl;
            opening =
                (write-Accepts write Holds accepts key before).appends h.opener out b h.opening;
          });
  }

  abbrev cipher : Bytes
  cipher = xor_from key 0 plain

  -- The first write, of at least a block, whose rest goes to the new decryptor.
  unfoldable first_opener : W → Bytes → CryptoStreamWriter W
  first_opener dst after =
      (CryptoStream.write write (record { f = dst; stream = file_stream P master_key iv })
        after).state

  first_write :
      (dst : W) (rest : Bytes)
      → Holds dst before
      → master_write P write (new_master_decryptor P write dst master_key) (iv ++ rest) ≡ record {
        state = record {
          master_key = master_key;
          writer = dst;
          decryptor = some (first_opener dst rest);
        };
        written = length (iv ++ rest);
        error = none;
      }
  unfolding master_write master_first master_passed first_opener
  first_write dst rest h =
      let A = write-Accepts write Holds accepts key before in
      let d : CryptoStreamWriter W = record { f = dst; stream = file_stream P master_key iv } in
      let start =
        IsOpening-start P L plain bytes write Holds accepts master_key iv block dst before h in
      let long : length (iv ++ rest) ≡ block_size + length rest =
        omega (arith, length-append iv rest, block) in
      let enough : ltb (length (iv ++ rest)) block_size ≡ false = ground (arith, long) in
      rw
        (
          enough,
          take-append_length iv rest block_size block,
          new_decryptor_lem P L plain bytes write Holds accepts master_key iv block dst,
          drop-append_length iv rest block_size block,
        )
        (ap₂
          (λ n e. record {
            state = record {
              master_key = master_key;
              writer = dst;
              decryptor = some (first_opener dst rest);
            };
            written = n;
            error = e;
          })
          (omega (arith, A.takes d [] rest start, long)) (A.succeeds d [] rest start))

  first-HasOpened :
      (dst : W) (rest : Bytes)
      → Holds dst before
      → HasOpened
          (record {
            master_key = master_key;
            writer = dst;
            decryptor = some (first_opener dst rest);
          })
          rest
  unfolding first_opener
  first-HasOpened dst rest h = record {
    opener = first_opener dst rest;
    has_opener = refl;
    opening =
        (write-Accepts write Holds accepts key before).appends
          (record { f = dst; stream = file_stream P master_key iv }) [] rest
          (IsOpening-start P L plain bytes write Holds accepts master_key iv block dst before h);
  }

  -- What is read first, when it is at least a block: the nonce, and the start of what is enciphered.
  split_first :
      (b after : Bytes)
      → encrypted P master_key iv plain ≡ b ++ after
      → block_size ≤ length b
      → (rest : Bytes) × (b ≡ iv ++ rest) × (cipher ≡ rest ++ after)
  split_first b after e long = append-split b after iv cipher (sym e) (omega arith)

  opened_writer :
      (md : MasterDecryptor W) (out : Bytes)
      → HasOpened md out
      → Holds (written_to md) (before ++ xor_from key 0 out)
  unfolding written_to
  opened_writer md out h = rw (h.has_opener) (h.opening.inner_holds)

  -- A copy to a new `MasterDecryptor` without an error: what the destination had before is followed by
  -- the original bytes.
  abbrev Restores : {S : Type 0} → Option (CopiedInto S (MasterDecryptor W)) → Type 0
  Restores {S} result =
      (s' : S) × (md : MasterDecryptor W) × (result
        ≡ some (record {
          reader = s';
          writer = md;
          written = length (encrypted P master_key iv plain);
          error = none;
        }))
      × Holds (written_to md) (before ++ plain)

  -- A copy that ends with an error, and the `MasterDecryptor` is as it was.
  abbrev Refuses : {S : Type 0} → W → Option (CopiedInto S (MasterDecryptor W)) → Type 0
  Refuses {S} dst result =
      (s' : S) × (result
        ≡ some (record {
          reader = s';
          writer = new_master_decryptor P write dst master_key;
          written = 0;
          error = some buffer_too_short;
        }))

  module _ {S : Type 0} (read : S → ℕ → ReadResult S) (Inv : S → Bytes → Type 0)
      (sends : Sends read copy_buffer Inv) (fuel : ℕ) (s : S) (dst : W) where
    abbrev result : Option (CopiedInto S (MasterDecryptor W))
    result =
        copy_into (master_write P write) read copy_buffer (suc fuel) s
          (new_master_decryptor P write dst master_key)

    first_part :
        (s' : S) (b after : Bytes)
        → read s copy_buffer ≡ record { state = s'; bytes = b; error = none }
        → encrypted P master_key iv plain ≡ b ++ after
        → Inv s' after
        → block_size ≤ length b
        → length (encrypted P master_key iv plain) < suc fuel
        → Holds dst before
        → Restores result
    first_part s' b after is_read e i long enough h =
        let some_b : b ≢ [] = λ none_b. absurd (omega (arith, long, ap length none_b)) in
        let (rest, first, later) = split_first b after e long in
        let size : length (encrypted P master_key iv plain) ≡ length b + length after =
          ap length e ∙ length-append b after in
        let (s2, md, done, ended, opened_out) =
          copy_into-first (master_write P write) read copy_buffer Inv sends HasOpened later-Accepts
            fuel s s' (new_master_decryptor P write dst master_key)
            (record {
              master_key = master_key;
              writer = dst;
              decryptor = some (first_opener dst rest);
            })
            b after rest is_read some_b (rw first (first_write dst rest h)) (omega arith) i
            (first-HasOpened dst rest h) in
        (
          s2,
          md,
          done
              ∙ ap (λ n. some (record { reader = s2; writer = md; written = n; error = none }))
                  (sym size),
          subst (λ t. Holds (written_to md) (before ++ t))
              (ap (xor_from key 0) (sym later) ∙ xor_from-twice key 0 plain bytes)
              (opened_writer md (rest ++ after) opened_out),
        )

    all_at_once :
        (s' : S) (b : Bytes)
        → read s copy_buffer ≡ record { state = s'; bytes = b; error = some eof }
        → encrypted P master_key iv plain ≡ b
        → block_size ≤ length b
        → Holds dst before
        → Restores result
    all_at_once s' b is_read e long h =
        let some_b : b ≢ [] = λ none_b. absurd (omega (arith, long, ap length none_b)) in
        let (rest, first, later) = split_first b [] (e ∙ sym (append-nil b)) long in
        let md : MasterDecryptor W = record {
          master_key = master_key;
          writer = dst;
          decryptor = some (first_opener dst rest);
        } in
        (
          s',
          md,
          copy_into-first_end (master_write P write) read copy_buffer fuel s s'
                (new_master_decryptor P write dst master_key) md b is_read some_b
                (rw first (first_write dst rest h))
              ∙ ap
                  (λ t.
                    some (record { reader = s'; writer = md; written = length t; error = none }))
                  (sym e),
          subst (λ t. Holds (written_to md) (before ++ t))
              (ap (xor_from key 0) (sym (append-nil rest) ∙ sym later)
                ∙ xor_from-twice key 0 plain bytes)
              (opened_writer md rest (first-HasOpened dst rest h)),
        )

    encrypted-length : block_size ≤ length (encrypted P master_key iv plain)
    encrypted-length = omega (arith, length-append iv cipher, block)

    first_read :
        (r : ReadResult S)
        → read s copy_buffer ≡ r
        → Sent Inv copy_buffer (encrypted P master_key iv plain) r
        → length (encrypted P master_key iv plain) < suc fuel
        → Holds dst before
        → ((block_size ≤ length r.bytes) × Restores result)
          ⊎ ((length r.bytes < block_size) × Refuses dst result)
    first_read _ is_read (sent_end {s = s'} {b} short e i) enough h =
        let long : block_size ≤ length b = omega (arith, encrypted-length, ap length e) in
        inl (long, all_at_once s' b is_read e long h)
    first_read _ is_read (sent {s = s'} {b} {after} ne short e i) enough h =
        elim (Bool-cases (ltb (length b) block_size)) [
          | inr no_less ↦
              let long : block_size ≤ length b = ground (arith, no_less) in
              inl (long, first_part s' b after is_read e i long enough h)
          | inl less ↦
              let few : length b < block_size = ground (arith, less) in
              inr (
                few,
                (
                  s',
                  master_write-short P write read fuel master_key b dst s s' is_read
                      (length_pos b ne) few,
                ),
              )
        ]

    -- A reader that sends a file encrypted under the same master key is copied to a new
    -- `MasterDecryptor`: without an error if its first read gives at least the nonce, and else not.
    pub master_write_cases :
        Inv s (encrypted P master_key iv plain)
        → length (encrypted P master_key iv plain) < suc fuel
        → Holds dst before
        → ((block_size ≤ length (read s copy_buffer).bytes) × Restores result)
          ⊎ ((length (read s copy_buffer).bytes < block_size) × Refuses dst result)
    master_write_cases i enough h =
        first_read (read s copy_buffer) refl (sends s (encrypted P master_key iv plain) i) enough h
