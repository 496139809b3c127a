-- ===== src/Io/CryptoStream/Read.antt =====
-- Reading a `CryptoStreamReader` with a buffer of one length gives the nonce and then the file under
-- the key stream, and the two hashes are of the file and of all that was given.
use native.Mathlib.Decide.{dec_lt}
use lomo_backup.Common.{
  ℕ, ◌+◌, ◌-◌, ◌≤◌, ◌<◌, ◌≡◌, ◌⊎◌, inl, inr, refl, sym, ap, ◌∙◌, Option, none, some, [], ◌++◌,
  append-nil, append_assoc, Bytes, length, take, drop, length-append, length-take, length-drop,
  length_pos, take-drop-append, take-add, take-append-drop, take_all, drop_all, drop-drop, lt→ltb,
  le→leb, arith,
}
use lomo_backup.Common.Int.{ℤ, pos}
use lomo_backup.Io.Copy.{copy, copy-Serves}
use lomo_backup.Io.{seek_start, seek_end, ReadResult, ReadSeeker, Served, at_end, given, Serves}
use lomo_backup.Io.Cipher.{Stream, xor_from, xor_from-nil, xor_from-append, length-xor_from}
use lomo_backup.Io.CryptoStream.{
  Slice, slice_of, made, make_measured, make_sought, new_crypto_stream_reader, CryptoStreamReader,
  nonce_len, nonce_part, read_nonce, read_cipher, read,
}

-- A new reader.
abbrev pub fresh : {S : Type 0} → S → ℤ → Slice → Option Stream → CryptoStreamReader S
fresh f l nonce stream = record {
  f = f;
  file_len = l;
  nonce = nonce;
  stream = stream;
  offset = 0;
  hash_orig = [];
  hash_encrypt = [];
}

-- A file that can be measured and sought back to its start gives a reader at offset 0.
pub new_crypto_stream_reader-made :
    {S : Type 0} (inner : ReadSeeker S) (f end start : S) (l p : ℤ) (nonce : Slice)
    (stream : Option Stream)
    → inner.seek f (pos 0) seek_end ≡ record { state = end; position = l; error = none }
    → inner.seek end (pos 0) seek_start ≡ record { state = start; position = p; error = none }
    → new_crypto_stream_reader inner f nonce stream ≡ made (fresh start l nonce stream)
unfolding new_crypto_stream_reader make_measured make_sought
new_crypto_stream_reader-made inner f end start l p nonce stream e1 e2 =
    ap (make_measured inner nonce stream) e1 ∙ ap (make_sought inner l nonce stream) e2

slice_lem :
    (s : Slice) (i l : ℕ)
    → i + l ≤ length s.elements
    → slice_of s i (i + l) ≡ some (take l (drop i s.elements))
unfolding slice_of
slice_lem s i l h =
    let width : i + l - i ≡ l = omega arith in
    rw (
      width,
      take-drop-append i l s.elements s.spare h,
      le→leb (i + l) (length s.elements + length s.spare) (omega arith),
    )

module _ {S : Type 0} (inner : ReadSeeker S) (n : ℕ) (Inv : S → Bytes → Type 0)
    (serves : Serves inner.read n Inv) (nonce : Slice) (key : ℕ → ℕ) (plain : Bytes) where
  -- What a reader of `plain` under the key stream `key` gives in all.
  abbrev pub sealed : Bytes
  sealed = nonce.elements ++ xor_from key 0 plain

  -- A reader that stands in its nonce: it is at the start, or the buffer is shorter than the nonce.
  pub record InNonce (r : CryptoStreamReader S) (rest : Bytes) : Type 0 where
    pub has_nonce : r.nonce ≡ nonce
    pub has_stream : r.stream ≡ some (record { key_byte = key; used = 0 })
    pub before : r.offset < length nonce.elements
    pub steady : (r.offset ≡ 0) ⊎ (n < length nonce.elements)
    pub unread : Inv r.f plain
    pub left : rest ≡ drop r.offset nonce.elements ++ xor_from key 0 plain
    pub no_plain : r.hash_orig ≡ []
    pub given_hash : r.hash_encrypt ≡ take r.offset nonce.elements

  -- A reader behind its nonce, which has given `done` of the file.
  pub record InFile (r : CryptoStreamReader S) (rest : Bytes) : Type 0 where
    pub done : Bytes
    pub to_do : Bytes
    pub has_nonce : r.nonce ≡ nonce
    pub split : plain ≡ done ++ to_do
    pub has_stream : r.stream ≡ some (record { key_byte = key; used = length done })
    pub behind : length nonce.elements ≤ r.offset
    pub unread : Inv r.f to_do
    pub left : rest ≡ xor_from key (length done) to_do
    pub plain_hash : r.hash_orig ≡ done
    pub given_hash : r.hash_encrypt ≡ nonce.elements ++ xor_from key 0 done

  abbrev pub IsSealing : CryptoStreamReader S → Bytes → Type 0
  IsSealing r rest = InNonce r rest ⊎ InFile r rest

  read_cipher-Served :
      (r : CryptoStreamReader S) (rest : Bytes) (inv : InFile r rest) {got : ReadResult S}
      → Served Inv n inv.to_do got
      → Served IsSealing n rest
          (read_cipher inner r (record { key_byte = key; used = length inv.done }) got)
  unfolding read_cipher
  read_cipher-Served r rest inv (at_end {s} e i) =
      at_end (inv.left ∙ ap (xor_from key (length inv.done)) e ∙ xor_from-nil key _) (
        inr (record {
          done = inv.done;
          to_do = [];
          has_nonce = inv.has_nonce;
          split = inv.split ∙ ap (λ t. inv.done ++ t) e;
          has_stream = inv.has_stream;
          behind = inv.behind;
          unread = i;
          left = sym (xor_from-nil key _);
          plain_hash = inv.plain_hash;
          given_hash = inv.given_hash;
        }))
  read_cipher-Served r rest inv (given {s} {b} {after} ne short e i) =
      let k = length inv.done in
      let len = length-xor_from key k b in
      let longer = length-append inv.done b in
      given (λ z. omega (arith, ap length z, length_pos b ne)) (omega arith)
        (inv.left ∙ ap (xor_from key k) e ∙ xor_from-append key k (k + length b) b after refl)
        (inr (record {
          done = inv.done ++ b;
          to_do = after;
          has_nonce = inv.has_nonce;
          split = inv.split ∙ ap (λ t. inv.done ++ t) e ∙ sym (append_assoc inv.done b after);
          has_stream = ap (λ u. some (record { key_byte = key; used = u })) (sym longer);
          behind = omega (arith, inv.behind);
          unread = i;
          left = ap (λ u. xor_from key u after) (sym longer);
          plain_hash = ap (λ t. t ++ b) inv.plain_hash;
          given_hash =
              ap (λ t. t ++ xor_from key k b) inv.given_hash
              ∙ append_assoc nonce.elements _ _
              ∙ ap (λ t. nonce.elements ++ t)
                  (sym (xor_from-append key 0 k inv.done b (omega arith)));
        }))

  read_behind :
      (r : CryptoStreamReader S) (st : Stream)
      → nonce_len r ≤ r.offset
      → r.stream ≡ some st
      → read inner r n ≡ read_cipher inner r st (inner.read r.f n)
  unfolding read
  read_behind r st h e = rw (read, e) (ground arith)

  read_file-Served :
      (r : CryptoStreamReader S) (rest : Bytes)
      → InFile r rest
      → Served IsSealing n rest (read inner r n)
  read_file-Served r rest inv =
      rw (read_behind r _ (rw inv.has_nonce inv.behind) inv.has_stream)
        (read_cipher-Served r rest inv (serves r.f inv.to_do inv.unread))

  -- How much of the nonce one read takes, and that it is what is left of it when it takes all.
  record Takes (l offset : ℕ) (steady : Type 0) : Type 0 where
    some_left : 0 < l
    fits : l ≤ n
    inside : offset + l ≤ length nonce.elements
    again : offset + l < length nonce.elements → steady

  nonce_part-Takes :
      (offset : ℕ)
      → 0 < n
      → offset < length nonce.elements
      → (offset ≡ 0) ⊎ (n < length nonce.elements)
      → Takes (nonce_part (length nonce.elements) offset n) offset (n < length nonce.elements)
  nonce_part-Takes offset n_pos h steady = ground arith

  read_nonce_lem :
      (r : CryptoStreamReader S) (l : ℕ)
      → r.offset < nonce_len r
      → nonce_part (nonce_len r) r.offset n ≡ l
      → r.offset + l ≤ nonce_len r
      → read inner r n ≡ record {
        state = record r {
          offset = r.offset + l;
          hash_encrypt = r.hash_encrypt ++ take l (drop r.offset r.nonce.elements);
        };
        bytes = take l (drop r.offset r.nonce.elements);
        error = none;
      }
  unfolding read read_nonce
  read_nonce_lem r l h k fits =
      rw (read, k, lt→ltb r.offset (nonce_len r) h, slice_lem r.nonce r.offset l fits)

  nonce-Served :
      (r : CryptoStreamReader S) (rest : Bytes) (l : ℕ)
      → InNonce r rest
      → Takes l r.offset (n < length nonce.elements)
      → nonce_part (length nonce.elements) r.offset n ≡ l
      → Served IsSealing n rest (read inner r n)
  nonce-Served r rest l inv t e =
      let o = r.offset in
      let xs = nonce.elements in
      let len = length-take l (drop o xs) in
      let len' = length-drop o xs in
      let taken : r.hash_encrypt ++ take l (drop o xs) ≡ take (o + l) xs =
        ap (λ h. h ++ take l (drop o xs)) inv.given_hash ∙ take-add o l (o + l) xs refl in
      rw
        (
          read_nonce_lem r l (rw inv.has_nonce inv.before) (rw inv.has_nonce e)
              (rw inv.has_nonce t.inside),
          inv.has_nonce,
        )
        (given (λ z. omega (arith, ap length z, t.some_left, t.inside)) (omega (arith, t.fits))
          (inv.left
            ∙ ap (λ u. u ++ xor_from key 0 plain)
                (sym (take-append-drop l (drop o xs))
                  ∙ ap (λ u. take l (drop o xs) ++ u) (drop-drop o l (o + l) xs refl))
            ∙ append_assoc (take l (drop o xs)) _ _)
          (elim (dec_lt (o + l) (length xs)) [
            | yes more ↦ inl (record {
              has_nonce = refl;
              has_stream = inv.has_stream;
              before = more;
              steady = inr (t.again more);
              unread = inv.unread;
              left = refl;
              no_plain = inv.no_plain;
              given_hash = taken;
            })
            | no over ↦ inr (record {
              done = [];
              to_do = plain;
              has_nonce = refl;
              split = refl;
              has_stream = inv.has_stream;
              behind = omega (arith, over);
              unread = inv.unread;
              left = ap (λ u. u ++ xor_from key 0 plain) (drop_all (o + l) xs (omega arith));
              plain_hash = inv.no_plain;
              given_hash =
                  taken
                  ∙ take_all (o + l) xs (omega arith)
                  ∙ sym (append-nil xs)
                  ∙ ap (λ u. xs ++ u) (sym (xor_from-nil key 0));
            })
          ]))

  read_nonce-Served :
      (r : CryptoStreamReader S) (rest : Bytes)
      → 0 < n
      → InNonce r rest
      → Served IsSealing n rest (read inner r n)
  read_nonce-Served r rest n_pos inv =
      nonce-Served r rest _ inv (nonce_part-Takes r.offset n_pos inv.before inv.steady) refl

  -- One read with a buffer of `n` bytes, in the nonce or behind it.
  pub read-Serves : 0 < n → Serves (read inner) n IsSealing
  read-Serves n_pos r rest (inl inv) = read_nonce-Served r rest n_pos inv
  read-Serves n_pos r rest (inr inv) = read_file-Served r rest inv

  pub fresh-IsSealing :
      (f : S) (l : ℤ)
      → Inv f plain
      → IsSealing (fresh f l nonce (some (record { key_byte = key; used = 0 }))) sealed
  fresh-IsSealing f l inv = elim (dec_lt 0 (length nonce.elements)) [
    | yes some_nonce ↦ inl (record {
      has_nonce = refl;
      has_stream = refl;
      before = some_nonce;
      steady = inl refl;
      unread = inv;
      left = refl;
      no_plain = refl;
      given_hash = refl;
    })
    | no no_nonce ↦
        let empty : nonce.elements ≡ [] = drop_all 0 nonce.elements (omega arith) in
        inr (record {
          done = [];
          to_do = plain;
          has_nonce = refl;
          split = refl;
          has_stream = refl;
          behind = omega (arith, no_nonce);
          unread = inv;
          left = ap (λ t. t ++ xor_from key 0 plain) empty;
          plain_hash = refl;
          given_hash =
              sym empty
              ∙ sym (append-nil nonce.elements)
              ∙ ap (λ t. nonce.elements ++ t) (sym (xor_from-nil key 0));
        })
  ]

  -- At its end a reader has hashed the whole file, and all that it gave.
  abbrev pub HasHashed : CryptoStreamReader S → Type 0
  HasHashed r = (r.hash_orig ≡ plain) × (r.hash_encrypt ≡ sealed)

  pub at_end-HasHashed : (r : CryptoStreamReader S) → IsSealing r [] → HasHashed r
  at_end-HasHashed r (inl inv) = absurd (
      omega (
        arith,
        ap length inv.left,
        length-append (drop r.offset nonce.elements) (xor_from key 0 plain),
        length-drop r.offset nonce.elements,
        inv.before,
      ))
  at_end-HasHashed r (inr inv) =
      let none_left : inv.to_do ≡ [] =
        drop_all 0 inv.to_do
          (omega (arith, ap length inv.left, length-xor_from key (length inv.done) inv.to_do)) in
      let all_done : inv.done ≡ plain =
        sym (inv.split ∙ ap (λ t. inv.done ++ t) none_left ∙ append-nil inv.done) in
      (
        inv.plain_hash ∙ all_done,
        inv.given_hash ∙ ap (λ t. nonce.elements ++ xor_from key 0 t) all_done,
      )

  -- Copying a new reader writes the nonce and the file under the key stream. Afterwards the first
  -- hash is that of the file, and the second that of what was written.
  pub copy-sealed :
      (fuel : ℕ) (f : S) (l : ℤ)
      → 0 < n
      → Inv f plain
      → length sealed < fuel
      → (r : CryptoStreamReader S) × (copy
            (read inner)
            n
            fuel
            (fresh f l nonce (some (record { key_byte = key; used = 0 })))
          ≡ some (record { state = r; bytes = sealed; error = none }))
        × HasHashed r
  copy-sealed fuel f l n_pos inv enough =
      let (r, done, at) =
        copy-Serves (read inner) n IsSealing (read-Serves n_pos) fuel
          (fresh f l nonce (some (record { key_byte = key; used = 0 }))) sealed enough
          (fresh-IsSealing f l inv) in
      (r, done, at_end-HasHashed r at)
