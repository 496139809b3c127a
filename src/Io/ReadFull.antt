-- ===== src/Io/ReadFull.antt =====
-- `io.ReadFull`: it reads until its buffer is full.
use lomo_backup.Common.{
  ℕ, zero, suc, ◌+◌, ◌-◌, ◌<◌, ◌≤◌, ◌≡◌, refl, sym, ap, ◌∙◌, subst, arith, true, false, append-nil,
  append_assoc, append-split, length-append, length_pos, Option, none, some, [], ◌∷◌, ◌++◌, Bytes,
  length, leb, if◌then◌else◌,
}
use lomo_backup.Io.{Sent, sent_end, sent, Sends, IoError, eof, unexpected_eof, ReadResult}

module _ {S : Type 0} (read : S → ℕ → ReadResult S) (size : ℕ) where
  -- The end of the stream before any byte is `eof`, and later `unexpected_eof`.
  abbrev full_error : Bytes → IoError → IoError
  full_error [] e = e
  full_error (b ∷ bs) eof = unexpected_eof
  full_error (b ∷ bs) e = e

  on_part : (S → Bytes → Option (ReadResult S)) → Bytes → ReadResult S → Option (ReadResult S)
  on_part continue buf r =
      let buf' = buf ++ r.bytes in
      let more = continue r.state buf' in
      if leb size (length buf')
      then some (record { state = r.state; bytes = buf'; error = none })
      else elim r.error [
        | none ↦ more
        | some e ↦ some (record { state = r.state; bytes = buf'; error = some (full_error buf' e) })
      ]

  -- One round for each read; `none` if the fuel runs out first.
  unfoldable pub read_full : ℕ → S → Bytes → Option (ReadResult S)
  unfolding on_part
  read_full zero s buf = none
  read_full (suc fuel) s buf = on_part (read_full fuel) buf (read s (size - length buf))

  -- One read that fills the buffer is enough.
  pub read_full-first :
      (fuel : ℕ) (s s' : S) (b : Bytes)
      → read s size ≡ record { state = s'; bytes = b; error = none }
      → length b ≡ size
      → read_full (suc fuel) s [] ≡ some (record { state = s'; bytes = b; error = none })
  unfolding read_full on_part
  read_full-first fuel s s' b served full =
      ap (λ n. on_part (read_full fuel) [] (read s n)) (minus_none size)
      ∙ ap (on_part (read_full fuel) []) served
      ∙ ground (arith, full)
    where
      minus_none : (n : ℕ) → n - 0 ≡ n
      minus_none n = omega arith

module _ {S : Type 0} (read : S → ℕ → ReadResult S) (Inv : S → Bytes → Type 0)
    (sends : (n : ℕ) → 0 < n → Sends read n Inv) (size : ℕ) where
  abbrev Fills : Bytes → Bytes → Option (ReadResult S) → Type 0
  Fills full back result =
      (s : S) × (result ≡ some (record { state = s; bytes = full; error = none })) × Inv s back

  -- The buffer is full, or the rest of it is still to come.
  fill_after :
      (continue : S → Bytes → Option (ReadResult S)) (buf b front' back : Bytes) (s : S)
      → length (buf ++ b) + length front' ≡ size
      → Inv s (front' ++ back)
      → (0 < length front' → Fills ((buf ++ b) ++ front') back (continue s (buf ++ b)))
      → Fills
          ((buf ++ b) ++ front')
          back
          (on_part read size continue buf (record { state = s; bytes = b; error = none }))
  unfolding on_part
  fill_after continue buf b [] back s whole i next =
      let full : leb size (length (buf ++ b)) ≡ true = ground (arith, whole) in
      (s, rw (full, append-nil (buf ++ b)) refl, i)
  fill_after continue buf b (c ∷ cs) back s whole i next =
      let not_full : leb size (length (buf ++ b)) ≡ false = ground (arith, whole) in
      rw not_full (next (omega arith))

  nothing : (s : Bytes) → length s ≡ 0 → s ≡ []
  nothing [] h = refl
  nothing (c ∷ s) h = absurd (omega (arith, h))

  fill_round :
      (continue : S → Bytes → Option (ReadResult S)) (buf front back : Bytes)
      → length buf + length front ≡ size
      → 0 < length front
      → ((s : S) (b front' : Bytes)
          → 0 < length b
          → 0 < length front'
          → length front ≡ length b + length front'
          → length (buf ++ b) + length front' ≡ size
          → Inv s (front' ++ back)
          → Fills ((buf ++ b) ++ front') back (continue s (buf ++ b)))
      → {r : ReadResult S} → Sent Inv (length front) (front ++ back) r
      → Fills (buf ++ front) back (on_part read size continue buf r)
  unfolding on_part
  fill_round continue buf front back whole some_front next (sent_end {s} {b} short e i) =
      let sizes : length front + length back ≡ length b =
        sym (length-append front back) ∙ ap length e in
      let none_behind : back ≡ [] = nothing back (omega arith) in
      let cut : front ≡ b = sym (append-nil front) ∙ ap (λ t. front ++ t) (sym none_behind) ∙ e in
      let full : leb size (length (buf ++ b)) ≡ true =
        ground (arith, length-append buf b, ap length cut, whole) in
      (s, rw (full, cut) refl, subst (Inv s) (sym none_behind) i)
  fill_round continue buf front back whole some_front next (sent {s} {b} {after} ne short e i) =
      let (front', cut, rest) = append-split front back b after e short in
      let size_front : length front ≡ length b + length front' =
        ap length cut ∙ length-append b front' in
      let filled : length (buf ++ b) + length front' ≡ size = omega (arith, length-append buf b) in
      subst
        (λ t.
          Fills t back
            (on_part read size continue buf (record { state = s; bytes = b; error = none })))
        (append_assoc buf b front' ∙ ap (λ t. buf ++ t) (sym cut))
        (fill_after continue buf b front' back s filled (subst (Inv s) rest i) (λ some_more.
          next s b front' (length_pos b ne) some_more size_front filled (subst (Inv s) rest i)))

  -- A reader that serves at least what the buffer still takes fills it, with a round for each byte.
  pub read_full-Fills :
      (fuel : ℕ) (s : S) (buf front back : Bytes)
      → length buf + length front ≡ size
      → 0 < length front
      → length front ≤ fuel
      → Inv s (front ++ back)
      → Fills (buf ++ front) back (read_full read size fuel s buf)
  unfolding read_full
  read_full-Fills zero s buf front back whole some_front enough i = absurd (omega arith)
  read_full-Fills (suc fuel) s buf front back whole some_front enough i =
      let room : size - length buf ≡ length front = omega arith in
      subst
        (λ n.
          Fills (buf ++ front) back (on_part read size (read_full read size fuel) buf (read s n)))
        (sym room)
        (fill_round (read_full read size fuel) buf front back whole some_front
          (λ s' b front' some_b some_more size_front filled i'.
            read_full-Fills fuel s' (buf ++ b) front' back filled some_more (omega arith) i')
          (sends (length front) some_front s (front ++ back) i))
