-- ===== src/Io/CopyInto.antt =====
-- The loop of `io.Copy` into a writer that may fail.
use lomo_backup.Common.{
  ℕ, zero, suc, ◌+◌, ◌<◌, ◌∙◌, ◌≡◌, ◌≢◌, refl, sym, ap, Option, none, some, [], ◌∷◌, ◌++◌,
  append_assoc, append-nil, Bytes, length, length-append, arith, ◌==◌, ==_refl, if◌then◌else◌,
}
use lomo_backup.Io.{
  IoError, eof, short_write, ReadResult, WriteResult, Sent, sent_end, sent, Sends, Accepts,
}

-- Where the loop stops: the reader, the writer, the count of bytes written and the error.
pub record CopiedInto (S W : Type 0) : Type 0 where
  pub reader : S
  pub writer : W
  pub written : ℕ
  pub error : Option IoError

module _ {S W : Type 0} (write : W → Bytes → WriteResult W) where
  abbrev stop : S → W → ℕ → Option IoError → Option (CopiedInto S W)
  stop s w count e = some (record { reader = s; writer = w; written = count; error = e })

  -- After the write, which is counted: its error comes first, then a short write, then the error of
  -- the read.
  after_write :
      (S → W → ℕ → Option (CopiedInto S W))
      → ℕ
      → ReadResult S
      → WriteResult W
      → Option (CopiedInto S W)
  after_write continue count r w = elim w.error [
    | some e ↦ stop r.state w.state (count + w.written) (some e)
    | none ↦
        if length r.bytes == w.written
        then elim r.error [
          | none ↦ continue r.state w.state (count + w.written)
          | some e ↦ stop r.state w.state (count + w.written) (elim e [ eof ↦ none | x ↦ some x ])
        ]
        else stop r.state w.state (count + w.written) (some short_write)
  ]

  -- Nothing is written after a read that gives nothing.
  on_read : (S → W → ℕ → Option (CopiedInto S W)) → W → ℕ → ReadResult S → Option (CopiedInto S W)
  on_read continue w count r = elim r.bytes [
    | [] ↦ elim r.error [
      | none ↦ continue r.state w count
      | some e ↦ stop r.state w count (elim e [ eof ↦ none | x ↦ some x ])
    ]
    | b ∷ bs ↦ after_write continue count r (write w (b ∷ bs))
  ]

  module _ (read : S → ℕ → ReadResult S) (n : ℕ) where
    -- One round for each read; `none` if the fuel runs out first.
    copy_counted : ℕ → S → W → ℕ → Option (CopiedInto S W)
    unfolding on_read after_write
    copy_counted zero s w count = none
    copy_counted (suc fuel) s w count = on_read (copy_counted fuel) w count (read s n)

    unfoldable pub copy_into : ℕ → S → W → Option (CopiedInto S W)
    unfolding copy_counted
    copy_into fuel s w = copy_counted fuel s w 0

  module _ (read : S → ℕ → ReadResult S) (n : ℕ) (Inv : S → Bytes → Type 0)
      (sends : Sends read n Inv) (Holds : W → Bytes → Type 0) (accepts : Accepts write Holds) where
    abbrev Finishes : Bytes → ℕ → Option (CopiedInto S W) → Type 0
    Finishes out count result =
        (s : S) × (w : W) × (result
          ≡ some (record { reader = s; writer = w; written = count; error = none }))
        × Inv s []
        × Holds w out

    round :
        (continue : S → W → ℕ → Option (CopiedInto S W)) (rest out : Bytes) (w : W)
        (count total : ℕ)
        → total ≡ count + length rest
        → Holds w out
        → ((s : S) (b after : Bytes) (w' : W)
            → length rest ≡ length b + length after
            → 0 < length b
            → Inv s after
            → Holds w' (out ++ b)
            → Finishes ((out ++ b) ++ after) total (continue s w' (count + length b)))
        → {r : ReadResult S} → Sent Inv n rest r
        → Finishes (out ++ rest) total (on_read continue w count r)
    unfolding on_read after_write
    round continue rest out w count total t h next (sent_end {s} {b = []} short e i) =
        let all : total ≡ count = omega (arith, t, ap length e) in
        (s, w, rw all, i, rw (e, append-nil) h)
    round continue rest out w count total t h next (sent_end {s} {b = b ∷ bs} short e i) = (
      s,
      (write w (b ∷ bs)).state,
      rw
          (
            accepts.succeeds w out (b ∷ bs) h,
            accepts.takes w out (b ∷ bs) h,
            ==_refl (length (b ∷ bs)),
          )
          (ap
            (λ m.
              some (record {
                reader = s;
                writer = (write w (b ∷ bs)).state;
                written = m;
                error = none;
              }))
            (sym (t ∙ ap (λ l. count + length l) e))),
      i,
      rw e (accepts.appends w out (b ∷ bs) h),
    )
    round continue rest out w count total t h next (sent {b = []} ne short e i) = absurd (ne refl)
    round continue rest out w count total t h next (sent {s} {b = b ∷ bs} {after} ne short e i) =
        rw
          (
            accepts.succeeds w out (b ∷ bs) h,
            accepts.takes w out (b ∷ bs) h,
            ==_refl (length (b ∷ bs)),
            e,
            ← append_assoc out (b ∷ bs) after,
          )
          (next s (b ∷ bs) after (write w (b ∷ bs)).state
            (ap length e ∙ length-append (b ∷ bs) after) (omega arith) i
            (accepts.appends w out (b ∷ bs) h))

    counted-Finishes :
        (fuel : ℕ) (s : S) (w : W) (rest out : Bytes) (count total : ℕ)
        → total ≡ count + length rest
        → length rest < fuel
        → Inv s rest
        → Holds w out
        → Finishes (out ++ rest) total (copy_counted read n fuel s w count)
    unfolding copy_counted
    counted-Finishes zero s w rest out count total t l i h = absurd (omega arith)
    counted-Finishes (suc fuel) s w rest out count total t l i h =
        round (copy_counted read n fuel) rest out w count total t h
          (λ s' b after w' split some_b i' h'.
            counted-Finishes fuel s' w' after (out ++ b) (count + length b) total (omega arith)
              (omega arith) i' h')
          (sends s rest i)

    -- With a round for each byte and one for the end, a writer that takes all it is given gets
    -- exactly the stream that the reader serves, and the count is its length.
    pub copy_into-Finishes :
        (fuel : ℕ) (s : S) (w : W) (rest out : Bytes)
        → length rest < fuel
        → Inv s rest
        → Holds w out
        → Finishes (out ++ rest) (length rest) (copy_into read n fuel s w)
    unfolding copy_into
    copy_into-Finishes fuel s w rest out l i h =
        counted-Finishes fuel s w rest out 0 (length rest) (omega arith) l i h

    -- A first round that the writer takes in full, which need not have been ready before.
    pub copy_into-first :
        (fuel : ℕ) (s s' : S) (w w' : W) (b after out : Bytes)
        → read s n ≡ record { state = s'; bytes = b; error = none }
        → b ≢ []
        → write w b ≡ record { state = w'; written = length b; error = none }
        → length after < fuel
        → Inv s' after
        → Holds w' out
        → Finishes (out ++ after) (length b + length after) (copy_into read n (suc fuel) s w)
    unfolding copy_into copy_counted on_read after_write
    copy_into-first fuel s s' w w' [] after out e ne did l i h = absurd (ne refl)
    copy_into-first fuel s s' w w' (x ∷ b) after out e ne did l i h =
        rw (e, did, ==_refl (length (x ∷ b)))
          (counted-Finishes fuel s' w' after out (0 + length (x ∷ b))
            (length (x ∷ b) + length after) (omega arith) l i h)

  -- A first read that gives all, with the end, and a writer that takes it in full.
  pub copy_into-first_end :
      (read : S → ℕ → ReadResult S) (n fuel : ℕ) (s s' : S) (w w' : W) (b : Bytes)
      → read s n ≡ record { state = s'; bytes = b; error = some eof }
      → b ≢ []
      → write w b ≡ record { state = w'; written = length b; error = none }
      → copy_into read n (suc fuel) s w
        ≡ some (record { reader = s'; writer = w'; written = length b; error = none })
  unfolding copy_into copy_counted on_read after_write
  copy_into-first_end read n fuel s s' w w' [] e ne did = absurd (ne refl)
  copy_into-first_end read n fuel s s' w w' (c ∷ b) e ne did =
      rw (e, did, ==_refl (length (c ∷ b))) (ap (λ m. stop s' w' m none) (omega arith))

  -- A first write that fails ends the copy.
  pub copy_into-refused :
      (read : S → ℕ → ReadResult S) (n fuel : ℕ) (s s' : S) (w w' : W) (b : Bytes) (x : IoError)
      → read s n ≡ record { state = s'; bytes = b; error = none }
      → b ≢ []
      → write w b ≡ record { state = w'; written = 0; error = some x }
      → copy_into read n (suc fuel) s w
        ≡ some (record { reader = s'; writer = w'; written = 0; error = some x })
  unfolding copy_into copy_counted on_read after_write
  copy_into-refused read n fuel s s' w w' [] x e ne did = absurd (ne refl)
  copy_into-refused read n fuel s s' w w' (c ∷ b) x e ne did = rw (e, did) (ground arith)
