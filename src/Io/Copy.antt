-- ===== src/Io/Copy.antt =====
-- The loop of `io.Copy` over any reader, and what it yields from a reader that serves a stream.
use lomo_backup.Common.{
  ℕ, zero, suc, ◌<◌, ◌≡◌, ◌≢◌, Option, none, some, [], ◌++◌, append_assoc, Bytes, length,
  length-append, length_pos, arith, ap,
}
use lomo_backup.Io.{IoError, eof, ReadResult, Served, at_end, given, Serves}

-- The bytes written to the destination, and the error that stopped the loop, if any.
pub record Copied (S : Type 0) : Type 0 where
  pub state : S
  pub bytes : Bytes
  pub error : Option IoError

-- What a round of the loop does with the result of `Read`: it writes the bytes, and goes on if there
-- was no error. `io.Copy` reports no error at the end of the stream.
resume : {S : Type 0} → (S → Bytes → Option (Copied S)) → ReadResult S → Bytes → Option (Copied S)
resume continue r out = elim r.error [
  | none ↦ continue r.state (out ++ r.bytes)
  | some e ↦ some (record {
    state = r.state;
    bytes = out ++ r.bytes;
    error = elim e [ eof ↦ none | x ↦ some x ];
  })
]

module _ {S : Type 0} (read : S → ℕ → ReadResult S) (n : ℕ) where
  -- One round for each read with the buffer of `n` bytes; `none` if the fuel runs out first.
  copy_onto : ℕ → S → Bytes → Option (Copied S)
  copy_onto zero s out = none
  copy_onto (suc fuel) s out = resume (copy_onto fuel) (read s n) out

-- `io.Copy(dst, src)`
unfoldable pub copy : {S : Type 0} → (S → ℕ → ReadResult S) → ℕ → ℕ → S → Option (Copied S)
unfolding copy_onto resume
copy read n fuel s = copy_onto read n fuel s []

module _ {S : Type 0} (read : S → ℕ → ReadResult S) (n : ℕ) (Inv : S → Bytes → Type 0)
    (serves : Serves read n Inv) where
  -- The copy ends without an error and has every byte of `rest`, behind what was written before.
  abbrev Copies : Bytes → Bytes → Option (Copied S) → Type 0
  Copies out rest result =
      (s : S) × (result ≡ some (record { state = s; bytes = out ++ rest; error = none })) × Inv s []

  copy_round :
      (continue : S → Bytes → Option (Copied S)) (rest out : Bytes)
      → ((s : S) (b after : Bytes)
          → b ≢ []
          → rest ≡ b ++ after
          → Inv s after
          → Copies (out ++ b) after (continue s (out ++ b)))
      → {r : ReadResult S} → Served Inv n rest r
      → Copies out rest (resume continue r out)
  unfolding resume
  copy_round continue rest out next (at_end {s} e inv) = (s, rw e, inv)
  copy_round continue rest out next (given {s} {b} {after} ne short e inv) =
      let (s', c, i) = next s b after ne e inv in (s', rw (e, ← append_assoc out b after) c, i)

  copy_onto-Copies :
      (fuel : ℕ) (s : S) (rest out : Bytes)
      → length rest < fuel
      → Inv s rest
      → Copies out rest (copy_onto read n fuel s out)
  unfolding copy_onto
  copy_onto-Copies zero s rest out h inv = absurd (omega arith)
  copy_onto-Copies (suc fuel) s rest out h inv =
      copy_round (copy_onto read n fuel) rest out
        (λ s' b after ne e inv'.
          copy_onto-Copies fuel s' after (out ++ b)
            (omega (arith, length_pos b ne, ap length e, length-append b after)) inv')
        (serves s rest inv)

  -- With a round for each byte and one for the end, `io.Copy` writes exactly the stream that the
  -- reader serves, reports no error, and leaves the reader at its end.
  pub copy-Serves :
      (fuel : ℕ) (s : S) (rest : Bytes)
      → length rest < fuel
      → Inv s rest
      → (s' : S) × (copy read n fuel s ≡ some (record { state = s'; bytes = rest; error = none }))
        × Inv s' []
  unfolding copy
  copy-Serves fuel s rest h inv = copy_onto-Copies fuel s rest [] h inv
