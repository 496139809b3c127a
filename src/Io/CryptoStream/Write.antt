-- ===== src/Io/CryptoStream/Write.antt =====
-- A `CryptoStreamWriter` hands on what it is given with the key stream taken away.
use lomo_backup.Common.{
  ℕ, ◌+◌, ◌≡◌, sym, ap, ◌∙◌, none, ◌++◌, append_assoc, Bytes, length, length-append, arith,
}
use lomo_backup.Io.{WriteResult, Accepts}
use lomo_backup.Io.Cipher.{Stream, xor_from, xor_from-append, length-xor_from}
use lomo_backup.Io.CryptoStream.{CryptoStreamWriter, write}

module _ {W : Type 0} (inner_write : W → Bytes → WriteResult W) (Holds : W → Bytes → Type 0)
    (accepts : Accepts inner_write Holds) (key : ℕ → ℕ) (base : Bytes) where
  -- After `out` was written, the writer inside has `base` and `out` with the key stream on it.
  pub record IsOpening (w : CryptoStreamWriter W) (out : Bytes) : Type 0 where
    pub at_place : w.stream ≡ record { key_byte = key; used = length out }
    pub inner_holds : Holds w.f (base ++ xor_from key 0 out)

  write_appends :
      (w : CryptoStreamWriter W) (out b : Bytes)
      → IsOpening w out
      → IsOpening (write inner_write w b).state (out ++ b)
  unfolding write
  write_appends w out b h = record {
    at_place =
        ap {A = Stream} {B = Stream} (λ st. record st { used = st.used + length b }) h.at_place
        ∙ ap {B = Stream} (λ u. record { key_byte = key; used = u }) (sym (length-append out b));
    inner_holds =
        rw
          (
            h.at_place,
            xor_from-append key 0 (length out) out b (omega arith),
            ← append_assoc base (xor_from key 0 out) (xor_from key (length out) b),
          )
          (accepts.appends w.f _ _ h.inner_holds);
  }

  write_takes :
      (w : CryptoStreamWriter W) (out b : Bytes)
      → IsOpening w out
      → (write inner_write w b).written ≡ length b
  unfolding write
  write_takes w out b h = accepts.takes w.f _ _ h.inner_holds ∙ length-xor_from _ _ b

  write_succeeds :
      (w : CryptoStreamWriter W) (out b : Bytes)
      → IsOpening w out
      → (write inner_write w b).error ≡ none
  unfolding write
  write_succeeds w out b h = accepts.succeeds w.f _ _ h.inner_holds

  -- It takes all that it is given, if the writer inside does.
  pub write-Accepts : Accepts (write inner_write) IsOpening
  write-Accepts = record { takes = write_takes; succeeds = write_succeeds; appends = write_appends }
