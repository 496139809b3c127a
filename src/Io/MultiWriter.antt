-- ===== src/Io/MultiWriter.antt =====
-- `io.MultiWriter` of two writers: a write goes to the first and then to the second.
use lomo_backup.Common.{
  ℕ, ◌≡◌, refl, ap, subst, none, some, ◌++◌, append_assoc, Bytes, length, ◌==◌, ==_refl,
  if◌then◌else◌,
}
use lomo_backup.Io.{short_write, WriteResult, Accepts}

module _ {V W : Type 0} (write_first : V → Bytes → WriteResult V)
    (write_second : W → Bytes → WriteResult W) where
  second_done : V → ℕ → WriteResult W → WriteResult (V × W)
  second_done v n r = elim r.error [
    | some e ↦ record { state = (v, r.state); written = r.written; error = some e }
    | none ↦
        if r.written == n
        then record { state = (v, r.state); written = n; error = none }
        else record { state = (v, r.state); written = r.written; error = some short_write }
  ]

  first_done : W → Bytes → WriteResult V → WriteResult (V × W)
  unfolding second_done
  first_done w b r = elim r.error [
    | some e ↦ record { state = (r.state, w); written = r.written; error = some e }
    | none ↦
        if r.written == length b
        then second_done r.state (length b) (write_second w b)
        else record { state = (r.state, w); written = r.written; error = some short_write }
  ]

  unfoldable pub multi_write : V × W → Bytes → WriteResult (V × W)
  unfolding first_done
  multi_write (v, w) b = first_done w b (write_first v b)

  module _ (HoldsFirst : V → Bytes → Type 0) (HoldsSecond : W → Bytes → Type 0)
      (first : Accepts write_first HoldsFirst) (second : Accepts write_second HoldsSecond)
      (before : Bytes) where
    -- The first writer had `before` when the second was empty.
    abbrev pub HoldsBoth : V × W → Bytes → Type 0
    HoldsBoth (v, w) out = HoldsFirst v (before ++ out) × HoldsSecond w out

    multi_write_lem :
        (v : V) (w : W) (out b : Bytes)
        → HoldsBoth (v, w) out
        → multi_write (v, w) b ≡ record {
          state = ((write_first v b).state, (write_second w b).state);
          written = length b;
          error = none;
        }
    unfolding multi_write first_done second_done
    multi_write_lem v w out b (h, k) =
        rw
          (
            first.succeeds v (before ++ out) b h,
            first.takes v (before ++ out) b h,
            second.succeeds w out b k,
            second.takes w out b k,
            ==_refl (length b),
          )
          refl

    pub multi_write-Accepts : Accepts multi_write HoldsBoth
    multi_write-Accepts = record {
      takes = λ vw out b h. ap (λ r. r.written) (multi_write_lem vw.0 vw.1 out b h);
      succeeds = λ vw out b h. ap (λ r. r.error) (multi_write_lem vw.0 vw.1 out b h);
      appends = λ vw out b h. rw (multi_write_lem vw.0 vw.1 out b h) (
        subst (HoldsFirst (write_first vw.0 b).state) (append_assoc before out b)
            (first.appends vw.0 (before ++ out) b h.0),
        second.appends vw.1 out b h.1,
      );
    }
