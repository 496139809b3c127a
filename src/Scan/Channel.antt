-- ===== src/Scan/Channel.antt =====
-- cmd/lomob/scan.go, `scanDir`: the walk puts items into a channel with room for `capacity`, one
-- goroutine takes them out and handles them, and a wait group counts the items that are not done. Each
-- step is one of the two goroutines'; in which order they come is open.
pub mod Once
use lomo_backup.Common.{
  ℕ, zero, suc, ◌+◌, ◌-◌, ◌*◌, ◌<◌, ◌≤◌, ◌≡◌, refl, sym, ap, ◌∙◌, subst, ◌⊎◌, inl, inr, Option,
  none, some, List, [], ◌∷◌, ◌++◌, append_assoc, append-nil, length, length-append, arith,
}

module _ {I S : Type 0} (capacity : ℕ) (handle : I → S → S) where
  -- `to_send` is what the walk still has, `announced` an item between `wg.Add` and the channel, `queue`
  -- the channel's buffer, `in_hand` the item that is handled, and `pending` the wait group's counter.
  pub record Pipe : Type 0 where
    pub to_send : List I
    pub announced : Option I
    pub queue : List I
    pub in_hand : Option I
    pub pending : ℕ
    pub state : S

  pub data Step (p q : Pipe) : Type 0 where
    -- `wg.Add(1)`
    announce :
        (i : I) (rest : List I)
        → p.to_send ≡ i ∷ rest
        → p.announced ≡ none
        → record p { to_send = rest; announced = some i; pending = p.pending + 1 } ≡ q
        → Step p q
    -- `ch <- callback`
    send :
        (i : I)
        → p.announced ≡ some i
        → length p.queue < capacity
        → record p { announced = none; queue = p.queue ++ i ∷ [] } ≡ q
        → Step p q
    -- `cb := <-ch`, from the buffer, or from the sender itself when there is no buffer.
    receive :
        (i : I) (rest : List I)
        → p.queue ≡ i ∷ rest
        → p.in_hand ≡ none
        → record p { queue = rest; in_hand = some i } ≡ q
        → Step p q
    hand_over :
        (i : I)
        → p.announced ≡ some i
        → p.queue ≡ []
        → p.in_hand ≡ none
        → record p { announced = none; in_hand = some i } ≡ q
        → Step p q
    -- `handleScan`, and `wg.Done()`
    finish :
        (i : I)
        → p.in_hand ≡ some i
        → record p { in_hand = none; pending = p.pending - 1; state = handle i p.state } ≡ q
        → Step p q

  pub data Reach (p : Pipe) : Pipe → Type 0 where
    here : Reach p p
    next : {q r : Pipe} → Reach p q → Step q r → Reach p r

  abbrev pub start : List I → S → Pipe
  start items s = record {
    to_send = items;
    announced = none;
    queue = [];
    in_hand = none;
    pending = 0;
    state = s;
  }

  -- `Directory` has returned, and `wg.Wait` does not block.
  pub record IsDone (p : Pipe) : Type 0 where
    pub nothing_to_send : p.to_send ≡ []
    pub nothing_announced : p.announced ≡ none
    pub nothing_pending : p.pending ≡ 0

  abbrev pub handled : List I → S → S
  handled [] s = s
  handled (i ∷ items) s = handled items (handle i s)
