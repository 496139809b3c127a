-- ===== src/Scan/Channel/Once.antt =====
-- When `scanDir` stops waiting, every item was handled, once and in the order of the walk; until then
-- there is a step to take, and there are finitely many.
use lomo_backup.Common.{
  ℕ, ◌+◌, ◌*◌, ◌<◌, ◌≡◌, refl, sym, ap, ◌∙◌, subst, ◌⊎◌, inl, inr, Option, none, some, Option-cases,
  List, [], ◌∷◌, ◌++◌, append_assoc, length, length-append, arith,
}
use lomo_backup.Scan.Channel.{
  Pipe, Step, announce, send, receive, hand_over, finish, Reach, here, next, start, IsDone, handled,
}

module _ {I S : Type 0} (capacity : ℕ) (handle : I → S → S) where
  abbrev held : Option I → List I
  held none = []
  held (some i) = i ∷ []

  abbrev way : Option I → List I → Option I → List I → List I
  way hand queue announced to_send = held hand ++ (queue ++ (held announced ++ to_send))

  -- What is on its way, in the order in which it will be handled.
  abbrev on_the_way : Pipe capacity handle → List I
  on_the_way p = way p.in_hand p.queue p.announced p.to_send

  abbrev size : Option I → ℕ
  size none = 0
  size (some i) = 1

  -- The items that are on their way turn the state into the one that all items make, and the counter
  -- is the number of items between `wg.Add` and `wg.Done`.
  record Counts (items : List I) (s : S) (p : Pipe capacity handle) : Type 0 where
    goal : handled capacity handle (on_the_way p) p.state ≡ handled capacity handle items s
    counted : p.pending ≡ size p.in_hand + (length p.queue + size p.announced)

  -- The steps that are left, at most.
  abbrev pub measure : Pipe capacity handle → ℕ
  measure p = size p.in_hand + (2 * length p.queue + (3 * size p.announced + 4 * length p.to_send))

  Step-Counts :
      (items : List I) (s : S) (p q : Pipe capacity handle)
      → Step capacity handle p q
      → Counts items s p
      → Counts items s q
  Step-Counts items s p q (announce i rest e e' made) c = subst (Counts items s) made (record {
    goal =
        ap (λ w. handled capacity handle w p.state)
          (ap (λ t. way p.in_hand p.queue none t) (sym e)
            ∙ ap (λ a. way p.in_hand p.queue a p.to_send) (sym e'))
        ∙ c.goal;
    counted = omega (arith, c.counted, ap size e');
  })
  Step-Counts items s p q (send i e h made) c = subst (Counts items s) made (record {
    goal =
        ap (λ w. handled capacity handle (held p.in_hand ++ w) p.state)
          (append_assoc p.queue (i ∷ []) p.to_send
            ∙ ap (λ a. p.queue ++ (held a ++ p.to_send)) (sym e))
        ∙ c.goal;
    counted = omega (arith, c.counted, ap size e, length-append p.queue (i ∷ []));
  })
  Step-Counts items s p q (receive i rest e e' made) c = subst (Counts items s) made (record {
    goal =
        ap (λ w. handled capacity handle w p.state)
          (ap (λ r. way none r p.announced p.to_send) (sym e)
            ∙ ap (λ h. way h p.queue p.announced p.to_send) (sym e'))
        ∙ c.goal;
    counted = omega (arith, c.counted, ap length e, ap size e');
  })
  Step-Counts items s p q (hand_over i e e' e'' made) c = subst (Counts items s) made (record {
    goal =
        ap (λ w. handled capacity handle w p.state)
          (ap (λ r. way (some i) r none p.to_send) e'
            ∙ ap (λ a. way none [] a p.to_send) (sym e)
            ∙ ap (λ r. way none r p.announced p.to_send) (sym e')
            ∙ ap (λ h. way h p.queue p.announced p.to_send) (sym e''))
        ∙ c.goal;
    counted = omega (arith, c.counted, ap size e, ap length e', ap size e'');
  })
  Step-Counts items s p q (finish i e made) c = subst (Counts items s) made (record {
    goal =
        ap (λ h. handled capacity handle (way h p.queue p.announced p.to_send) p.state) (sym e)
        ∙ c.goal;
    counted = omega (arith, c.counted, ap size e);
  })

  Reach-Counts :
      (items : List I) (s : S) {p : Pipe capacity handle}
      → Reach capacity handle (start capacity handle items s) p
      → Counts items s p
  Reach-Counts items s here = record { goal = refl; counted = refl }
  Reach-Counts items s (next r st) = Step-Counts items s _ _ st (Reach-Counts items s r)

  Step-measure : (p q : Pipe capacity handle) → Step capacity handle p q → measure q < measure p
  Step-measure p q (announce i rest e e' made) =
      subst (λ q. measure q < measure p) made (omega (arith, ap length e, ap size e'))
  Step-measure p q (send i e h made) =
      subst (λ q. measure q < measure p) made
        (omega (arith, ap size e, length-append p.queue (i ∷ [])))
  Step-measure p q (receive i rest e e' made) =
      subst (λ q. measure q < measure p) made (omega (arith, ap length e, ap size e'))
  Step-measure p q (hand_over i e e' e'' made) =
      subst (λ q. measure q < measure p) made (omega (arith, ap size e, ap length e', ap size e''))
  Step-measure p q (finish i e made) =
      subst (λ q. measure q < measure p) made (omega (arith, ap size e))

  empty_of : (o : Option I) → size o ≡ 0 → o ≡ none
  empty_of none h = refl
  empty_of (some i) h = absurd (omega arith)

  empty_list : (l : List I) → length l ≡ 0 → l ≡ []
  empty_list [] h = refl
  empty_list (i ∷ l) h = absurd (omega arith)

  -- In a state that can be reached from the start: when the wait is over, the state is the one that
  -- handling every item once, in the order of the walk, makes.
  pub Reach-IsDone :
      (items : List I) (s : S) (p : Pipe capacity handle)
      → Reach capacity handle (start capacity handle items s) p
      → IsDone capacity handle p
      → p.state ≡ handled capacity handle items s
  Reach-IsDone items s p r d =
      let c = Reach-Counts items s r in
      let hand = empty_of p.in_hand (omega (arith, c.counted, d.nothing_pending)) in
      let queue = empty_list p.queue (omega (arith, c.counted, d.nothing_pending)) in
      let all : on_the_way p ≡ [] =
        ap (λ h. way h p.queue p.announced p.to_send) hand
        ∙ ap (λ l. way none l p.announced p.to_send) queue
        ∙ ap (λ a. way none [] a p.to_send) d.nothing_announced
        ∙ d.nothing_to_send in
      ap (λ w. handled capacity handle w p.state) (sym all) ∙ c.goal

  -- Every state that can be reached from the start, with any capacity, is done or has a step; and
  -- every step makes the number of steps that are left smaller.
  pub Reach-progress :
      (items : List I) (s : S) (p : Pipe capacity handle)
      → Reach capacity handle (start capacity handle items s) p
      → (IsDone capacity handle p ⊎ ((q : Pipe capacity handle) × Step capacity handle p q))
        × ((q : Pipe capacity handle) → Step capacity handle p q → measure q < measure p)
  Reach-progress items s p r = (choose, Step-measure p)
    where
      c : Counts items s p
      c = Reach-Counts items s r

      cases : (l : List I) → (l ≡ []) ⊎ ((i : I) × (rest : List I) × (l ≡ i ∷ rest))
      cases [] = inl refl
      cases (i ∷ rest) = inr (i, rest, refl)

      choose : IsDone capacity handle p ⊎ ((q : Pipe capacity handle) × Step capacity handle p q)
      choose = elim (Option-cases p.in_hand) [
        | inr (i, hand) ↦ inr (_, finish i hand refl)
        | inl idle ↦ elim (cases p.queue) [
          | inr (i, rest, queue) ↦ inr (_, receive i rest queue idle refl)
          | inl empty ↦ elim (Option-cases p.announced) [
            | inr (i, announced) ↦ inr (_, hand_over i announced empty idle refl)
            | inl quiet ↦ elim (cases p.to_send) [
              | inr (i, rest, e) ↦ inr (_, announce i rest e quiet refl)
              | inl sent ↦ inl (record {
                nothing_to_send = sent;
                nothing_announced = quiet;
                nothing_pending =
                    omega (arith, c.counted, ap size idle, ap length empty, ap size quiet);
              })
            ]
          ]
        ]
      ]
