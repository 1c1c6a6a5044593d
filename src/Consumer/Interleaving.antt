-- ===== src/Consumer/Interleaving.antt =====
-- Producer and consumer in turns, one call of the ring buffer at a time: what `run` of the consumer sees
-- while the other thread pushes and sets `producer_done`.
pub mod NoLoss
use trade_surveillance_engin.Prelude.{
  ℕ, suc, ◌+◌, ◌^◌, ◌<◌, ◌≡◌, ◌⊎◌, refl, sym, ◌∙◌, ap, subst, inl, inr, Bool, true, false, List, [],
  ◌∷◌, Option, none, some, Bool-cases, length, length-append, arith, if◌then◌else◌, ltb,
}
use trade_surveillance_engin.RingBuffer.{Ring, add_size, push, pop}
use trade_surveillance_engin.RingBuffer.Invariant.{Represents}
use trade_surveillance_engin.RingBuffer.Queue.{
  HasRoom, queue_pop, queue_push, push_refines, pop_refines,
}

-- Where the consumer stands: before its first `pop`, behind a `pop` that found nothing, behind the look at
-- the flag that says the producer is done, and behind its loop.
pub data Phase : Type 0 where
  polling found_none saw_done stopped : Phase

pub record System (A : Type 0) : Type 0 where
  pub queue : Ring A
  pub producer_done : Bool
  pub phase : Phase
  pub processed : ℕ

-- What a `pop` leads to, from the phase that a failing one leads to.
abbrev popped : {A : Type 0} → System A → Phase → Option A × Ring A → System A
popped s next (some e, queue) = record s {
  queue = queue;
  phase = polling;
  processed = s.processed + 1;
}
popped s next (none, queue) = record s { queue = queue; phase = next }

-- One atomic call of a thread.
pub data Step {A : Type 0} (s : System A) : System A → Type 0 where
  pushes :
      (fuel : ℕ) (x : A) (kept : Bool) (queue : Ring A)
      → s.producer_done ≡ false
      → HasRoom s.queue
      → push (suc (suc fuel)) s.queue x ≡ some (kept, queue)
      → Step s (record s { queue = queue })
  finishes : s.producer_done ≡ false → Step s (record s { producer_done = true })
  pops :
      (fuel : ℕ) (r : Option A × Ring A)
      → s.phase ≡ polling
      → HasRoom s.queue
      → pop (suc fuel) s.queue ≡ some r
      → Step s (popped s found_none r)
  yields : s.phase ≡ found_none → s.producer_done ≡ false → Step s (record s { phase = polling })
  looks : s.phase ≡ found_none → s.producer_done ≡ true → Step s (record s { phase = saw_done })
  pops_again :
      (fuel : ℕ) (r : Option A × Ring A)
      → s.phase ≡ saw_done
      → HasRoom s.queue
      → pop (suc fuel) s.queue ≡ some r
      → Step s (popped s stopped r)

pub data Reaches {A : Type 0} : System A → System A → Type 0 where
  start : (s : System A) → Reaches s s
  more : (s t u : System A) → Reaches s t → Step t u → Reaches s u

some_inj : {A : Type 0} {a b : A} → some a ≡ some b → a ≡ b
some_inj h = cc

module _ {A : Type 0} where
  -- The queue holds what was pushed and neither dropped nor processed.
  pub record IsAccounted (s : System A) : Type 0 where
    pub items : List A
    pub holds : Represents s.queue items
    pub balance : s.queue.tail ≡ s.queue.dropped + s.processed + length items
    pub small : s.queue.tail < 2 ^ 64
    pub done : (s.phase ≡ saw_done) ⊎ (s.phase ≡ stopped) → s.producer_done ≡ true
    pub drained : s.phase ≡ stopped → items ≡ []

  not_done : (s : System A) → s.producer_done ≡ false → s.producer_done ≡ true → ⊥
  not_done s h k = cc

  length-queue_push :
      (cap : ℕ) (xs : List A) (x : A)
      → length (queue_push cap xs x).1 + (if (queue_push cap xs x).0 then 0 else 1) ≡ length xs + 1
  unfolding queue_push
  length-queue_push cap [] x = omega arith
  length-queue_push cap (y ∷ ys) x = elim (Bool-cases (ltb (length (y ∷ ys)) cap)) [
    | inl short ↦ rw short (omega (arith, length-append ys (x ∷ [])))
    | inr full ↦ rw full (omega (arith, length-append ys (x ∷ [])))
  ]

  pushed_balance :
      (r q : Ring A) (xs : List A) (x : A) (processed : ℕ)
      → r.tail ≡ r.dropped + processed + length xs
      → HasRoom r
      → Represents r xs
      → q.tail ≡ r.tail + 1
      → q.dropped ≡ (if (queue_push r.capacity xs x).0 then r.dropped else add_size r.dropped 1)
      → q.tail ≡ q.dropped + processed + length (queue_push r.capacity xs x).1
  pushed_balance r q xs x processed balance room v tail dropped =
      ground (arith, length-queue_push r.capacity xs x, v.big)

  pushed_small :
      (r q : Ring A) (xs : List A)
      → HasRoom r
      → Represents r xs
      → q.tail ≡ r.tail + 1
      → q.tail < 2 ^ 64
  pushed_small r q xs room v tail = omega (arith, v.big)

  popped_next :
      (s : System A) (next : Phase) (q : Ring A) (items : List A)
      → Represents q (queue_pop items).1
      → s.queue.tail ≡ s.queue.dropped + s.processed + length items
      → s.queue.tail < 2 ^ 64
      → q.tail ≡ s.queue.tail
      → q.dropped ≡ s.queue.dropped
      → ((next ≡ saw_done) ⊎ (next ≡ stopped) → s.producer_done ≡ true)
      → IsAccounted (popped s next ((queue_pop items).0, q))
  unfolding queue_pop
  popped_next s next q [] holds balance small tail dropped done = record {
    items = [];
    holds = holds;
    balance = omega (arith, tail, dropped);
    small = omega (arith, tail);
    done = done;
    drained = λ h. refl;
  }
  popped_next s next q (x ∷ xs) holds balance small tail dropped done = record {
    items = xs;
    holds = holds;
    balance = omega (arith, tail, dropped);
    small = omega (arith, tail);
    done = λ h. elim h [ inl k ↦ cc | inr k ↦ cc ];
    drained = λ h. cc;
  }

  popped-IsAccounted :
      (s : System A) (next : Phase) (fuel : ℕ) (r : Option A × Ring A)
      → IsAccounted s
      → HasRoom s.queue
      → pop (suc fuel) s.queue ≡ some r
      → ((next ≡ saw_done) ⊎ (next ≡ stopped) → s.producer_done ≡ true)
      → IsAccounted (popped s next r)
  popped-IsAccounted s next fuel r i room e done =
      let (q, e', holds, cap, tail, dropped) = pop_refines fuel s.queue i.items i.holds room in
      subst (λ o. IsAccounted (popped s next o)) (some_inj (sym e' ∙ e))
        (popped_next s next q i.items holds i.balance i.small tail dropped done)

  Step-IsAccounted : (s t : System A) → Step s t → IsAccounted s → IsAccounted t
  Step-IsAccounted s t (pushes fuel x kept queue running room e) i =
      let (q, e', holds, cap, tail, dropped) = push_refines fuel s.queue i.items x i.holds room in
      let same : (kept, queue) ≡ ((queue_push s.queue.capacity i.items x).0, q) =
        some_inj (sym e ∙ e') in
      let at : queue ≡ q = ap (λ y. y.1) same in
      rw at (record {
        items = (queue_push s.queue.capacity i.items x).1;
        holds = holds;
        balance =
            pushed_balance s.queue q i.items x s.processed i.balance room i.holds tail dropped;
        small = pushed_small s.queue q i.items room i.holds tail;
        done = i.done;
        drained = λ h. absurd (not_done s running (i.done (inr h)));
      })
  Step-IsAccounted s t (finishes running) i = record {
    items = i.items;
    holds = i.holds;
    balance = i.balance;
    small = i.small;
    done = λ h. refl;
    drained = i.drained;
  }
  Step-IsAccounted s t (pops fuel r at room e) i =
      popped-IsAccounted s found_none fuel r i room e (λ h. elim h [ inl k ↦ cc | inr k ↦ cc ])
  Step-IsAccounted s t (yields at running) i = record {
    items = i.items;
    holds = i.holds;
    balance = i.balance;
    small = i.small;
    done = λ h. elim h [ inl k ↦ cc | inr k ↦ cc ];
    drained = λ h. cc;
  }
  Step-IsAccounted s t (looks at done) i = record {
    items = i.items;
    holds = i.holds;
    balance = i.balance;
    small = i.small;
    done = λ h. done;
    drained = λ h. cc;
  }
  Step-IsAccounted s t (pops_again fuel r at room e) i =
      popped-IsAccounted s stopped fuel r i room e (λ h. i.done (inl at))

  Reaches-IsAccounted : (s t : System A) → Reaches s t → IsAccounted s → IsAccounted t
  Reaches-IsAccounted s t (start s') i = i
  Reaches-IsAccounted s t (more s' u t' before next) i =
      Step-IsAccounted u t next (Reaches-IsAccounted s u before i)

  -- `tail` counts the pushes. From an empty ring whose pushes were all dropped or processed, with the loop
  -- before its first `pop`, every state that steps of the two
  -- threads reach, in any order, accounts for every pushed event: it was dropped, or processed, or is in the
  -- queue. Where the loop has stopped, the producer was done, the queue is empty, and every pushed event was
  -- dropped or processed.
  pub reached-IsAccounted :
      (s t : System A)
      → Represents s.queue []
      → s.queue.tail ≡ s.queue.dropped + s.processed
      → s.queue.tail < 2 ^ 64
      → s.phase ≡ polling
      → Reaches s t
      → IsAccounted t
        × (t.phase ≡ stopped
            → (t.producer_done ≡ true)
              × Represents t.queue []
              × (t.queue.tail ≡ t.queue.dropped + t.processed))
  reached-IsAccounted s t holds balance small at reached =
      let i = Reaches-IsAccounted s t reached (record {
        items = [];
        holds = holds;
        balance = omega (arith, balance);
        small = small;
        done = λ h. elim h [ inl k ↦ cc | inr k ↦ cc ];
        drained = λ h. refl;
      }) in
      (
        i,
        λ h.
            let none_left = i.drained h in
            (
              i.done (inr h),
              subst (Represents t.queue) none_left i.holds,
              omega (arith, ap (λ xs. length xs) none_left),
            ),
      )
