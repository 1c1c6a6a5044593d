-- ===== src/Consumer/Interleaving/NoLoss.antt =====
-- A ring with a cell for each pushed event gives none up, in whatever order the two threads step.
use trade_surveillance_engin.Prelude.{
  ℕ, suc, ◌+◌, ◌≤◌, ◌<◌, ◌≡◌, refl, sym, ◌∙◌, ap, subst, true, false, List, [], ◌∷◌, length, Option,
  none, some, inl, inr, arith, if◌then◌else◌, lt→ltb,
}
use trade_surveillance_engin.RingBuffer.{Ring, add_size, pop}
use trade_surveillance_engin.RingBuffer.Invariant.{Represents}
use trade_surveillance_engin.RingBuffer.Queue.{HasRoom, queue_push, push_refines, pop_refines}
use trade_surveillance_engin.Consumer.Interleaving.{
  Phase, polling, found_none, stopped, System, Step, pushes, finishes, pops, yields, looks,
  pops_again, Reaches, start, more, IsAccounted, popped, Reaches-IsAccounted, reached-IsAccounted,
}

some_inj : {A : Type 0} {a b : A} → some a ≡ some b → a ≡ b
some_inj h = cc

module _ {A : Type 0} where
  -- The ring has `capacity` cells, and with no more pushes than that none was dropped.
  pub record IsLossless (capacity : ℕ) (r : Ring A) : Type 0 where
    pub same : r.capacity ≡ capacity
    pub none_dropped : r.tail ≤ capacity → r.dropped ≡ 0

  queue_push_short :
      (size : ℕ) (xs : List A) (x : A) → length xs < size → (queue_push size xs x).0 ≡ true
  unfolding queue_push
  queue_push_short size [] x h = refl
  queue_push_short size (y ∷ ys) x h = rw (lt→ltb (length (y ∷ ys)) size h) refl

  pushed-IsLossless :
      (capacity : ℕ) (r q : Ring A) (xs : List A) (x : A) (processed : ℕ)
      → IsLossless capacity r
      → r.tail ≡ r.dropped + processed + length xs
      → q.capacity ≡ r.capacity
      → q.tail ≡ r.tail + 1
      → q.dropped ≡ (if (queue_push r.capacity xs x).0 then r.dropped else add_size r.dropped 1)
      → IsLossless capacity q
  pushed-IsLossless capacity r q xs x processed l balance cap tail dropped = record {
    same = cap ∙ l.same;
    none_dropped = λ h. pushed_none h (queue_push_short r.capacity xs x (short h));
  }
    where
      short : q.tail ≤ capacity → length xs < r.capacity
      short h = omega (arith, tail, balance, l.same)

      pushed_none : q.tail ≤ capacity → (queue_push r.capacity xs x).0 ≡ true → q.dropped ≡ 0
      pushed_none h kept = (rw kept at dropped) ∙ l.none_dropped (omega (arith, tail))

  popped_queue :
      (s : System A) (next : Phase) (r : Option A × Ring A) → (popped s next r).queue ≡ r.1
  popped_queue s next (none, q) = refl
  popped_queue s next (some e, q) = refl

  popped-IsLossless :
      (capacity : ℕ) (s : System A) (next : Phase) (fuel : ℕ) (r : Option A × Ring A)
      → IsAccounted s
      → IsLossless capacity s.queue
      → HasRoom s.queue
      → pop (suc fuel) s.queue ≡ some r
      → IsLossless capacity (popped s next r).queue
  popped-IsLossless capacity s next fuel r i l room e =
      let (q, e', holds, cap, tail, dropped) = pop_refines fuel s.queue i.items i.holds room in
      let at : r.1 ≡ q = ap (λ y. y.1) (some_inj (sym e ∙ e')) in
      subst (IsLossless capacity) (sym (popped_queue s next r ∙ at)) (record {
        same = cap ∙ l.same;
        none_dropped = λ h. dropped ∙ l.none_dropped (omega (arith, tail));
      })

  Step-IsLossless :
      (capacity : ℕ) (s t : System A)
      → Step s t
      → IsAccounted s
      → IsLossless capacity s.queue
      → IsLossless capacity t.queue
  Step-IsLossless capacity s t (pushes fuel x kept queue running room e) i l =
      let (q, e', holds, cap, tail, dropped) = push_refines fuel s.queue i.items x i.holds room in
      let at : queue ≡ q = ap (λ y. y.1) (some_inj (sym e ∙ e')) in
      subst (IsLossless capacity) (sym at)
        (pushed-IsLossless capacity s.queue q i.items x s.processed l i.balance cap tail dropped)
  Step-IsLossless capacity s t (finishes running) i l = l
  Step-IsLossless capacity s t (pops fuel r at room e) i l =
      popped-IsLossless capacity s found_none fuel r i l room e
  Step-IsLossless capacity s t (yields at running) i l = l
  Step-IsLossless capacity s t (looks at done) i l = l
  Step-IsLossless capacity s t (pops_again fuel r at room e) i l =
      popped-IsLossless capacity s stopped fuel r i l room e

  Reaches-IsLossless :
      (capacity : ℕ) (s t : System A)
      → Reaches s t
      → IsAccounted s
      → IsLossless capacity s.queue
      → IsLossless capacity t.queue
  Reaches-IsLossless capacity s t (start s') i l = l
  Reaches-IsLossless capacity s t (more s' u t' before next) i l =
      Step-IsLossless capacity u t next (Reaches-IsAccounted s u before i)
        (Reaches-IsLossless capacity s u before i l)

  -- A fresh ring before its first push.
  abbrev pub opening : Ring A → System A
  opening r = record { queue = r; producer_done = false; phase = polling; processed = 0 }

  opening-IsAccounted :
      (r : Ring A) → Represents r [] → r.tail ≡ 0 → r.dropped ≡ 0 → IsAccounted (opening r)
  opening-IsAccounted r holds no_pushes no_drops = record {
    items = [];
    holds = holds;
    balance = omega (arith, no_pushes, no_drops);
    small = omega (arith, no_pushes);
    done = λ h. elim h [ inl k ↦ cc | inr k ↦ cc ];
    drained = λ h. cc;
  }

  -- From a fresh ring, in every state that the two threads reach in any order with no more pushes than the
  -- ring has cells, none was dropped; where the loop has stopped, every pushed event was processed.
  pub reached-none_dropped :
      (r : Ring A) (t : System A)
      → Represents r []
      → r.tail ≡ 0
      → r.dropped ≡ 0
      → Reaches (opening r) t
      → t.queue.tail ≤ r.capacity
      → (t.queue.dropped ≡ 0) × (t.phase ≡ stopped → t.processed ≡ t.queue.tail)
  reached-none_dropped r t holds no_pushes no_drops steps few =
      let (i, ended) =
        reached-IsAccounted (opening r) t holds (omega (arith, no_pushes, no_drops))
          (omega (arith, no_pushes)) refl steps in
      let l =
        Reaches-IsLossless r.capacity (opening r) t steps
          (opening-IsAccounted r holds no_pushes no_drops)
          (record { same = refl; none_dropped = λ h. no_drops }) in
      let none = l.none_dropped few in (none, λ h. omega (arith, none, (ended h).2))
