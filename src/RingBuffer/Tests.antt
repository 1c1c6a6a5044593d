-- ===== src/RingBuffer/Tests.antt =====
-- A ring of two cells on a short run.
use trade_surveillance_engin.Prelude.{ℕ, ◌≡◌, refl, none, some, [], ◌∷◌, arith}
use trade_surveillance_engin.RingBuffer.{Ring, make_ring, vacant_cells, pop}
use trade_surveillance_engin.RingBuffer.Invariant.{Represents, make_ring-Represents}
use trade_surveillance_engin.RingBuffer.Queue.{
  queue_push, queue_pop, Pushes, push_refines, pop_refines,
}

abbrev vacant : Ring ℕ
vacant = record {
  capacity = 2;
  cells = record { sequence = 0; item = 0 } ∷ record { sequence = 1; item = 0 } ∷ [];
  head = 0;
  tail = 0;
  dropped = 0;
}

made : make_ring 0 2 ≡ some vacant
unfolding make_ring vacant_cells
made = refl

refused : make_ring {A = ℕ} 0 6 ≡ none
unfolding make_ring
refused = refl

vacant-Represents : Represents vacant []
vacant-Represents = (let (_, _, v) = make_ring-Represents 0 2 vacant made in v)

push_refines_example : Pushes 2 vacant [] 7
push_refines_example = push_refines 0 vacant [] 7 vacant-Represents (omega arith)

first_pushed : (r : Ring ℕ) × (Represents r (7 ∷ [])) × (r.tail ≡ 1) × (r.capacity ≡ 2)
unfolding queue_push
first_pushed =
    let (r, _, v, c, t, _) = push_refines 0 vacant [] 7 vacant-Represents (omega arith) in
    (r, v, t, c)

pop_refines_example : (r : Ring ℕ) × (pop 1 first_pushed.0 ≡ some (some 7, r)) × Represents r []
unfolding queue_pop
pop_refines_example =
    let (r, v, t, c) = first_pushed in
    let (r', e, w, _, _, _) = pop_refines 0 r (7 ∷ []) v (omega (arith, t, c)) in (r', e, w)
