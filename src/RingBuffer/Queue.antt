-- ===== src/RingBuffer/Queue.antt =====
-- The ring against a bounded queue that drops its oldest item to make room. Calls are one at a time,
-- and the counters have not come to the end of size_t.
use trade_surveillance_engin.Prelude.{
  ℕ, suc, ◌+◌, ◌%◌, ◌^◌, ◌≤◌, ◌<◌, ◌≡◌, refl, ◌∙◌, ap, Bool, true, false, Option, none, some, List,
  [], ◌∷◌, ◌++◌, ◌==◌, length, length-append, length-set, get_elem?-set_self, if◌then◌else◌, inl,
  inr, arith, ltb, ltb→lt, Bool-cases,
}
use trade_surveillance_engin.RingBuffer.{
  Cell, Ring, add_size, cell_at, set_cell, claim, try_claim_front, pop, make_room, publish, push,
  size_approx,
}
use trade_surveillance_engin.RingBuffer.Invariant.{
  IsFree, Represents, get-set_other, Stored-set, Stored-append,
}

-- The queue's own operations, on the items alone.
unfoldable pub queue_pop {ℓ} : {A : Type ℓ} → List A → Option A × List A
queue_pop [] = (none, [])
queue_pop (x ∷ xs) = (some x, xs)

-- Whether nothing was dropped, and the items after a push.
unfoldable pub queue_push {ℓ} : {A : Type ℓ} → ℕ → List A → A → Bool × List A
queue_push cap [] x = (true, x ∷ [])
queue_push cap (y ∷ ys) x =
    if ltb (length (y ∷ ys)) cap then (true, (y ∷ ys) ++ x ∷ []) else (false, ys ++ x ∷ [])

module _ {A : Type 0} where
  -- No counter wraps within the next call.
  abbrev pub HasRoom : Ring A → Type 0
  HasRoom r = r.tail + r.capacity < 2 ^ 64

  abbrev claimed : Ring A → A → Ring A
  claimed r x = record r {
    head = r.head + 1;
    cells = set_cell r r.head (record { sequence = r.head + r.capacity; item = x });
  }

  claim-empty :
      (fuel : ℕ) (r : Ring A)
      → Represents r []
      → HasRoom r
      → claim (suc fuel) r r.head ≡ some (none, r)
  unfolding claim
  claim-empty fuel r v room =
      let (x, e) = v.free r.head (omega (arith, v.counted)) (omega (arith, v.big)) in
      rw (e, claim) (ground arith)

  claim-some :
      (fuel : ℕ) (r : Ring A) (x : A) (xs : List A)
      → Represents r (x ∷ xs)
      → HasRoom r
      → claim (suc fuel) r r.head ≡ some (some x, claimed r x)
  unfolding claim
  claim-some fuel r x xs v room = rw (v.stored.0, claim) (ground (arith, v.counted, v.fits))

  claimed-Represents :
      (r : Ring A) (x : A) (xs : List A) → Represents r (x ∷ xs) → Represents (claimed r x) xs
  claimed-Represents r x xs v = record {
    big = v.big;
    sized = length-set r.cells _ _ ∙ v.sized;
    counted = omega (arith, v.counted);
    fits = omega (arith, v.fits);
    stored =
        Stored-set r.cells r.capacity (r.head + 1) r.head _ xs (omega (arith, v.big))
          (inr (omega (arith, v.fits))) v.stored.1;
    free = freed;
  }
    where
      freed :
          (i : ℕ)
          → r.tail ≤ i
          → i < r.head + 1 + r.capacity
          → IsFree
              (set_cell r r.head (record { sequence = r.head + r.capacity; item = x }))
              r.capacity
              i
      freed i lo hi = elim (Bool-cases (ltb i (r.head + r.capacity))) [
        | inl old ↦
            let (y, e) = v.free i lo (ltb→lt _ _ old) in
            (
              y,
              get-set_other r.cells r.capacity i r.head _ (omega (arith, v.big))
                    (inr (omega (arith, v.counted, ltb→lt i (r.head + r.capacity) old)))
                  ∙ e,
            )
        | inr last ↦
            let at : i ≡ r.head + r.capacity = ground (arith, last, hi) in
            let wrapped : (r.head + r.capacity) % r.capacity ≡ r.head % r.capacity =
              grind (arith, v.big) in
            (
              x,
              rw (at, wrapped)
                  (get_elem?-set_self r.cells (r.head % r.capacity) _
                    (omega (arith, v.sized, v.big))),
            )
      ]

  abbrev published : Ring A → A → Ring A
  published r x = record r {
    cells = set_cell r r.tail (record { sequence = r.tail + 1; item = x });
    tail = r.tail + 1;
  }

  publish_lem : (r : Ring A) (x : A) → 0 < r.capacity → HasRoom r → publish r x ≡ published r x
  publish_lem r x h room =
      let e : add_size r.tail 1 ≡ r.tail + 1 = omega arith in
      ap (λ n. record r { cells = set_cell r r.tail (record { sequence = n; item = x }); tail = n })
        e

  published-Represents :
      (r : Ring A) (x : A) (xs : List A)
      → Represents r xs
      → length xs < r.capacity
      → Represents (published r x) (xs ++ x ∷ [])
  published-Represents r x xs v short =
      let entry : Cell A = record { sequence = r.tail + 1; item = x } in
      record {
        big = v.big;
        sized = length-set r.cells _ entry ∙ v.sized;
        counted = omega (arith, v.counted, length-append xs (x ∷ []));
        fits = omega (arith, length-append xs (x ∷ []));
        stored =
            Stored-append (set_cell r r.tail entry) r.capacity r.head xs x
              (Stored-set r.cells r.capacity r.head r.tail entry xs (omega (arith, v.big))
                (inl (omega (arith, v.counted))) v.stored)
              (rw (← v.counted) (
                get_elem?-set_self r.cells (r.tail % r.capacity) entry
                  (omega (arith, v.sized, v.big))));
        free = λ i lo hi.
            let (y, e) = v.free i (omega arith) hi in
            (
              y,
              get-set_other r.cells r.capacity i r.tail entry (omega (arith, v.big))
                    (inr (omega (arith, v.counted)))
                  ∙ e,
            );
      }

  -- The slot of the tail is vacant exactly if the ring is not full.
  make_room-vacant :
      (fuel : ℕ) (r : Ring A) (xs : List A) (b : Bool)
      → Represents r xs
      → length xs < r.capacity
      → make_room (suc fuel) r r.tail b ≡ some (b, r)
  unfolding make_room
  make_room-vacant fuel r xs b v short =
      let (y, e) = v.free r.tail (omega arith) (omega (arith, v.counted)) in
      rw (e, make_room) (ground arith)

  abbrev dropping : Ring A → A → Ring A
  dropping r x = record (claimed r x) { dropped = add_size r.dropped 1 }

  dropping-Represents :
      (r : Ring A) (x : A) (xs : List A) → Represents r (x ∷ xs) → Represents (dropping r x) xs
  dropping-Represents r x xs v =
      let w = claimed-Represents r x xs v in
      record {
        big = w.big;
        sized = w.sized;
        counted = w.counted;
        fits = w.fits;
        stored = w.stored;
        free = w.free;
      }

  make_room-full :
      (fuel : ℕ) (r : Ring A) (x : A) (xs : List A) (b : Bool)
      → Represents r (x ∷ xs)
      → HasRoom r
      → length (x ∷ xs) ≡ r.capacity
      → make_room (suc (suc fuel)) r r.tail b ≡ some (true, dropping r x)
  unfolding make_room try_claim_front
  make_room-full fuel r x xs b v room full =
      let slot : r.tail % r.capacity ≡ r.head % r.capacity = grind (arith, v.counted, v.big) in
      let first : cell_at r r.tail ≡ some (record { sequence = r.head + 1; item = x }) =
        rw slot v.stored.0 in
      let taken : (r.head + 1 == r.tail) ≡ false = ground (arith, v.counted, v.big) in
      rw (first, make_room, taken, claim-some (suc fuel) r x xs v room)
        (make_room-vacant fuel (dropping r x) xs true (dropping-Represents r x xs v) (omega arith))

  push-vacant :
      (fuel : ℕ) (r : Ring A) (xs : List A) (x : A)
      → Represents r xs
      → HasRoom r
      → length xs < r.capacity
      → push (suc fuel) r x ≡ some (true, published r x)
  unfolding push
  push-vacant fuel r xs x v room short =
      rw (make_room-vacant fuel r xs false v short, push)
        (ap (λ r'. some (true, r')) (publish_lem r x (omega (arith, v.big)) room))

  push-full :
      (fuel : ℕ) (r : Ring A) (y : A) (ys : List A) (x : A)
      → Represents r (y ∷ ys)
      → HasRoom r
      → length (y ∷ ys) ≡ r.capacity
      → push (suc (suc fuel)) r x ≡ some (false, published (dropping r y) x)
  unfolding push
  push-full fuel r y ys x v room full =
      rw (make_room-full fuel r y ys false v room full, push)
        (ap (λ r'. some (false, r')) (publish_lem (dropping r y) x (omega (arith, v.big)) room))

  -- What a push must do to a ring of these items: end, with the queue's answer, holding the queue's
  -- items, and with one drop counted if it dropped one.
  abbrev pub Pushes : ℕ → Ring A → List A → A → Type 0
  Pushes fuel r xs x =
      let (kept, ys) = queue_push r.capacity xs x in
      (r' : Ring A) × (push fuel r x ≡ some (kept, r'))
      × (Represents r' ys)
      × (r'.capacity ≡ r.capacity)
      × (r'.tail ≡ r.tail + 1)
      × (r'.dropped ≡ (if kept then r.dropped else add_size r.dropped 1))

  -- With fuel for two rounds `push` always ends, and does to the items what the bounded drop-oldest
  -- queue does: a full ring gives up its oldest item and counts it, any other keeps all items.
  pub push_refines :
      (fuel : ℕ) (r : Ring A) (xs : List A) (x : A)
      → Represents r xs
      → HasRoom r
      → Pushes (suc (suc fuel)) r xs x
  unfolding queue_push
  push_refines fuel r [] x v room = (
    published r x,
    push-vacant (suc fuel) r [] x v room (omega (arith, v.big)),
    published-Represents r x [] v (omega (arith, v.big)),
    refl,
    refl,
    refl,
  )
  push_refines fuel r (y ∷ ys) x v room = elim (Bool-cases (ltb (length (y ∷ ys)) r.capacity)) [
    | inl short ↦ rw short (
      published r x,
      push-vacant (suc fuel) r (y ∷ ys) x v room (ltb→lt _ _ short),
      published-Represents r x (y ∷ ys) v (ltb→lt _ _ short),
      refl,
      refl,
      refl,
    )
    | inr full ↦
        let all : length (y ∷ ys) ≡ r.capacity = ground (arith, full, v.fits) in
        rw full (
          published (dropping r y) x,
          push-full fuel r y ys x v room all,
          published-Represents (dropping r y) x ys (dropping-Represents r y ys v) (omega arith),
          refl,
          refl,
          refl,
        )
  ]

  -- `pop` always ends at once, takes the oldest item, and finds none exactly in an empty ring.
  pub pop_refines :
      (fuel : ℕ) (r : Ring A) (xs : List A)
      → Represents r xs
      → HasRoom r
      → let (out, ys) = queue_pop xs in
        (r' : Ring A) × (pop (suc fuel) r ≡ some (out, r'))
        × (Represents r' ys)
        × (r'.capacity ≡ r.capacity)
        × (r'.tail ≡ r.tail)
        × (r'.dropped ≡ r.dropped)
  unfolding queue_pop pop try_claim_front
  pop_refines fuel r [] v room = (r, claim-empty fuel r v room, v, refl, refl, refl)
  pop_refines fuel r (x ∷ xs) v room =
      (claimed r x, claim-some fuel r x xs v room, claimed-Represents r x xs v, refl, refl, refl)

  -- Between calls `size_approx` is the number of items.
  pub size_approx-length :
      (r : Ring A) (xs : List A) → Represents r xs → HasRoom r → size_approx r ≡ length xs
  unfolding size_approx
  size_approx-length r xs v room = omega (arith, v.counted)
