-- ===== src/RingBuffer.antt =====
-- cpp/ingestion/spsc_ring_buffer.hpp: the drop-oldest ring buffer, one call at a time. A cell carries a
-- sequence number; positions are size_t and wrap. `pos & mask_` is `pos % capacity`, since the
-- constructor accepts powers of two only. A loop takes fuel, and `none` is a loop that has not ended,
-- or an access outside the cells.
pub mod Invariant
pub mod Queue
mod Tests
use Prim.Native.Nat.{bit_and}
use trade_surveillance_engin.Prelude.{
  ℕ, zero, suc, ◌+◌, ◌-◌, ◌%◌, ◌^◌, ◌==◌, ltb, not, ◌||◌, Bool, true, false, Option, none, some,
  List, [], ◌∷◌, get_elem?, set, if◌then◌else◌,
}

pub record Cell (A : Type 0) : Type 0 where
  pub sequence : ℕ
  pub item : A

pub record Ring (A : Type 0) : Type 0 where
  pub capacity : ℕ
  pub cells : List (Cell A)
  pub head : ℕ
  pub tail : ℕ
  pub dropped : ℕ

-- size_t and uint64_t addition
abbrev pub add_size : ℕ → ℕ → ℕ
add_size a b = (a + b) % 2 ^ 64

module _ {A : Type 0} where
  -- `n` cells from position `i` on, each waiting for its own position
  unfoldable pub vacant_cells : A → ℕ → ℕ → List (Cell A)
  vacant_cells default i zero = []
  vacant_cells default i (suc n) =
      record { sequence = i; item = default } ∷ vacant_cells default (i + 1) n

  unfoldable pub make_ring : A → ℕ → Option (Ring A)
  unfolding vacant_cells
  make_ring default capacity =
      if ltb capacity 2 || not (bit_and capacity (capacity - 1) == 0)
      then none
      else some (record {
        capacity = capacity;
        cells = vacant_cells default 0 capacity;
        head = 0;
        tail = 0;
        dropped = 0;
      })

  abbrev pub cell_at : Ring A → ℕ → Option (Cell A)
  cell_at r pos = get_elem? r.cells (pos % r.capacity)

  abbrev pub set_cell : Ring A → ℕ → Cell A → List (Cell A)
  set_cell r pos c = set r.cells (pos % r.capacity) c

  -- `try_claim_front` from a local `pos`: an item, or none if the buffer is empty.
  unfoldable pub claim : ℕ → Ring A → ℕ → Option (Option A × Ring A)
  claim zero r pos = none
  claim (suc fuel) r pos =
      let retry = claim fuel r r.head in
      elim (cell_at r pos) [
        | none ↦ none
        | some c ↦
            if c.sequence == add_size pos 1
            then (if r.head == pos
                then some (
                  some c.item,
                  record r {
                    head = add_size pos 1;
                    cells = set_cell r pos (record c { sequence = add_size pos r.capacity });
                  },
                )
                else retry)
            else if c.sequence == pos
            then some (none, r)
            else retry
      ]

  unfoldable pub try_claim_front : ℕ → Ring A → Option (Option A × Ring A)
  unfolding claim
  try_claim_front fuel r = claim fuel r r.head

  unfoldable pub pop : ℕ → Ring A → Option (Option A × Ring A)
  unfolding try_claim_front
  pop = try_claim_front

  -- the loop of `push`, to the vacated slot; the flag says whether it dropped anything
  unfoldable pub make_room : ℕ → Ring A → ℕ → Bool → Option (Bool × Ring A)
  unfolding try_claim_front
  make_room zero r pos has_dropped = none
  make_room (suc fuel) r pos has_dropped = elim (cell_at r pos) [
    | none ↦ none
    | some c ↦ elim (c.sequence == pos) [
      | true ↦ some (has_dropped, r)
      | false ↦ elim (try_claim_front (suc fuel) r) [
        | none ↦ none
        | some (none, r') ↦ make_room fuel r' pos has_dropped
        | some (some x, r') ↦
            make_room fuel (record r' { dropped = add_size r'.dropped 1 }) pos true
      ]
    ]
  ]

  abbrev pub publish : Ring A → A → Ring A
  publish r x = record r {
    cells = set_cell r r.tail (record { sequence = add_size r.tail 1; item = x });
    tail = add_size r.tail 1;
  }

  -- `true` if nothing was dropped
  unfoldable pub push : ℕ → Ring A → A → Option (Bool × Ring A)
  unfolding make_room
  push fuel r x = elim (make_room fuel r r.tail false) [
    | none ↦ none
    | some (has_dropped, r') ↦ some (not has_dropped, publish r' x)
  ]

  -- size_t subtraction
  unfoldable pub size_approx : Ring A → ℕ
  size_approx r = (r.tail + 2 ^ 64 - r.head) % 2 ^ 64
