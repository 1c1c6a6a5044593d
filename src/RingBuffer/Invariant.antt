-- ===== src/RingBuffer/Invariant.antt =====
-- Which sequence number each cell holds.
use trade_surveillance_engin.Prelude.{
  ℕ, zero, suc, ◌+◌, ◌-◌, ◌%◌, ◌≤◌, ◌<◌, ◌≡◌, ◌≢◌, refl, sym, ◌∙◌, ap, subst, Bool-cases, ltb, not,
  ◌||◌, ◌==◌, some, List, [], ◌∷◌, ◌++◌, ◌⊎◌, inl, inr, get_elem?, set, length, get_elem?-set_ne,
  arith,
}
use Prim.Native.Nat.{bit_and}
use native.Mathlib.Nat.{mod-eq_of_lt}
use trade_surveillance_engin.RingBuffer.{Cell, Ring, vacant_cells, make_ring}

-- Positions less than a capacity apart have different slots.
pub mod_ne : (c i j : ℕ) → 0 < c → i < j → j < i + c → i % c ≢ j % c
mod_ne c i j h k l e = grind arith

module _ {A : Type 0} where
  -- The items from position `i` on stand published in their slots.
  abbrev pub Stored : List (Cell A) → ℕ → ℕ → List A → Type 0
  Stored cells cap i [] = Unit {0}
  Stored cells cap i (x ∷ xs) =
      (get_elem? cells (i % cap) ≡ some (record { sequence = i + 1; item = x }))
      × Stored cells cap (i + 1) xs

  -- The slot of position `i` waits for that position.
  abbrev pub IsFree : List (Cell A) → ℕ → ℕ → Type 0
  IsFree cells cap i =
      (x : A) × (get_elem? cells (i % cap) ≡ some (record { sequence = i; item = x }))

  -- A ring holds the items, oldest first.
  pub record Represents (r : Ring A) (xs : List A) : Type 0 where
    pub big : 2 ≤ r.capacity
    pub sized : length r.cells ≡ r.capacity
    pub counted : r.tail ≡ r.head + length xs
    pub fits : length xs ≤ r.capacity
    pub stored : Stored r.cells r.capacity r.head xs
    pub free : (i : ℕ) → r.tail ≤ i → i < r.head + r.capacity → IsFree r.cells r.capacity i

  -- A write to another slot is not seen.
  pub get-set_other :
      (cells : List (Cell A)) (cap i j : ℕ) (v : Cell A)
      → 0 < cap
      → ((i < j) × (j < i + cap)) ⊎ ((j < i) × (i < j + cap))
      → get_elem? (set cells (j % cap) v) (i % cap) ≡ get_elem? cells (i % cap)
  get-set_other cells cap i j v h (inl k) =
      get_elem?-set_ne cells v (λ e. mod_ne cap i j h k.0 k.1 (sym e))
  get-set_other cells cap i j v h (inr k) = get_elem?-set_ne cells v (mod_ne cap j i h k.0 k.1)

  pub Stored-set :
      (cells : List (Cell A)) (cap i j : ℕ) (v : Cell A) (xs : List A)
      → 0 < cap
      → ((i + length xs ≤ j) × (j < i + cap)) ⊎ ((j < i) × (i + length xs ≤ j + cap))
      → Stored cells cap i xs
      → Stored (set cells (j % cap) v) cap i xs
  Stored-set cells cap i j v [] h k s = tt
  Stored-set cells cap i j v (x ∷ xs) h k s = (
    get-set_other cells cap i j v h (omega (arith, k)) ∙ s.0,
    Stored-set cells cap (i + 1) j v xs h (omega (arith, k)) s.1,
  )

  pub Stored-append :
      (cells : List (Cell A)) (cap i : ℕ) (xs : List A) (x : A)
      → Stored cells cap i xs
      → get_elem? cells ((i + length xs) % cap)
        ≡ some (record { sequence = i + length xs + 1; item = x })
      → Stored cells cap i (xs ++ x ∷ [])
  Stored-append cells cap i [] x s h = let e : i + 0 ≡ i = omega arith in (rw e at h, tt)
  Stored-append cells cap i (y ∷ xs) x s h =
      let e : i + suc (length xs) ≡ i + 1 + length xs = omega arith in
      (s.0, Stored-append cells cap (i + 1) xs x s.1 (rw e at h))

some_inj : {A : Type 0} {a b : A} → some a ≡ some b → a ≡ b
some_inj h = cc

module _ {A : Type 0} where
  length-vacant_cells : (d : A) (i n : ℕ) → length (vacant_cells d i n) ≡ n
  unfolding vacant_cells
  length-vacant_cells d i zero = refl
  length-vacant_cells d i (suc n) = ap suc (length-vacant_cells d (i + 1) n)

  get-vacant_cells :
      (d : A) (i n j : ℕ)
      → j < n
      → get_elem? (vacant_cells d i n) j ≡ some (record { sequence = i + j; item = d })
  unfolding vacant_cells
  get-vacant_cells d i zero j h = absurd (omega arith)
  get-vacant_cells d i (suc n) zero h = let e : i + 0 ≡ i = omega arith in rw e
  get-vacant_cells d i (suc n) (suc j) h =
      let e : i + suc j ≡ i + 1 + j = omega arith in
      rw e (get-vacant_cells d (i + 1) n j (omega arith))

  first_round : (d : A) (c i : ℕ) → i < c → IsFree (vacant_cells d 0 c) c i
  first_round d c i h =
      let slot : i % c ≡ i = mod-eq_of_lt h in
      let e : 0 + i ≡ i = omega arith in
      (
        d,
        rw slot (
            subst (λ n. get_elem? (vacant_cells d 0 c) i ≡ some (record { sequence = n; item = d }))
              e (get-vacant_cells d 0 c i h)),
      )

  -- The constructor accepts no capacity below two, and what it builds holds no item.
  pub make_ring-Represents :
      (d : A) (c : ℕ) (r : Ring A)
      → make_ring d c ≡ some r
      → (2 ≤ c) × (r.capacity ≡ c) × Represents r []
  unfolding make_ring
  make_ring-Represents d c r h = elim (Bool-cases (ltb c 2 || not (bit_and c (c - 1) == 0))) [
    | inl bad ↦ cc (rw bad at h)
    | inr good ↦
        let big : 2 ≤ c = ground (arith, good) in
        let made : Ring A = record {
          capacity = c;
          cells = vacant_cells d 0 c;
          head = 0;
          tail = 0;
          dropped = 0;
        } in
        let e : made ≡ r = some_inj (rw good at h) in
        subst (λ r'. (2 ≤ c) × (r'.capacity ≡ c) × Represents r' []) e
          (
            big,
            refl,
            record {
              big = big;
              sized = length-vacant_cells d 0 c;
              counted = refl;
              fits = omega arith;
              stored = tt;
              free = λ i lo hi. first_round d c i (omega arith);
            },
          )
  ]
