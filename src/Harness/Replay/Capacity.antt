-- ===== src/Harness/Replay/Capacity.antt =====
-- The capacity that a replay gives to its ring buffer.
use trade_surveillance_engin.Prelude.{
  ℕ, zero, suc, ◌+◌, ◌-◌, ◌*◌, ◌%◌, ◌^◌, ◌≤◌, ◌<◌, ◌==◌, ◌≡◌, ◌⊎◌, inl, inr, refl, subst, ltb,
  ltb→lt, Bool, true, not, ◌&&◌, ◌||◌, some, Bool-cases, arith,
}
use Prim.Native.Nat.{bit_and}
use native.Mathlib.Decide.{dec_lt}
use native.Mathlib.Numerals.{towards_suc}
use trade_surveillance_engin.RingBuffer.{Ring, vacant_cells, make_ring}
use trade_surveillance_engin.RingBuffer.Invariant.{make_ring-Represents}
use trade_surveillance_engin.Consumer.Interleaving.{System, Reaches, stopped}
use trade_surveillance_engin.Consumer.Interleaving.NoLoss.{opening, reached-none_dropped}
use trade_surveillance_engin.Harness.Replay.{double_until, ring_buffer_capacity_for}

-- The constructor's test.
abbrev accepts : ℕ → Bool
accepts c = not (ltb c 2 || not (bit_and c (c - 1) == 0))

-- The powers of two from 2 on, `count` of them, all pass.
powers_pass : ℕ → Bool
powers_pass zero = true
powers_pass (suc count) = powers_pass count && accepts (2 ^ (count + 1))

powers_pass-accepts :
    (count k : ℕ) → k < count → powers_pass count ≡ true → accepts (2 ^ (k + 1)) ≡ true
unfolding powers_pass
powers_pass-accepts zero k below passed = absurd (omega arith)
powers_pass-accepts (suc count) k below passed =
    let earlier = powers_pass-accepts count k in
    elim (Bool-cases (k == count)) [
      | inl last ↦ let e : k ≡ count = ground arith in rw e (ground arith)
      | inr other ↦ earlier (ground arith) (ground arith)
    ]

sixty_three_pass : powers_pass 63 ≡ true
unfolding powers_pass
sixty_three_pass = refl

accepts-power : (k : ℕ) → k < 63 → accepts (2 ^ (k + 1)) ≡ true
accepts-power k h = powers_pass-accepts 63 k h sixty_three_pass

pow_doubled : (k : ℕ) → 2 ^ (suc k + 1) ≡ 2 ^ (k + 1) * 2
pow_doubled k = simp towards_suc (omega arith)

doubled_lem :
    (k n : ℕ) → 2 ^ (k + 1) < n → n ≤ 2 ^ 63 → (2 ^ (k + 1) * 2) % 2 ^ 64 ≡ 2 ^ (suc k + 1)
doubled_lem k n below small = rw (pow_doubled k) (omega arith)

next_below : (k n : ℕ) → k < 63 → 2 ^ (k + 1) < n → n ≤ 2 ^ 63 → suc k < 63
next_below k n h below small = elim (dec_lt (suc k) 63) [
  | yes p ↦ p
  | no p ↦
      let last : k ≡ 62 = omega arith in
      let far : 2 ^ (62 + 1) < n = subst (λ (j : ℕ). 2 ^ (j + 1) < n) last below in
      absurd (omega arith)
]

-- The loop from a power of two.
double_until_lem :
    (fuel k n : ℕ)
    → k < 63
    → 63 - k ≤ fuel
    → n ≤ 2 ^ 63
    → (c : ℕ) × (double_until fuel n (2 ^ (k + 1)) ≡ some c)
      × (n ≤ c)
      × (accepts c ≡ true)
      × ((c ≡ 2 ^ (k + 1)) ⊎ (c < 2 * n))
unfolding double_until
double_until_lem zero k n h enough small = absurd (omega arith)
double_until_lem (suc fuel) k n h enough small = elim (Bool-cases (ltb (2 ^ (k + 1)) n)) [
  | inr fits ↦
      (2 ^ (k + 1), rw (fits, double_until) refl, ground (arith, fits), accepts-power k h, inl refl)
  | inl short ↦
      let below = ltb→lt (2 ^ (k + 1)) n short in
      let (c, ran, reaches, ok, near) =
        double_until_lem fuel (suc k) n (next_below k n h below small) (omega arith) small in
      (
        c,
        rw (short, double_until, doubled_lem k n below small) ran,
        reaches,
        ok,
        elim near [
          | inl at ↦ inr (omega (arith, pow_doubled k, below, at))
          | inr close ↦ inr close
        ],
      )
]

make_ring-accepts :
    {A : Type 0} (d : A) (c : ℕ)
    → accepts c ≡ true
    → (r : Ring A) × (make_ring d c ≡ some r) × (r.tail ≡ 0) × (r.dropped ≡ 0)
unfolding make_ring
make_ring-accepts d c ok = elim (Bool-cases (ltb c 2 || not (bit_and c (c - 1) == 0))) [
  | inl bad ↦ cc (rw bad at ok)
  | inr good ↦ (
    record { capacity = c; cells = vacant_cells d 0 c; head = 0; tail = 0; dropped = 0 },
    rw good refl,
    refl,
    refl,
  )
]

-- A replay of at most 2^63 events gets a capacity, within 54 rounds of the loop: it is 1024 or less than twice
-- the events, and has a cell for each. The ring buffer's constructor accepts it. In every state that the
-- replay's two threads then reach, in any order, with no more pushes than events, none was dropped, and where
-- the consumer has stopped, it processed every pushed event.
pub replay_drops_none :
    {A : Type 0} (d : A) (n : ℕ)
    → n ≤ 2 ^ 63
    → (c : ℕ) × (r : Ring A) × (ring_buffer_capacity_for 54 n ≡ some c)
      × (make_ring d c ≡ some r)
      × (n ≤ c)
      × ((c ≡ 1024) ⊎ (c < 2 * n))
      × ((t : System A)
          → Reaches (opening r) t
          → t.queue.tail ≤ n
          → (t.queue.dropped ≡ 0) × (t.phase ≡ stopped → t.processed ≡ t.queue.tail))
unfolding ring_buffer_capacity_for
replay_drops_none d n small =
    let (c, ran, reaches, ok, near) = double_until_lem 54 9 n (omega arith) (omega arith) small in
    let (r, made, no_pushes, no_drops) = make_ring-accepts d c ok in
    let (_, same, holds) = make_ring-Represents d c r made in
    (
      c,
      r,
      ran,
      made,
      reaches,
      near,
      λ t steps few. reached-none_dropped r t holds no_pushes no_drops steps (omega (arith, same)),
    )
