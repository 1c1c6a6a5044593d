-- ===== src/Simulator/Draws.antt =====
-- cpp/simulator/random_utils.{hpp,cpp} and id_generator.{hpp,cpp}. The generator std::mt19937_64 with the
-- distributions of the library, and its rounding of doubles, is a parameter. A generator of the simulator
-- passes on the state `Gen`; `none` is an exception, or undefined behaviour on an empty vector.
pub mod Makes
pub mod Ids
use trade_surveillance_engin.Prelude.{
  ℕ, zero, suc, ◌+◌, ◌-◌, ◌<◌, ◌≡◌, ℤ, pos, ◌≤ℤ◌, ◌<ℤ◌, ◌-ℤ◌, leb_ℤ, Text, Bool, List, [], ◌∷◌,
  ◌++◌, Option, none, some, length, get_elem?, replicate, if◌then◌else◌, Double,
}
use trade_surveillance_engin.Codec.Decimal.{digits}

pub record Draws (F : Type 0) : Type 1 where
  pub Rng : Type 0
  pub seeded : ℕ → Rng
  -- the distributions: a real, an integer between bounds, an index below a size, an exponential
  pub real : F → F → Rng → F × Rng
  pub int_between : ℤ → ℤ → Rng → ℤ × Rng
  pub index_below : ℕ → Rng → ℕ × Rng
  pub exponential : F → Rng → F × Rng
  pub round : F → F
  pub llround : F → ℤ
  -- static_cast<int64_t> of a double
  pub truncate : F → ℤ
  pub neg : F → F
  -- the literal of a number over a power of ten
  pub decimal : ℕ → ℕ → F
  -- std::hash<std::string>
  pub hash : Text → ℕ

-- The distributions keep their bounds.
pub record IsDraws {F : Type 0} (q : Draws F) : Type 0 where
  pub int_low : (lo hi : ℤ) (r : q.Rng) → lo <ℤ hi → lo ≤ℤ (q.int_between lo hi r).0
  pub int_high : (lo hi : ℤ) (r : q.Rng) → lo <ℤ hi → (q.int_between lo hi r).0 ≤ℤ hi
  pub index_low : (n : ℕ) (r : q.Rng) → 0 < n → (q.index_below n r).0 < n

-- The counter starts at 1 and only grows.
pub record IdGenerator : Type 0 where
  pub prefix : Text
  pub counter : ℕ

-- std::setw(6) and std::setfill('0')
abbrev pub padded : ℕ → Text
padded n = let t = digits 20 n [] in replicate (6 - length t) 48 ++ t

unfoldable pub id_text : Text → ℕ → Text
unfolding digits
id_text prefix n = prefix ++ (45 ∷ padded n)

unfoldable pub next : IdGenerator → Text × IdGenerator
unfolding id_text
next g = (id_text g.prefix g.counter, record g { counter = g.counter + 1 })

pub record Gen (R : Type 0) : Type 0 where
  pub rng : R
  pub order_id_gen : IdGenerator
  pub trade_id_gen : IdGenerator

abbrev pub M : Type 0 → Type 0 → Type 0
M R A = Gen R → Option (A × Gen R)

infixl 5 ◌>>=◌
unfoldable pub ◌>>=◌ : {R A B : Type 0} → M R A → (A → M R B) → M R B
◌>>=◌ m f g = elim (m g) [ none ↦ none | some (a, g') ↦ f a g' ]

unfoldable pub returning : {R A : Type 0} → A → M R A
returning a g = some (a, g)

abbrev pub failing : {R A : Type 0} → M R A
failing g = none

abbrev pub drawing : {R A : Type 0} → (R → A × R) → M R A
drawing f g = let (a, r) = f g.rng in some (a, record g { rng = r })

unfoldable pub next_order_id : {R : Type 0} → M R Text
unfolding next
next_order_id g = let (id, i) = next g.order_id_gen in some (id, record g { order_id_gen = i })

unfoldable pub next_trade_id : {R : Type 0} → M R Text
unfolding next
next_trade_id g = let (id, i) = next g.trade_id_gen in some (id, record g { trade_id_gen = i })

-- An element that is read by its index.
unfoldable pub element : {R A : Type 0} → Option A → M R A
element none = failing
element (some v) = returning v

module _ {F : Type 0} ⦃d : Double F⦄ (q : Draws F) where
  unfoldable pub uniform_double : F → F → M q.Rng F
  uniform_double lo hi = drawing (q.real lo hi)

  unfoldable pub uniform_int64 : ℤ → ℤ → M q.Rng ℤ
  uniform_int64 lo hi = if leb_ℤ hi lo then returning lo else drawing (q.int_between lo hi)

  unfoldable pub poisson_interarrival_ns : F → M q.Rng ℤ
  poisson_interarrival_ns rate_per_sec = do
    gap_sec ← drawing (q.exponential rate_per_sec)
    returning (q.llround (d.mul gap_sec (d.of_int (pos 1_000_000_000))))

  -- The loop over the brackets, from a point on.
  unfoldable pub interpolate : F → F × ℤ → List (F × ℤ) → ℤ
  interpolate u (lo_p, lo_v) [] = lo_v
  interpolate u (lo_p, lo_v) ((hi_p, hi_v) ∷ points) =
      if d.le u hi_p
      then (let bracket_width = d.sub hi_p lo_p in
          let t =
            if d.lt (d.of_int (pos 0)) bracket_width
            then d.div (d.sub u lo_p) bracket_width
            else d.of_int (pos 0) in
          q.llround (d.add (d.of_int lo_v) (d.mul t (d.of_int (hi_v -ℤ lo_v)))))
      else interpolate u (hi_p, hi_v) points

  -- The table is a first point and the others.
  unfoldable pub sample_from_percentiles : F × ℤ → List (F × ℤ) → M q.Rng ℤ
  unfolding interpolate uniform_double
  sample_from_percentiles first points = do
    u ← uniform_double (d.of_int (pos 0)) (d.of_int (pos 1))
    returning (interpolate u first points)

  abbrev pub lerp : F → F → F → F
  lerp lo hi t = d.add lo (d.mul (d.sub hi lo) t)

  unfoldable pub pick_random : {A : Type 0} → List A → M q.Rng A
  unfolding element
  pick_random values = do i ← drawing (q.index_below (length values)); element (get_elem? values i)
