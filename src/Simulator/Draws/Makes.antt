-- ===== src/Simulator/Draws/Makes.antt =====
-- What a generator makes, whatever the draws: rules for its steps.
use trade_surveillance_engin.Prelude.{
  ℕ, zero, suc, ◌<◌, ◌≡◌, refl, ap, inl, inr, ℤ, ◌≤ℤ◌, ◌<ℤ◌, leb_ℤ, Bool, true, false, Bool-cases,
  List, [], ◌∷◌, Option, none, some, length, get_elem?, if◌then◌else◌, Double, arith, In, here,
  there,
}
use trade_surveillance_engin.Simulator.Draws.{
  Draws, IsDraws, Gen, M, ◌>>=◌, returning, drawing, next_order_id, next_trade_id, uniform_double,
  uniform_int64, sample_from_percentiles, poisson_interarrival_ns, element, pick_random,
}

-- From every state `m` ends, with a result that `P` holds of.
pub record Makes {κ} {R A : Type 0} (P : A → Type κ) (m : M R A) : Type κ where
  pub made : (g : Gen R) → (a : A) × (g' : Gen R) × (m g ≡ some (a, g')) × P a

abbrev pub Any : {A : Type 0} → A → Type 0
Any a = Unit

pub Makes-bind {κ μ} :
    {R A B : Type 0} (P : A → Type κ) {Q : B → Type μ} (m : M R A) (f : A → M R B)
    → Makes P m
    → ((a : A) → P a → Makes Q (f a))
    → Makes Q (m >>= f)
unfolding ◌>>=◌
Makes-bind P m f hm hf = record {
  made = λ g.
      let (a, g', e, p) = hm.made g in
      let (b, g'', e', r) = (hf a p).made g' in (b, g'', rw (e, ◌>>=◌) e', r);
}

pub Makes-returning {κ} :
    {R A : Type 0} {P : A → Type κ} (a : A) → P a → Makes P (returning {R = R} a)
unfolding returning
Makes-returning a p = record { made = λ g. (a, g, refl, p) }

pub Makes-order_id : {R : Type 0} → Makes Any (next_order_id {R = R})
unfolding next_order_id
Makes-order_id = record { made = λ g. (_, _, refl, tt) }

pub Makes-trade_id : {R : Type 0} → Makes Any (next_trade_id {R = R})
unfolding next_trade_id
Makes-trade_id = record { made = λ g. (_, _, refl, tt) }

pub get_elem?-below :
    {A : Type 0} (xs : List A) (i : ℕ)
    → i < length xs
    → (a : A) × (get_elem? xs i ≡ some a) × In a xs
get_elem?-below [] i h = absurd (omega arith)
get_elem?-below (x ∷ xs) zero h = (x, refl, here)
get_elem?-below (x ∷ xs) (suc i) h =
    let (a, e, m) = get_elem?-below xs i (omega arith) in (a, e, there m)

pub Makes-index :
    {F : Type 0} (q : Draws F)
    → IsDraws q
    → (n : ℕ) → 0 < n
    → Makes (λ i. i < n) (drawing (q.index_below n))
Makes-index q lib n h = record { made = λ g. (_, _, refl, lib.index_low n g.rng h) }

module _ {F : Type 0} ⦃d : Double F⦄ (q : Draws F) where
  pub Makes-double : (lo hi : F) → Makes Any (uniform_double q lo hi)
  unfolding uniform_double
  Makes-double lo hi = record { made = λ g. (_, _, refl, tt) }

  pub Makes-percentiles :
      (first : F × ℤ) (points : List (F × ℤ)) → Makes Any (sample_from_percentiles q first points)
  unfolding sample_from_percentiles ◌>>=◌ returning uniform_double
  Makes-percentiles first points = record { made = λ g. (_, _, refl, tt) }

  pub Makes-poisson : (rate : F) → Makes Any (poisson_interarrival_ns q rate)
  unfolding poisson_interarrival_ns ◌>>=◌ returning
  Makes-poisson rate = record { made = λ g. (_, _, refl, tt) }

  -- whatever the bounds
  pub Makes-integer : (lo hi : ℤ) → Makes Any (uniform_int64 q lo hi)
  unfolding uniform_int64 returning
  Makes-integer lo hi = record {
    made = λ g. elim (Bool-cases (leb_ℤ hi lo)) [
      | inl point ↦ (lo, g, rw (point, uniform_int64) refl, tt)
      | inr wide ↦
          let (x, r) = q.int_between lo hi g.rng in
          (x, record g { rng = r }, rw (wide, uniform_int64) refl, tt)
    ];
  }

  module _ (lib : IsDraws q) where
    pub Makes-int64 :
        (lo hi : ℤ) → lo ≤ℤ hi → Makes (λ x. (lo ≤ℤ x) × (x ≤ℤ hi)) (uniform_int64 q lo hi)
    unfolding uniform_int64 returning
    Makes-int64 lo hi h = record {
      made = λ g. elim (Bool-cases (leb_ℤ hi lo)) [
        | inl point ↦ (lo, g, rw (point, uniform_int64) refl, (omega arith, h))
        | inr wide ↦
            let less : lo <ℤ hi = ground (arith, wide) in
            let (x, r) = q.int_between lo hi g.rng in
            (
              x,
              record g { rng = r },
              rw (wide, uniform_int64) refl,
              (lib.int_low lo hi g.rng less, lib.int_high lo hi g.rng less),
            )
      ];
    }

    pub Makes-pick :
        {A : Type 0} (values : List A)
        → 0 < length values
        → Makes (λ v. In v values) (pick_random q values)
    unfolding pick_random element ◌>>=◌ returning
    Makes-pick values h = record {
      made = λ g.
          let (i, r) = q.index_below (length values) g.rng in
          let (v, e, m) = get_elem?-below values i (lib.index_low (length values) g.rng h) in
          (v, record g { rng = r }, ap (λ t. element t (record g { rng = r })) e, m);
    }

pub Makes-element :
    {R A : Type 0} (o : Option A) (a : A) → o ≡ some a → Makes (λ b. a ≡ b) (element {R = R} o)
unfolding element returning
Makes-element none a e = cc
Makes-element (some b) a e = record { made = λ g. (b, g, refl, cc) }

pub Makes-imp {κ μ} :
    {R A : Type 0} (P : A → Type κ) {Q : A → Type μ} {m : M R A}
    → ((a : A) → P a → Q a)
    → Makes P m
    → Makes Q m
Makes-imp P f h = record { made = λ g. let (a, g', e, p) = h.made g in (a, g', e, f a p) }

pub Makes-if {κ} :
    {R A : Type 0} {P : A → Type κ} (b : Bool) {m n : M R A}
    → Makes P m
    → Makes P n
    → Makes P (if b then m else n)
Makes-if true hm hn = hm
Makes-if false hm hn = hn
