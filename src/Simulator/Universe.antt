-- ===== src/Simulator/Universe.antt =====
-- cpp/simulator/instrument_universe.{hpp,cpp}: the instruments of a session and their reference prices.
use trade_surveillance_engin.Prelude.{
  ℕ, zero, suc, ◌%◌, ℤ, pos, pos_part, Text, codes, List, [], ◌∷◌, ◌++◌, map, Double,
}
use trade_surveillance_engin.Simulator.{AssetClass, equity, fx, fixed_income, Instrument}
use trade_surveillance_engin.Simulator.Draws.{Draws}

pub record InstrumentUniverseConfig : Type 0 where
  pub num_equity : ℤ
  pub num_fx : ℤ
  pub num_fixed_income : ℤ
  pub session_close_ns : ℤ

abbrev pub equity_symbols : List Text
equity_symbols =
    codes "ACME"
    ∷ codes "GLBX"
    ∷ codes "NDEX"
    ∷ codes "ORCA"
    ∷ codes "PLTX"
    ∷ codes "QTRX"
    ∷ codes "RHNO"
    ∷ codes "STLR"
    ∷ []

abbrev pub fx_symbols : List Text
fx_symbols = codes "EURUSD" ∷ codes "USDJPY" ∷ codes "GBPUSD" ∷ codes "AUDUSD" ∷ codes "USDCHF" ∷ []

abbrev pub fixed_income_symbols : List Text
fixed_income_symbols =
    codes "UST2Y" ∷ codes "UST5Y" ∷ codes "UST10Y" ∷ codes "UST30Y" ∷ codes "BUND10Y" ∷ []

-- The first symbols, as many as the count says and as there are.
unfoldable pub first_of {ℓ} : {A : Type ℓ} → ℕ → List A → List A
first_of zero xs = []
first_of (suc n) [] = []
first_of (suc n) (x ∷ xs) = x ∷ first_of n xs

module _ {F : Type 0} ⦃d : Double F⦄ (q : Draws F) where
  abbrev pub make_instrument : AssetClass → F → ℤ → ℤ → Text → Instrument F
  make_instrument asset_class tick_size avg_daily_volume session_close_ns symbol = record {
    instrument_id = symbol;
    symbol = symbol;
    asset_class = asset_class;
    tick_size = tick_size;
    avg_daily_volume = avg_daily_volume;
    session_close_ns = session_close_ns;
  }

  unfoldable pub build_instrument_universe : InstrumentUniverseConfig → List (Instrument F)
  unfolding first_of
  build_instrument_universe config =
      map (make_instrument equity (q.decimal 1 2) (pos 1_000_000) config.session_close_ns)
        (first_of (pos_part config.num_equity) equity_symbols)
      ++ map (make_instrument fx (q.decimal 1 4) (pos 100_000_000) config.session_close_ns)
          (first_of (pos_part config.num_fx) fx_symbols)
      ++ map (make_instrument fixed_income (q.decimal 1 2) (pos 200_000) config.session_close_ns)
          (first_of (pos_part config.num_fixed_income) fixed_income_symbols)

  unfoldable pub reference_price : Instrument F → F
  reference_price instrument =
      let jitter =
        d.div (d.of_int (pos (q.hash instrument.instrument_id % 1000))) (d.of_int (pos 1000)) in
      elim instrument.asset_class [
        | equity ↦ d.add (d.of_int (pos 50)) (d.mul jitter (d.of_int (pos 150)))
        | fx ↦ d.add (q.decimal 8 1) (d.mul jitter (q.decimal 8 1))
        | fixed_income ↦ d.add (d.of_int (pos 95)) (d.mul jitter (d.of_int (pos 10)))
      ]
