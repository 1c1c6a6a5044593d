-- ===== src/Fix/Translator/Time.antt =====
-- Times to seconds and nanoseconds, and back.
use trade_surveillance_engin.Prelude.{
  times, ℕ, ◌+◌, ◌-◌, ◌*◌, ◌/◌, ◌%◌, ◌≡◌, ◌<◌, ap, ◌∙◌, ℤ, pos, negsuc, ◌+ℤ◌, ◌-ℤ◌, arith,
}
use trade_surveillance_engin.Fix.Translator.{split_time}

abbrev second : ℕ
second = 1_000_000_000

split_nat : (t : ℕ) → split_time (pos t) ≡ (pos (t / second), pos (t % second))
unfolding split_time ◌+ℤ◌ ◌-ℤ◌
split_nat t = ground arith

split_neg_seconds : (t : ℕ) → (split_time (negsuc t)).0 ≡ negsuc (t / second)
unfolding split_time ◌+ℤ◌ ◌-ℤ◌
split_neg_seconds t = ground arith

split_neg_nanos : (t : ℕ) → (split_time (negsuc t)).1 ≡ pos (second - 1 - t % second)
unfolding split_time ◌+ℤ◌ ◌-ℤ◌
split_neg_nanos t = ground arith

times_nat : (s n : ℕ) → times (pos s) second +ℤ pos n ≡ pos (s * second + n)
unfolding ◌+ℤ◌
times_nat s n = ground arith

times_neg : (t : ℕ) → times (negsuc (t / second)) second +ℤ pos (second - 1 - t % second) ≡ negsuc t
unfolding ◌+ℤ◌
times_neg t = ground arith

-- The nanoseconds lie within a second, also before the epoch, and the two make the time again.
pub split_time_lem :
    (t : ℤ)
    → (n : ℕ) × ((split_time t).1 ≡ pos n)
      × (n < 1_000_000_000)
      × (times (split_time t).0 1_000_000_000 +ℤ pos n ≡ t)
split_time_lem (pos t) =
    let e = split_nat t in
    (
      t % second,
      ap (λ (p : ℤ × ℤ). p.1) e,
      omega arith,
      ap (λ (p : ℤ × ℤ). times p.0 second +ℤ pos (t % second)) e
          ∙ times_nat (t / second) (t % second)
          ∙ ap pos (omega arith),
    )
split_time_lem (negsuc t) = (
  second - 1 - t % second,
  split_neg_nanos t,
  omega arith,
  ap (λ s. times s second +ℤ pos (second - 1 - t % second)) (split_neg_seconds t) ∙ times_neg t,
)
