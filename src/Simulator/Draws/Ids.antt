-- ===== src/Simulator/Draws/Ids.antt =====
-- The texts of the ids of cpp/simulator/id_generator.cpp.
use trade_surveillance_engin.Prelude.{
  ℕ, zero, suc, ◌-◌, ◌≤◌, ◌≡◌, refl, sym, ◌∙◌, ap, Text, [], ◌∷◌, ◌++◌, length, replicate, arith,
}
use trade_surveillance_engin.Codec.Decimal.{digits, read_digits, read_digits-digits}
use trade_surveillance_engin.Simulator.Draws.{padded, id_text}

cons_injective : (c : ℕ) (s t : Text) → c ∷ s ≡ c ∷ t → s ≡ t
cons_injective c s t e = cc

append_cancel : (p s t : Text) → p ++ s ≡ p ++ t → s ≡ t
append_cancel [] s t e = e
append_cancel (c ∷ p) s t e = append_cancel p s t (cons_injective c (p ++ s) (p ++ t) e)

read_digits-zeros :
    (k : ℕ) (text : Text) → read_digits 0 (replicate k 48 ++ text) ≡ read_digits 0 text
unfolding read_digits
read_digits-zeros zero text = refl
read_digits-zeros (suc k) text = read_digits-zeros k text

-- Padding with zeros hides no number of 64 bits.
read_digits-padded : (n : ℕ) → n ≤ 9_223_372_036_854_775_807 → read_digits 0 (padded n) ≡ n
unfolding read_digits
read_digits-padded n h =
    read_digits-zeros (6 - length (digits 20 n [])) (digits 20 n [])
    ∙ read_digits-digits 19 n [] (omega arith)

-- Two ids of one prefix whose numbers differ are different.
pub id_text_injective :
    (prefix : Text) (n m : ℕ)
    → n ≤ 9_223_372_036_854_775_807
    → m ≤ 9_223_372_036_854_775_807
    → id_text prefix n ≡ id_text prefix m
    → n ≡ m
unfolding id_text
id_text_injective prefix n m h h' e =
    let same : padded n ≡ padded m =
      cons_injective 45 (padded n) (padded m)
        (append_cancel prefix (45 ∷ padded n) (45 ∷ padded m) e) in
    sym (read_digits-padded n h) ∙ ap (read_digits 0) same ∙ read_digits-padded m h'
