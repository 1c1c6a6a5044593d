-- ===== src/Registry/Window.antt =====
-- The most recent entries of a list, and the window that keeps them.
use trade_surveillance_engin.Prelude.{
  ℕ, zero, suc, ◌+◌, ◌-◌, ◌≤◌, ◌≡◌, refl, sym, ◌∙◌, ap, min, ltb, Bool, true, false, List, [], ◌∷◌,
  ◌++◌, length, drop, length-append, length-drop, arith, ltb→lt,
}
use trade_surveillance_engin.Registry.{trim}

module _ {ℓ} {A : Type ℓ} where
  -- The last `n` entries, or all.
  abbrev pub most_recent : ℕ → List A → List A
  most_recent n xs = drop (length xs - n) xs

  pub drop-nil : (i : ℕ) → drop {A = A} i [] ≡ []
  drop-nil zero = refl
  drop-nil (suc i) = refl

  drop-drop : (i j : ℕ) (xs : List A) → drop i (drop j xs) ≡ drop (j + i) xs
  drop-drop i zero xs = ap (λ k. drop k xs) (omega arith)
  drop-drop i (suc j) [] = drop-nil i ∙ sym (drop-nil (suc j + i))
  drop-drop i (suc j) (x ∷ xs) = drop-drop i j xs ∙ ap (λ k. drop k (x ∷ xs)) at
    where
      at : suc (j + i) ≡ suc j + i
      at = omega arith

  drop-append_left : (i : ℕ) (xs ys : List A) → i ≤ length xs → drop i (xs ++ ys) ≡ drop i xs ++ ys
  drop-append_left zero xs ys h = refl
  drop-append_left (suc i) [] ys h = absurd (omega arith)
  drop-append_left (suc i) (x ∷ xs) ys h = drop-append_left i xs ys (omega arith)

  most_recent-drop :
      (n k : ℕ) (xs : List A) → k ≤ length xs - n → most_recent n (drop k xs) ≡ most_recent n xs
  most_recent-drop n k xs h =
      drop-drop (length (drop k xs) - n) k xs
      ∙ ap (λ i. drop i xs) (omega (arith, length-drop k xs))

  pub most_recent-append :
      (n : ℕ) (xs ys : List A) → most_recent n (most_recent n xs ++ ys) ≡ most_recent n (xs ++ ys)
  most_recent-append n xs ys =
      ap (most_recent n) (sym (drop-append_left (length xs - n) xs ys (omega arith)))
      ∙ most_recent-drop n (length xs - n) (xs ++ ys) (omega (arith, length-append xs ys))

  pub length-most_recent : (n : ℕ) (xs : List A) → length (most_recent n xs) ≡ min n (length xs)
  length-most_recent n xs = omega (arith, length-drop (length xs - n) xs)

  pub most_recent-most_recent :
      (n m : ℕ) (xs : List A) → most_recent n (most_recent m xs) ≡ most_recent (min n m) xs
  most_recent-most_recent n m xs =
      drop-drop (length (most_recent m xs) - n) (length xs - m) xs
      ∙ ap (λ i. drop i xs) (omega (arith, length-drop (length xs - m) xs))

  trimmed :
      (n : ℕ) (x : A) (xs rest : List A) (long : Bool)
      → ltb n (length (x ∷ xs)) ≡ long
      → rest ≡ most_recent n xs
      → elim long [ true ↦ rest | false ↦ x ∷ xs ] ≡ most_recent n (x ∷ xs)
  trimmed n x xs rest true h e =
      let at : suc (length xs - n) ≡ suc (length xs) - n =
        omega (arith, ltb→lt n (suc (length xs)) h) in
      e ∙ ap (λ i. drop i (x ∷ xs)) at
  trimmed n x xs rest false h e =
      let at : 0 ≡ suc (length xs) - n = ground (arith, h) in ap (λ i. drop i (x ∷ xs)) at

  pub trim_lem : (n : ℕ) (xs : List A) → trim n xs ≡ most_recent n xs
  unfolding trim
  trim_lem n [] = sym (drop-nil (0 - n))
  trim_lem n (x ∷ xs) = trimmed n x xs (trim n xs) _ refl (trim_lem n xs)
