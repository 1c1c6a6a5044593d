-- ===== src/Harness/Partition.antt =====
-- The four counts of a confusion matrix against the sets that they count.
use trade_surveillance_engin.Prelude.{
  ◌+◌, ◌%◌, ◌^◌, ◌≤◌, ◌<◌, ◌≡◌, refl, inl, inr, Text, Bool, true, false, not, ◌&&◌, List, [], ◌∷◌,
  length, Bool-cases, arith, Double,
}
use trade_surveillance_engin.Detectors.{Alert}
use trade_surveillance_engin.Harness.{
  ConfusionMatrix, predict, count_predicted, count_missed, count_rest, compute_confusion_matrix,
}
use trade_surveillance_engin.Harness.Predicted.{
  predict-IsSetOf, predict-IsWithin, contains-predict, names_at_lower,
}
use trade_surveillance_engin.Harness.Sets.{
  contains, IsSetOf, IsWithin, tally, tally_le, tally_split, tally_within,
}

count_predicted_lem :
    (p ids : List Text) (m : ConfusionMatrix)
    → m.tp + length ids < 2 ^ 64
    → m.fp + length ids < 2 ^ 64
    → let c = count_predicted p ids m in
      (c.tp ≡ m.tp + tally (λ x. contains x p) ids)
      × (c.fp ≡ m.fp + tally (λ x. not (contains x p)) ids)
      × (c.fn ≡ m.fn)
      × (c.tn ≡ m.tn)
unfolding count_predicted
count_predicted_lem p [] m h k = (omega arith, omega arith, refl, refl)
count_predicted_lem p (id ∷ ids) m h k = elim (Bool-cases (contains id p)) [
  | inl there ↦
      let (tp, fp, fn, tn) =
        count_predicted_lem p ids (record m { tp = (m.tp + 1) % 2 ^ 64 }) (omega arith)
          (omega arith) in
      rw (there, count_predicted) (omega (arith, tp), omega (arith, fp), fn, tn)
  | inr absent ↦
      let (tp, fp, fn, tn) =
        count_predicted_lem p ids (record m { fp = (m.fp + 1) % 2 ^ 64 }) (omega arith)
          (omega arith) in
      rw (absent, count_predicted) (omega (arith, tp), omega (arith, fp), fn, tn)
]

count_missed_lem :
    (predicted ids : List Text) (m : ConfusionMatrix)
    → m.fn + length ids < 2 ^ 64
    → let c = count_missed predicted ids m in
      (c.tp ≡ m.tp)
      × (c.fp ≡ m.fp)
      × (c.fn ≡ m.fn + tally (λ x. not (contains x predicted)) ids)
      × (c.tn ≡ m.tn)
unfolding count_missed
count_missed_lem q [] m h = (refl, refl, omega arith, refl)
count_missed_lem q (id ∷ ids) m h = elim (Bool-cases (contains id q)) [
  | inl there ↦
      let (tp, fp, fn, tn) = count_missed_lem q ids m (omega arith) in
      rw (there, count_missed) (tp, fp, omega (arith, fn), tn)
  | inr absent ↦
      let (tp, fp, fn, tn) =
        count_missed_lem q ids (record m { fn = (m.fn + 1) % 2 ^ 64 }) (omega arith) in
      rw (absent, count_missed) (tp, fp, omega (arith, fn), tn)
]

abbrev neither : List Text → List Text → Text → Bool
neither p q x = not (contains x p) && not (contains x q)

count_rest_lem :
    (p q ids : List Text) (m : ConfusionMatrix)
    → m.tn + length ids < 2 ^ 64
    → let c = count_rest p q ids m in
      (c.tp ≡ m.tp) × (c.fp ≡ m.fp) × (c.fn ≡ m.fn) × (c.tn ≡ m.tn + tally (neither p q) ids)
unfolding count_rest
count_rest_lem p q [] m h = (refl, refl, refl, omega arith)
count_rest_lem p q (id ∷ ids) m h = elim (Bool-cases (neither p q id)) [
  | inl free ↦
      let (tp, fp, fn, tn) =
        count_rest_lem p q ids (record m { tn = (m.tn + 1) % 2 ^ 64 }) (omega arith) in
      rw (free, count_rest) (tp, fp, fn, omega (arith, tn))
  | inr taken ↦
      let (tp, fp, fn, tn) = count_rest_lem p q ids m (omega arith) in
      rw (taken, count_rest) (tp, fp, fn, omega (arith, tn))
]

-- The four kinds of an id of the universe.
four_kinds :
    (p q us : List Text)
    → tally (λ x. contains x q && contains x p) us
        + tally (λ x. contains x q && not (contains x p)) us
        + tally (λ x. contains x p && not (contains x q)) us
        + tally (neither p q) us
      ≡ length us
four_kinds p q [] = omega arith
four_kinds p q (u ∷ us) = ground (arith, four_kinds p q us)

tally_swap :
    (p q us : List Text)
    → tally (λ x. contains x q && contains x p) us ≡ tally (λ x. contains x p && contains x q) us
tally_swap p q [] = refl
tally_swap p q (u ∷ us) = ground (arith, tally_swap p q us)

tally_bound : (t : Text → Bool) (us : List Text) → tally t us ≤ length us
tally_bound t us = omega (arith, tally_split t us)

-- Of a subset, no more members than of the whole.
length_within : (s u : List Text) → IsSetOf s → IsSetOf u → IsWithin s u → length s ≤ length u
length_within s u v w h = omega (
  arith,
  tally_split (λ x. true) s,
  tally_within (λ x. true) s u v w h,
  tally_bound (λ x. contains x s && true) u,
  tally_within (λ x. false) s u v w h,
  tally_none s,
)
  where
    tally_none : (xs : List Text) → tally (λ x. false) xs ≡ 0
    tally_none [] = refl
    tally_none (x ∷ xs) = omega (arith, tally_none xs)

-- What the counts of a matrix must add up to, for a set of predicted ids.
pub record IsPartition (matrix : ConfusionMatrix) (universe_ids positive_ids predicted : List Text)
    : Type 0 where
  pub predicted_total : matrix.tp + matrix.fp ≡ length predicted
  pub positive_total : matrix.tp + matrix.fn ≡ length positive_ids
  pub universe_total : matrix.tp + matrix.fp + matrix.fn + matrix.tn ≡ length universe_ids
  pub hits : matrix.tp ≡ tally (λ x. contains x positive_ids && contains x predicted) universe_ids

counts-IsPartition :
    (u p q : List Text)
    → IsSetOf u
    → IsSetOf p
    → IsSetOf q
    → IsWithin p u
    → IsWithin q u
    → length u < 2 ^ 64
    → IsPartition
        (count_rest p q u
          (count_missed q p (count_predicted p q (record { tp = 0; fp = 0; fn = 0; tn = 0 }))))
        u
        p
        q
counts-IsPartition u p q su sp sq pu qu small =
    let zero_matrix : ConfusionMatrix = record { tp = 0; fp = 0; fn = 0; tn = 0 } in
    let bound_p = length_within p u sp su pu in
    let bound_q = length_within q u sq su qu in
    let m1 = count_predicted p q zero_matrix in
    let (tp1, fp1, fn1, tn1) =
      count_predicted_lem p q zero_matrix (omega (arith, bound_q)) (omega (arith, bound_q)) in
    let m2 = count_missed q p m1 in
    let (tp2, fp2, fn2, tn2) = count_missed_lem q p m1 (omega (arith, fn1, bound_p)) in
    let (tp3, fp3, fn3, tn3) = count_rest_lem p q u m2 (omega (arith, tn1, tn2)) in
    let in_tp = tally_within (λ x. contains x p) q u sq su qu in
    let in_fp = tally_within (λ x. not (contains x p)) q u sq su qu in
    let in_fn = tally_within (λ x. not (contains x q)) p u sp su pu in
    let in_hit = tally_within (λ x. contains x q) p u sp su pu in
    record {
      predicted_total =
          omega (arith, tp1, tp2, tp3, fp1, fp2, fp3, tally_split (λ x. contains x p) q);
      positive_total = omega (
        arith,
        tp1,
        tp2,
        tp3,
        fn1,
        fn2,
        fn3,
        in_tp,
        in_hit,
        tally_swap p q u,
        tally_split (λ x. contains x q) p,
      );
      universe_total = omega (
        arith,
        tp1,
        tp2,
        tp3,
        fp1,
        fp2,
        fp3,
        fn1,
        fn2,
        fn3,
        tn1,
        tn2,
        tn3,
        in_tp,
        in_fp,
        in_fn,
        four_kinds p q u,
      );
      hits = omega (arith, tp1, tp2, tp3, in_tp, tally_swap p q u);
    }

module _ {F : Type 0} ⦃d : Double F⦄ where
  pub compute_confusion_matrix-IsPartition :
      (alerts : List (Alert F)) (detector_name : Text) (score_threshold : F) (u p : List Text)
      → IsSetOf u
      → IsSetOf p
      → IsWithin p u
      → length u < 2 ^ 64
      → IsPartition
          (compute_confusion_matrix alerts detector_name score_threshold u p)
          u
          p
          (predict detector_name score_threshold u alerts [])
  unfolding compute_confusion_matrix
  compute_confusion_matrix-IsPartition alerts name thr u p su sp pu small =
      counts-IsPartition u p (predict name thr u alerts []) su sp
        (predict-IsSetOf name thr u alerts) pu (predict-IsWithin name thr u alerts) small

  -- A higher threshold: for any universe and any positives in it, without repetition, no more true positives
  -- and no fewer missed ones.
  pub recall_antitone :
      (alerts : List (Alert F)) (detector_name : Text) (low high : F) (u p : List Text)
      → IsSetOf u
      → IsSetOf p
      → IsWithin p u
      → length u < 2 ^ 64
      → d.lt low high ≡ true
      → ((compute_confusion_matrix alerts detector_name high u p).tp
          ≤ (compute_confusion_matrix alerts detector_name low u p).tp)
        × ((compute_confusion_matrix alerts detector_name low u p).fn
            ≤ (compute_confusion_matrix alerts detector_name high u p).fn)
  recall_antitone alerts name low high u p su sp pu small below =
      let at_low = compute_confusion_matrix-IsPartition alerts name low u p su sp pu small in
      let at_high = compute_confusion_matrix-IsPartition alerts name high u p su sp pu small in
      let fewer =
        tally_le (λ x. contains x p && contains x (predict name high u alerts []))
          (λ x. contains x p && contains x (predict name low u alerts [])) u
          (λ x h. ground (
            arith,
            h,
            contains-predict name low x u alerts,
            contains-predict name high x u alerts,
            names_at_lower name low high x alerts below,
          )) in
      let hit : (compute_confusion_matrix alerts name high u p).tp
          ≤ (compute_confusion_matrix alerts name low u p).tp =
        omega (arith, at_low.hits, at_high.hits, fewer) in
      (hit, omega (arith, at_low.positive_total, at_high.positive_total, hit))
