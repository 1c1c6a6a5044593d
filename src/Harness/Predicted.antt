-- ===== src/Harness/Predicted.antt =====
-- What the alerts of a detector predict at a threshold.
use trade_surveillance_engin.Prelude.{
  ◌≡◌, refl, inl, inr, Text, text_eq, text_eq_iff, Bool, true, false, not, ◌&&◌, ◌||◌, List, [],
  ◌∷◌, Bool-cases, arith, Double,
}
use trade_surveillance_engin.Detectors.{Alert}
use trade_surveillance_engin.Harness.{add_known, predict}
use trade_surveillance_engin.Harness.Sets.{
  contains, insert, IsSetOf, IsWithin, contains-insert, insert-IsSetOf,
}

contains-add_known :
    (x : Text) (universe_ids ids predicted : List Text)
    → contains x (add_known universe_ids ids predicted)
      ≡ ((contains x ids && contains x universe_ids) || contains x predicted)
unfolding add_known
contains-add_known x u [] predicted = refl
contains-add_known x u (id ∷ ids) predicted = elim (Bool-cases (contains id u)) [
  | inl known ↦ rw known (
      ground (
        arith,
        contains-add_known x u ids (insert id predicted),
        contains-insert x id predicted,
        text_eq_iff id x,
      ))
  | inr foreign ↦
      rw foreign (ground (arith, contains-add_known x u ids predicted, text_eq_iff id x))
]

add_known-IsSetOf :
    (universe_ids ids predicted : List Text)
    → IsSetOf predicted
    → IsSetOf (add_known universe_ids ids predicted)
unfolding add_known
add_known-IsSetOf u [] predicted v = v
add_known-IsSetOf u (id ∷ ids) predicted v = elim (Bool-cases (contains id u)) [
  | inl known ↦
      rw known (add_known-IsSetOf u ids (insert id predicted) (insert-IsSetOf id predicted v))
  | inr foreign ↦ rw foreign (add_known-IsSetOf u ids predicted v)
]

module _ {F : Type 0} ⦃d : Double F⦄ where
  -- An alert of this detector, with a score that is not below the threshold, that names the id.
  abbrev pub names_id : Text → F → Text → Alert F → Bool
  names_id detector_name score_threshold x a =
      text_eq a.detector_name detector_name
      && not (d.lt a.score score_threshold)
      && contains x a.order_ids

  abbrev pub any_names : Text → F → Text → List (Alert F) → Bool
  any_names detector_name score_threshold x [] = false
  any_names detector_name score_threshold x (a ∷ alerts) =
      names_id detector_name score_threshold x a || any_names detector_name score_threshold x alerts

  contains-predict_from :
      (detector_name : Text) (score_threshold : F) (x : Text) (u : List Text)
      (alerts : List (Alert F)) (predicted : List Text)
      → contains x (predict detector_name score_threshold u alerts predicted) ≡ (
          (any_names detector_name score_threshold x alerts && contains x u)
          || contains x predicted)
  unfolding predict
  contains-predict_from name thr x u [] predicted = refl
  contains-predict_from name thr x u (a ∷ alerts) predicted = ground (
    arith,
    contains-predict_from name thr x u alerts predicted,
    contains-predict_from name thr x u alerts (add_known u a.order_ids predicted),
    contains-add_known x u a.order_ids predicted,
  )

  predict_from-IsSetOf :
      (detector_name : Text) (score_threshold : F) (u : List Text) (alerts : List (Alert F))
      (predicted : List Text)
      → IsSetOf predicted
      → IsSetOf (predict detector_name score_threshold u alerts predicted)
  unfolding predict
  predict_from-IsSetOf name thr u [] predicted v = v
  predict_from-IsSetOf name thr u (a ∷ alerts) predicted v =
      elim (Bool-cases (text_eq a.detector_name name)) [
        | inr other ↦ rw other (predict_from-IsSetOf name thr u alerts predicted v)
        | inl ours ↦ rw ours (elim (Bool-cases (d.lt a.score thr)) [
          | inl below ↦ rw below (predict_from-IsSetOf name thr u alerts predicted v)
          | inr above ↦ rw above (
              predict_from-IsSetOf name thr u alerts (add_known u a.order_ids predicted)
                (add_known-IsSetOf u a.order_ids predicted v))
        ])
      ]

  pub contains-predict :
      (detector_name : Text) (score_threshold : F) (x : Text) (u : List Text)
      (alerts : List (Alert F))
      → contains x (predict detector_name score_threshold u alerts [])
        ≡ (any_names detector_name score_threshold x alerts && contains x u)
  contains-predict name thr x u alerts =
      ground (arith, contains-predict_from name thr x u alerts [])

  pub predict-IsSetOf :
      (detector_name : Text) (score_threshold : F) (u : List Text) (alerts : List (Alert F))
      → IsSetOf (predict detector_name score_threshold u alerts [])
  predict-IsSetOf name thr u alerts = predict_from-IsSetOf name thr u alerts [] tt

  pub predict-IsWithin :
      (detector_name : Text) (score_threshold : F) (u : List Text) (alerts : List (Alert F))
      → IsWithin (predict detector_name score_threshold u alerts []) u
  predict-IsWithin name thr u alerts x h = ground (arith, h, contains-predict name thr x u alerts)

  -- A lower threshold gives every id that is named at the higher one.
  pub names_at_lower :
      (detector_name : Text) (low high : F) (x : Text) (alerts : List (Alert F))
      → d.lt low high ≡ true
      → any_names detector_name high x alerts ≡ true
      → any_names detector_name low x alerts ≡ true
  names_at_lower name low high x [] h k = k
  names_at_lower name low high x (a ∷ alerts) h k =
      ground (arith, names_at_lower name low high x alerts h, d.lt_trans a.score low high)
