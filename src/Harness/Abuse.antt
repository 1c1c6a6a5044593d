-- ===== src/Harness/Abuse.antt =====
-- The ids with any label of abuse, as the events have them.
use trade_surveillance_engin.Prelude.{
  ◌≡◌, refl, ◌∙◌, ap, sym, inl, inr, Text, text_eq, find, put, or_else, Bool, false, not, ◌&&◌,
  ◌||◌, List, [], ◌∷◌, Bool-cases, arith,
}
use trade_surveillance_engin.Fix.{OrderStatus}
use trade_surveillance_engin.Simulator.{
  AbusePattern, baseline, pattern_eq, pattern_eq_iff, SimulatedOrder, SimulatedExecution,
}
use trade_surveillance_engin.Harness.{
  DetectorUniverse, Universes, positive_ids_for, add_id, add_orders, add_executions, union_abuse,
  any_abuse_ids,
}
use trade_surveillance_engin.Harness.Sets.{
  contains, insert, insert_all, contains-insert, contains-insert_all,
}
use trade_surveillance_engin.Harness.Labels.{is_new, is_cancelled, status_cases}

-- What was in the set at the start of the loop stays in it.
union_abuse_from :
    (x : Text) (m : List (AbusePattern × List Text)) (r : List Text)
    → contains x (union_abuse m r) ≡ (contains x (union_abuse m []) || contains x r)
unfolding union_abuse
union_abuse_from x [] r = refl
union_abuse_from x ((q, ids) ∷ m) r = elim (Bool-cases (pattern_eq q baseline)) [
  | inl plain ↦ rw plain (union_abuse_from x m r)
  | inr abuse ↦ rw abuse (
      ground (
        arith,
        union_abuse_from x m (insert_all ids r),
        union_abuse_from x m (insert_all ids []),
        contains-insert_all x ids r,
        contains-insert_all x ids [],
      ))
]

union_abuse-head :
    (x : Text) (q : AbusePattern) (ids : List Text) (m : List (AbusePattern × List Text))
    → contains x (union_abuse ((q, ids) ∷ m) [])
      ≡ (not (pattern_eq q baseline) && contains x ids || contains x (union_abuse m []))
unfolding union_abuse
union_abuse-head x q ids m = elim (Bool-cases (pattern_eq q baseline)) [
  | inl plain ↦ rw plain refl
  | inr abuse ↦
      rw abuse
        (ground (arith, union_abuse_from x m (insert_all ids []), contains-insert_all x ids []))
]

-- One more id for the first pattern.
union_abuse-insert :
    (x id : Text) (q : AbusePattern) (ids : List Text) (m : List (AbusePattern × List Text))
    → contains x (union_abuse ((q, insert id ids) ∷ m) [])
      ≡ (not (pattern_eq q baseline) && text_eq id x || contains x (union_abuse ((q, ids) ∷ m) []))
union_abuse-insert x id q ids m = ground (
  arith,
  union_abuse-head x q (insert id ids) m,
  union_abuse-head x q ids m,
  contains-insert x id ids,
)

put_miss :
    (p q : AbusePattern) (v ids : List Text) (m : List (AbusePattern × List Text))
    → pattern_eq q p ≡ false
    → put pattern_eq p v ((q, ids) ∷ m) ≡ (q, ids) ∷ put pattern_eq p v m
unfolding put
put_miss p q v ids m other = rw other refl

union_abuse-put :
    (x id : Text) (p : AbusePattern) (old : List Text) (m : List (AbusePattern × List Text))
    → or_else (find pattern_eq p m) [] ≡ old
    → contains x (union_abuse (put pattern_eq p (insert id old) m) [])
      ≡ (not (pattern_eq p baseline) && text_eq id x || contains x (union_abuse m []))
unfolding put find
union_abuse-put x id p old [] e =
    rw (sym e) (union_abuse-insert x id p [] [] ∙ ground (arith, union_abuse-head x p [] []))
union_abuse-put x id p old ((q, ids) ∷ m) e = elim (Bool-cases (pattern_eq q p)) [
  | inl same ↦
      let at : ids ≡ old = rw same at e in
      rw (same, sym at)
        (union_abuse-insert x id q ids m
          ∙ ap
              (λ r.
                not (pattern_eq r baseline) && text_eq id x
                || contains x (union_abuse ((q, ids) ∷ m) []))
              ((pattern_eq_iff q p).0 same))
  | inr other ↦
      let at : or_else (find pattern_eq p m) [] ≡ old = rw other at e in
      ap (λ t. contains x (union_abuse t [])) (put_miss p q (insert id old) ids m other)
      ∙ ground (
        arith,
        union_abuse-put x id p old m at,
        union_abuse-head x q ids (put pattern_eq p (insert id old) m),
        union_abuse-head x q ids m,
      )
]

any_abuse_ids-add_id :
    (u : DetectorUniverse) (p : AbusePattern) (id x : Text)
    → contains x (any_abuse_ids (add_id u p id))
      ≡ (not (pattern_eq p baseline) && text_eq id x || contains x (any_abuse_ids u))
unfolding any_abuse_ids add_id positive_ids_for
any_abuse_ids-add_id u p id x = union_abuse-put x id p _ u.ids_by_pattern refl

module _ {F : Type 0} where
  -- An order in such a state has a label of abuse and the id.
  abbrev pub any_abusive_order : (OrderStatus → Bool) → Text → List (SimulatedOrder F) → Bool
  any_abusive_order state x [] = false
  any_abusive_order state x (o ∷ orders) =
      (state o.status
        && not (pattern_eq o.ground_truth_label.pattern baseline)
        && text_eq o.order_id x)
      || any_abusive_order state x orders

  abbrev pub any_abusive_execution : Text → List (SimulatedExecution F) → Bool
  any_abusive_execution x [] = false
  any_abusive_execution x (e ∷ executions) =
      (not (pattern_eq e.ground_truth_label.pattern baseline) && text_eq e.trade_id x)
      || any_abusive_execution x executions

  pub any_abuse_ids-add_orders :
      (orders : List (SimulatedOrder F)) (u : Universes) (x : Text)
      → (contains x (any_abuse_ids (add_orders orders u).new_orders)
          ≡ (any_abusive_order is_new x orders || contains x (any_abuse_ids u.new_orders)))
        × (contains x (any_abuse_ids (add_orders orders u).cancel_orders) ≡ (
            any_abusive_order is_cancelled x orders || contains x (any_abuse_ids u.cancel_orders)))
  unfolding add_orders
  any_abuse_ids-add_orders [] u x = (refl, refl)
  any_abuse_ids-add_orders (o ∷ orders) u x =
      let p = o.ground_truth_label.pattern in
      let u_new = record u { new_orders = add_id u.new_orders p o.order_id } in
      let u_cancel = record u { cancel_orders = add_id u.cancel_orders p o.order_id } in
      elim (status_cases o.status) [
        | inl is ↦
            let (a, b) = any_abuse_ids-add_orders orders u_new x in
            let one = any_abuse_ids-add_id u.new_orders p o.order_id x in
            rw (is, add_orders) (ground (arith, a, one), b)
        | inr (inl is) ↦
            let (a, b) = any_abuse_ids-add_orders orders u_cancel x in
            let one = any_abuse_ids-add_id u.cancel_orders p o.order_id x in
            rw (is, add_orders) (a, ground (arith, b, one))
        | inr (inr is) ↦ rw (is, add_orders) (any_abuse_ids-add_orders orders u x)
      ]

  pub any_abuse_ids-add_executions :
      (executions : List (SimulatedExecution F)) (u : Universes) (x : Text)
      → contains x (any_abuse_ids (add_executions executions u).executions)
        ≡ (any_abusive_execution x executions || contains x (any_abuse_ids u.executions))
  unfolding add_executions
  any_abuse_ids-add_executions [] u x = refl
  any_abuse_ids-add_executions (e ∷ executions) u x =
      let p = e.ground_truth_label.pattern in
      let rest =
        any_abuse_ids-add_executions executions
          (record u { executions = add_id u.executions p e.trade_id }) x in
      ground (arith, rest, any_abuse_ids-add_id u.executions p e.trade_id x)
