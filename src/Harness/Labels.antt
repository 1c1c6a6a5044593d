-- ===== src/Harness/Labels.antt =====
-- The universes that a simulation gives, and what the labels make positive.
use trade_surveillance_engin.Prelude.{
  ◌≡◌, ◌⊎◌, refl, ◌∙◌, ap, inl, inr, Text, text_eq, find, put, find-put, or_else, Bool, true, false,
  ◌&&◌, ◌||◌, List, [], ◌∷◌, Bool-cases, arith,
}
use trade_surveillance_engin.Fix.{OrderStatus, new, cancelled, replaced}
use trade_surveillance_engin.Simulator.{
  AbusePattern, baseline, pattern_eq, pattern_eq_iff, SimulatedOrder, SimulatedExecution,
}
use trade_surveillance_engin.Harness.{
  DetectorUniverse, Universes, positive_ids_for, add_id, add_orders, add_executions, union_abuse,
}
use trade_surveillance_engin.Harness.Sets.{
  contains, insert, insert_all, IsSetOf, IsWithin, contains-insert, contains-insert_all,
  insert-IsSetOf, insert_all-IsSetOf,
}

abbrev pub Entries : List Text → List (AbusePattern × List Text) → Type 0
Entries u [] = Unit {0}
Entries u ((pattern, ids) ∷ m) = IsSetOf ids × IsWithin ids u × Entries u m

pub Entries-find :
    (u : List Text) (pattern : AbusePattern) (m : List (AbusePattern × List Text))
    → Entries u m
    → let ids = or_else (find pattern_eq pattern m) [] in IsSetOf ids × IsWithin ids u
unfolding find
Entries-find u pattern [] v = (tt, λ x h. cc)
Entries-find u pattern ((q, ids) ∷ m) (set, within, rest) =
    elim (Bool-cases (pattern_eq q pattern)) [
      | inl same ↦ rw same (set, within)
      | inr other ↦ rw other (Entries-find u pattern m rest)
    ]

Entries-put :
    (u : List Text) (pattern : AbusePattern) (ids : List Text) (m : List (AbusePattern × List Text))
    → Entries u m
    → IsSetOf ids
    → IsWithin ids u
    → Entries u (put pattern_eq pattern ids m)
unfolding put
Entries-put u pattern ids [] v s w = (s, w, tt)
Entries-put u pattern ids ((q, old) ∷ m) (set, within, rest) s w =
    elim (Bool-cases (pattern_eq q pattern)) [
      | inl same ↦ rw same (s, w, rest)
      | inr other ↦ rw other (set, within, Entries-put u pattern ids m rest s w)
    ]

Entries-insert :
    (u : List Text) (id : Text) (m : List (AbusePattern × List Text))
    → Entries u m
    → Entries (insert id u) m
Entries-insert u id [] v = tt
Entries-insert u id ((q, ids) ∷ m) (set, within, rest) =
    (set, λ x h. ground (arith, contains-insert x id u, within x h), Entries-insert u id m rest)

-- The ids are a set, and each pattern has a set of them.
pub record IsLabelled (u : DetectorUniverse) : Type 0 where
  pub ids : IsSetOf u.event_ids
  pub entries : Entries u.event_ids u.ids_by_pattern

pub status_cases : (s : OrderStatus) → (s ≡ new) ⊎ (s ≡ cancelled) ⊎ (s ≡ replaced)
status_cases new = inl refl
status_cases cancelled = inr (inl refl)
status_cases replaced = inr (inr refl)

add_id-IsLabelled :
    (u : DetectorUniverse) (pattern : AbusePattern) (id : Text)
    → IsLabelled u
    → IsLabelled (add_id u pattern id)
unfolding add_id positive_ids_for
add_id-IsLabelled u pattern id v =
    let (set, within) = Entries-find u.event_ids pattern u.ids_by_pattern v.entries in
    let old = or_else (find pattern_eq pattern u.ids_by_pattern) [] in
    record {
      ids = insert-IsSetOf id u.event_ids v.ids;
      entries =
          Entries-put (insert id u.event_ids) pattern (insert id old) u.ids_by_pattern
            (Entries-insert u.event_ids id u.ids_by_pattern v.entries) (insert-IsSetOf id old set)
            (λ x h.
              ground (arith, contains-insert x id u.event_ids, contains-insert x id old, within x));
    }

pub union_abuse_lem :
    (u : List Text) (m : List (AbusePattern × List Text)) (result : List Text)
    → Entries u m
    → IsSetOf result
    → IsWithin result u
    → IsSetOf (union_abuse m result) × IsWithin (union_abuse m result) u
unfolding union_abuse
union_abuse_lem u [] result v s w = (s, w)
union_abuse_lem u ((q, ids) ∷ m) result (set, within, rest) s w =
    elim (Bool-cases (pattern_eq q baseline)) [
      | inl plain ↦ rw plain (union_abuse_lem u m result rest s w)
      | inr abuse ↦ rw abuse (
          union_abuse_lem u m (insert_all ids result) rest (insert_all-IsSetOf ids result s)
            (λ x h. ground (arith, contains-insert_all x ids result, within x, w x)))
    ]

contains-add_id :
    (u : DetectorUniverse) (p q : AbusePattern) (id x : Text)
    → contains x (positive_ids_for (add_id u p id) q)
      ≡ (pattern_eq p q && text_eq id x || contains x (positive_ids_for u q))
unfolding add_id positive_ids_for
contains-add_id u p q id x =
    ap (λ o. contains x (or_else o []))
      (find-put pattern_eq pattern_eq_iff p q
        (insert id (or_else (find pattern_eq p u.ids_by_pattern) [])) u.ids_by_pattern)
    ∙ elim (Bool-cases (pattern_eq p q)) [
      | inl same ↦
          let at =
            ap (λ r. contains x (or_else (find pattern_eq r u.ids_by_pattern) []))
              ((pattern_eq_iff p q).0 same) in
          rw same (
            contains-insert x id (or_else (find pattern_eq p u.ids_by_pattern) [])
            ∙ ap (λ b. text_eq id x || b) at)
      | inr other ↦ rw other refl
    ]

abbrev pub is_new : OrderStatus → Bool
is_new new = true
is_new _ = false

abbrev pub is_cancelled : OrderStatus → Bool
is_cancelled cancelled = true
is_cancelled _ = false

module _ {F : Type 0} where
  -- An order in such a state has the label and the id.
  abbrev pub any_order : (OrderStatus → Bool) → AbusePattern → Text → List (SimulatedOrder F) → Bool
  any_order state pattern x [] = false
  any_order state pattern x (o ∷ orders) =
      (state o.status && pattern_eq o.ground_truth_label.pattern pattern && text_eq o.order_id x)
      || any_order state pattern x orders

  abbrev pub any_execution : AbusePattern → Text → List (SimulatedExecution F) → Bool
  any_execution pattern x [] = false
  any_execution pattern x (e ∷ executions) =
      (pattern_eq e.ground_truth_label.pattern pattern && text_eq e.trade_id x)
      || any_execution pattern x executions

  pub add_orders_lem :
      (orders : List (SimulatedOrder F)) (u : Universes) (q : AbusePattern) (x : Text)
      → (contains x (positive_ids_for (add_orders orders u).new_orders q)
          ≡ (any_order is_new q x orders || contains x (positive_ids_for u.new_orders q)))
        × (contains x (positive_ids_for (add_orders orders u).cancel_orders q) ≡ (
            any_order is_cancelled q x orders || contains x (positive_ids_for u.cancel_orders q)))
        × ((add_orders orders u).executions ≡ u.executions)
  unfolding add_orders
  add_orders_lem [] u q x = (refl, refl, refl)
  add_orders_lem (o ∷ orders) u q x =
      let p = o.ground_truth_label.pattern in
      let u_new = record u { new_orders = add_id u.new_orders p o.order_id } in
      let u_cancel = record u { cancel_orders = add_id u.cancel_orders p o.order_id } in
      elim (status_cases o.status) [
        | inl is ↦
            let (a, b, c) = add_orders_lem orders u_new q x in
            rw (is, add_orders)
              (ground (arith, a, contains-add_id u.new_orders p q o.order_id x), b, c)
        | inr (inl is) ↦
            let (a, b, c) = add_orders_lem orders u_cancel q x in
            rw (is, add_orders)
              (a, ground (arith, b, contains-add_id u.cancel_orders p q o.order_id x), c)
        | inr (inr is) ↦
            let (a, b, c) = add_orders_lem orders u q x in rw (is, add_orders) (a, b, c)
      ]

  pub add_executions_lem :
      (executions : List (SimulatedExecution F)) (u : Universes) (q : AbusePattern) (x : Text)
      → ((add_executions executions u).new_orders ≡ u.new_orders)
        × ((add_executions executions u).cancel_orders ≡ u.cancel_orders)
        × (contains x (positive_ids_for (add_executions executions u).executions q)
            ≡ (any_execution q x executions || contains x (positive_ids_for u.executions q)))
  unfolding add_executions
  add_executions_lem [] u q x = (refl, refl, refl)
  add_executions_lem (e ∷ executions) u q x =
      let p = e.ground_truth_label.pattern in
      let (a, b, c) =
        add_executions_lem executions (record u { executions = add_id u.executions p e.trade_id }) q
          x in
      (a, b, ground (arith, c, contains-add_id u.executions p q e.trade_id x))

  pub add_orders-IsLabelled :
      (orders : List (SimulatedOrder F)) (u : Universes)
      → IsLabelled u.new_orders
      → IsLabelled u.cancel_orders
      → IsLabelled (add_orders orders u).new_orders × IsLabelled (add_orders orders u).cancel_orders
  unfolding add_orders
  add_orders-IsLabelled [] u v w = (v, w)
  add_orders-IsLabelled (o ∷ orders) u v w =
      let p = o.ground_truth_label.pattern in
      elim (status_cases o.status) [
        | inl is ↦
            rw (is, add_orders)
              (add_orders-IsLabelled orders
                (record u { new_orders = add_id u.new_orders p o.order_id })
                (add_id-IsLabelled u.new_orders p o.order_id v) w)
        | inr (inl is) ↦
            rw (is, add_orders)
              (add_orders-IsLabelled orders
                (record u { cancel_orders = add_id u.cancel_orders p o.order_id }) v
                (add_id-IsLabelled u.cancel_orders p o.order_id w))
        | inr (inr is) ↦ rw (is, add_orders) (add_orders-IsLabelled orders u v w)
      ]

  pub add_executions-IsLabelled :
      (executions : List (SimulatedExecution F)) (u : Universes)
      → IsLabelled u.executions
      → IsLabelled (add_executions executions u).executions
  unfolding add_executions
  add_executions-IsLabelled [] u v = v
  add_executions-IsLabelled (e ∷ executions) u v =
      add_executions-IsLabelled executions
        (record u { executions = add_id u.executions e.ground_truth_label.pattern e.trade_id })
        (add_id-IsLabelled u.executions e.ground_truth_label.pattern e.trade_id v)
