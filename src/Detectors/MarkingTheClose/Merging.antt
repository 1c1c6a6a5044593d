-- ===== src/Detectors/MarkingTheClose/Merging.antt =====
-- What joining two accounts does to the groups, and who is in a group.
use trade_surveillance_engin.Prelude.{
  ℕ, suc, ◌<◌, ◌≡◌, ◌≢◌, ◌↔◌, inl, inr, refl, sym, ◌∙◌, List, [], ◌∷◌, Text, text_eq, text_eq_iff,
  put, some, Bool-cases, arith, subst, if◌then◌else◌, In, here, there, In-cons, In-of_eq, In-nil,
}
use trade_surveillance_engin.Detectors.MarkingTheClose.Groups.{GroupParent, join, members_of}
use trade_surveillance_engin.Detectors.MarkingTheClose.Roots.{
  IsRoot, Leads, stop, step, KeepsRoots, Leads-IsRoot, Leads-unique, not-IsRoot, put-same,
  put-other, put-IsRoot, find_group-Leads,
}

-- Where an account leads after the root `ra` was put under `rb`.
abbrev pub moved : Text → Text → Text → Text
moved ra rb r = if text_eq r ra then rb else r

moved_self : (ra rb r : Text) → ra ≡ rb → moved ra rb r ≡ r
moved_self ra rb r e = ground (arith, e, text_eq_iff r ra)

longer :
    {parents : GroupParent} {n : ℕ} {a r : Text} → Leads parents n a r → Leads parents (suc n) a r
longer (stop a h) = stop a h
longer (step a p r e apart l) = step a p r e apart (longer l)

link :
    (parents : GroupParent) (ra rb : Text)
    → ra ≢ rb
    → IsRoot parents ra
    → IsRoot parents rb
    → (n : ℕ) (c r : Text) → Leads parents n c r
    → Leads (put text_eq ra rb parents) (suc n) c (moved ra rb r)
link parents ra rb apart ha hb n c r (stop c' h) = elim (Bool-cases (text_eq c ra)) [
  | inl same ↦
      rw (same, (text_eq_iff c ra).0 same)
        (step ra rb rb (put-same parents ra rb) (λ e. apart (sym e))
          (stop rb (put-IsRoot parents ra rb rb (λ e. apart (sym e)) hb)))
  | inr other ↦
      rw other (stop c (put-IsRoot parents ra c rb (λ e. ground (arith, text_eq_iff c ra)) h))
]
link parents ra rb apart ha hb (suc n) c r (step c' p r' e up l) =
    step c p (moved ra rb r)
      (put-other parents ra c rb
          (λ at. not-IsRoot parents e up (subst (IsRoot parents) (sym at) ha))
        ∙ e)
      up (link parents ra rb apart ha hb n p r l)

-- `join` of two accounts ends, with fuel for one more than the length of their chains. Every account that
-- led to the root of the first then leads to that of the second, and every other to where it did.
pub join-Leads :
    (parents : GroupParent) (fuel n : ℕ) (a b ra rb : Text)
    → n < fuel
    → Leads parents n a ra
    → Leads parents n b rb
    → (parents' : GroupParent) × (join fuel parents a b ≡ some parents')
      × ((m : ℕ) (c r : Text) → Leads parents m c r → Leads parents' (suc m) c (moved ra rb r))
unfolding join
join-Leads parents fuel n a b ra rb h la lb =
    let (p1, found_a, keeps_a) = find_group-Leads parents fuel n a ra h la in
    let (p2, found_b, keeps_b) = find_group-Leads p1 fuel n b rb h (keeps_a n b rb lb) in
    let root_a = Leads-IsRoot (keeps_b n a ra (keeps_a n a ra la)) in
    let root_b = Leads-IsRoot (keeps_b n b rb (keeps_a n b rb lb)) in
    elim (Bool-cases (text_eq ra rb)) [
      | inl same ↦ (
        p2,
        rw (found_a, found_b, same) refl,
        λ m c r l.
            rw (moved_self ra rb r ((text_eq_iff ra rb).0 same))
              (longer (keeps_b m c r (keeps_a m c r l))),
      )
      | inr other ↦ (
        put text_eq ra rb p2,
        rw (found_a, found_b, other) refl,
        λ m c r l.
            link p2 ra rb (λ e. ground (arith, text_eq_iff ra rb)) root_a root_b m c r
              (keeps_b m c r (keeps_a m c r l)),
      )
    ]

-- Every account of a list leads to some root within `n` steps.
abbrev pub AllLead : GroupParent → ℕ → List Text → Type 0
AllLead parents n seen = (c : Text) → In c seen → (r : Text) × Leads parents n c r

-- The members of a group are exactly the seen accounts that lead to its root.
pub members_of-Leads :
    (fuel n : ℕ) (rep : Text) (seen : List Text) (parents : GroupParent)
    → n < fuel
    → AllLead parents n seen
    → (members : List Text) × (parents' : GroupParent) × (members_of fuel parents rep seen
        ≡ some (members, parents'))
      × KeepsRoots parents parents'
      × ((c : Text) → In c members ↔ (In c seen × Leads parents n c rep))
unfolding members_of
members_of-Leads fuel n rep [] parents h all =
    ([], parents, refl, λ m c r l. l, λ c. (λ i. absurd (In-nil i), λ k. absurd (In-nil k.0)))
members_of-Leads fuel n rep (x ∷ seen) parents h all =
    let (root, l) = all x here in
    let (p1, found, keeps) = find_group-Leads parents fuel n x root h l in
    let (members, p2, rest, keeps', iff) =
      members_of-Leads fuel n rep seen p1 h
        (λ c i. let (r, k) = all c (there i) in (r, keeps n c r k)) in
    let back : (c : Text) → In c seen → Leads p1 n c rep → Leads parents n c rep = λ c i k.
      let (r, k') = all c (there i) in
      let at : r ≡ rep = Leads-unique (keeps n c r k') k in rw at at k' in
    elim (Bool-cases (text_eq root rep)) [
      | inl same ↦
          let at : root ≡ rep = (text_eq_iff root rep).0 same in
          (
            x ∷ members,
            p2,
            rw (found, rest, same) refl,
            λ m c r k. keeps' m c r (keeps m c r k),
            λ c. (
              λ i. elim (In-cons i) [
                | inl e ↦ (In-of_eq seen e, rw (sym e, sym at) l)
                | inr j ↦ let (k, led) = (iff c).0 j in (there k, back c k led)
              ],
              λ (i, k). elim (In-cons i) [
                | inl e ↦ In-of_eq members e
                | inr j ↦ there ((iff c).1 (j, keeps n c rep k))
              ],
            ),
          )
      | inr other ↦ (
        members,
        p2,
        rw (found, rest, other) refl,
        λ m c r k. keeps' m c r (keeps m c r k),
        λ c. (
          λ i. let (k, led) = (iff c).0 i in (there k, back c k led),
          λ (i, k). elim (In-cons i) [
            | inl e ↦
                let k' : Leads parents n x rep = rw e k in
                let at : root ≡ rep = Leads-unique l k' in
                absurd (ground (arith, at, text_eq_iff root rep))
            | inr j ↦ (iff c).1 (j, keeps n c rep k)
          ],
        ),
      )
    ]
