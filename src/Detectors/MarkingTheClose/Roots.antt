-- ===== src/Detectors/MarkingTheClose/Roots.antt =====
-- What the union-find keeps: which account each account leads to.
use trade_surveillance_engin.Prelude.{
  ℕ, zero, suc, ◌<◌, ◌≡◌, ◌≢◌, ◌⊎◌, inl, inr, refl, sym, ◌∙◌, false, Text, text_eq, text_eq_iff,
  text_eq_refl, find, put, find-put, none, some, Bool-cases, arith, subst,
}
use trade_surveillance_engin.Detectors.MarkingTheClose.Groups.{GroupParent, find_group}

-- An account that is its own parent, or has none.
abbrev pub IsRoot : GroupParent → Text → Type 0
IsRoot parents a = (find text_eq a parents ≡ none) ⊎ (find text_eq a parents ≡ some a)

-- The chain of parents from an account ends at a root, within a number of steps.
pub data Leads (parents : GroupParent) : ℕ → Text → Text → Type 0 where
  stop : {n : ℕ} → (a : Text) → IsRoot parents a → Leads parents n a a
  step :
      {n : ℕ}
      → (a parent root : Text) → find text_eq a parents ≡ some parent
      → parent ≢ a
      → Leads parents n parent root
      → Leads parents (suc n) a root

some_inj : {A : Type 0} {a b : A} → some a ≡ some b → a ≡ b
some_inj h = cc

pub Leads-IsRoot :
    {parents : GroupParent} {n : ℕ} {a r : Text} → Leads parents n a r → IsRoot parents r
Leads-IsRoot (stop a h) = h
Leads-IsRoot (step a p r e apart l) = Leads-IsRoot l

pub not-IsRoot :
    (parents : GroupParent) {a p : Text}
    → find text_eq a parents ≡ some p
    → p ≢ a
    → ¬ (IsRoot parents a)
not-IsRoot parents e apart (inl h) = cc
not-IsRoot parents e apart (inr h) = apart (some_inj (sym e ∙ h))

-- A root leads nowhere else, and every chain ends at one root.
root-Leads :
    {parents : GroupParent} {n : ℕ} {a r : Text} → IsRoot parents a → Leads parents n a r → a ≡ r
root-Leads h (stop a k) = refl
root-Leads (inl h) (step a p r e apart l) = cc
root-Leads (inr h) (step a p r e apart l) = absurd (apart (cc))

pub Leads-unique :
    {parents : GroupParent} {n m : ℕ} {a r s : Text}
    → Leads parents n a r
    → Leads parents m a s
    → r ≡ s
Leads-unique (stop a h) k = root-Leads h k
Leads-unique (step a p r e apart l) (stop a' h) = sym (root-Leads h (step a p r e apart l))
Leads-unique {parents} {n} {m} (step a p r e apart l) (step a' p' s e' apart' k) =
    let same : p' ≡ p = some_inj (sym e' ∙ e) in Leads-unique l (rw same at k)

-- Another table in which every account leads where it did.
abbrev pub KeepsRoots : GroupParent → GroupParent → Type 0
KeepsRoots parents parents' = (n : ℕ) (a r : Text) → Leads parents n a r → Leads parents' n a r

pub put-same :
    (parents : GroupParent) (a r : Text) → find text_eq a (put text_eq a r parents) ≡ some r
put-same parents a r = find-put text_eq text_eq_iff a a r parents ∙ rw (text_eq_refl a)

pub put-other :
    (parents : GroupParent) (a b r : Text)
    → b ≢ a
    → find text_eq b (put text_eq a r parents) ≡ find text_eq b parents
put-other parents a b r h =
    ground (arith, find-put text_eq text_eq_iff a b r parents, text_eq_iff a b)

pub put-IsRoot :
    (parents : GroupParent) (a b r : Text)
    → b ≢ a
    → IsRoot parents b
    → IsRoot (put text_eq a r parents) b
put-IsRoot parents a b r h k = rw (put-other parents a b r h) k

-- To point an account that is no root at the root it leads to changes no root.
compress :
    (parents : GroupParent) (m : ℕ) (a r : Text)
    → r ≢ a
    → Leads parents m a r
    → KeepsRoots parents (put text_eq a r parents)
compress parents m a r apart l n b s (stop b' h) =
    stop b'
      (put-IsRoot parents a b' r (λ e. apart (sym (root-Leads (subst (IsRoot parents) e h) l))) h)
compress parents m a r apart l (suc n) b s (step b' p s' e up k) =
    elim (Bool-cases (text_eq b' a)) [
      | inl same ↦
          let at : b' ≡ a = (text_eq_iff b' a).0 same in
          let chain : Leads parents (suc n) b' s' = step b' p s' e up k in
          let to : s' ≡ r = Leads-unique (rw at at chain) l in
          rw (at, to)
            (step a r r (put-same parents a r) apart
              (stop r (put-IsRoot parents a r r apart (Leads-IsRoot l))))
      | inr other ↦
          step b' p s' (put-other parents a b' r (λ h. ground (arith, text_eq_iff b' a)) ∙ e) up
            (compress parents m a r apart l n p s' k)
    ]

-- With fuel for one more than the length of the chain, `find_group` ends, returns the root that the
-- account leads to, and its path compression leaves the root of every account as it was.
pub find_group-Leads :
    (parents : GroupParent) (fuel n : ℕ) (a r : Text)
    → n < fuel
    → Leads parents n a r
    → (parents' : GroupParent) × (find_group fuel parents a ≡ some (r, parents'))
      × KeepsRoots parents parents'
unfolding find_group
find_group-Leads parents zero n a r h l = absurd (omega arith)
find_group-Leads parents (suc fuel) n a r h (stop a' (inl e)) =
    (parents, rw (e, find_group) refl, λ n b s l. l)
find_group-Leads parents (suc fuel) n a r h (stop a' (inr e)) =
    (parents, rw (e, find_group, text_eq_refl a) refl, λ n b s l. l)
find_group-Leads parents (suc fuel) (suc n) a r h (step a' p r' e apart l) =
    let (parents', found, keeps) = find_group-Leads parents fuel n p r (omega arith) l in
    let up : text_eq p a ≡ false = ground (arith, apart, text_eq_iff p a) in
    let apart_from_root : r ≢ a =
      λ at. not-IsRoot parents e apart (subst (IsRoot parents) at (Leads-IsRoot l)) in
    (
      put text_eq a r parents',
      rw (e, find_group, up, found) refl,
      λ m b s k.
          compress parents' _ a r apart_from_root (keeps (suc n) a r (step a p r e apart l)) m b s
            (keeps m b s k),
    )
