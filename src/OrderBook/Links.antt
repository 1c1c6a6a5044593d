-- ===== src/OrderBook/Links.antt =====
-- Index and places of the book as a two-way link, whatever the data structures behind them: which
-- updates of both keep it.
use trade_surveillance_engin.Prelude.{
  ℕ, ◌≤◌, ◌<◌, ◌≡◌, refl, sym, ◌∙◌, Option, none, some, if◌then◌else◌, arith, Text, text_eq,
  text_eq_iff, Double, IsTotal, find, put, erase, find-put, find-erase, inl, inr, Bool-cases, List,
  ◌⊎◌,
}
use trade_surveillance_engin.OrderBook.{RestingOrder, IndexEntry}
use trade_surveillance_engin.OrderBook.Places.{same_entry, same_entry_iff}

abbrev pub Index : Type 0 → Type 0
Index F = List (Text × IndexEntry F)

abbrev pub Cells : Type 0 → Type 0
Cells F = IndexEntry F → Option RestingOrder

module _ {F : Type 0} where
  pub record IsLinked (index : Index F) (cells : Cells F) (next : ℕ) : Type 0 where
    -- every index entry leads to a resting order of that id
    pub indexed :
        (k : Text) (e : IndexEntry F)
        → find text_eq k index ≡ some e
        → (r : RestingOrder) × (cells e ≡ some r) × (r.order_id ≡ k)
    -- every resting order has its index entry
    pub listed :
        (e : IndexEntry F) (r : RestingOrder)
        → cells e ≡ some r
        → find text_eq r.order_id index ≡ some e
    -- every address in use has been given out
    pub fresh : (e : IndexEntry F) (r : RestingOrder) → cells e ≡ some r → e.it < next

module _ {F : Type 0} ⦃d : Double F⦄ ⦃t : IsTotal F⦄ (index : Index F) (cells cells' : Cells F)
    (next next' : ℕ) (v : IsLinked index cells next) (e : IndexEntry F) (r : RestingOrder) where
  pub add-IsLinked :
      find text_eq r.order_id index ≡ none
      → cells e ≡ none
      → e.it < next'
      → next ≤ next'
      → ((f : IndexEntry F) → cells' f ≡ (if same_entry e f then some r else cells f))
      → IsLinked (put text_eq r.order_id e index) cells' next'
  add-IsLinked absent vacant below grown change = record {
    indexed = indexed';
    listed = λ f x h. ground (
      arith,
      change f,
      same_entry_iff e f,
      v.listed f x,
      find-put text_eq text_eq_iff r.order_id x.order_id e index,
      text_eq_iff r.order_id x.order_id,
    );
    fresh = λ f x h. ground (arith, change f, same_entry_iff e f, v.fresh f x);
  }
    where
      indexed' :
          (k : Text) (f : IndexEntry F)
          → find text_eq k (put text_eq r.order_id e index) ≡ some f
          → (x : RestingOrder) × (cells' f ≡ some x) × (x.order_id ≡ k)
      indexed' k f h = elim (Bool-cases (text_eq r.order_id k)) [
        | inl hit ↦ (
          r,
          ground (
            arith,
            hit,
            change f,
            same_entry_iff e f,
            find-put text_eq text_eq_iff r.order_id k e index,
          ),
          (text_eq_iff r.order_id k).0 hit,
        )
        | inr miss ↦
            let (x, here, id) =
              v.indexed k f
                (ground (arith, miss, find-put text_eq text_eq_iff r.order_id k e index)) in
            (x, ground (arith, here, vacant, change f, same_entry_iff e f), id)
      ]

  pub remove-IsLinked :
      find text_eq r.order_id index ≡ some e
      → ((f : IndexEntry F) → cells' f ≡ (if same_entry e f then none else cells f))
      → IsLinked (erase text_eq r.order_id index) cells' next
  remove-IsLinked present change = record {
    indexed = indexed';
    listed = λ f x h. ground (
      arith,
      change f,
      same_entry_iff e f,
      v.listed f x,
      find-erase text_eq text_eq_iff r.order_id x.order_id index,
      text_eq_iff r.order_id x.order_id,
    );
    fresh = λ f x h. ground (arith, change f, v.fresh f x);
  }
    where
      indexed' :
          (k : Text) (f : IndexEntry F)
          → find text_eq k (erase text_eq r.order_id index) ≡ some f
          → (x : RestingOrder) × (cells' f ≡ some x) × (x.order_id ≡ k)
      indexed' k f h = elim (Bool-cases (text_eq r.order_id k)) [
        | inl hit ↦ absurd (ground (arith, hit, find-erase text_eq text_eq_iff r.order_id k index))
        | inr miss ↦
            let (x, here, id) =
              v.indexed k f
                (ground (arith, miss, find-erase text_eq text_eq_iff r.order_id k index)) in
            let other = v.indexed r.order_id e present in
            (
              x,
              ground (
                arith,
                miss,
                here,
                id,
                other.1,
                other.2,
                change f,
                same_entry_iff e f,
                text_eq_iff r.order_id k,
              ),
              id,
            )
      ]

module _ {F : Type 0} ⦃d : Double F⦄ ⦃t : IsTotal F⦄ (index : Index F) (cells cells' : Cells F)
    (next : ℕ) (v : IsLinked index cells next) (e : IndexEntry F) (r r' : RestingOrder) where
  -- The order of a place gets a new id that no other resting order has.
  pub rename-IsLinked :
      find text_eq r.order_id index ≡ some e
      → (find text_eq r'.order_id index ≡ none) ⊎ (r'.order_id ≡ r.order_id)
      → ((f : IndexEntry F) → cells' f ≡ (if same_entry e f then some r' else cells f))
      → IsLinked (put text_eq r'.order_id e (erase text_eq r.order_id index)) cells' next
  rename-IsLinked present free change =
      add-IsLinked (erase text_eq r.order_id index) removed cells' next next
        (remove-IsLinked index cells removed next next v e r present (λ f. refl)) e r'
        (ground (
          arith,
          find-erase text_eq text_eq_iff r.order_id r'.order_id index,
          text_eq_iff r.order_id r'.order_id,
        ))
        (ground (arith, same_entry_iff e e))
        (let (x, here, id) = v.indexed r.order_id e present in v.fresh e x here) (omega arith)
        (λ f. ground (arith, change f))
    where
      removed : Cells F
      removed f = if same_entry e f then none else cells f

  -- The order of a place changes, its id stays.
  pub keep-IsLinked :
      find text_eq r.order_id index ≡ some e
      → r'.order_id ≡ r.order_id
      → ((f : IndexEntry F) → cells' f ≡ (if same_entry e f then some r' else cells f))
      → IsLinked index cells' next
  keep-IsLinked present same change = record {
    indexed = indexed';
    listed = λ f x h. ground (arith, change f, same_entry_iff e f, v.listed f x);
    fresh = λ f x h.
        let (y, here, id) = v.indexed r.order_id e present in
        ground (arith, change f, same_entry_iff e f, v.fresh f x, v.fresh e y here);
  }
    where
      indexed' :
          (k : Text) (f : IndexEntry F)
          → find text_eq k index ≡ some f
          → (x : RestingOrder) × (cells' f ≡ some x) × (x.order_id ≡ k)
      indexed' k f h =
          let (x, here, id) = v.indexed k f h in
          let (y, there, id') = v.indexed r.order_id e present in
          elim (Bool-cases (same_entry e f)) [
            | inl hit ↦ (
              r',
              ground (arith, hit, change f),
              ground (arith, hit, here, id, there, id', same, same_entry_iff e f),
            )
            | inr miss ↦ (x, ground (arith, here, miss, change f), id)
          ]

-- Equal cells are linked alike.
pub same-IsLinked :
    {F : Type 0} (index : Index F) (cells cells' : Cells F) (next next' : ℕ)
    → ((f : IndexEntry F) → cells' f ≡ cells f)
    → next' ≡ next
    → IsLinked index cells next
    → IsLinked index cells' next'
same-IsLinked index cells cells' next next' same e v = record {
  indexed = λ k f h. let (x, here, id) = v.indexed k f h in (x, same f ∙ here, id);
  listed = λ f x h. v.listed f x (sym (same f) ∙ h);
  fresh = λ f x h. rw e (v.fresh f x (sym (same f) ∙ h));
}
