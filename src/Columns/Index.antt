-- ===== src/Columns/Index.antt =====
-- A list with one column is a list of items without repeated keys, and the column finds them.
use eioie_client.Base.{
  ℕ, ◌+◌, ◌<◌, ◌≡◌, refl, sym, ap, ◌∙◌, List, [], ◌∷◌, ◌++◌, arith, memeq, memeq-eq, ◌==◌, ==_refl,
  false, Bool-cases, Option, none, some, inl, inr, if◌then◌else◌,
}
use eioie_client.Hashtable.{Item, Table, ht_get}
use eioie_client.Hashtable.Chain.{exclusive, memeq_sym}
use eioie_client.Hashtable.Laws.{IsTable}
use eioie_client.Columns.{Cell, ColumnList, del_item}

abbrev pub value_of : {V : Type 0} → Option (Item V) → Option V
value_of none = none
value_of (some i) = some i.v

module _ {A : Type 0} (column : List ℕ) (key : A → List ℕ) where
  -- The address of the first cell with the key, and the list without it.
  abbrev pub li_of : List ℕ → List (Cell A) → Option ℕ
  li_of k [] = none
  li_of k (c ∷ cells) = if memeq (key c.item) k then some c.li else li_of k cells

  abbrev pub without : List ℕ → List (Cell A) → List (Cell A)
  without k [] = []
  without k (c ∷ cells) =
      let rest = without k cells in if memeq (key c.item) k then cells else c ∷ rest

  abbrev pub items : List (Cell A) → List A
  items [] = []
  items (c ∷ cells) = c.item ∷ items cells

  -- The items without the one of a key.
  abbrev pub remove : List ℕ → List A → List A
  remove k [] = []
  remove k (x ∷ xs) = let rest = remove k xs in if memeq (key x) k then xs else x ∷ rest

  -- No item has the key.
  abbrev pub Lacks : List ℕ → List A → Type 0
  Lacks k [] = Unit
  Lacks k (x ∷ xs) = (memeq (key x) k ≡ false) × Lacks k xs

  abbrev pub NewLi : ℕ → List (Cell A) → Type 0
  NewLi li [] = Unit
  NewLi li (c ∷ cells) = ((li == c.li) ≡ false) × NewLi li cells

  -- Addresses below `n`, and neither addresses nor keys twice.
  abbrev pub Ordered : ℕ → List (Cell A) → Type 0
  Ordered n [] = Unit
  Ordered n (c ∷ cells) =
      (c.li < n) × NewLi c.li cells × (li_of (key c.item) cells ≡ none) × Ordered n cells

  pub record IsIndexed (l : ColumnList A) : Type 0 where
    pub table : Table ℕ
    pub columns : l.columns ≡ (column, table) ∷ []
    pub valid : IsTable table
    pub finds : (k : List ℕ) → value_of (ht_get table k) ≡ li_of k l.cells
    pub ordered : Ordered l.unused l.cells

  pub items-without :
      (k : List ℕ) (cells : List (Cell A)) → items (without k cells) ≡ remove k (items cells)
  items-without k [] = refl
  items-without k (c ∷ cells) = elim (Bool-cases (memeq (key c.item) k)) [
    | inl here ↦ rw here
    | inr other ↦ rw other (ap (λ l. c.item ∷ l) (items-without k cells))
  ]

  pub items-append :
      (cells : List (Cell A)) (c : Cell A) → items (cells ++ c ∷ []) ≡ items cells ++ c.item ∷ []
  items-append [] c = refl
  items-append (d ∷ cells) c = ap (λ l. d.item ∷ l) (items-append cells c)

  NewLi-found :
      (li : ℕ) (k : List ℕ) (cells : List (Cell A)) (li' : ℕ)
      → NewLi li cells
      → li_of k cells ≡ some li'
      → (li == li') ≡ false
  NewLi-found li k [] li' n e = cc
  NewLi-found li k (c ∷ cells) li' n e = elim (Bool-cases (memeq (key c.item) k)) [
    | inl here ↦ let same : c.li ≡ li' = cc (rw here at e) in ap (λ j. li == j) (sym same) ∙ n.0
    | inr other ↦ NewLi-found li k cells li' n.1 (rw other at e)
  ]

  -- The cell that the column finds is the one that is deleted.
  pub del_item-without :
      (n : ℕ) (k : List ℕ) (cells : List (Cell A)) (li : ℕ)
      → Ordered n cells
      → li_of k cells ≡ some li
      → del_item li cells ≡ some (without k cells)
  unfolding del_item
  del_item-without n k [] li o e = cc
  del_item-without n k (c ∷ cells) li o e = elim (Bool-cases (memeq (key c.item) k)) [
    | inl here ↦ let same : c.li ≡ li = cc (rw here at e) in rw (here, same, ==_refl li)
    | inr other ↦
        let later = rw other at e in
        rw (other, NewLi-found c.li k cells li o.1 later, del_item-without n k cells li o.3 later)
  ]

  pub li_of-without :
      (n : ℕ) (k : List ℕ) (cells : List (Cell A)) (k' : List ℕ)
      → Ordered n cells
      → li_of k' (without k cells) ≡ (if memeq k k' then none else li_of k' cells)
  li_of-without n k [] k' o = elim (Bool-cases (memeq k k')) [ inl y ↦ rw y | inr m ↦ rw m ]
  li_of-without n k (c ∷ cells) k' o = elim (Bool-cases (memeq (key c.item) k)) [
    | inl here ↦
        let same : key c.item ≡ k = memeq-eq (key c.item) k here in
        let tests : memeq (key c.item) k' ≡ memeq k k' = ap (λ j. memeq j k') same in
        elim (Bool-cases (memeq k k')) [
          | inl wanted ↦
              let gone : li_of k' cells ≡ none =
                ap (λ j. li_of j cells) (sym (same ∙ memeq-eq k k' wanted)) ∙ o.2 in
              rw (here, wanted) gone
          | inr other ↦ rw (here, tests, other)
        ]
    | inr other ↦
        rw (other, li_of-without n k cells k' o.3)
          (exclusive (key c.item) k k' other (some c.li) none (li_of k' cells))
  ]

  NewLi-without :
      (li : ℕ) (k : List ℕ) (cells : List (Cell A)) → NewLi li cells → NewLi li (without k cells)
  NewLi-without li k [] f = tt
  NewLi-without li k (c ∷ cells) f = elim (Bool-cases (memeq (key c.item) k)) [
    | inl here ↦ rw here f.1
    | inr other ↦ rw other (f.0, NewLi-without li k cells f.1)
  ]

  pub Ordered-without :
      (n : ℕ) (k : List ℕ) (cells : List (Cell A)) → Ordered n cells → Ordered n (without k cells)
  Ordered-without n k [] o = tt
  Ordered-without n k (c ∷ cells) o = elim (Bool-cases (memeq (key c.item) k)) [
    | inl here ↦ rw here o.3
    | inr other ↦
        let absent : li_of (key c.item) (without k cells) ≡ none =
          li_of-without n k cells (key c.item) o.3
          ∙ elim (Bool-cases (memeq k (key c.item))) [ inl y ↦ rw y | inr m ↦ rw m o.2 ] in
        rw other (o.0, NewLi-without c.li k cells o.1, absent, Ordered-without n k cells o.3)
  ]

  pub li_of-append :
      (k : List ℕ) (cells : List (Cell A)) (c : Cell A)
      → li_of (key c.item) cells ≡ none
      → li_of k (cells ++ c ∷ []) ≡ (if memeq (key c.item) k then some c.li else li_of k cells)
  li_of-append k [] c e = refl
  li_of-append k (d ∷ cells) c e = elim (Bool-cases (memeq (key d.item) (key c.item))) [
    | inl here ↦ cc (rw here at e)
    | inr other ↦
        rw (li_of-append k cells c (rw other at e))
          (exclusive (key d.item) (key c.item) k other (some d.li) (some c.li) (li_of k cells))
  ]

  NewLi-append :
      (li : ℕ) (cells : List (Cell A)) (c : Cell A)
      → NewLi li cells
      → (li == c.li) ≡ false
      → NewLi li (cells ++ c ∷ [])
  NewLi-append li [] c f e = (e, tt)
  NewLi-append li (d ∷ cells) c f e = (f.0, NewLi-append li cells c f.1 e)

  pub Ordered-append :
      (n : ℕ) (x : A) (cells : List (Cell A))
      → Ordered n cells
      → li_of (key x) cells ≡ none
      → Ordered (n + 1) (cells ++ record { li = n; item = x } ∷ [])
  Ordered-append n x [] o e = (omega arith, tt, refl, tt)
  Ordered-append n x (d ∷ cells) o e = elim (Bool-cases (memeq (key d.item) (key x))) [
    | inl here ↦ cc (rw here at e)
    | inr other ↦
        let later = rw other at e in
        let absent : li_of (key d.item) (cells ++ record { li = n; item = x } ∷ []) ≡ none =
          li_of-append (key d.item) cells (record { li = n; item = x }) later
          ∙ rw (memeq_sym (key d.item) (key x) other) o.2 in
        (
          ground arith,
          NewLi-append d.li cells _ o.1 (ground arith),
          absent,
          Ordered-append n x cells o.3 later,
        )
  ]
