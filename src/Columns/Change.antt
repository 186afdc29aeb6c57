-- ===== src/Columns/Change.antt =====
-- A change of an item that leaves its key, and the cell in the middle of a list.
use eioie_client.Base.{
  ℕ, ◌≡◌, refl, sym, ap, ◌∙◌, List, [], ◌∷◌, ◌++◌, memeq, memeq_refl, ◌==◌, ==_refl, false,
  Bool-cases, none, inl, inr,
}
use eioie_client.Hashtable.Chain.{memeq_sym}
use eioie_client.Columns.{Cell, ColumnList, modify_cell}
use eioie_client.Columns.Index.{IsIndexed, li_of, without, NewLi, Ordered}

module _ {A : Type 0} (column : List ℕ) (key : A → List ℕ) where
  li_of-middle :
      (k : List ℕ) (before : List (Cell A)) (c : Cell A) (cells : List (Cell A))
      → li_of column key k (before ++ c ∷ cells) ≡ none
      → memeq (key c.item) k ≡ false
  li_of-middle k [] c cells e = elim (Bool-cases (memeq (key c.item) k)) [
    | inl here ↦ cc (rw here at e)
    | inr other ↦ other
  ]
  li_of-middle k (d ∷ before) c cells e = elim (Bool-cases (memeq (key d.item) k)) [
    | inl here ↦ cc (rw here at e)
    | inr other ↦ li_of-middle k before c cells (rw other at e)
  ]

  NewLi-middle :
      (li : ℕ) (before : List (Cell A)) (c : Cell A) (cells : List (Cell A))
      → NewLi column key li (before ++ c ∷ cells)
      → (li == c.li) ≡ false
  NewLi-middle li [] c cells f = f.0
  NewLi-middle li (d ∷ before) c cells f = NewLi-middle li before c cells f.1

  -- The key of a cell takes that cell out.
  pub without-middle :
      (n : ℕ) (before : List (Cell A)) (c : Cell A) (cells : List (Cell A))
      → Ordered column key n (before ++ c ∷ cells)
      → without column key (key c.item) (before ++ c ∷ cells) ≡ before ++ cells
  without-middle n [] c cells o = rw (memeq_refl (key c.item))
  without-middle n (d ∷ before) c cells o =
      let other = li_of-middle (key d.item) before c cells o.2 in
      rw (memeq_sym (key c.item) (key d.item) other)
        (ap (λ l. d ∷ l) (without-middle n before c cells o.3))

  module _ (f : A → A) (same : (x : A) → key (f x) ≡ key x) where
    pub modify_cell-middle :
        (n : ℕ) (before : List (Cell A)) (c : Cell A) (cells : List (Cell A))
        → Ordered column key n (before ++ c ∷ cells)
        → modify_cell c.li f (before ++ c ∷ cells) ≡ before ++ record c { item = f c.item } ∷ cells
    unfolding modify_cell
    modify_cell-middle n [] c cells o = rw (==_refl c.li)
    modify_cell-middle n (d ∷ before) c cells o =
        rw (NewLi-middle d.li before c cells o.1)
          (ap (λ l. d ∷ l) (modify_cell-middle n before c cells o.3))

    li_of-modify_cell :
        (li : ℕ) (k : List ℕ) (cells : List (Cell A))
        → li_of column key k (modify_cell li f cells) ≡ li_of column key k cells
    unfolding modify_cell
    li_of-modify_cell li k [] = refl
    li_of-modify_cell li k (c ∷ cells) = elim (Bool-cases (c.li == li)) [
      | inl here ↦ rw (here, same c.item)
      | inr other ↦ rw (other, li_of-modify_cell li k cells)
    ]

    NewLi-modify_cell :
        (li li' : ℕ) (cells : List (Cell A))
        → NewLi column key li' cells
        → NewLi column key li' (modify_cell li f cells)
    unfolding modify_cell
    NewLi-modify_cell li li' [] n = tt
    NewLi-modify_cell li li' (c ∷ cells) n = elim (Bool-cases (c.li == li)) [
      | inl here ↦ rw here n
      | inr other ↦ rw other (n.0, NewLi-modify_cell li li' cells n.1)
    ]

    Ordered-modify_cell :
        (n li : ℕ) (cells : List (Cell A))
        → Ordered column key n cells
        → Ordered column key n (modify_cell li f cells)
    unfolding modify_cell
    Ordered-modify_cell n li [] o = tt
    Ordered-modify_cell n li (c ∷ cells) o = elim (Bool-cases (c.li == li)) [
      | inl here ↦ rw (here, same c.item) o
      | inr other ↦ rw other (
        o.0,
        NewLi-modify_cell li c.li cells o.1,
        li_of-modify_cell li (key c.item) cells ∙ o.2,
        Ordered-modify_cell n li cells o.3,
      )
    ]

    pub modify_cell-IsIndexed :
        (l : ColumnList A) (li : ℕ)
        → IsIndexed column key l
        → IsIndexed column key (record l { cells = modify_cell li f l.cells })
    modify_cell-IsIndexed l li v = record {
      table = v.table;
      columns = v.columns;
      valid = v.valid;
      finds = λ k. v.finds k ∙ sym (li_of-modify_cell li k l.cells);
      ordered = Ordered-modify_cell l.unused li l.cells v.ordered;
    }
