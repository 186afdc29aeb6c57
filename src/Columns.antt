-- ===== src/Columns.antt =====
-- The lists of src/tcp/src/list.c with columns: hash tables from a key to the cell of an item.
pub mod Index
pub mod Calls
pub mod Change
use eioie_client.Base.{
  ℕ, ◌+◌, List, [], ◌∷◌, ◌++◌, map, memeq, ◌==◌, Bool, false, Option, none, some, Run, ok, fail,
  fault, ◌>>=◌, if◌then◌else◌,
}
use eioie_client.Hashtable.{Table, ht_init, ht_add, ht_rem, ht_get}
use eioie_client.Hashtable.Refinement.{kept}

-- `struct list_internal_s`: its address and `data.ptr`.
pub record Cell (A : Type 0) : Type 0 where
  pub li : ℕ
  pub item : A

-- `struct list_s`: the cells in their order, the columns with their names, and an address that no
-- cell has had.
pub record ColumnList (A : Type 0) : Type 0 where
  pub cells : List (Cell A)
  pub columns : List (List ℕ × Table ℕ)
  pub unused : ℕ

-- `column_init`.
unfoldable pub column_init : {A : Type 0} → List (List ℕ) → ColumnList A
column_init names = record { cells = []; columns = map (λ name. (name, ht_init)) names; unused = 0 }

-- `filter_find`.
unfoldable pub filter_find : List ℕ → List (List ℕ × Table ℕ) → Option (Table ℕ)
filter_find name [] = none
filter_find name ((n, t) ∷ columns) = if memeq n name then some t else filter_find name columns

-- A write through the pointer that `filter_find` returned.
unfoldable pub set_column : List ℕ → Table ℕ → List (List ℕ × Table ℕ) → List (List ℕ × Table ℕ)
set_column name t' [] = []
set_column name t' ((n, t) ∷ columns) =
    if memeq n name then (n, t') ∷ columns else (n, t) ∷ set_column name t' columns

-- The removal of a key from every column, and from every column but the one of a name.
unfoldable pub rem_all : List ℕ → List (List ℕ × Table ℕ) → List (List ℕ × Table ℕ)
rem_all key [] = []
rem_all key ((n, t) ∷ columns) = (n, kept t (ht_rem t key)) ∷ rem_all key columns

unfoldable pub rem_others : List ℕ → List ℕ → List (List ℕ × Table ℕ) → List (List ℕ × Table ℕ)
unfolding rem_all
rem_others name key [] = []
rem_others name key ((n, t) ∷ columns) =
    let rest = rem_others name key columns in
    if memeq n name then (n, t) ∷ rem_all key columns else (n, kept t (ht_rem t key)) ∷ rest

module _ {A : Type 0} where
  -- `add_internal`: the list, and the address of the new cell.
  unfoldable pub add_internal : ColumnList A → A → ColumnList A × ℕ
  add_internal l x = (
    record l { cells = l.cells ++ record { li = l.unused; item = x } ∷ []; unused = l.unused + 1 },
    l.unused,
  )

  -- `column_add`, with the callback `columns`.
  unfoldable pub column_add :
      ColumnList A → A → (ColumnList A → ℕ → A → Run (ColumnList A)) → Run (ColumnList A)
  unfolding add_internal
  column_add l x columns = let (l', li) = add_internal l x in columns l' li x

  -- `column_map`.
  unfoldable pub column_map : ColumnList A → List ℕ → List ℕ → ℕ → Run (ColumnList A)
  unfolding filter_find set_column
  column_map l column key li = elim (filter_find column l.columns) [
    | none ↦ fail
    | some found ↦
        ok (record l { columns = set_column column (ht_add found key li false) l.columns })
  ]

  -- `del_item`: `none` for an address that no cell has.
  unfoldable pub del_item : ℕ → List (Cell A) → Option (List (Cell A))
  del_item li [] = none
  del_item li (c ∷ cells) =
      let rest = del_item li cells in
      if c.li == li then some cells else elim rest [ none ↦ none | some cells' ↦ some (c ∷ cells') ]

  -- What follows the callback `clean` in `column_del`: the column, where the callback left it.
  unfoldable pub forget : List ℕ → List ℕ → ColumnList A → Run (ColumnList A)
  unfolding filter_find set_column
  forget column key l = elim (filter_find column l.columns) [
    | none ↦ fault
    | some found ↦
        ok (record l { columns = set_column column (kept found (ht_rem found key)) l.columns })
  ]

  -- `column_del`, with the callback `clean` of the item: it may change the list, which has no cell of
  -- the item then, but still its key. The key is removed from the other columns too, whatever it
  -- stands for there.
  unfoldable pub column_del :
      (ColumnList A → Run (ColumnList A)) → ColumnList A → List ℕ → List ℕ → Run (ColumnList A)
  unfolding filter_find del_item rem_others forget
  column_del clean l column key = elim (filter_find column l.columns) [
    | none ↦ fail
    | some found ↦ elim (ht_get found key) [
      | none ↦ ok l
      | some item ↦ elim (del_item item.v l.cells) [
        | none ↦ fault
        | some cells ↦
            clean (record l { cells = cells; columns = rem_others column key l.columns }) >>= λ l'.
            forget column key l'
      ]
    ]
  ]

  unfoldable pub cell_item : ℕ → List (Cell A) → Option A
  cell_item li [] = none
  cell_item li (c ∷ cells) = if c.li == li then some c.item else cell_item li cells

  -- `column_find`: the item that the callback gets, if the key is there.
  unfoldable pub column_find : ColumnList A → List ℕ → List ℕ → Run (Option A)
  unfolding filter_find cell_item
  column_find l column key = elim (filter_find column l.columns) [
    | none ↦ fail
    | some found ↦ elim (ht_get found key) [
      | none ↦ ok none
      | some item ↦ elim (cell_item item.v l.cells) [ none ↦ fault | some x ↦ ok (some x) ]
    ]
  ]

  -- A write to the item of a cell.
  unfoldable pub modify_cell : ℕ → (A → A) → List (Cell A) → List (Cell A)
  modify_cell li f [] = []
  modify_cell li f (c ∷ cells) =
      if c.li == li then record c { item = f c.item } ∷ cells else c ∷ modify_cell li f cells
