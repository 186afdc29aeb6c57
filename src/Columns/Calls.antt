-- ===== src/Columns/Calls.antt =====
-- `column_add` and `column_del` of a list with one column, on the items without repeated keys.
use eioie_client.Base.{
  ℕ, ◌+◌, ◌≡◌, refl, sym, ap, ◌∙◌, List, [], ◌∷◌, ◌++◌, memeq, memeq_refl, false, Bool-cases,
  Option-cases, none, some, inl, inr, Run, ok,
}
use eioie_client.Hashtable.{Table, ht_init, ht_add, ht_rem, ht_get, chain_get}
use eioie_client.Hashtable.Laws.{ht_init-IsTable, ht_get-ht_add, ht_add-IsTable}
use eioie_client.Hashtable.Refinement.{kept, kept-ht_rem}
use eioie_client.Columns.{
  Cell, ColumnList, column_init, filter_find, set_column, rem_all, add_internal, column_add,
  column_map, column_del, rem_others, forget,
}
use eioie_client.Columns.Index.{
  IsIndexed, Lacks, items, remove, value_of, li_of, without, items-without, items-append,
  del_item-without, li_of-without, Ordered-without, li_of-append, Ordered-append,
}

module _ {A : Type 0} (column : List ℕ) (key : A → List ℕ) where
  pub column_init-IsIndexed : IsIndexed column key (column_init (column ∷ []))
  unfolding column_init ht_init ht_get chain_get
  column_init-IsIndexed = record {
    table = ht_init;
    columns = refl;
    valid = ht_init-IsTable;
    finds = λ k. refl;
    ordered = tt;
  }

  li_of-eq-none :
      (k : List ℕ) (cells : List (Cell A))
      → Lacks column key k (items column key cells)
      → li_of column key k cells ≡ none
  li_of-eq-none k [] a = refl
  li_of-eq-none k (c ∷ cells) a = rw a.0 (li_of-eq-none k cells a.1)

  -- The callback of `column_add` that enters the item under its key.
  abbrev pub enter : ColumnList A → ℕ → A → Run (ColumnList A)
  enter l li x = column_map l column (key x) li

  filter_find-column :
      (columns : List (List ℕ × Table ℕ)) (t : Table ℕ)
      → columns ≡ (column, t) ∷ []
      → filter_find column columns ≡ some t
  unfolding filter_find
  filter_find-column columns t e = rw (e, filter_find, memeq_refl column)

  set_column-column :
      (columns : List (List ℕ × Table ℕ)) (t t' : Table ℕ)
      → columns ≡ (column, t) ∷ []
      → set_column column t' columns ≡ (column, t') ∷ []
  unfolding set_column
  set_column-column columns t t' e = rw (e, set_column, memeq_refl column)

  rem_others-column :
      (columns : List (List ℕ × Table ℕ)) (t : Table ℕ) (k : List ℕ)
      → columns ≡ (column, t) ∷ []
      → rem_others column k columns ≡ (column, t) ∷ []
  unfolding rem_others rem_all
  rem_others-column columns t k e = rw (e, memeq_refl column)

  forget-column :
      (l : ColumnList A) (t : Table ℕ) (k : List ℕ)
      → l.columns ≡ (column, t) ∷ []
      → forget column k l ≡ ok (record l { columns = (column, kept t (ht_rem t k)) ∷ [] })
  unfolding forget
  forget-column l t k e = rw (
    forget,
    filter_find-column l.columns t e,
    set_column-column l.columns t (kept t (ht_rem t k)) e,
  )

  pub column_add-IsIndexed :
      (l : ColumnList A) (x : A)
      → IsIndexed column key l
      → Lacks column key (key x) (items column key l.cells)
      → (l' : ColumnList A) × (column_add l x enter ≡ ok l')
        × IsIndexed column key l'
        × (items column key l'.cells ≡ items column key l.cells ++ x ∷ [])
  unfolding column_add add_internal column_map
  column_add-IsIndexed l x v new =
      let absent = li_of-eq-none (key x) l.cells new in
      let c : Cell A = record { li = l.unused; item = x } in
      let t' = ht_add v.table (key x) l.unused false in
      (
        record { cells = l.cells ++ c ∷ []; unused = l.unused + 1; columns = (column, t') ∷ [] },
        rw (
          column_add,
          filter_find-column l.columns v.table v.columns,
          set_column-column l.columns v.table t' v.columns,
        ),
        record {
          table = t';
          columns = refl;
          valid = ht_add-IsTable v.table (key x) l.unused false v.valid;
          finds = λ k.
              ap value_of (ht_get-ht_add v.table (key x) l.unused false k)
              ∙ elim (Bool-cases (memeq (key x) k)) [
                | inl here ↦ rw (li_of-append column key k l.cells c absent, here)
                | inr other ↦ rw (li_of-append column key k l.cells c absent, other) (v.finds k)
              ];
          ordered = Ordered-append column key l.unused x l.cells v.ordered absent;
        },
        items-append column key l.cells c,
      )

  without-absent :
      (k : List ℕ) (cells : List (Cell A))
      → li_of column key k cells ≡ none
      → without column key k cells ≡ cells
  without-absent k [] e = refl
  without-absent k (c ∷ cells) e = elim (Bool-cases (memeq (key c.item) k)) [
    | inl here ↦ cc (rw here at e)
    | inr other ↦ rw other (ap (λ l. c ∷ l) (without-absent k cells (rw other at e)))
  ]

  -- The cells without the one of the key, if there is one, where the callback leaves the list.
  pub column_del-IsIndexed :
      (clean : ColumnList A → Run (ColumnList A)) (l : ColumnList A) (k : List ℕ)
      → ((l1 : ColumnList A) → clean l1 ≡ ok l1)
      → IsIndexed column key l
      → (l' : ColumnList A) × (column_del clean l column k ≡ ok l')
        × IsIndexed column key l'
        × (l'.cells ≡ without column key k l.cells)
  unfolding column_del
  column_del-IsIndexed clean l k quiet v =
      let there = filter_find-column l.columns v.table v.columns in
      elim (Option-cases (ht_get v.table k)) [
        | inl absent ↦
            let no_cell : li_of column key k l.cells ≡ none =
              sym (v.finds k) ∙ ap value_of absent in
            (l, rw (column_del, there, absent), v, sym (without-absent k l.cells no_cell))
        | inr (item, found) ↦
            let cell : li_of column key k l.cells ≡ some item.v =
              sym (v.finds k) ∙ ap value_of found in
            let (valid, gone) = kept-ht_rem v.table k v.valid in
            let between : ColumnList A = record l {
              cells = without column key k l.cells;
              columns = (column, v.table) ∷ [];
            } in
            (
              record l {
                cells = without column key k l.cells;
                columns = (column, kept v.table (ht_rem v.table k)) ∷ [];
              },
              rw (
                column_del,
                there,
                found,
                del_item-without column key l.unused k l.cells item.v v.ordered cell,
                rem_others-column l.columns v.table k v.columns,
                quiet between,
                forget-column between v.table k refl,
              ),
              record {
                table = kept v.table (ht_rem v.table k);
                columns = refl;
                valid = valid;
                finds = λ k'. ap (λ get. value_of (get k')) gone ∙ elim (Bool-cases (memeq k k')) [
                  | inl here ↦ rw (li_of-without column key l.unused k l.cells k' v.ordered, here)
                  | inr other ↦
                      rw (li_of-without column key l.unused k l.cells k' v.ordered, other)
                        (v.finds k')
                ];
                ordered = Ordered-without column key l.unused k l.cells v.ordered;
              },
              refl,
            )
      ]

  -- The same, for the items.
  pub column_del-items :
      (clean : ColumnList A → Run (ColumnList A)) (l : ColumnList A) (k : List ℕ)
      → ((l1 : ColumnList A) → clean l1 ≡ ok l1)
      → IsIndexed column key l
      → (l' : ColumnList A) × (column_del clean l column k ≡ ok l')
        × IsIndexed column key l'
        × (items column key l'.cells ≡ remove column key k (items column key l.cells))
  column_del-items clean l k quiet v =
      let (l', e, v', cells) = column_del-IsIndexed clean l k quiet v in
      (l', e, v', ap (items column key) cells ∙ items-without column key k l.cells)
