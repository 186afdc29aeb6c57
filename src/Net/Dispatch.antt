-- ===== src/Net/Dispatch.antt =====
-- The retries of a buffer are counted, and end.
use eioie_client.Base.{
  ℕ, ◌+◌, ◌-◌, ◌%◌, ◌≤◌, ◌<◌, ◌≡◌, refl, ap, ◌∙◌, subst, List, [], ◌∷◌, ◌++◌, arith, length, ltb,
  ◌==◌, not, Bool, true, false, Bool-cases, inl, inr, ok,
}
use eioie_client.Columns.{Cell, ColumnList, modify_cell}
use eioie_client.Columns.Index.{without, Ordered}
use eioie_client.Columns.Change.{without-middle, modify_cell-middle, modify_cell-IsIndexed}
use eioie_client.Net.{
  Nb, NetConfig, Sending, bump, no_tasks, attempts, update, dispatch_item, pidx_tidx,
}
use eioie_client.Net.Queue.{IsQueue, key_of, ack-without}

-- No buffer has been tried too often.
abbrev pub Tried : ℕ → List (Cell Nb) → Type 0
Tried retry [] = Unit
Tried retry (c ∷ cells) = (c.item.attempt ≤ retry) × Tried retry cells

-- The attempts that are left, and one to give up.
abbrev pub budget : ℕ → List (Cell Nb) → ℕ
budget retry [] = 0
budget retry (c ∷ cells) = (retry + 1 - c.item.attempt) + budget retry cells

pub Tried-append :
    (retry : ℕ) (cells more : List (Cell Nb))
    → Tried retry cells
    → Tried retry more
    → Tried retry (cells ++ more)
Tried-append retry [] more t u = u
Tried-append retry (c ∷ cells) more t u = (t.0, Tried-append retry cells more t.1 u)

pub budget-append :
    (retry : ℕ) (cells more : List (Cell Nb))
    → budget retry (cells ++ more) ≡ budget retry cells + budget retry more
budget-append retry [] more = omega arith
budget-append retry (c ∷ cells) more = omega (arith, budget-append retry cells more)

-- What became of the cell in the middle: it has one attempt less, or is gone.
pub record Spent (retry : ℕ) (before : List (Cell Nb)) (c : Cell Nb) (cells : List (Cell Nb))
    (nbl : ColumnList Nb) : Type 0 where
  pub queue : IsQueue nbl
  pub left : List (Cell Nb)
  pub whole : nbl.cells ≡ before ++ (left ++ cells)
  pub tried : Tried retry left
  pub less : budget retry left + 1 ≤ budget retry (c ∷ [])

module _ (cfg : NetConfig) (positive : 0 < cfg.send_retry) (before : List (Cell Nb)) (c : Cell Nb)
    (cells : List (Cell Nb)) (tried : c.item.attempt ≤ cfg.send_retry) where
  attempts-Spent :
      (nbl : ColumnList Nb)
      → IsQueue nbl
      → nbl.cells ≡ before ++ c ∷ cells
      → (r : ColumnList Nb × Bool) × (attempts cfg nbl c ≡ ok r)
        × Spent cfg.send_retry before c cells r.0
  unfolding attempts
  attempts-Spent nbl v whole =
      let nbl1 : ColumnList Nb = record nbl { cells = modify_cell c.li bump nbl.cells } in
      let v1 : IsQueue nbl1 = modify_cell-IsIndexed pidx_tidx key_of bump (λ x. refl) nbl c.li v in
      let c1 : Cell Nb = record c { item = bump c.item } in
      let whole1 : nbl1.cells ≡ before ++ c1 ∷ cells =
        ap (modify_cell c.li bump) whole
        ∙ modify_cell-middle pidx_tidx key_of bump (λ x. refl) nbl.unused before c cells
            (subst (Ordered pidx_tidx key_of nbl.unused) whole v.ordered) in
      let some_ : (cfg.send_retry == 0) ≡ false = ground arith in
      elim (Bool-cases (ltb cfg.send_retry (c.item.attempt + 1))) [
        | inl last ↦
            let (nbl2, e, v2, taken) = ack-without no_tasks nbl1 c.item.tidx c.item.pidx refl v1 in
            (
              (nbl2, true),
              rw (attempts, some_, last, e),
              record {
                queue = v2;
                left = [];
                whole =
                    taken
                    ∙ ap (without pidx_tidx key_of (key_of c.item)) whole1
                    ∙ without-middle pidx_tidx key_of nbl.unused before c1 cells
                        (subst (Ordered pidx_tidx key_of nbl.unused) whole1 v1.ordered);
                tried = tt;
                less = omega arith;
              },
            )
        | inr more ↦ (
          (nbl1, not (cfg.sendtable (c.item.attempt % cfg.send_retry))),
          rw (attempts, some_, more),
          record {
            queue = v1;
            left = c1 ∷ [];
            whole = whole1;
            tried = (ground arith, tt);
            less = ground arith;
          },
        )
      ]

  pub dispatch_item-Spent :
      (s : Sending)
      → IsQueue s.nbl
      → s.nbl.cells ≡ before ++ c ∷ cells
      → (r : Sending × Bool) × (dispatch_item cfg c s ≡ ok r)
        × Spent cfg.send_retry before c cells r.0.nbl
  unfolding dispatch_item
  dispatch_item-Spent s v whole =
      let ((nbl, skip), e, spent) = attempts-Spent s.nbl v whole in
      elim (Bool-cases skip) [
        | inl skipped ↦ ((record s { nbl = nbl }, false), rw (e, skipped), spent)
        | inr due ↦
            let out = update cfg.clock cfg.upload (length c.item.buffer) s.traffic in
            elim (Bool-cases out.1) [
              | inl full ↦
                  ((record s { nbl = nbl; traffic = out.0 }, true), rw (e, due, full), spent)
              | inr room ↦ (
                (record { nbl = nbl; traffic = out.0; sent = s.sent ++ bump c.item ∷ [] }, false),
                rw (e, due, room),
                spent,
              )
            ]
      ]
