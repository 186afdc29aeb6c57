-- ===== src/Net/Drain.antt =====
-- Whatever the clock says and whichever packets are lost, the queue runs empty.
use eioie_client.Base.{
  ℕ, zero, suc, ◌+◌, ◌≤◌, ◌<◌, min, ◌≡◌, refl, sym, ◌∙◌, subst, List, [], ◌∷◌, ◌++◌, arith, length,
  Bool, true, false, Bool-cases, inl, inr, Run, ok, ◌>>=◌, append_assoc,
}
use eioie_client.Columns.{Cell, ColumnList}
use eioie_client.Net.{Nb, NetConfig, Sending, dispatch_item, dispatch_loop, dispatch}
use eioie_client.Net.Queue.{IsQueue}
use eioie_client.Net.Dispatch.{Tried, Tried-append, budget, budget-append, dispatch_item-Spent}

-- What a round leaves of the cells behind `before`.
record Left (retry : ℕ) (before cells : List (Cell Nb)) (nbl : ColumnList Nb) : Type 0 where
  queue : IsQueue nbl
  left : List (Cell Nb)
  whole : nbl.cells ≡ before ++ left
  tried : Tried retry left
  less : budget retry left + min 1 (length cells) ≤ budget retry cells

module _ (cfg : NetConfig) (positive : 0 < cfg.send_retry) where
  stops :
      (c : Cell Nb) (cells : List (Cell Nb)) (s s1 : Sending) (stop : Bool)
      → dispatch_item cfg c s ≡ ok (s1, stop)
      → stop ≡ true
      → dispatch_loop cfg (c ∷ cells) s ≡ ok s1
  unfolding dispatch_loop
  stops c cells s s1 true e here = rw e
  stops c cells s s1 false e here = cc

  goes_on :
      (c : Cell Nb) (cells : List (Cell Nb)) (s s1 : Sending) (stop : Bool)
      → dispatch_item cfg c s ≡ ok (s1, stop)
      → stop ≡ false
      → dispatch_loop cfg (c ∷ cells) s ≡ dispatch_loop cfg cells s1
  unfolding dispatch_loop
  goes_on c cells s s1 false e here = rw e
  goes_on c cells s s1 true e here = cc

  dispatch_loop-Left :
      (before cells : List (Cell Nb)) (s : Sending)
      → IsQueue s.nbl
      → s.nbl.cells ≡ before ++ cells
      → Tried cfg.send_retry cells
      → (s' : Sending) × (dispatch_loop cfg cells s ≡ ok s')
        × Left cfg.send_retry before cells s'.nbl
  unfolding dispatch_loop
  dispatch_loop-Left before [] s v whole t =
      (s, refl, record { queue = v; left = []; whole = whole; tried = tt; less = omega arith })
  dispatch_loop-Left before (c ∷ cells) s v whole t =
      let ((s1, stop), e, spent) = dispatch_item-Spent cfg positive before c cells t.0 s v whole in
      elim (Bool-cases stop) [
        | inl full ↦ (
          s1,
          stops c cells s s1 stop e full,
          record {
            queue = spent.queue;
            left = spent.left ++ cells;
            whole = spent.whole;
            tried = Tried-append cfg.send_retry spent.left cells spent.tried t.1;
            less = omega (arith, spent.less, budget-append cfg.send_retry spent.left cells);
          },
        )
        | inr room ↦
            let (s2, e2, rest) =
              dispatch_loop-Left (before ++ spent.left) cells s1 spent.queue
                (spent.whole ∙ sym (append_assoc before spent.left cells)) t.1 in
            (
              s2,
              goes_on c cells s s1 stop e room ∙ e2,
              record {
                queue = rest.queue;
                left = spent.left ++ rest.left;
                whole = rest.whole ∙ append_assoc before spent.left rest.left;
                tried = Tried-append cfg.send_retry spent.left rest.left spent.tried rest.tried;
                less = omega (
                  arith,
                  spent.less,
                  rest.less,
                  budget-append cfg.send_retry spent.left rest.left,
                );
              },
            )
      ]

-- As many rounds, each with its own clock and its own limit.
unfoldable pub rounds : ℕ → (ℕ → NetConfig) → Sending → Run Sending
unfolding dispatch
rounds zero cfg s = ok s
rounds (suc n) cfg s = dispatch (cfg n) s >>= λ s'. rounds n cfg s'

Tried-empty :
    (retry : ℕ) (cells : List (Cell Nb)) → Tried retry cells → budget retry cells ≤ 0 → cells ≡ []
Tried-empty retry [] t b = refl
Tried-empty retry (c ∷ cells) t b = let low = t.0 in absurd (omega arith)

-- A round that leaves something has spent an attempt.
less_of :
    (retry n : ℕ) (cells left : List (Cell Nb))
    → budget retry left + min 1 (length cells) ≤ budget retry cells
    → budget retry cells ≤ suc n
    → Tried retry cells
    → budget retry left ≤ n
less_of retry n [] left less enough t = omega arith
less_of retry n (c ∷ cells) left less enough t = omega arith

-- While no file waits to be sent, a queue whose buffers have not been tried too often is empty after as many rounds as there are
-- attempts left, and one more for each buffer: every round spends one, also if it is suspended.
pub rounds-eq-nil :
    (retry n : ℕ) (cfg : ℕ → NetConfig) (s : Sending)
    → 0 < retry
    → ((i : ℕ) → (cfg i).send_retry ≡ retry)
    → IsQueue s.nbl
    → Tried retry s.nbl.cells
    → budget retry s.nbl.cells ≤ n
    → (s' : Sending) × (rounds n cfg s ≡ ok s') × IsQueue s'.nbl × (s'.nbl.cells ≡ [])
unfolding rounds dispatch
rounds-eq-nil retry zero cfg s positive same v t enough =
    (s, refl, v, Tried-empty retry s.nbl.cells t enough)
rounds-eq-nil retry (suc n) cfg s positive same v t enough =
    let step : (s1 : Sending) × (dispatch_loop (cfg n) s.nbl.cells s ≡ ok s1)
        × Left retry [] s.nbl.cells s1.nbl =
      subst
        (λ r.
          (s1 : Sending) × (dispatch_loop (cfg n) s.nbl.cells s ≡ ok s1)
          × Left r [] s.nbl.cells s1.nbl)
        (same n)
        (dispatch_loop-Left (cfg n) (omega (arith, same n)) [] s.nbl.cells s v refl
          (subst (λ r. Tried r s.nbl.cells) (sym (same n)) t)) in
    let (s1, e, left) = step in
    let spent : budget retry s1.nbl.cells ≤ n =
      subst (λ cells. budget retry cells ≤ n) (sym left.whole)
        (less_of retry n s.nbl.cells left.left left.less enough t) in
    let (s', e2, v', empty) =
      rounds-eq-nil retry n cfg s1 positive same left.queue
        (subst (Tried retry) (sym left.whole) left.tried) spent in
    (s', rw e e2, v', empty)
