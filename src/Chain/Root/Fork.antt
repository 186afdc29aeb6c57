-- ===== src/Chain/Root/Fork.antt =====
-- Roots that differ in their last blocks.
use eioie_client.Base.{
  ℕ, ◌+◌, ◌≡◌, ◌≢◌, refl, sym, ap, ◌∙◌, List, [], ◌∷◌, ◌++◌, length, drop, leb, memeq, memeq-eq,
  eq→memeq, ==_refl, true, false, Bool-cases, inl, inr, ◌⊎◌, Run, ok, fail, arith, length-append,
  drop-append, append-nil,
}
use eioie_client.Utils.Hex.{Sha256}
use eioie_client.Chain.Block
use eioie_client.Chain.Block.{Block, Winner, neither, dst, src}
use eioie_client.Chain.Root.{
  Root, base_hash, compare_loop, validate, compare, canmerge, append_all, extend, merge,
}
use eioie_client.Chain.Root.Laws.{top, IsChain, validate_iff_IsChain}
use eioie_client.Chain.Root.Merge.{compare_loop-append, compare_lem}

-- Blocks behind the same hash with different proofs of work are not equal, and one of them wins.
compare_fork :
    (x y : Block)
    → x.prev ≡ y.prev
    → x.pow ≢ y.pow
    → (Block.compare x y ≡ ok (false, dst)) ⊎ (Block.compare x y ≡ ok (false, src))
unfolding Block.compare
compare_fork x y e differ =
    let same = eq→memeq x.prev y.prev e in
    let other : memeq x.pow y.pow ≡ false = elim (Bool-cases (memeq x.pow y.pow)) [
      | inl equal ↦ absurd (differ (memeq-eq x.pow y.pow equal))
      | inr unequal ↦ unequal
    ] in
    elim (Bool-cases (leb (length y.transactions) (length x.transactions))) [
      | inl first ↦ inl (rw (same, other, first) (ground arith))
      | inr second ↦ inr (rw (same, other, second) (ground arith))
    ]

drop_all : {A : Type 0} (xs : List A) → drop (length xs) xs ≡ []
drop_all xs = ap (drop (length xs)) (sym (append-nil xs)) ∙ drop-append (length xs) xs [] refl

module _ (sha : Sha256) (print_double : ℕ → List ℕ) (stack : List ℕ) (nmt : ℕ) where
  last_prev :
      (prev : List ℕ) (bs : List Block) (b : Block)
      → IsChain sha print_double stack nmt prev (bs ++ b ∷ [])
      → b.prev ≡ top prev bs
  unfolding IsChain top
  last_prev prev [] b v = v.0
  last_prev prev (c ∷ bs) b v = last_prev c.pow bs b v.2

  -- Two valid roots of the same length that differ in nothing but their last blocks: `canmerge`
  -- takes the roots for mergeable, no block is appended, and `merge` returns -1.
  pub merge-fork :
      (transfer : Block → Run Block) (d s : Root) (bs : List Block) (x y : Block)
      → validate sha print_double stack nmt d ≡ ok true
      → validate sha print_double stack nmt s ≡ ok true
      → d.blocks ≡ bs ++ x ∷ []
      → s.blocks ≡ bs ++ y ∷ []
      → x.pow ≢ y.pow
      → merge sha print_double stack nmt transfer d s ≡ fail
  unfolding merge canmerge extend compare_loop append_all
  merge-fork transfer d s bs x y okd oks ed es differ =
      let vd = (validate_iff_IsChain sha print_double stack nmt d).0 okd in
      let vs = (validate_iff_IsChain sha print_double stack nmt s).0 oks in
      let prev =
        last_prev base_hash bs x (rw ed at vd) ∙ sym (last_prev base_hash bs y (rw es at vs)) in
      let (w', loop) = compare_loop-append 0 neither bs (x ∷ []) (y ∷ []) in
      let size_d : 0 + length bs + 1 ≡ length d.blocks =
        sym (ap length ed ∙ length-append {0} bs (x ∷ []) ∙ omega arith) in
      let size_s : 0 + length bs + 1 ≡ length s.blocks =
        sym (ap length es ∙ length-append {0} bs (y ∷ []) ∙ omega arith) in
      let compared : (w : Winner)
          → Block.compare x y ≡ ok (false, w)
          → compare sha print_double stack nmt d s
            ≡ ok (record { equal = false; winner = w; blockidx = 0 + length bs + 1 }) =
        λ w blocks.
          compare_lem sha print_double stack nmt d s
            (record { equal = false; winner = w; blockidx = 0 + length bs + 1 }) vd vs
            (rw (ed, es) (loop ∙ rw blocks)) in
      elim (compare_fork x y prev differ) [
        | inl blocks ↦
            let again = rw size_s at (compared dst blocks) in
            let same_size : length s.blocks ≡ length d.blocks = sym size_s ∙ size_d in
            rw (again, ==_refl (length s.blocks), same_size, drop_all d.blocks, again)
        | inr blocks ↦
            let again = rw size_d at (compared src blocks) in
            let same_size : length d.blocks ≡ length s.blocks = sym size_d ∙ size_s in
            rw (again, ==_refl (length d.blocks), same_size, drop_all s.blocks, again)
      ]
