-- ===== src/Mining/Reached.antt =====
-- Every state of the mining of src/distfs.c that is reached.
use eioie_client.Base.{
  ℕ, ◌≡◌, refl, List, [], ◌∷◌, ◌++◌, append-nil, Bool, Bool-cases, true, inl, inr, Run, ok,
}
use eioie_client.Utils.Hex.{Sha256}
use eioie_client.Chain.Transaction.{Transaction}
use eioie_client.Chain.Root.{Root}
use eioie_client.Mining.{Phase, Dfs, take_newblock}
use eioie_client.Mining.Steps.{Step, Reach, goes_on, IsPhase, IsSingle, IsMining}
use eioie_client.Mining.Single.{
  dfs_block_mine-IsMining, dfs_transaction_add-IsMining, dfs_transaction_share-IsMining,
}
use eioie_client.Mining.Parts.{IsLeft, mine_part-IsLeft}

module _ (sha : Sha256) (print_double : ℕ → List ℕ) (stack : List ℕ) (nmt : ℕ)
    (through : Transaction → Run Transaction) where
  -- A thread among those of which there is at most one is alone.
  record IsAlone (state : Bool) (r : Root) (before after : List Phase) (p : Phase) : Type 0 where
    before_nil : before ≡ []
    after_nil : after ≡ []
    on : state ≡ true
    phase : IsPhase sha print_double stack nmt through r p

  single-IsAlone :
      (state : Bool) (r : Root) (before after : List Phase) (p : Phase)
      → IsSingle sha print_double stack nmt through state r (before ++ p ∷ after)
      → IsAlone state r before after p
  single-IsAlone state r [] [] p (on, phase) = record {
    before_nil = refl;
    after_nil = refl;
    on = on;
    phase = phase;
  }
  single-IsAlone state r [] (q ∷ after) p single = absurd single
  single-IsAlone state r (x ∷ []) after p single = absurd single
  single-IsAlone state r (x ∷ y ∷ before) after p single = absurd single

  goes_on-IsMining :
      (r : Dfs × List Phase) (before after : List Phase)
      → (whole : (t : Transaction) → through t ≡ ok t) → before ≡ []
      → after ≡ []
      → IsLeft sha print_double stack nmt through whole r
      → IsMining sha print_double stack nmt through (goes_on before after r)
  goes_on-IsMining r before after whole e1 e2 left = record {
    root = left.root;
    few = left.few;
    valid = left.valid;
    single = rw (e1, e2, append-nil r.1) left.single;
  }

  module _ (whole : (t : Transaction) → through t ≡ ok t) where
    Step-IsMining :
        (d d' : Dfs)
        → IsMining sha print_double stack nmt through d
        → Step sha print_double stack nmt through d d'
        → IsMining sha print_double stack nmt through d'
    unfolding take_newblock
    Step-IsMining d _ v (Step.add made err valid) =
        dfs_transaction_add-IsMining sha print_double stack nmt through made err d v valid
    Step-IsMining d _ v (Step.share hash err valid) =
        dfs_transaction_share-IsMining sha print_double stack nmt through whole hash err d v valid
    Step-IsMining d _ v (Step.begin created err) =
        dfs_block_mine-IsMining sha print_double stack nmt through created err d v
    Step-IsMining d _ v (Step.advertise err) = elim (Bool-cases d.newblock) [
      | inl new ↦
          simp new (record { root = v.root; few = v.few; valid = v.valid; single = v.single })
      | inr old ↦ simp old v
    ]
    Step-IsMining d _ v (Step.part before after p rounds removes saves e) =
        let one = single-IsAlone d.state d.local before after p (rw e at v.single) in
        goes_on-IsMining _ before after whole one.before_nil one.after_nil (
          mine_part-IsLeft sha print_double stack nmt through whole rounds removes saves p d v
            one.on one.phase)

    -- If the way of a transaction through JSON changes nothing, and the transactions that are added or
    -- shared are valid, then from a state whose local root is well formed, which has at most one
    -- waiting transaction, a valid one, and at most one mining thread, no order of the commands and of
    -- the parts of the threads leads to a state that is not so: the local root is a chain of valid
    -- blocks that ends in its hash, and a second thread never runs.
    pub Reach-IsMining :
        (d d' : Dfs)
        → IsMining sha print_double stack nmt through d
        → Reach sha print_double stack nmt through d d'
        → IsMining sha print_double stack nmt through d'
    Reach-IsMining d _ v Reach.here = v
    Reach-IsMining d _ v (Reach.next {d1} {d2} before step) =
        Step-IsMining d1 d2 (Reach-IsMining d d1 v before) step
