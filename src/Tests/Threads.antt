-- ===== src/Tests/Threads.antt =====
-- A transaction that is added and mined.
use eioie_client.Base.{◌≡◌, refl, subst, [], ◌∷◌, arith, true, false, Run, ok, replicate}
use eioie_client.Chain.Block.Laws.{AllValid}
use eioie_client.Chain.Transaction
use eioie_client.Chain.Transaction.{Transaction}
use eioie_client.Chain.Root
use eioie_client.Chain.Root.Laws.{init-IsRoot}
use eioie_client.Mining.{
  Dfs, Phase, dfs_transaction_add, transaction_locked, listed, dfs_block_mine, mine_part,
}
use eioie_client.Mining.Steps.{Step, Reach, IsMining, goes_on}
use eioie_client.Mining.Reached.{Reach-IsMining}
use eioie_client.Tests.Sample.{sha, print_double}
use eioie_client.Tests.Blocks.{transfer_of, valid_transfer}

abbrev empty_dfs : Dfs
empty_dfs = record {
  local = Root.init;
  remote = [];
  file = replicate 64 0;
  transactions = [];
  state = false;
  newblock = false;
  threads = [];
}

abbrev through : Transaction → Run Transaction
through t = ok t

abbrev with_transaction : Dfs
with_transaction = (dfs_transaction_add (ok transfer_of) 0 empty_dfs).dfs

abbrev with_thread : Dfs
with_thread = (dfs_block_mine true 0 with_transaction).dfs

abbrev with_block : Dfs
with_block =
    goes_on [] [] (mine_part sha through 1 3 (λ f. true) (λ f. true) Phase.begun with_thread)

one_thread : with_thread.threads ≡ Phase.begun ∷ []
unfolding dfs_transaction_add dfs_block_mine transaction_locked listed
one_thread = refl

added_valid :
    (t : Transaction)
    → ◌≡◌ {A = Run Transaction} (ok transfer_of) (ok t)
    → Transaction.validate sha print_double [] t ≡ ok true
added_valid t e =
    let same : transfer_of ≡ t = cc in
    subst (λ x. Transaction.validate sha print_double [] x ≡ ok true) same valid_transfer

history : Reach sha print_double [] 1 through empty_dfs with_block
history =
    Reach.next
      (Reach.next (Reach.next Reach.here (Step.add (ok transfer_of) 0 added_valid))
        (Step.begin true 0))
      (Step.part [] [] Phase.begun 3 (λ f. true) (λ f. true) one_thread)

empty_dfs-IsMining : IsMining sha print_double [] 1 through empty_dfs
unfolding AllValid
empty_dfs-IsMining = record {
  root = init-IsRoot sha print_double [] 1;
  few = omega arith;
  valid = tt;
  single = tt;
}

Reach-IsMining_example : IsMining sha print_double [] 1 through with_block
Reach-IsMining_example =
    Reach-IsMining sha print_double [] 1 through (λ t. refl) empty_dfs with_block empty_dfs-IsMining
      history
