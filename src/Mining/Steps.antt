-- ===== src/Mining/Steps.antt =====
-- The mining thread and the commands of src/distfs.c in any order: at most one thread mines, and the
-- local root stays a chain of valid blocks.
use eioie_client.Base.{ℕ, ◌≤◌, ◌≡◌, List, [], ◌∷◌, ◌++◌, length, Bool, true, some, Run, ok}
use eioie_client.Utils.Hex.{Sha256}
use eioie_client.Chain.Transaction
use eioie_client.Chain.Transaction.{Transaction}
use eioie_client.Chain.Block
use eioie_client.Chain.Block.{Block}
use eioie_client.Chain.Block.Laws.{AllValid}
use eioie_client.Chain.Root.{Root}
use eioie_client.Chain.Root.Laws.{IsRoot}
use eioie_client.Mining.{
  Phase, Dfs, dfs_transaction_add, find_shared, dfs_transaction_share, dfs_block_mine,
  take_newblock, mine_part,
}

-- The threads behind a part of one of them.
abbrev pub goes_on : (before after : List Phase) → Dfs × List Phase → Dfs
goes_on before after r = record r.0 { threads = before ++ (r.1 ++ after) }

module _ (sha : Sha256) (print_double : ℕ → List ℕ) (stack : List ℕ) (nmt : ℕ)
    (through : Transaction → Run Transaction) where
  -- A command that returns, whatever it returns, or a part of a thread that runs. A transaction that
  -- is added or shared is a valid one.
  pub data Step (d : Dfs) : Dfs → Type 0 where
    add :
        (made : Run Transaction) (err : ℕ)
        → ((t : Transaction)
            → made ≡ ok t
            → Transaction.validate sha print_double stack t ≡ ok true)
        → Step d (dfs_transaction_add made err d).dfs
    share :
        (hash : List ℕ) (err : ℕ)
        → ((t : Transaction)
            → find_shared d.remote hash ≡ ok (some t)
            → Transaction.validate sha print_double stack t ≡ ok true)
        → Step d (dfs_transaction_share through hash err d).dfs
    begin : (created : Bool) (err : ℕ) → Step d (dfs_block_mine created err d).dfs
    advertise : (err : ℕ) → Step d (take_newblock err d).0.dfs
    part :
        (before after : List Phase) (p : Phase) (rounds : ℕ) (removes saves : List ℕ → Bool)
        → d.threads ≡ before ++ p ∷ after
        → Step d (goes_on before after (mine_part sha through nmt rounds removes saves p d))

  pub data Reach (d : Dfs) : Dfs → Type 0 where
    here : Reach d d
    next : {d1 d2 : Dfs} → Reach d d1 → Step d1 d2 → Reach d d2

  -- What a thread holds: a locked block that follows the root.
  pub record Holds (r : Root) (b : Block) : Type 0 where
    pub unlocked : Block
    pub valid : AllValid sha print_double stack unlocked.transactions
    pub single : length unlocked.transactions ≤ 1
    pub follows : unlocked.prev ≡ r.hash
    pub locks : Block.transactions_lock sha unlocked ≡ ok b

  abbrev pub IsPhase : Root → Phase → Type 0
  IsPhase r Phase.begun = Unit
  IsPhase r (Phase.working b) = Holds r b
  IsPhase r Phase.added = Unit

  -- No thread, or one while `state` is true.
  abbrev pub IsSingle : Bool → Root → List Phase → Type 0
  IsSingle state r [] = Unit
  IsSingle state r (p ∷ []) = (state ≡ true) × IsPhase r p
  IsSingle state r (p ∷ q ∷ ps) = ⊥

  pub record IsMining (d : Dfs) : Type 0 where
    pub root : IsRoot sha print_double stack nmt d.local
    pub few : length d.transactions ≤ 1
    pub valid : AllValid sha print_double stack d.transactions
    pub single : IsSingle d.state d.local d.threads
