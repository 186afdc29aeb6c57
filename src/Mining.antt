-- ===== src/Mining.antt =====
-- The mining thread of src/distfs.c, and the commands that look at it.
pub mod Steps
pub mod Single
pub mod Parts
pub mod Reached
use eioie_client.Base.{
  ℕ, List, [], ◌∷◌, ◌++◌, length, take, memeq, ltb, ◌==◌, Bool, true, false, Option, none, some,
  Run, ok, fail, fault, ◌>>=◌, if◌then◌else◌,
}
use eioie_client.Utils.Hex.{Sha256}
use eioie_client.Chain.Text.{cstr}
use eioie_client.Chain.Transaction
use eioie_client.Chain.Transaction.{Transaction}
use eioie_client.Chain.Block
use eioie_client.Chain.Block.{Block}
use eioie_client.Chain.Root
use eioie_client.Chain.Root.{Root, base_hash}
use eioie_client.Group.{Group}

-- Where a thread that runs `mine` is: at its beginning, with a locked block, or with the block in
-- the root.
pub data Phase : Type 0 where
  begun added : Phase
  working : Block → Phase

-- `struct distfs_s`, and the threads that run `mine`. `state` and `newblock` are those of `mining`.
pub record Dfs : Type 0 where
  pub local : Root
  pub remote : Group
  pub file : List ℕ
  pub transactions : List Transaction
  pub state : Bool
  pub newblock : Bool
  pub threads : List Phase

-- What a command leaves: the state, `*dfserr`, and whether it returned 0.
pub record Reply : Type 0 where
  pub dfs : Dfs
  pub dfserr : ℕ
  pub zero : Bool

-- `transaction_locked` and `dfs_block_mining`.
unfoldable pub transaction_locked : Dfs → Bool
transaction_locked d = if d.state then true else false

-- The end of `dfs_transaction_add`, with what `transaction.init` wrote.
unfoldable pub listed : Dfs → ℕ → Run Transaction → Reply
listed d err (ok t) = record {
  dfs = record d { transactions = d.transactions ++ t ∷ [] };
  dfserr = err;
  zero = true;
}
listed d err fail = record { dfs = d; dfserr = err; zero = false }
listed d err fault = record { dfs = d; dfserr = err; zero = false }

-- `dfs_transaction_add`, where `transaction.init` gives `made`. It leaves `*dfserr` as it was where
-- a block is being mined.
unfoldable pub dfs_transaction_add : Run Transaction → ℕ → Dfs → Reply
unfolding transaction_locked listed
dfs_transaction_add made err d =
    if ltb 0 (length d.transactions)
    then record { dfs = d; dfserr = 1; zero = true }
    else if transaction_locked d
    then record { dfs = d; dfserr = err; zero = true }
    else listed d err made

-- The transaction of the file that `group.find.transaction` finds, its `parent`.
unfoldable pub find_parent : List Transaction → List ℕ → Run (Option Transaction)
find_parent [] h = ok none
find_parent (t ∷ ts) h =
    let rest = find_parent ts h in
    (Transaction.find t h >>= λ found. elim found [ none ↦ rest | some f ↦ ok (some t) ])

unfoldable pub find_block : List Block → List ℕ → Run (Option Transaction)
unfolding find_parent
find_block [] h = ok none
find_block (b ∷ bs) h =
    let rest = find_block bs h in
    (find_parent b.transactions h >>= λ found. elim found [ none ↦ rest | some t ↦ ok (some t) ])

unfoldable pub find_shared : Group → List ℕ → Run (Option Transaction)
unfolding find_block
find_shared [] h = ok none
find_shared (m ∷ g) h =
    let rest = find_shared g h in
    (find_block m.root.blocks h >>= λ found. elim found [ none ↦ rest | some t ↦ ok (some t) ])

module _ (through : Transaction → Run Transaction) where
  -- The end of `dfs_transaction_share`: the transaction goes through JSON.
  unfoldable pub shared : Dfs → ℕ → Run (Option Transaction) → Reply
  unfolding listed
  shared d err (ok none) = record { dfs = d; dfserr = 3; zero = true }
  shared d err (ok (some t)) = listed d err (through t)
  shared d err fail = record { dfs = d; dfserr = err; zero = false }
  shared d err fault = record { dfs = d; dfserr = err; zero = false }

  -- `dfs_transaction_share` of a hash of 64 characters.
  unfoldable pub dfs_transaction_share : List ℕ → ℕ → Dfs → Reply
  unfolding transaction_locked find_shared shared
  dfs_transaction_share hash err d =
      if ltb 0 (length d.transactions)
      then record { dfs = d; dfserr = 1; zero = true }
      else if transaction_locked d
      then record { dfs = d; dfserr = 2; zero = true }
      else shared d err (find_shared d.remote hash)

  -- The callback of `mine` on the list of transactions.
  unfoldable pub add_transactions : Block → List Transaction → Run Block
  add_transactions b [] = ok b
  add_transactions b (t ∷ ts) =
      through t >>= λ copy. add_transactions (Block.transactions_add b copy) ts

-- `dfs_block_mine`; `created` says whether `pthread_create` returns 0.
unfoldable pub dfs_block_mine : (created : Bool) → ℕ → Dfs → Reply
dfs_block_mine created err d =
    if d.state
    then record { dfs = d; dfserr = 1; zero = true }
    else if ltb (length d.transactions) 1
    then record { dfs = d; dfserr = 2; zero = true }
    else (let begins : Dfs = record d { state = true } in
        if created
        then record {
          dfs = record begins { threads = begins.threads ++ Phase.begun ∷ [] };
          dfserr = err;
          zero = true;
        }
        else record { dfs = begins; dfserr = err; zero = false })

-- The test of `dfs_block_xet` before it advertises: whether it goes on.
unfoldable pub take_newblock : ℕ → Dfs → Reply × Bool
take_newblock err d =
    if d.newblock
    then (record { dfs = record d { newblock = false }; dfserr = err; zero = true }, true)
    else (record { dfs = d; dfserr = 1; zero = true }, false)

-- `mine_thread_fail`.
unfoldable pub mine_thread_fail : Dfs → Dfs × List Phase
mine_thread_fail d = (record d { state = false }, [])

-- The end of `mine_block_file`: the file has the name of the root's hash, and is written.
unfoldable pub save_block_file : (saves : List ℕ → Bool) → Dfs → Dfs × Bool
save_block_file saves d = (record d { file = d.local.hash }, saves d.local.hash)

-- `mine_block_file`: the names are those of files in `cfg.dir.block`, and `removes` and `saves` say
-- for which `remove` and `root.data.save.file` return 0.
unfoldable pub mine_block_file : (removes saves : List ℕ → Bool) → Dfs → Dfs × Bool
unfolding save_block_file
mine_block_file removes saves d =
    if ltb 0 (length (cstr 64 d.file))
    then (if removes d.file then save_block_file saves d else (d, false))
    else save_block_file saves d

-- `mine` behind the file of the block.
unfoldable pub finished : Dfs × Bool → Dfs × List Phase
unfolding mine_thread_fail
finished (d, true) = (record d { state = false; newblock = true }, [])
finished (d, false) = mine_thread_fail d

-- The hash that a new block follows.
abbrev pub prev_block : Root → List ℕ
prev_block r = if length r.blocks == 0 then base_hash else r.hash

-- What is left behind `block.transactions.lock`.
unfoldable pub locked : Dfs → Run Block → Dfs × List Phase
unfolding mine_thread_fail
locked d (ok b) = (d, Phase.working b ∷ [])
locked d fail = mine_thread_fail d
locked d fault = mine_thread_fail d

-- `list.clean` and `block.transactions.lock`, behind the list's way into the block.
unfoldable pub collected : Sha256 → Dfs → Run Block → Dfs × List Phase
unfolding mine_thread_fail locked
collected sha d (ok b) = locked (record d { transactions = [] }) (Block.transactions_lock sha b)
collected sha d fail = mine_thread_fail d
collected sha d fault = mine_thread_fail d

-- `root.blocks.add`, behind `block.mine`.
unfoldable pub mined : Dfs → Block → Run (Option Block) → Dfs × List Phase
unfolding mine_thread_fail
mined d b (ok none) = (d, Phase.working b ∷ [])
mined d b (ok (some b')) = (record d { local = Root.blocks_add d.local b' }, Phase.added ∷ [])
mined d b fail = mine_thread_fail d
mined d b fault = mine_thread_fail d

-- The parts of `mine`, between which the other threads run: up to `block.transactions.lock`, up to
-- `root.blocks.add`, and the rest. The second part lasts as many rounds as `block.mine` needs.
unfoldable pub mine_part :
    Sha256
    → (Transaction → Run Transaction)
    → (nmt rounds : ℕ) → (removes saves : List ℕ → Bool) → Phase
    → Dfs
    → Dfs × List Phase
unfolding collected add_transactions mined mine_block_file finished
mine_part sha through nmt rounds removes saves Phase.begun d =
    collected sha d (add_transactions through (Block.init (prev_block d.local)) d.transactions)
mine_part sha through nmt rounds removes saves (Phase.working b) d =
    mined d b (Block.mine sha nmt rounds b)
mine_part sha through nmt rounds removes saves Phase.added d =
    finished (mine_block_file removes saves d)
