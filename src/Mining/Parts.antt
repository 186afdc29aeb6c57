-- ===== src/Mining/Parts.antt =====
-- What the parts of the mining thread of src/distfs.c leave: a thread that is alone, and a chain of
-- valid blocks.
use eioie_client.Base.{
  ℕ, ◌≤◌, ◌≡◌, refl, sym, ap, ◌∙◌, List, [], ◌∷◌, ◌++◌, append-nil, append_assoc, length, ltb,
  arith, Bool, Bool-cases, true, false, Option, none, some, inl, inr, Run, ok, fail, fault,
}
use eioie_client.Utils.Hex.{Sha256}
use eioie_client.Chain.Text.{cstr}
use eioie_client.Chain.Transaction.{Transaction}
use eioie_client.Chain.Block
use eioie_client.Chain.Block.{Block}
use eioie_client.Chain.Block.Laws.{AllValid, transactions_lock_lem}
use eioie_client.Chain.Block.Mining.{mine_loop-hits, validate-mine}
use eioie_client.Chain.Root.{base_hash}
use eioie_client.Chain.Root.Laws.{IsRoot, blocks_add-IsRoot, top}
use eioie_client.Mining.{
  Phase, Dfs, add_transactions, mine_thread_fail, save_block_file, mine_block_file, finished,
  prev_block, locked, collected, mined, mine_part,
}
use eioie_client.Mining.Steps.{Holds, IsPhase, IsSingle, IsMining}

module _ (sha : Sha256) (print_double : ℕ → List ℕ) (stack : List ℕ) (nmt : ℕ)
    (through : Transaction → Run Transaction) (whole : (t : Transaction) → through t ≡ ok t) where
  -- The transactions go into the block as they are.
  add_transactions_lem :
      (b : Block) (ts : List Transaction)
      → add_transactions through b ts ≡ ok (record b { transactions = b.transactions ++ ts })
  unfolding add_transactions Block.transactions_add
  add_transactions_lem b [] = rw (append-nil b.transactions) refl
  add_transactions_lem b (t ∷ ts) = rw (whole t) (
      add_transactions_lem (Block.transactions_add b t) ts
      ∙ rw (append_assoc b.transactions (t ∷ []) ts) refl)

  prev_block-top :
      (hash : List ℕ) (bs : List Block)
      → hash ≡ top base_hash bs
      → prev_block (record { hash = hash; blocks = bs }) ≡ hash
  unfolding top
  prev_block-top hash [] e = sym e
  prev_block-top hash (b ∷ bs) e = ground arith

  -- What a part leaves, with the thread alone.
  pub record IsLeft (r : Dfs × List Phase) : Type 0 where
    pub root : IsRoot sha print_double stack nmt r.0.local
    pub few : length r.0.transactions ≤ 1
    pub valid : AllValid sha print_double stack r.0.transactions
    pub single : IsSingle sha print_double stack nmt through r.0.state r.0.local r.1

  fail-IsLeft :
      (d : Dfs) → IsMining sha print_double stack nmt through d → IsLeft (mine_thread_fail d)
  unfolding mine_thread_fail
  fail-IsLeft d v = record { root = v.root; few = v.few; valid = v.valid; single = tt }

  collected-IsLeft :
      (d : Dfs) (b : Block)
      → IsMining sha print_double stack nmt through d
      → d.state ≡ true
      → AllValid sha print_double stack b.transactions
      → length b.transactions ≤ 1
      → b.prev ≡ d.local.hash
      → IsLeft (collected sha d (ok b))
  unfolding collected locked AllValid
  collected-IsLeft d b v on valid few follows = rw (transactions_lock_lem) (record {
    root = v.root;
    few = omega arith;
    valid = tt;
    single = (
      on,
      record {
        unlocked = b;
        valid = valid;
        single = few;
        follows = follows;
        locks = transactions_lock_lem sha b;
      },
    );
  })

  begun-IsLeft :
      (d : Dfs)
      → IsMining sha print_double stack nmt through d
      → d.state ≡ true
      → IsLeft (
          collected sha d
            (add_transactions through (Block.init (prev_block d.local)) d.transactions))
  unfolding Block.init
  begun-IsLeft d v on = rw (add_transactions_lem) (
      collected-IsLeft d _ v on v.valid v.few
        (prev_block-top d.local.hash d.local.blocks v.root.head))

  -- What is found has the `prev` of the block before it was locked.
  mined-follows :
      (d : Dfs) (b b' : Block) (rounds : ℕ)
      → Holds sha print_double stack nmt through d.local b
      → Block.mine sha nmt rounds b ≡ ok (some b')
      → b'.prev ≡ d.local.hash
  unfolding Block.mine
  mined-follows d b b' rounds held e =
      let (k, found, hit) = mine_loop-hits sha nmt b rounds 0 b' e in
      let same : b.prev ≡ held.unlocked.prev =
        let l = transactions_lock_lem sha held.unlocked in let h = held.locks in cc in
      ap (λ x. x.prev) found ∙ (same ∙ held.follows)

  -- A block that is found is valid and follows the root.
  mined-IsLeft :
      (d : Dfs) (b : Block) (rounds : ℕ) (r : Run (Option Block))
      → IsMining sha print_double stack nmt through d
      → d.state ≡ true
      → Holds sha print_double stack nmt through d.local b
      → Block.mine sha nmt rounds b ≡ r
      → IsLeft (mined d b r)
  unfolding mined
  mined-IsLeft d b rounds (ok none) v on held e = record {
    root = v.root;
    few = v.few;
    valid = v.valid;
    single = (on, held);
  }
  mined-IsLeft d b rounds (ok (some b')) v on held e = record {
    root =
        blocks_add-IsRoot sha print_double stack nmt d.local b' v.root
          (mined-follows d b b' rounds held e)
          (validate-mine sha print_double stack nmt rounds held.unlocked b' held.valid held.single
            (rw (held.locks) e));
    few = v.few;
    valid = v.valid;
    single = (on, tt);
  }
  mined-IsLeft d b rounds fail v on held e = fail-IsLeft d v
  mined-IsLeft d b rounds fault v on held e = fail-IsLeft d v

  finished-IsLeft :
      (d : Dfs) (r : Dfs × Bool)
      → IsMining sha print_double stack nmt through r.0
      → IsLeft (finished r)
  unfolding finished
  finished-IsLeft d (d', true) v = record {
    root = v.root;
    few = v.few;
    valid = v.valid;
    single = tt;
  }
  finished-IsLeft d (d', false) v = fail-IsLeft d' v

  mine_block_file-IsMining :
      (removes saves : List ℕ → Bool) (d : Dfs)
      → IsMining sha print_double stack nmt through d
      → IsMining sha print_double stack nmt through (mine_block_file removes saves d).0
  unfolding mine_block_file save_block_file
  mine_block_file-IsMining removes saves d v =
      let saved : IsMining sha print_double stack nmt through (save_block_file saves d).0 = record {
        root = v.root;
        few = v.few;
        valid = v.valid;
        single = v.single;
      } in
      elim (Bool-cases (ltb 0 (length (cstr 64 d.file)))) [
        | inr new ↦ simp new saved
        | inl old ↦ elim (Bool-cases (removes d.file)) [
          | inl gone ↦ simp (old, gone) saved
          | inr kept ↦ simp (old, kept) v
        ]
      ]

  pub mine_part-IsLeft :
      (rounds : ℕ) (removes saves : List ℕ → Bool) (p : Phase) (d : Dfs)
      → IsMining sha print_double stack nmt through d
      → d.state ≡ true
      → IsPhase sha print_double stack nmt through d.local p
      → IsLeft (mine_part sha through nmt rounds removes saves p d)
  unfolding mine_part
  mine_part-IsLeft rounds removes saves Phase.begun d v on held = begun-IsLeft d v on
  mine_part-IsLeft rounds removes saves (Phase.working b) d v on held =
      mined-IsLeft d b rounds (Block.mine sha nmt rounds b) v on held refl
  mine_part-IsLeft rounds removes saves Phase.added d v on held =
      finished-IsLeft d (mine_block_file removes saves d)
        (mine_block_file-IsMining removes saves d v)
