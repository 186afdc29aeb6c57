-- ===== src/Chain/Root/Laws.antt =====
-- The chain of a root: what is valid, and adding a block.
use eioie_client.Base.{
  ℕ, ◌≡◌, refl, sym, ◌∙◌, List, [], ◌∷◌, ◌++◌, memeq, eq→memeq, memeq-eq, true, ◌↔◌, ok, >>=-eq-ok,
  arith,
}
use eioie_client.Utils.Hex.{Sha256}
use eioie_client.Chain.Block
use eioie_client.Chain.Block.{Block}
use eioie_client.Chain.Root.{Root, base_hash, init, blocks_add, validate_loop, validate}

-- The proof of work of the last block, or `prev`.
unfoldable pub top : List ℕ → List Block → List ℕ
top prev [] = prev
top prev (b ∷ bs) = top b.pow bs

pub top-append_cons :
    (prev : List ℕ) (bs : List Block) (b : Block) (cs : List Block)
    → top prev (bs ++ b ∷ cs) ≡ top b.pow cs
unfolding top
top-append_cons prev [] b cs = refl
top-append_cons prev (c ∷ bs) b cs = top-append_cons c.pow bs b cs

module _ (sha : Sha256) (print_double : ℕ → List ℕ) (stack : List ℕ) (nmt : ℕ) where
  -- Every block is valid and continues the one before it, the first `prev`.
  unfoldable pub IsChain : List ℕ → List Block → Type 0
  IsChain prev [] = Unit
  IsChain prev (b ∷ bs) =
      (b.prev ≡ prev) × (Block.validate sha print_double stack nmt b ≡ ok true) × IsChain b.pow bs

  validate_loop_complete :
      (prev : List ℕ) (bs : List Block)
      → IsChain prev bs
      → validate_loop sha print_double stack nmt prev bs ≡ ok true
  unfolding validate_loop IsChain
  validate_loop_complete prev [] v = refl
  validate_loop_complete prev (b ∷ bs) (link, valid, vs) =
      rw (eq→memeq prev b.prev (sym link), valid) (validate_loop_complete b.pow bs vs)

  validate_loop_sound :
      (prev : List ℕ) (bs : List Block)
      → validate_loop sha print_double stack nmt prev bs ≡ ok true
      → IsChain prev bs
  unfolding validate_loop IsChain
  validate_loop_sound prev [] e = tt
  validate_loop_sound prev (b ∷ bs) e =
      let same : memeq prev b.prev ≡ true = ground arith in
      let link = memeq-eq prev b.prev same in
      let run = rw same at e in
      let (valid, ran, e1) = >>=-eq-ok (Block.validate sha print_double stack nmt b) _ run in
      let yes : valid ≡ true = ground arith in
      (sym link, ran ∙ rw yes, validate_loop_sound b.pow bs (ground arith))

  -- `validate` accepts a root exactly when every block is valid, the first follows the base hash,
  -- and each other one the proof of work of the block before it.
  pub validate_iff_IsChain :
      (r : Root) → (validate sha print_double stack nmt r ≡ ok true) ↔ IsChain base_hash r.blocks
  unfolding validate
  validate_iff_IsChain r =
      (validate_loop_sound base_hash r.blocks, validate_loop_complete base_hash r.blocks)

  -- The root is valid, and its hash is the proof of work that the next block has to follow.
  pub record IsRoot (r : Root) : Type 0 where
    pub chain : IsChain base_hash r.blocks
    pub head : r.hash ≡ top base_hash r.blocks

  IsChain-append :
      (prev : List ℕ) (bs : List Block) (b : Block)
      → IsChain prev bs
      → b.prev ≡ top prev bs
      → Block.validate sha print_double stack nmt b ≡ ok true
      → IsChain prev (bs ++ b ∷ [])
  unfolding IsChain top
  IsChain-append prev [] b v link valid = (link, valid, tt)
  IsChain-append prev (c ∷ bs) b (first, ok_c, vs) link valid =
      (first, ok_c, IsChain-append c.pow bs b vs link valid)

  -- The empty root is well formed.
  pub init-IsRoot : IsRoot init
  unfolding init IsChain top
  init-IsRoot = record { chain = tt; head = refl }

  -- A valid block that follows the root's hash keeps the root well formed.
  pub blocks_add-IsRoot :
      (r : Root) (b : Block)
      → IsRoot r
      → b.prev ≡ r.hash
      → Block.validate sha print_double stack nmt b ≡ ok true
      → IsRoot (blocks_add r b)
  unfolding blocks_add top
  blocks_add-IsRoot r b v link valid = record {
    chain = IsChain-append base_hash r.blocks b v.chain (link ∙ v.head) valid;
    head = sym (top-append_cons base_hash r.blocks b []);
  }
