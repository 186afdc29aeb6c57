-- ===== src/Chain/Root/Merge.antt =====
-- Merging two roots: one that continues the other, and two that differ in their last blocks.
use eioie_client.Base.{
  ℕ, ◌+◌, ◌≡◌, refl, sym, ap, ◌∙◌, List, [], ◌∷◌, ◌++◌, length, drop, ltb, memeq_refl, le→leb,
  lt→ltb, ge→ltb, ◌==◌, ==_refl, ◌&&◌, true, false, Run, ok, arith, if◌then◌else◌, append_assoc,
  append-nil, length-append, drop-append,
}
use eioie_client.Utils.Hex.{Sha256}
use eioie_client.Chain.Block
use eioie_client.Chain.Block.{Block, Winner, neither, dst, src}
use eioie_client.Chain.Root.{
  Root, base_hash, blocks_add, Diff, compare_loop, require_valid, compare, canmerge, append_all,
  extend, merge,
}
use eioie_client.Chain.Root.Laws.{top, top-append_cons, IsChain, validate_iff_IsChain, IsRoot}

compare_refl : (b : Block) → Block.compare b b ≡ ok (true, dst)
unfolding Block.compare
compare_refl b = rw (
  memeq_refl b.prev,
  memeq_refl b.locked,
  memeq_refl b.pow,
  le→leb (length b.transactions) (length b.transactions) (omega arith),
)

-- A common prefix is compared to its end, whatever the chains have behind it.
pub compare_loop-append :
    (i : ℕ) (w : Winner) (bs ds ss : List Block)
    → (w' : Winner) × (compare_loop i w (bs ++ ds) (bs ++ ss)
        ≡ compare_loop (i + length bs) w' ds ss)
unfolding compare_loop
compare_loop-append i w [] ds ss = let e : i + 0 ≡ i = omega arith in (w, rw e)
compare_loop-append i w (b ∷ bs) ds ss =
    let (w', e) = compare_loop-append (i + 1) dst bs ds ss in
    let count : i + 1 + length bs ≡ i + length (b ∷ bs) = omega arith in
    (w', rw (compare_refl b, ← count) e)

append_all_lem :
    (transfer : Block → Run Block)
    → ((b : Block) → transfer b ≡ ok b)
    → (r : Root) (bs : List Block)
    → append_all transfer r bs ≡ ok (record { hash = top r.hash bs; blocks = r.blocks ++ bs })
unfolding append_all top blocks_add
append_all_lem transfer whole r [] = rw (append-nil r.blocks)
append_all_lem transfer whole r (b ∷ bs) =
    rw (whole b)
      (append_all_lem transfer whole (blocks_add r b) bs ∙ rw (append_assoc r.blocks (b ∷ []) bs))

module _ (sha : Sha256) (print_double : ℕ → List ℕ) (stack : List ℕ) (nmt : ℕ) where
  -- A chain's beginning is a chain.
  IsChain-prefix :
      (prev : List ℕ) (bs cs : List Block)
      → IsChain sha print_double stack nmt prev (bs ++ cs)
      → IsChain sha print_double stack nmt prev bs
  unfolding IsChain
  IsChain-prefix prev [] cs v = tt
  IsChain-prefix prev (b ∷ bs) cs (link, valid, vs) = (link, valid, IsChain-prefix b.pow bs cs vs)

  require_valid_lem :
      (r : Root)
      → IsChain sha print_double stack nmt base_hash r.blocks
      → require_valid sha print_double stack nmt r ≡ ok tt
  unfolding require_valid
  require_valid_lem r v = rw ((validate_iff_IsChain sha print_double stack nmt r).1 v)

  -- `compare` behind its two calls of `validate`.
  pub compare_lem :
      (d s : Root) (r : Diff)
      → IsChain sha print_double stack nmt base_hash d.blocks
      → IsChain sha print_double stack nmt base_hash s.blocks
      → compare_loop 0 neither d.blocks s.blocks ≡ ok r
      → compare sha print_double stack nmt d s
        ≡ ok (
            if r.equal && (if length d.blocks == length s.blocks then false else true)
            then record r {
              equal = false;
              winner = if ltb (length s.blocks) (length d.blocks) then dst else src;
            }
            else r)
  unfolding compare
  compare_lem d s r vd vs e = rw (require_valid_lem d vd, require_valid_lem s vs, e)

  -- Roots of the same blocks compare as equal.
  pub compare_same :
      (d s : Root)
      → d.blocks ≡ s.blocks
      → IsChain sha print_double stack nmt base_hash s.blocks
      → (r : Diff) × (r.equal ≡ true) × (compare sha print_double stack nmt d s ≡ ok r)
  unfolding compare_loop
  compare_same d s e v =
      let (w, same) = compare_loop-append 0 neither s.blocks [] [] in
      let loop = rw (append-nil s.blocks) at same in
      let r : Diff = record { equal = true; winner = w; blockidx = 0 + length s.blocks } in
      (r, refl, compare_lem d s r (rw e v) v (rw e loop) ∙ rw (e, ==_refl (length s.blocks)))

  -- A chain and its continuation.
  compare_shorter :
      (d s : Root) (b : Block) (bs : List Block)
      → s.blocks ≡ d.blocks ++ b ∷ bs
      → IsChain sha print_double stack nmt base_hash s.blocks
      → compare sha print_double stack nmt d s
        ≡ ok (record { equal = false; winner = src; blockidx = length d.blocks })
  unfolding compare_loop
  compare_shorter d s b bs e v =
      let (w, same) = compare_loop-append 0 neither d.blocks [] (b ∷ bs) in
      let loop = rw (append-nil d.blocks) at same in
      let size : length s.blocks ≡ length d.blocks + (1 + length bs) =
        ap length e ∙ length-append {0} d.blocks (b ∷ bs) ∙ omega arith in
      let differ : (length d.blocks == length s.blocks) ≡ false = ground arith in
      let count : 0 + length d.blocks ≡ length d.blocks = omega arith in
      compare_lem d s (record { equal = true; winner = w; blockidx = 0 + length d.blocks })
        (IsChain-prefix base_hash d.blocks (b ∷ bs) (rw e at v)) v (rw e loop)
      ∙ rw (differ, ge→ltb (length s.blocks) (length d.blocks) (omega arith), count)

  compare_longer :
      (d s : Root) (b : Block) (bs : List Block)
      → d.blocks ≡ s.blocks ++ b ∷ bs
      → IsChain sha print_double stack nmt base_hash d.blocks
      → compare sha print_double stack nmt d s
        ≡ ok (record { equal = false; winner = dst; blockidx = length s.blocks })
  unfolding compare_loop
  compare_longer d s b bs e v =
      let (w, same) = compare_loop-append 0 neither s.blocks (b ∷ bs) [] in
      let loop = rw (append-nil s.blocks) at same in
      let size : length d.blocks ≡ length s.blocks + (1 + length bs) =
        ap length e ∙ length-append {0} s.blocks (b ∷ bs) ∙ omega arith in
      let differ : (length d.blocks == length s.blocks) ≡ false = ground arith in
      let count : 0 + length s.blocks ≡ length s.blocks = omega arith in
      compare_lem d s (record { equal = true; winner = w; blockidx = 0 + length s.blocks }) v
        (IsChain-prefix base_hash s.blocks (b ∷ bs) (rw e at v)) (rw e loop)
      ∙ rw (differ, lt→ltb (length s.blocks) (length d.blocks) (omega arith), count)

  -- What a root of the same blocks as a well-formed one is once its hash is the last block's.
  same_root :
      (d s : Root) (b : Block) (bs : List Block)
      → IsRoot sha print_double stack nmt s
      → s.blocks ≡ d.blocks ++ b ∷ bs
      → record { hash = top d.hash (b ∷ bs); blocks = d.blocks ++ b ∷ bs } ≡ s
  unfolding top
  same_root d s b bs v e =
      let head : top d.hash (b ∷ bs) ≡ s.hash =
        sym (v.head ∙ ap (top base_hash) e ∙ top-append_cons base_hash d.blocks b bs) in
      rw (head, ← e)

  module _ (transfer : Block → Run Block) (whole : (b : Block) → transfer b ≡ ok b) where
    -- If a well-formed root continues the destination, and blocks pass through JSON unchanged, the
    -- destination becomes equal to it.
    pub merge-shorter :
        (d s : Root) (b : Block) (bs : List Block)
        → IsRoot sha print_double stack nmt s
        → s.blocks ≡ d.blocks ++ b ∷ bs
        → merge sha print_double stack nmt transfer d s ≡ ok (s, s, true)
    unfolding merge canmerge extend
    merge-shorter d s b bs v e =
        let (r, equal, again) = compare_same s s refl v.chain in
        let rest = drop-append (length d.blocks) d.blocks (b ∷ bs) refl in
        let split : drop (length d.blocks) s.blocks ≡ b ∷ bs = rw e rest in
        rw (
          compare_shorter d s b bs e v.chain,
          ==_refl (length d.blocks),
          split,
          append_all_lem transfer whole d (b ∷ bs),
          same_root d s b bs v e,
          again,
          equal,
        )

    -- If the destination is well formed and continues the source, and blocks pass through JSON
    -- unchanged, the source becomes equal to it.
    pub merge-longer :
        (d s : Root) (b : Block) (bs : List Block)
        → IsRoot sha print_double stack nmt d
        → d.blocks ≡ s.blocks ++ b ∷ bs
        → merge sha print_double stack nmt transfer d s ≡ ok (d, d, true)
    unfolding merge canmerge extend
    merge-longer d s b bs v e =
        let (r, equal, again) = compare_same d d refl v.chain in
        let rest = drop-append (length s.blocks) s.blocks (b ∷ bs) refl in
        let split : drop (length s.blocks) d.blocks ≡ b ∷ bs = rw e rest in
        rw (
          compare_longer d s b bs e v.chain,
          ==_refl (length s.blocks),
          split,
          append_all_lem transfer whole s (b ∷ bs),
          same_root s d b bs v e,
          again,
          equal,
        )
