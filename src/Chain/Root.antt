-- ===== src/Chain/Root.antt =====
-- `init`, `blocks_add`, `validate`, `compare`, `canmerge`, `merge` and `find` of src/root.c.
pub mod Laws
pub mod Merge
pub mod Fork
use eioie_client.Base.{
  ℕ, zero, suc, ◌+◌, List, [], ◌∷◌, ◌++◌, length, drop, replicate, ltb, memeq, ◌==◌, ◌&&◌, Bool,
  true, false, Option, none, some, Run, ok, fail, ◌>>=◌, if◌then◌else◌,
}
use eioie_client.Utils.Hex.{Sha256}
use eioie_client.Chain.Transaction.{File}
use eioie_client.Chain.Block
use eioie_client.Chain.Block.{Block, Winner, neither, dst, src}

-- `struct root_s`, without the owner's `pubkeyhash`, which only `dump` reads.
pub record Root : Type 0 where
  pub hash : List ℕ
  pub blocks : List Block

-- DISTFS_BASE_ROOT_HASH.
abbrev pub base_hash : List ℕ
base_hash = replicate 64 b'a'

unfoldable pub init : Root
init = record { hash = base_hash; blocks = [] }

unfoldable pub blocks_add : Root → Block → Root
blocks_add r b = record { hash = b.pow; blocks = r.blocks ++ b ∷ [] }

-- `enum root_merge_e`.
pub data Mergeable : Type 0 where
  not_needed possible impossible : Mergeable

-- `struct root_diff_s`, without the pointers, which are one of two pairs by the winner.
pub record Diff : Type 0 where
  pub equal : Bool
  pub winner : Winner
  pub blockidx : ℕ

-- The loop of `compare` from `i` on.
unfoldable pub compare_loop : ℕ → Winner → List Block → List Block → Run Diff
compare_loop i w [] ss = ok (record { equal = true; winner = w; blockidx = i })
compare_loop i w (d ∷ ds) [] = ok (record { equal = true; winner = w; blockidx = i })
compare_loop i w (d ∷ ds) (s ∷ ss) = Block.compare d s >>= λ r.
    let rest = compare_loop (i + 1) r.1 ds ss in
    if r.0 then rest else ok (record { equal = false; winner = r.1; blockidx = i + 1 })

-- `blocks_export` and `blocks_append` of the blocks from `diff.blockidx` on. `transfer` is a block
-- written to JSON and loaded again.
unfoldable pub append_all : (Block → Run Block) → Root → List Block → Run Root
append_all transfer r [] = ok r
append_all transfer r (b ∷ bs) = transfer b >>= λ b'. append_all transfer (blocks_add r b') bs

-- The roots after the loop of `merge`: the winner's blocks go to the other root.
unfoldable pub extend : (Block → Run Block) → Diff → Root → Root → Run (Root × Root)
extend transfer diff d s = elim diff.winner [
  | neither ↦ ok (d, s)
  | dst ↦ append_all transfer s (drop diff.blockidx d.blocks) >>= λ s'. ok (d, s')
  | src ↦ append_all transfer d (drop diff.blockidx s.blocks) >>= λ d'. ok (d', s)
]

module _ (sha : Sha256) (print_double : ℕ → List ℕ) (stack : List ℕ) (nmt : ℕ) where
  -- The loop of `validate` behind the block whose proof of work is `prev`.
  unfoldable pub validate_loop : List ℕ → List Block → Run Bool
  validate_loop prev [] = ok true
  validate_loop prev (b ∷ bs) =
      let rest = validate_loop b.pow bs in
      if memeq prev b.prev
      then (Block.validate sha print_double stack nmt b >>= λ valid.
          if valid then rest else ok false)
      else ok false

  unfoldable pub validate : Root → Run Bool
  validate r = validate_loop base_hash r.blocks

  -- A root that is not valid is an error.
  unfoldable pub require_valid : Root → Run (Unit {0})
  require_valid r = validate r >>= λ valid. if valid then ok tt else fail

  unfoldable pub compare : Root → Root → Run Diff
  compare local remote = do
    _ ← require_valid local
    _ ← require_valid remote
    diff ← compare_loop 0 neither local.blocks remote.blocks
    ok (
        if diff.equal && (if length local.blocks == length remote.blocks then false else true)
        then record diff {
          equal = false;
          winner = if ltb (length remote.blocks) (length local.blocks) then dst else src;
        }
        else diff)

  unfoldable pub canmerge : Root → Root → Run (Diff × Mergeable)
  canmerge d s = do
    diff ← compare d s
    ok (
      diff,
      if diff.equal then not_needed else elim diff.winner [
        | neither ↦ impossible
        | dst ↦ if diff.blockidx == length s.blocks then possible else impossible
        | src ↦ if diff.blockidx == length d.blocks then possible else impossible
      ],
    )

  -- `merge`: the roots and `*merged`.
  unfoldable pub merge : (Block → Run Block) → Root → Root → Run (Root × Root × Bool)
  merge transfer d s =
      let finish : Root → Root → Run (Root × Root × Bool) =
        λ d' s'. compare d' s' >>= λ diff. if diff.equal then ok (d', s', true) else fail in
      canmerge d s >>= λ r. elim r.1 [
        | not_needed ↦ finish d s
        | impossible ↦ ok (d, s, false)
        | possible ↦ extend transfer r.0 d s >>= λ e. finish e.0 e.1
      ]

unfoldable pub find_loop : List Block → List ℕ → Run (Option File)
find_loop [] h = ok none
find_loop (b ∷ bs) h =
    let rest = find_loop bs h in
    (Block.find b h >>= λ found. elim found [ none ↦ rest | some f ↦ ok (some f) ])

unfoldable pub find : Root → List ℕ → Run (Option File)
find r h = find_loop r.blocks h
