-- ===== src/Tests/Roots.antt =====
-- Roots, and merging them.
use eioie_client.Base.{ℕ, ◌≡◌, refl, [], ◌∷◌, memeq, eq→memeq, ok, fail, true, false, ◌↔◌}
use eioie_client.Utils.Hex.{sha256hex, hex_byte, hex_digit, hex_loop, bin2hexstr}
use eioie_client.Utils.Hex.Bounds.{hex}
use eioie_client.Chain.Text.{cstr, print_signed, digits, hash_text, text_digest}
use eioie_client.Chain.Block
use eioie_client.Chain.Block.{Block}
use eioie_client.Chain.Block.Laws.{pow_digest}
use eioie_client.Chain.Root
use eioie_client.Chain.Root.{Root, base_hash}
use eioie_client.Chain.Root.Laws.{
  IsChain, IsRoot, init-IsRoot, top, validate_iff_IsChain, blocks_add-IsRoot,
}
use eioie_client.Chain.Root.Merge.{merge-shorter}
use eioie_client.Chain.Root.Fork.{merge-fork}
use eioie_client.Group.{Member, compare}
use eioie_client.Group.Laws.{compare-has_all, has_all}
use eioie_client.Tests.Sample.{sum_sha, print_double}

-- An empty block behind the base hash, mined at a nonce.
abbrev block_at : ℕ → Block
block_at nonce = record {
  prev = base_hash;
  locked = base_hash;
  nonce = nonce;
  pow = pow_digest sum_sha nonce base_hash base_hash;
  transactions = [];
}

valid_block : Block.validate sum_sha print_double [] 1 (block_at 0) ≡ ok true
unfolding Block.validate Block.hash_calc hash_text text_digest sha256hex bin2hexstr hex_loop hex
    hex_byte hex_digit memeq cstr digits print_signed Block.validate_loop
valid_block = refl

other_block : Block.validate sum_sha print_double [] 1 (block_at 1) ≡ ok true
unfolding Block.validate Block.hash_calc hash_text text_digest sha256hex bin2hexstr hex_loop hex
    hex_byte hex_digit memeq cstr digits print_signed Block.validate_loop
other_block = refl

differ : memeq (block_at 0).pow (block_at 1).pow ≡ false
unfolding text_digest hex hex_byte hex_digit memeq cstr digits print_signed
differ = refl

abbrev root_of : Block → Root
root_of b = record { hash = b.pow; blocks = b ∷ [] }

sample-IsRoot : IsRoot sum_sha print_double [] 1 (root_of (block_at 0))
unfolding IsChain top
sample-IsRoot = record { chain = (refl, valid_block, tt); head = refl }

valid_root : Root.validate sum_sha print_double [] 1 (root_of (block_at 0)) ≡ ok true
unfolding IsChain
valid_root =
    (validate_iff_IsChain sum_sha print_double [] 1 (root_of (block_at 0))).1
      (refl, valid_block, tt)

other_root : Root.validate sum_sha print_double [] 1 (root_of (block_at 1)) ≡ ok true
unfolding IsChain
other_root =
    (validate_iff_IsChain sum_sha print_double [] 1 (root_of (block_at 1))).1
      (refl, other_block, tt)

validate_iff_IsChain_example :
    (Root.validate sum_sha print_double [] 1 (root_of (block_at 0)) ≡ ok true)
    ↔ IsChain sum_sha print_double [] 1 base_hash (block_at 0 ∷ [])
validate_iff_IsChain_example = validate_iff_IsChain sum_sha print_double [] 1 (root_of (block_at 0))

blocks_add-IsRoot_example :
    IsRoot sum_sha print_double [] 1 (Root.blocks_add Root.init (block_at 0))
unfolding Root.init
blocks_add-IsRoot_example =
    blocks_add-IsRoot sum_sha print_double [] 1 Root.init (block_at 0)
      (init-IsRoot sum_sha print_double [] 1) refl valid_block

merge-shorter_example :
    Root.merge sum_sha print_double [] 1 (λ b. ok b) Root.init (root_of (block_at 0))
    ≡ ok (root_of (block_at 0), root_of (block_at 0), true)
unfolding Root.init
merge-shorter_example =
    merge-shorter sum_sha print_double [] 1 (λ b. ok b) (λ b. refl) Root.init (root_of (block_at 0))
      (block_at 0) [] sample-IsRoot refl

merge-fork_example :
    Root.merge sum_sha print_double [] 1 (λ b. ok b) (root_of (block_at 0)) (root_of (block_at 1))
    ≡ fail
merge-fork_example =
    merge-fork sum_sha print_double [] 1 (λ b. ok b) (root_of (block_at 0)) (root_of (block_at 1))
      [] (block_at 0) (block_at 1) valid_root other_root refl refl
      (λ e. let same = eq→memeq (block_at 0).pow (block_at 1).pow e in let other = differ in cc)

-- Two groups of the two roots, in another order.
abbrev member_of : Block → Member
member_of b = record { pubkeyhash = base_hash; root = root_of b }

differ_back : memeq (block_at 1).pow (block_at 0).pow ≡ false
unfolding text_digest hex hex_byte hex_digit memeq cstr digits print_signed
differ_back = refl

compare-has_all_example :
    compare sum_sha print_double [] 1
      (member_of (block_at 0) ∷ member_of (block_at 1) ∷ [])
      (member_of (block_at 1) ∷ member_of (block_at 0) ∷ [])
    ≡ ok (
        has_all
          (member_of (block_at 0) ∷ member_of (block_at 1) ∷ [])
          (member_of (block_at 1) ∷ member_of (block_at 0) ∷ []))
unfolding IsChain
compare-has_all_example =
    compare-has_all sum_sha print_double [] 1 (member_of (block_at 0) ∷ member_of (block_at 1) ∷ [])
      (member_of (block_at 1) ∷ member_of (block_at 0) ∷ [])
      ((refl, other_block, tt), ((refl, valid_block, tt), tt))
      (
        ((λ e. let d = differ in cc), ((λ e. refl), tt)),
        (((λ e. refl), ((λ e. let d = differ_back in cc), tt)), tt),
      )
