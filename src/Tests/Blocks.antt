-- ===== src/Tests/Blocks.antt =====
-- Transactions, blocks and roots.
use eioie_client.Base.{
  ℕ, ◌≡◌, refl, List, [], ◌∷◌, replicate, arith, memeq, ok, ◌>>=◌, true, some, ◌↔◌,
}
use eioie_client.Utils.Hex.{sha256hex, hex_byte, hex_digit, hex_loop, bin2hexstr}
use eioie_client.Utils.Hex.Bounds.{hex}
use eioie_client.Chain.Text.{hash_text, text_digest}
use eioie_client.Chain.Transaction
use eioie_client.Chain.Transaction.{FileChunk, File, Transaction, Source}
use eioie_client.Chain.Transaction.Laws.{
  IsTransaction, validate-init, validate_iff_IsTransaction, chunks_digest,
}
use eioie_client.Chain.Block
use eioie_client.Chain.Block.{Block}
use eioie_client.Chain.Block.Laws.{IsBlock, AllValid, Linked, validate_iff_IsBlock}
use eioie_client.Chain.Block.Mining.{pow_at, mine_lem, validate-mine}
use eioie_client.Chain.Root.{base_hash}
use eioie_client.Tests.Sample.{sha, print_double}

abbrev sevens : List ℕ
sevens = hex (replicate 32 7)

abbrev source : Source
source = record {
  size = 5;
  chunks =
      record { size = 5; part = 0; tag = []; timeiter = []; content = sevens; chunk = sevens } ∷ [];
  encoded = b'x' ∷ [];
  tags = [];
  pubkeyhash = sevens;
}

validate-init_example :
    (Transaction.init sha print_double 9 1 source >>= λ t.
    Transaction.validate sha print_double [] t)
    ≡ ok true
validate-init_example =
    validate-init sha print_double [] 9 source
      (record { size = 5; part = 0; tag = []; timeiter = []; content = sevens; chunk = sevens }) []
      refl

-- With the digest of the samples every hash is the same.
abbrev pub transfer_of : Transaction
transfer_of = record {
  version = 1;
  timestamp = 9;
  hash = sevens;
  kind = 1;
  prev = base_hash;
  current = sevens;
  add = record {
    hash = sevens;
    pubkeyhash = sevens;
    name = [];
    size = 5;
    enc = [];
    tags = [];
    meta_hash = sevens;
    chunks = source.chunks;
    chunks_hash = sevens;
  };
}

validate_iff_IsTransaction_example :
    (Transaction.validate sha print_double [] transfer_of ≡ ok true)
    ↔ IsTransaction sha print_double [] transfer_of
validate_iff_IsTransaction_example = validate_iff_IsTransaction sha print_double [] transfer_of

pub valid_transfer : Transaction.validate sha print_double [] transfer_of ≡ ok true
unfolding text_digest chunks_digest
valid_transfer = (validate_iff_IsTransaction sha print_double [] transfer_of).1 (record {
  kind = refl;
  add = record { meta_hash = refl; chunks_hash = refl; hash = refl };
  hash = refl;
})

abbrev fresh_block : Block
fresh_block = record {
  prev = base_hash;
  locked = replicate 64 0;
  nonce = 0;
  pow = replicate 64 0;
  transactions = transfer_of ∷ [];
}

abbrev mined : Block
mined = record fresh_block { locked = sevens; pow = sevens }

validate-mine_example : Block.validate sha print_double [] 1 mined ≡ ok true
unfolding AllValid Block.transactions_lock Block.lock_loop Block.hash_trans Block.mine
    Block.mine_loop Block.hash_calc hash_text sha256hex bin2hexstr hex_loop hex hex_byte hex_digit
    memeq
validate-mine_example =
    validate-mine sha print_double [] 1 3 fresh_block mined (valid_transfer, tt) (omega arith) refl

valid_mined : Block.validate sha print_double [] 1 mined ≡ ok true
unfolding text_digest hex hex_byte hex_digit Linked
valid_mined = (validate_iff_IsBlock sha print_double [] 1 mined).1 (record {
  target = refl;
  pow = refl;
  single = omega arith;
  links = (valid_transfer, refl, refl, tt);
})

validate_iff_IsBlock_example :
    (Block.validate sha print_double [] 1 mined ≡ ok true) ↔ IsBlock sha print_double [] 1 mined
validate_iff_IsBlock_example = validate_iff_IsBlock sha print_double [] 1 mined

mine_lem_example :
    Block.mine sha 1 3 fresh_block
    ≡ ok (some (record fresh_block { nonce = 0; pow = pow_at sha 1 fresh_block 0 }))
unfolding text_digest hex hex_byte hex_digit memeq
mine_lem_example =
    mine_lem sha 1 fresh_block 3 0 (omega arith) (omega arith) refl (λ j h. absurd (omega arith))
