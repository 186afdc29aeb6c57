-- ===== src/Chain/Block.antt =====
-- `init`, `mine`, `validate`, `transactions_add`, `transactions_lock`, `compare` and `find` of
-- src/block.c.
pub mod Laws
pub mod Mining
use eioie_client.Base.{
  ℕ, zero, suc, ◌+◌, ◌%◌, ◌^◌, List, [], ◌∷◌, ◌++◌, length, take, replicate, ltb, leb, memeq, Bool,
  true, false, Option, none, some, Run, ok, fail, ◌>>=◌, if◌then◌else◌, ◌&&◌,
}
use eioie_client.Utils.Hex.{Sha256}
use eioie_client.Chain.Text.{cstr, print_signed, hash_text}
use eioie_client.Chain.Transaction
use eioie_client.Chain.Transaction.{Transaction, File}

-- `struct block_s`, without `index`, which nothing but JSON reads.
pub record Block : Type 0 where
  pub prev : List ℕ
  pub locked : List ℕ
  pub nonce : ℕ
  pub pow : List ℕ
  pub transactions : List Transaction

unfoldable pub init : List ℕ → Block
init prev_hash = record {
  prev = prev_hash;
  locked = replicate 64 0;
  nonce = 0;
  pow = replicate 64 0;
  transactions = [];
}

-- The proof of work begins with the target, `nmt` digits '0', at most the 64 of a hash.
abbrev pub hits : ℕ → List ℕ → Bool
hits nmt pow = memeq (replicate nmt b'0') (take nmt pow)

module _ (sha : Sha256) where
  unfoldable pub hash_calc : (nonce : ℕ) → (prev locked : List ℕ) → Run (List ℕ)
  hash_calc nonce prev locked =
      hash_text sha 1024 (cstr 64 locked ++ (cstr 64 prev ++ print_signed 64 nonce))

  -- `rounds` rounds of the loop of `mine` from `nonce` on: the block at the first hit, or none
  -- where the rounds end before. The nonce is an `uint64_t`; the counter `i` is not read.
  unfoldable pub mine_loop : (nmt rounds nonce : ℕ) → Block → Run (Option Block)
  mine_loop nmt zero nonce b = ok none
  mine_loop nmt (suc rounds) nonce b =
      let rest = mine_loop nmt rounds ((nonce + 1) % 2 ^ 64) b in
      (hash_calc nonce b.prev b.locked >>= λ pow.
      if hits nmt pow then ok (some (record b { nonce = nonce; pow = pow })) else rest)

  unfoldable pub mine : (nmt rounds : ℕ) → Block → Run (Option Block)
  mine nmt rounds b = mine_loop nmt rounds 0 b

  unfoldable pub hash_trans : Transaction → List ℕ → Run (List ℕ)
  hash_trans t prev = hash_text sha 1024 (cstr 64 prev ++ cstr 64 t.hash)

  -- The loop of `transactions_lock` from `prev` on: the transactions with their block hashes, and
  -- the last of these.
  unfoldable pub lock_loop : List ℕ → List Transaction → Run (List Transaction × List ℕ)
  lock_loop prev [] = ok ([], prev)
  lock_loop prev (t ∷ ts) = do
    current ← hash_trans t prev
    (ts', last) ← lock_loop current ts
    ok (record t { prev = prev; current = current } ∷ ts', last)

  unfoldable pub transactions_lock : Block → Run Block
  transactions_lock b =
      lock_loop b.prev b.transactions >>= λ r. ok (record b { transactions = r.0; locked = r.1 })

  module _ (print_double : ℕ → List ℕ) (stack : List ℕ) where
    -- The loop of `validate`.
    unfoldable pub validate_loop : List ℕ → List Transaction → Run Bool
    validate_loop prev [] = ok true
    validate_loop prev (t ∷ ts) =
        let rest = validate_loop t.current ts in
        (do
          valid ← Transaction.validate sha print_double stack t
          current ← hash_trans t prev
          if valid && (memeq t.prev prev && memeq t.current current) then rest else ok false)

    unfoldable pub validate : ℕ → Block → Run Bool
    validate nmt b =
        if hits nmt b.pow
        then (hash_calc b.nonce b.prev b.locked >>= λ md.
            if memeq md b.pow
            then (if ltb 1 (length b.transactions)
                then ok false
                else validate_loop b.prev b.transactions)
            else ok false)
        else ok false

unfoldable pub transactions_add : Block → Transaction → Block
transactions_add b t = record b { transactions = b.transactions ++ t ∷ [] }

-- `enum root_diff_e`.
pub data Winner : Type 0 where
  neither dst src : Winner

-- `compare`: `diff->equal` and `diff->winner`.
unfoldable pub compare : Block → Block → Run (Bool × Winner)
compare d s =
    if memeq d.prev s.prev
    then ok (
      memeq d.locked s.locked && memeq d.pow s.pow,
      if leb (length s.transactions) (length d.transactions) then dst else src,
    )
    else fail

unfoldable pub find_loop : List Transaction → List ℕ → Run (Option File)
find_loop [] h = ok none
find_loop (t ∷ ts) h =
    let rest = find_loop ts h in
    (Transaction.find t h >>= λ found. elim found [ none ↦ rest | some f ↦ ok (some f) ])

unfoldable pub find : Block → List ℕ → Run (Option File)
find b h = find_loop b.transactions h
