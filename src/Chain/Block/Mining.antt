-- ===== src/Chain/Block/Mining.antt =====
-- The loop of `mine`, and a block that is locked and mined.
use eioie_client.Base.{
  ℕ, zero, suc, ◌+◌, ◌%◌, ◌^◌, ◌≤◌, ◌<◌, ◌≡◌, sym, ◌≢◌, List, length, replicate, memeq-eq, true,
  false, Bool-cases, inl, inr, some, ok, ◌>>=◌, arith,
}
use eioie_client.Utils.Hex.{Sha256}
use eioie_client.Chain.Block.{Block, hits, mine_loop, mine, transactions_lock, validate}
use eioie_client.Chain.Block.Laws.{
  pow_digest, hash_calc_lem, AllValid, validate_iff_IsBlock, IsBlock-lock, transactions_lock_lem,
}

module _ (sha : Sha256) (nmt : ℕ) (b : Block) where
  abbrev pub pow_at : ℕ → List ℕ
  pow_at nonce = pow_digest sha nonce b.prev b.locked

  mine_loop_lem :
      (rounds nonce k : ℕ)
      → nonce + rounds ≤ 2 ^ 64
      → nonce ≤ k
      → k < nonce + rounds
      → hits nmt (pow_at k) ≡ true
      → ((j : ℕ) → nonce ≤ j → j < k → hits nmt (pow_at j) ≡ false)
      → mine_loop sha nmt rounds nonce b ≡ ok (some (record b { nonce = k; pow = pow_at k }))
  unfolding mine_loop
  mine_loop_lem zero nonce k wide lo hi hit first = absurd (omega arith)
  mine_loop_lem (suc rounds) nonce k wide lo hi hit first =
      elim (Bool-cases (hits nmt (pow_at nonce))) [
        | inl now ↦
            let same : nonce ≡ k = ground (arith, first nonce) in rw (hash_calc_lem, now, same)
        | inr later ↦
            let further : k ≢ nonce = λ e. cc in
            let next : (nonce + 1) % 2 ^ 64 ≡ nonce + 1 = omega arith in
            rw (hash_calc_lem, later, next)
              (mine_loop_lem rounds (nonce + 1) k (omega arith) (omega arith) (omega arith) hit
                (λ j near. first j (omega arith)))
      ]

  -- The block is found at the smallest nonce whose digest begins with the target, if the rounds
  -- reach that far.
  pub mine_lem :
      (rounds k : ℕ)
      → rounds ≤ 2 ^ 64
      → k < rounds
      → hits nmt (pow_at k) ≡ true
      → ((j : ℕ) → j < k → hits nmt (pow_at j) ≡ false)
      → mine sha nmt rounds b ≡ ok (some (record b { nonce = k; pow = pow_at k }))
  unfolding mine
  mine_lem rounds k wide hi hit first =
      mine_loop_lem rounds 0 k (omega arith) (omega arith) (omega arith) hit (λ j lo h. first j h)

  -- What is found is the block at a nonce whose digest begins with the target.
  pub mine_loop-hits :
      (rounds nonce : ℕ) (b' : Block)
      → mine_loop sha nmt rounds nonce b ≡ ok (some b')
      → (k : ℕ) × (b' ≡ record b { nonce = k; pow = pow_at k }) × (hits nmt (pow_at k) ≡ true)
  unfolding mine_loop
  mine_loop-hits zero nonce b' e = cc
  mine_loop-hits (suc rounds) nonce b' e =
      let step = rw hash_calc_lem at e in
      elim (Bool-cases (hits nmt (pow_at nonce))) [
        | inl now ↦ let here = rw now at step in (nonce, cc, now)
        | inr later ↦ mine_loop-hits rounds ((nonce + 1) % 2 ^ 64) b' (rw later at step)
      ]

module _ (sha : Sha256) (print_double : ℕ → List ℕ) (stack : List ℕ) (nmt rounds : ℕ)
    (b : Block) where
  -- A block of at most one transaction, which is accepted, is valid once it is locked and mined.
  pub validate-mine :
      (b' : Block)
      → AllValid sha print_double stack b.transactions
      → length b.transactions ≤ 1
      → (transactions_lock sha b >>= mine sha nmt rounds) ≡ ok (some b')
      → validate sha print_double stack nmt b' ≡ ok true
  unfolding mine
  validate-mine b' v single e =
      let (k, found, hit) = mine_loop-hits sha nmt _ rounds 0 b' (rw transactions_lock_lem at e) in
      rw found (
        (validate_iff_IsBlock sha print_double stack nmt _).1 (
          IsBlock-lock sha print_double stack nmt b k v single
            (sym (memeq-eq (replicate nmt b'0') _ hit))))
