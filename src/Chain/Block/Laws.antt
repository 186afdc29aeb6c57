-- ===== src/Chain/Block/Laws.antt =====
-- What a valid block is, and that locking and mining make one.
use eioie_client.Base.{
  ℕ, suc, ◌≤◌, ◌≡◌, refl, sym, ap, ◌∙◌, List, [], ◌∷◌, ◌++◌, length, take, replicate, memeq_refl,
  memeq-eq, true, ◌↔◌, ok, >>=-eq-ok, arith, ge→ltb,
}
use eioie_client.Utils.Hex.{Sha256}
use eioie_client.Chain.Text.{cstr, print_signed, text_digest, hash_text_lem}
use eioie_client.Chain.Transaction
use eioie_client.Chain.Transaction.{Transaction}
use eioie_client.Chain.Block.{
  Block, hash_calc, hash_trans, lock_loop, transactions_lock, validate_loop, validate,
}

module _ (sha : Sha256) where
  abbrev pub pow_digest : (nonce : ℕ) → (prev locked : List ℕ) → List ℕ
  pow_digest nonce prev locked =
      text_digest sha 1024 (cstr 64 locked ++ (cstr 64 prev ++ print_signed 64 nonce))

  pub hash_calc_lem :
      (nonce : ℕ) (prev locked : List ℕ)
      → hash_calc sha nonce prev locked ≡ ok (pow_digest nonce prev locked)
  unfolding hash_calc
  hash_calc_lem nonce prev locked = rw hash_text_lem

  abbrev pub link_digest : List ℕ → Transaction → List ℕ
  link_digest prev t = text_digest sha 1024 (cstr 64 prev ++ cstr 64 t.hash)

  hash_trans_lem :
      (t : Transaction) (prev : List ℕ) → hash_trans sha t prev ≡ ok (link_digest prev t)
  unfolding hash_trans
  hash_trans_lem t prev = rw hash_text_lem

  -- The transactions with their block hashes, from `prev` on, and the last hash.
  unfoldable pub linked : List ℕ → List Transaction → List Transaction
  linked prev [] = []
  linked prev (t ∷ ts) =
      record t { prev = prev; current = link_digest prev t } ∷ linked (link_digest prev t) ts

  unfoldable pub last_link : List ℕ → List Transaction → List ℕ
  last_link prev [] = prev
  last_link prev (t ∷ ts) = last_link (link_digest prev t) ts

  lock_loop_lem :
      (prev : List ℕ) (ts : List Transaction)
      → lock_loop sha prev ts ≡ ok (linked prev ts, last_link prev ts)
  unfolding lock_loop linked last_link
  lock_loop_lem prev [] = refl
  lock_loop_lem prev (t ∷ ts) = rw (hash_trans_lem, lock_loop_lem (link_digest prev t) ts)

  module _ (print_double : ℕ → List ℕ) (stack : List ℕ) where
    -- Every transaction is accepted.
    unfoldable pub AllValid : List Transaction → Type 0
    AllValid [] = Unit
    AllValid (t ∷ ts) = (Transaction.validate sha print_double stack t ≡ ok true) × AllValid ts

    -- Every transaction is accepted and linked to the one before it, the first to `prev`.
    unfoldable pub Linked : List ℕ → List Transaction → Type 0
    Linked prev [] = Unit
    Linked prev (t ∷ ts) =
        (Transaction.validate sha print_double stack t ≡ ok true)
        × (t.prev ≡ prev)
        × (t.current ≡ link_digest prev t)
        × Linked t.current ts

    pub record IsBlock (nmt : ℕ) (b : Block) : Type 0 where
      pub target : take nmt b.pow ≡ replicate nmt b'0'
      pub pow : b.pow ≡ pow_digest b.nonce b.prev b.locked
      pub single : length b.transactions ≤ 1
      pub links : Linked b.prev b.transactions

    linked-Linked :
        (prev : List ℕ) (ts : List Transaction) → AllValid ts → Linked prev (linked prev ts)
    unfolding AllValid Linked linked Transaction.validate Transaction.hash_calc
    linked-Linked prev [] v = tt
    linked-Linked prev (t ∷ ts) (v, vs) = (v, refl, refl, linked-Linked (link_digest prev t) ts vs)

    length-linked : (prev : List ℕ) (ts : List Transaction) → length (linked prev ts) ≡ length ts
    unfolding linked
    length-linked prev [] = refl
    length-linked prev (t ∷ ts) = ap suc (length-linked (link_digest prev t) ts)

    validate_loop_complete :
        (prev : List ℕ) (ts : List Transaction)
        → Linked prev ts
        → validate_loop sha print_double stack prev ts ≡ ok true
    unfolding validate_loop Linked
    validate_loop_complete prev [] v = refl
    validate_loop_complete prev (t ∷ ts) (v, p, c, vs) =
        rw (v, hash_trans_lem, p, ← c, memeq_refl prev, memeq_refl t.current)
          (validate_loop_complete t.current ts vs)

    validate_loop_sound :
        (prev : List ℕ) (ts : List Transaction)
        → validate_loop sha print_double stack prev ts ≡ ok true
        → Linked prev ts
    unfolding validate_loop Linked
    validate_loop_sound prev [] e = tt
    validate_loop_sound prev (t ∷ ts) e =
        let (valid, ran, e1) = >>=-eq-ok (Transaction.validate sha print_double stack t) _ e in
        let tests = rw hash_trans_lem at e1 in
        let links = memeq-eq t.prev prev (ground arith) in
        let current = memeq-eq t.current (link_digest prev t) (ground arith) in
        let all : valid ≡ true = ground arith in
        (ran ∙ rw all, links, current, validate_loop_sound t.current ts (ground arith))

    -- `validate` accepts a block exactly when its proof of work begins with the target and is the
    -- digest of its nonce, its `prev` and its `locked` hash, it has at most one transaction, and the
    -- transactions are accepted and linked, the first to `prev`.
    pub validate_iff_IsBlock :
        (nmt : ℕ) (b : Block) → (validate sha print_double stack nmt b ≡ ok true) ↔ IsBlock nmt b
    unfolding validate
    validate_iff_IsBlock nmt b = (
      λ e.
          let target = memeq-eq (replicate nmt b'0') (take nmt b.pow) (ground arith) in
          let run = rw (hash_calc_lem) at e in
          let digest = memeq-eq (pow_digest b.nonce b.prev b.locked) b.pow (ground arith) in
          let loop : validate_loop sha print_double stack b.prev b.transactions ≡ ok true =
            ground arith in
          record {
            target = sym target;
            pow = sym digest;
            single = ground arith;
            links = validate_loop_sound b.prev b.transactions loop;
          },
      λ v.
          rw
            (
              v.target,
              memeq_refl (replicate nmt b'0'),
              hash_calc_lem,
              ← v.pow,
              memeq_refl b.pow,
              ge→ltb 1 (length b.transactions) v.single,
            )
            (validate_loop_complete b.prev b.transactions v.links),
    )

    -- What a lock leaves is linked, and a proof of work for it makes the block valid.
    pub IsBlock-lock :
        (nmt : ℕ) (b : Block) (nonce : ℕ)
        → AllValid b.transactions
        → length b.transactions ≤ 1
        → let locked = last_link b.prev b.transactions in
          let pow = pow_digest nonce b.prev locked in
          take nmt pow ≡ replicate nmt b'0'
          → IsBlock nmt (record b {
            transactions = linked b.prev b.transactions;
            locked = locked;
            nonce = nonce;
            pow = pow;
          })
    IsBlock-lock nmt b nonce v single target = record {
      target = target;
      pow = refl;
      single = rw (length-linked b.prev b.transactions) single;
      links = linked-Linked b.prev b.transactions v;
    }

    -- A valid block stays valid when its transactions are taken out: `locked` is not compared with
    -- the block hash of the last transaction.
    validate-no_transactions :
        (nmt : ℕ) (b : Block)
        → validate sha print_double stack nmt b ≡ ok true
        → validate sha print_double stack nmt (record b { transactions = [] }) ≡ ok true
    unfolding Linked
    validate-no_transactions nmt b e =
        let v = (validate_iff_IsBlock nmt b).0 e in
        (validate_iff_IsBlock nmt (record b { transactions = [] })).1
          (record { target = v.target; pow = v.pow; single = omega arith; links = tt })

  -- `transactions_lock` in closed form.
  pub transactions_lock_lem :
      (b : Block)
      → transactions_lock sha b
        ≡ ok (record b {
          transactions = linked b.prev b.transactions;
          locked = last_link b.prev b.transactions;
        })
  unfolding transactions_lock
  transactions_lock_lem b = rw lock_loop_lem
