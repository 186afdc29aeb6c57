-- ===== src/Mining/Single.antt =====
-- What the commands and the parts of the mining thread of src/distfs.c leave of a state in which at
-- most one thread mines.
use eioie_client.Base.{
  ℕ, ◌≤◌, ◌≡◌, refl, List, [], ◌∷◌, ◌++◌, length, ltb, arith, Bool, Bool-cases, true, false, Option,
  none, some, inl, inr, Run, ok, fail, fault,
}
use eioie_client.Utils.Hex.{Sha256}
use eioie_client.Chain.Transaction
use eioie_client.Chain.Transaction.{Transaction}
use eioie_client.Chain.Block.Laws.{AllValid}
use eioie_client.Chain.Root.{Root}
use eioie_client.Mining.{
  Phase, Dfs, transaction_locked, listed, dfs_transaction_add, find_shared, shared,
  dfs_transaction_share, dfs_block_mine,
}
use eioie_client.Mining.Steps.{IsSingle, IsMining}

module _ (sha : Sha256) (print_double : ℕ → List ℕ) (stack : List ℕ) (nmt : ℕ)
    (through : Transaction → Run Transaction) where
  one_listed :
      (ts : List Transaction) (t : Transaction)
      → ltb 0 (length ts) ≡ false
      → Transaction.validate sha print_double stack t ≡ ok true
      → (length (ts ++ t ∷ []) ≤ 1) × AllValid sha print_double stack (ts ++ t ∷ [])
  unfolding AllValid
  one_listed [] t e valid = (omega arith, (valid, tt))
  one_listed (x ∷ ts) t e valid = absurd (ground arith)

  listed-IsMining :
      (d : Dfs) (err : ℕ) (made : Run Transaction)
      → IsMining sha print_double stack nmt through d
      → ltb 0 (length d.transactions) ≡ false
      → ((t : Transaction) → made ≡ ok t → Transaction.validate sha print_double stack t ≡ ok true)
      → IsMining sha print_double stack nmt through (listed d err made).dfs
  unfolding listed
  listed-IsMining d err (ok t) v empty_ valid =
      let (few, all_valid) = one_listed d.transactions t empty_ (valid t refl) in
      record { root = v.root; few = few; valid = all_valid; single = v.single }
  listed-IsMining d err fail v empty_ valid = v
  listed-IsMining d err fault v empty_ valid = v

  alone :
      (state : Bool) (r : Root) (ps : List Phase)
      → state ≡ false
      → IsSingle sha print_double stack nmt through state r ps
      → ps ≡ []
  alone state r [] off single = refl
  alone state r (p ∷ []) off (on, phase) = absurd cc
  alone state r (p ∷ q ∷ ps) off single = absurd single

  pub dfs_block_mine-IsMining :
      (created : Bool) (err : ℕ) (d : Dfs)
      → IsMining sha print_double stack nmt through d
      → IsMining sha print_double stack nmt through (dfs_block_mine created err d).dfs
  unfolding dfs_block_mine
  dfs_block_mine-IsMining created err d v = elim (Bool-cases d.state) [
    | inl on ↦ simp on v
    | inr off ↦
        let nobody = alone d.state d.local d.threads off v.single in
        elim (Bool-cases (ltb (length d.transactions) 1)) [
          | inl empty_ ↦ simp (off, empty_) v
          | inr there ↦ elim (Bool-cases created) [
            | inl made ↦
                simp (off, there, made)
                  (record {
                    root = v.root;
                    few = v.few;
                    valid = v.valid;
                    single = rw nobody (refl, tt);
                  })
            | inr failed ↦
                simp (off, there, failed)
                  (record { root = v.root; few = v.few; valid = v.valid; single = rw nobody tt })
          ]
        ]
  ]

  pub dfs_transaction_add-IsMining :
      (made : Run Transaction) (err : ℕ) (d : Dfs)
      → IsMining sha print_double stack nmt through d
      → ((t : Transaction) → made ≡ ok t → Transaction.validate sha print_double stack t ≡ ok true)
      → IsMining sha print_double stack nmt through (dfs_transaction_add made err d).dfs
  unfolding dfs_transaction_add
  dfs_transaction_add-IsMining made err d v valid =
      elim (Bool-cases (ltb 0 (length d.transactions))) [
        | inl full ↦ simp full v
        | inr free ↦ elim (Bool-cases (transaction_locked d)) [
          | inl busy ↦ simp (free, busy) v
          | inr idle ↦ simp (free, idle) (listed-IsMining d err made v free valid)
        ]
      ]

  module _ (whole : (t : Transaction) → through t ≡ ok t) where
    shared-IsMining :
        (d : Dfs) (err : ℕ) (found : Run (Option Transaction))
        → IsMining sha print_double stack nmt through d
        → ltb 0 (length d.transactions) ≡ false
        → ((t : Transaction)
            → found ≡ ok (some t)
            → Transaction.validate sha print_double stack t ≡ ok true)
        → IsMining sha print_double stack nmt through (shared through d err found).dfs
    unfolding shared
    shared-IsMining d err (ok none) v free valid = v
    shared-IsMining d err (ok (some t)) v free valid =
        listed-IsMining d err (through t) v free
          (λ t' e. let same : t ≡ t' = let w = whole t in cc in rw (← same) (valid t refl))
    shared-IsMining d err fail v free valid = v
    shared-IsMining d err fault v free valid = v

    pub dfs_transaction_share-IsMining :
        (hash : List ℕ) (err : ℕ) (d : Dfs)
        → IsMining sha print_double stack nmt through d
        → ((t : Transaction)
            → find_shared d.remote hash ≡ ok (some t)
            → Transaction.validate sha print_double stack t ≡ ok true)
        → IsMining sha print_double stack nmt through (dfs_transaction_share through hash err d).dfs
    unfolding dfs_transaction_share
    dfs_transaction_share-IsMining hash err d v valid =
        elim (Bool-cases (ltb 0 (length d.transactions))) [
          | inl full ↦ simp full v
          | inr free ↦ elim (Bool-cases (transaction_locked d)) [
            | inl busy ↦ simp (free, busy) v
            | inr idle ↦
                simp (free, idle) (shared-IsMining d err (find_shared d.remote hash) v free valid)
          ]
        ]
