-- ===== src/Hashtable/Laws.antt =====
-- The table is a finite map from keys to values.
use eioie_client.Base.{
  ℕ, ◌+◌, ◌-◌, ◌≡◌, refl, sym, ap, List, ◌∷◌, length, memeq, memeq-eq, ◌==◌, ==_refl, ==_iff, Bool,
  false, Bool-cases, Option-cases, inl, inr, ◌⊎◌, Option, none, some, ok, fail, if◌then◌else◌,
}
use eioie_client.Hashtable.{
  Item, Table, ht_key, set_chain, chain_get, chain_set, chain_rem, ht_init, ht_add, ht_rem, ht_get,
}
use eioie_client.Hashtable.Chain.{
  Distinct, chain_get-chain_set, chain_set-eq-none, length-chain_set, chain_rem-eq-none,
  chain_get-chain_rem, chain_set-Distinct, chain_rem-Distinct,
}

module _ {V : Type 0} where
  -- A chain that was set is found at its own index, and the others are as they were.
  chain-set_chain :
      (t : Table V) (idx : ℕ) (hs : List (Item V)) (i : ℕ)
      → (set_chain t idx hs).chain i ≡ (if i == idx then hs else t.chain i)
  unfolding set_chain
  chain-set_chain t idx hs i = refl

  -- A key is looked up in a chain that `get` describes by the chain before.
  ht_get-set_chain :
      (t : Table V) (key : List ℕ) (hs : List (Item V)) (found : Option (Item V)) (key' : List ℕ)
      → chain_get key' hs
        ≡ (if memeq key key' then found else chain_get key' (t.chain (ht_key key)))
      → ht_get (set_chain t (ht_key key) hs) key'
        ≡ (if memeq key key' then found else ht_get t key')
  unfolding ht_get
  ht_get-set_chain t key hs found key' e = elim (Bool-cases (ht_key key' == ht_key key)) [
    | inl same ↦
        let here : ht_key key' ≡ ht_key key = (==_iff (ht_key key') (ht_key key)).0 same in
        rw (chain-set_chain t (ht_key key) hs (ht_key key'), same) (rw here e)
    | inr other ↦
        let elsewhere : memeq key key' ≡ false = elim (Bool-cases (memeq key key')) [
          | inl equal ↦
              let index : ht_key key' ≡ ht_key key = ap ht_key (sym (memeq-eq key key' equal)) in
              cc ((==_iff (ht_key key') (ht_key key)).1 index)
          | inr differ ↦ differ
        ] in
        rw (chain-set_chain t (ht_key key) hs (ht_key key'), other, elsewhere)
  ]

  -- After `ht_add` its key has the new value, and every other key is as it was.
  pub ht_get-ht_add :
      (t : Table V) (key : List ℕ) (value : V) (alloc : Bool) (key' : List ℕ)
      → ht_get (ht_add t key value alloc) key' ≡ (
          if memeq key key'
          then some (record { k = key; v = value; alloc = alloc })
          else ht_get t key')
  unfolding ht_add chain_get ht_get
  ht_get-ht_add t key value alloc key' =
      let new : Item V = record { k = key; v = value; alloc = alloc } in
      let counted : Table V = record t { items = t.items + 1 } in
      elim (Option-cases (chain_set new (t.chain (ht_key key)))) [
        | inl absent ↦
            rw (ht_add, absent)
              (ht_get-set_chain counted key (new ∷ t.chain (ht_key key)) (some new) key' refl)
        | inr (hs, there) ↦
            rw (ht_add, there)
              (ht_get-set_chain counted key hs (some new) key'
                (chain_get-chain_set new (t.chain (ht_key key)) hs key' there))
      ]

  -- No chain has a key twice.
  pub record IsTable (t : Table V) : Type 0 where
    pub distinct : (i : ℕ) → Distinct (t.chain i)

  set_chain-IsTable :
      (t : Table V) (idx : ℕ) (hs : List (Item V))
      → IsTable t
      → Distinct hs
      → IsTable (set_chain t idx hs)
  unfolding set_chain
  set_chain-IsTable t idx hs v d = record {
    distinct = λ i. elim (Bool-cases (i == idx)) [
      | inl here ↦ rw here d
      | inr other ↦ rw other (v.distinct i)
    ];
  }

  pub ht_init-IsTable : IsTable ht_init
  unfolding ht_init Distinct
  ht_init-IsTable = record { distinct = λ i. tt }

  -- `ht_add` keeps the keys distinct.
  pub ht_add-IsTable :
      (t : Table V) (key : List ℕ) (value : V) (alloc : Bool)
      → IsTable t
      → IsTable (ht_add t key value alloc)
  unfolding ht_add Distinct
  ht_add-IsTable t key value alloc v =
      let new : Item V = record { k = key; v = value; alloc = alloc } in
      let old = t.chain (ht_key key) in
      let counted : Table V = record t { items = t.items + 1 } in
      let same : IsTable counted = record { distinct = v.distinct } in
      elim (Option-cases (chain_set new old)) [
        | inl absent ↦
            rw (ht_add, absent)
              (set_chain-IsTable counted (ht_key key) (new ∷ old) same
                (chain_set-eq-none new old absent, v.distinct (ht_key key)))
        | inr (hs, there) ↦
            rw (ht_add, there)
              (set_chain-IsTable counted (ht_key key) hs same
                (chain_set-Distinct new old hs (v.distinct (ht_key key)) there))
      ]

  -- `ht_rem` of a key that is not there returns -1. Otherwise the key is gone, every other key is as
  -- it was, the keys stay distinct, and the count goes down by one.
  pub ht_rem_lem :
      (t : Table V) (key : List ℕ)
      → IsTable t
      → ((ht_rem t key ≡ fail) × (ht_get t key ≡ none))
        ⊎ ((t' : Table V) × (ht_rem t key ≡ ok t')
            × IsTable t'
            × (t'.items ≡ t.items - 1)
            × ((key' : List ℕ) → ht_get t' key' ≡ (if memeq key key' then none else ht_get t key')))
  unfolding ht_rem ht_get set_chain
  ht_rem_lem t key v =
      let old = t.chain (ht_key key) in
      elim (Option-cases (chain_rem key old)) [
        | inl absent ↦ inl (rw (ht_rem, absent), chain_rem-eq-none key old absent)
        | inr (hs, there) ↦
            let without : Table V = set_chain t (ht_key key) hs in
            let kept =
              set_chain-IsTable t (ht_key key) hs v
                (chain_rem-Distinct key old hs (v.distinct (ht_key key)) there) in
            inr (
              record without { items = t.items - 1 },
              rw (ht_rem, there),
              record { distinct = kept.distinct },
              refl,
              λ key'.
                  ht_get-set_chain t key hs none key'
                    (chain_get-chain_rem key old hs key' (v.distinct (ht_key key)) there),
            )
      ]

  -- `ht_add` of a key that is there counts one item more, although its chain has as many as before.
  items-ht_add :
      (t : Table V) (key : List ℕ) (value : V) (alloc : Bool) (old : Item V)
      → ht_get t key ≡ some old
      → ((ht_add t key value alloc).items ≡ t.items + 1)
        × (length ((ht_add t key value alloc).chain (ht_key key)) ≡ length (t.chain (ht_key key)))
  unfolding ht_add ht_get set_chain
  items-ht_add t key value alloc old there =
      let new : Item V = record { k = key; v = value; alloc = alloc } in
      elim (Option-cases (chain_set new (t.chain (ht_key key)))) [
        | inl absent ↦ cc (chain_set-eq-none new (t.chain (ht_key key)) absent)
        | inr (hs, found) ↦ (
          rw (ht_add, found),
          rw (ht_add, found, ==_refl (ht_key key))
              (length-chain_set new (t.chain (ht_key key)) hs found),
        )
      ]
