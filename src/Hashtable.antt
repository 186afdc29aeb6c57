-- ===== src/Hashtable.antt =====
-- The hash table of src/tcp/src/hashtable.c.
pub mod Chain
pub mod Keys
pub mod Laws
pub mod Refinement
use eioie_client.Base.{
  ℕ, ◌+◌, ◌-◌, ◌%◌, ◌^◌, List, [], ◌∷◌, ltb, memeq, ◌==◌, Bool, Option, none, some, Run, ok, fail,
  ◌>>=◌, if◌then◌else◌,
}

-- `struct ht_item_s`: the key of `nk` bytes, the value (a copy or the caller's pointer) and whether
-- it is a copy.
pub record Item (V : Type 0) : Type 0 where
  pub k : List ℕ
  pub v : V
  pub alloc : Bool

-- `struct ht_s`: `meta.items`, and the chain at each index of the array of HT_SIZE pointers.
pub record Table (V : Type 0) : Type 0 where
  pub items : ℕ
  pub chain : ℕ → List (Item V)

abbrev pub ht_size : ℕ
ht_size = 4096

-- `abs` of a signed `char`.
unfoldable pub abs_char : ℕ → ℕ
abs_char c = if ltb c 128 then c else 256 - c

-- The loop of `ht_key`: `dst` is an `int` in two's complement.
unfoldable pub key_sum : ℕ → List ℕ → ℕ
key_sum dst [] = dst
key_sum dst (c ∷ key) = key_sum ((dst + abs_char c) % 2 ^ 32) key

-- The remainder of a negative sum is negative, and lies before the array.
unfoldable pub ht_key : List ℕ → ℕ
unfolding key_sum
ht_key key =
    let dst = key_sum 0 key in
    if ltb dst (2 ^ 31) then dst % ht_size else (2 ^ 32 - (2 ^ 32 - dst) % ht_size) % 2 ^ 32

module _ {V : Type 0} where
  -- `ht->ht[idx] = items`.
  unfoldable pub set_chain : Table V → ℕ → List (Item V) → Table V
  set_chain t idx items = record t { chain = λ i. if i == idx then items else t.chain i }

  -- The loop of `ht_get`.
  unfoldable pub chain_get : List ℕ → List (Item V) → Option (Item V)
  chain_get key [] = none
  chain_get key (h ∷ hs) = if memeq h.k key then some h else chain_get key hs

  -- The loop of `ht_add`: the chain with the value replaced, if the key is there.
  unfoldable pub chain_set : Item V → List (Item V) → Option (List (Item V))
  chain_set new [] = none
  chain_set new (h ∷ hs) =
      let rest = chain_set new hs in
      if memeq h.k new.k
      then some (new ∷ hs)
      else elim rest [ none ↦ none | some hs' ↦ some (h ∷ hs') ]

  -- The loop of `ht_rem`: the chain without the item, if the key is there.
  unfoldable pub chain_rem : List ℕ → List (Item V) → Option (List (Item V))
  chain_rem key [] = none
  chain_rem key (h ∷ hs) =
      let rest = chain_rem key hs in
      if memeq h.k key then some hs else elim rest [ none ↦ none | some hs' ↦ some (h ∷ hs') ]

  unfoldable pub ht_init : Table V
  ht_init = record { items = 0; chain = λ i. [] }

  -- `ht_add`: the count goes up before the key is looked for.
  unfoldable pub ht_add : Table V → List ℕ → V → Bool → Table V
  ht_add t key value alloc =
      let new : Item V = record { k = key; v = value; alloc = alloc } in
      let idx = ht_key key in
      let counted : Table V = record t { items = t.items + 1 } in
      elim (chain_set new (t.chain idx)) [
        | none ↦ set_chain counted idx (new ∷ t.chain idx)
        | some hs ↦ set_chain counted idx hs
      ]

  unfoldable pub ht_rem : Table V → List ℕ → Run (Table V)
  ht_rem t key = elim (chain_rem key (t.chain (ht_key key))) [
    | none ↦ fail
    | some hs ↦ ok (record (set_chain t (ht_key key) hs) { items = t.items - 1 })
  ]

  unfoldable pub ht_get : Table V → List ℕ → Option (Item V)
  ht_get t key = chain_get key (t.chain (ht_key key))
