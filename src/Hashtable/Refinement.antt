-- ===== src/Hashtable/Refinement.antt =====
-- The operations of the hash table, as updates of a function from keys to items.
use eioie_client.Base.{
  ℕ, ◌+◌, ◌^◌, ◌≤◌, ◌<◌, length, arith, Option-cases, ◌≡◌, refl, sym, ap, ◌∙◌, memeq-eq, Bool-cases,
  List, [], ◌∷◌, memeq, Bool, Option, none, some, Run, ok, fail, fault, inl, inr, if◌then◌else◌,
}
use mathlib.Core.Path.{fun_ext}
use eioie_client.Hashtable.{
  Item, Table, ht_key, set_chain, chain_set, ht_init, ht_add, ht_rem, ht_get, chain_get,
}
use eioie_client.Hashtable.Keys.{IsShort, IsIndexable, IsShort-IsIndexable}
use eioie_client.Hashtable.Laws.{
  IsTable, ht_init-IsTable, ht_get-ht_add, ht_add-IsTable, ht_rem_lem,
}

pub data Op (V : Type 0) : Type 0 where
  add : List ℕ → V → Bool → Op V
  rem : List ℕ → Op V

-- A table after a call that may have returned -1, which leaves the table alone.
abbrev pub kept : {A : Type 0} → A → Run A → A
kept t (ok t') = t'
kept t fail = t
kept t fault = t

module _ {V : Type 0} where
  unfoldable pub run : List (Op V) → Table V → Table V
  run [] t = t
  run (add key value alloc ∷ ops) t = run ops (ht_add t key value alloc)
  run (rem key ∷ ops) t = run ops (kept t (ht_rem t key))

  abbrev pub update :
      (List ℕ → Option (Item V)) → List ℕ → Option (Item V) → List ℕ → Option (Item V)
  update f key found key' = if memeq key key' then found else f key'

  -- The same calls, on a function.
  unfoldable pub replay : List (Op V) → (List ℕ → Option (Item V)) → List ℕ → Option (Item V)
  replay [] f = f
  replay (add key value alloc ∷ ops) f =
      replay ops (update f key (some (record { k = key; v = value; alloc = alloc })))
  replay (rem key ∷ ops) f = replay ops (update f key none)

  -- A removal refines the update to nothing, whether the key is there or not.
  pub kept-ht_rem :
      (t : Table V) (key : List ℕ)
      → IsTable t
      → IsTable (kept t (ht_rem t key))
        × (ht_get (kept t (ht_rem t key)) ≡ update (ht_get t) key none)
  kept-ht_rem t key v = elim (ht_rem_lem t key v) [
    | inl (failed, absent) ↦ rw failed (
      v,
      fun_ext λ key'. elim (Bool-cases (memeq key key')) [
        | inl same ↦ rw same (ap (ht_get t) (sym (memeq-eq key key' same)) ∙ absent)
        | inr other ↦ rw other
      ],
    )
    | inr (t', removed, v', _, gone) ↦ rw removed (v', fun_ext gone)
  ]

  -- From a table whose chains have no key twice, any calls end in such a table, which reads as the
  -- replay of the calls.
  pub run_refines :
      (ops : List (Op V)) (t : Table V)
      → IsTable t
      → IsTable (run ops t) × (ht_get (run ops t) ≡ replay ops (ht_get t))
  unfolding run replay
  run_refines [] t v = (v, refl)
  run_refines (add key value alloc ∷ ops) t v =
      let (v', e) =
        run_refines ops (ht_add t key value alloc) (ht_add-IsTable t key value alloc v) in
      (v', e ∙ ap (replay ops) (fun_ext (ht_get-ht_add t key value alloc)))
  run_refines (rem key ∷ ops) t v =
      let (v1, e1) = kept-ht_rem t key v in
      let (v', e) = run_refines ops (kept t (ht_rem t key)) v1 in (v', e ∙ ap (replay ops) e1)

  -- Every key of the calls has the property.
  abbrev pub Every : (List ℕ → Type 0) → List (Op V) → Type 0
  Every P [] = Unit
  Every P (add key value alloc ∷ ops) = P key × Every P ops
  Every P (rem key ∷ ops) = P key × Every P ops

  every :
      {P Q : List ℕ → Type 0} (ops : List (Op V))
      → ((key : List ℕ) → P key → Q key)
      → Every P ops
      → Every Q ops
  every [] f all = tt
  every (add key value alloc ∷ ops) f all = (f key all.0, every ops f all.1)
  every (rem key ∷ ops) f all = (f key all.0, every ops f all.1)

  items-ht_add :
      (t : Table V) (key : List ℕ) (value : V) (alloc : Bool)
      → (ht_add t key value alloc).items ≡ t.items + 1
  unfolding ht_add set_chain
  items-ht_add t key value alloc =
      let new : Item V = record { k = key; v = value; alloc = alloc } in
      elim (Option-cases (chain_set new (t.chain (ht_key key)))) [
        | inl absent ↦ rw (ht_add, absent) refl
        | inr (hs, there) ↦ rw (ht_add, there) refl
      ]

  -- Each call counts one item at most.
  items-run :
      (ops : List (Op V)) (t : Table V) → IsTable t → (run ops t).items ≤ t.items + length ops
  unfolding run
  items-run [] t v = omega arith
  items-run (add key value alloc ∷ ops) t v =
      let rest = items-run ops (ht_add t key value alloc) (ht_add-IsTable t key value alloc v) in
      omega (arith, rest, items-ht_add t key value alloc)
  items-run (rem key ∷ ops) t v = elim (ht_rem_lem t key v) [
    | inl (failed, absent) ↦ let rest = items-run ops t v in rw (run, failed) (omega (arith, rest))
    | inr (t', removed, v', fewer, gone) ↦
        let rest = items-run ops t' v' in rw (run, removed) (omega (arith, rest, fewer))
  ]

  -- Fewer than 2 ^ 31 calls on a fresh table, with keys of fewer than 2 ^ 24 bytes, end in a table
  -- whose chains have no key twice, and which for any key of fewer bytes reads as the replay of the
  -- calls on the function without a key. Neither the count of items nor the sum over any of these
  -- keys overflows an `int`, and the index of each is the remainder of its sum.
  pub run-ht_init :
      (ops : List (Op V)) (key : List ℕ)
      → length ops < 2 ^ 31
      → Every IsShort ops
      → IsShort key
      → IsTable (run ops ht_init)
        × (ht_get (run ops ht_init) key ≡ replay ops (λ _. none) key)
        × ((run ops ht_init).items < 2 ^ 31)
        × Every IsIndexable ops
        × IsIndexable key
  unfolding ht_init ht_get chain_get
  run-ht_init ops key few short brief =
      let (v, reads) = run_refines ops ht_init ht_init-IsTable in
      let most = items-run ops ht_init ht_init-IsTable in
      (
        v,
        ap (λ f. f key) reads,
        omega (arith, most, few),
        every ops IsShort-IsIndexable short,
        IsShort-IsIndexable key brief,
      )
