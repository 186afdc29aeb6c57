-- ===== src/Group/Laws.antt =====
-- What the comparison of groups and the search for an owner in src/group.c find.
use eioie_client.Base.{
  ℕ, ◌≡◌, refl, List, [], ◌∷◌, length, memeq, ◌==◌, Bool, Bool-cases, true, false, ◌&&◌, ◌||◌, inl,
  inr, some, ok,
}
use eioie_client.Utils.Hex.{Sha256}
use eioie_client.Chain.Root.{Root, base_hash}
use eioie_client.Chain.Root.Laws.{IsChain}
use eioie_client.Chain.Root.Merge.{compare_same}
use eioie_client.Group.{Group, compare_inner, compare_outer, compare}

-- A root of the group has the hash.
unfoldable pub has : List ℕ → Group → Bool
has hash [] = false
has hash (m ∷ g) = memeq hash m.root.hash || has hash g

-- The hash of each root is one of the other group's.
unfoldable pub has_all : Group → Group → Bool
has_all [] remote = true
has_all (m ∷ local) remote = has m.root.hash remote && has_all local remote

-- The roots of the group that have the hash of `r` have its blocks.
abbrev pub Agrees : Root → Group → Type 0
Agrees r [] = Unit
Agrees r (m ∷ g) = (memeq r.hash m.root.hash ≡ true → r.blocks ≡ m.root.blocks) × Agrees r g

or_true : (b : Bool) → (b || true) ≡ true
or_true true = refl
or_true false = refl

or_false : (b : Bool) → (b || false) ≡ b
or_false true = refl
or_false false = refl

module _ (sha : Sha256) (print_double : ℕ → List ℕ) (stack : List ℕ) (nmt : ℕ) where
  -- Every root is a chain of valid blocks.
  abbrev pub AllChains : Group → Type 0
  AllChains [] = Unit
  AllChains (m ∷ g) = IsChain sha print_double stack nmt base_hash m.root.blocks × AllChains g

  -- Every root of one group agrees with the other group.
  abbrev pub AllAgree : Group → Group → Type 0
  AllAgree [] remote = Unit
  AllAgree (m ∷ local) remote = Agrees m.root remote × AllAgree local remote

  compare_inner_lem :
      (r : Root) (found : Bool) (g : Group)
      → AllChains g
      → Agrees r g
      → compare_inner sha print_double stack nmt r found g ≡ ok (some (found || has r.hash g))
  unfolding compare_inner has
  compare_inner_lem r found [] chains agrees = rw (or_false found) refl
  compare_inner_lem r found (m ∷ g) (chain, chains) (same, agrees) =
      elim (Bool-cases (memeq r.hash m.root.hash)) [
        | inl this ↦
            let (diff, equal, compared) =
              compare_same sha print_double stack nmt r m.root (same this) chain in
            rw (this, compared, equal, or_true found) (compare_inner_lem r true g chains agrees)
        | inr other ↦ rw other (compare_inner_lem r found g chains agrees)
      ]

  compare_outer_lem :
      (local remote : Group)
      → AllChains remote
      → AllAgree local remote
      → compare_outer sha print_double stack nmt local remote ≡ ok (has_all local remote)
  unfolding compare_outer has_all
  compare_outer_lem [] remote chains agree = refl
  compare_outer_lem (m ∷ local) remote chains (agrees, agree) =
      elim (Bool-cases (has m.root.hash remote)) [
        | inl there ↦
            rw (compare_inner_lem m.root false remote chains agrees, there)
              (compare_outer_lem local remote chains agree)
        | inr absent ↦ rw (compare_inner_lem m.root false remote chains agrees, absent) refl
      ]

  -- If every root of the remote group is a chain of valid blocks, and roots of the two groups that
  -- have one hash have the same blocks, `compare` returns 0 and says that the groups are equal
  -- exactly if they have as many roots and the hash of each local root is one of the remote ones, in
  -- whatever order.
  pub compare-has_all :
      (local remote : Group)
      → AllChains remote
      → AllAgree local remote
      → compare sha print_double stack nmt local remote
        ≡ ok (length local == length remote && has_all local remote)
  unfolding compare
  compare-has_all local remote chains agree = elim (Bool-cases (length local == length remote)) [
    | inl same ↦ rw same (compare_outer_lem local remote chains agree)
    | inr other ↦ rw other refl
  ]
