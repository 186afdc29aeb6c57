-- ===== src/Group.antt =====
-- The roots of the other peers: src/group.c without what loads, saves and dumps them.
pub mod Laws
use eioie_client.Base.{
  ℕ, List, [], ◌∷◌, ◌++◌, length, memeq, ◌==◌, Bool, true, false, Option, none, some, Run, ok,
  ◌>>=◌, if◌then◌else◌,
}
use eioie_client.Utils.Hex.{Sha256}
use eioie_client.Chain.Transaction.{File}
use eioie_client.Chain.Root
use eioie_client.Chain.Root.{Root}

-- A root of the array `roots`, with its owner's `pubkeyhash`.
pub record Member : Type 0 where
  pub pubkeyhash : List ℕ
  pub root : Root

-- `struct group_s`.
abbrev pub Group : Type 0
Group = List Member

-- `find_root`.
unfoldable pub find_root : List ℕ → Group → Option Member
find_root h [] = none
find_root h (m ∷ g) = if memeq h m.pubkeyhash then some m else find_root h g

-- A write to the root that `find_root` found.
unfoldable pub set_root : List ℕ → Root → Group → Group
set_root h r [] = []
set_root h r (m ∷ g) =
    if memeq h m.pubkeyhash then record m { root = r } ∷ g else m ∷ set_root h r g

-- `find_transaction` with NULL for the callback.
unfoldable pub find_transaction : Group → List ℕ → Run (Option File)
find_transaction [] h = ok none
find_transaction (m ∷ g) h =
    let rest = find_transaction g h in
    (Root.find m.root h >>= λ found. elim found [ none ↦ rest | some f ↦ ok (some f) ])

-- `find_transaction` with a callback: it returns 1 with a result, or 0.
unfoldable pub find_owner : {A : Type 0} → (List ℕ → Option A) → Group → List ℕ → Run (Option A)
find_owner cb [] h = ok none
find_owner cb (m ∷ g) h =
    let rest = find_owner cb g h in
    (Root.find m.root h >>= λ found. elim found [
      | none ↦ rest
      | some f ↦ elim (cb m.pubkeyhash) [ none ↦ rest | some a ↦ ok (some a) ]
    ])

-- `roots_add`, and `root.net.set` on the new root.
unfoldable pub roots_add : Group → Root → List ℕ → Group
roots_add g r pubkeyhash = g ++ record { pubkeyhash = pubkeyhash; root = r } ∷ []

module _ (sha : Sha256) (print_double : ℕ → List ℕ) (stack : List ℕ) (nmt : ℕ) where
  -- `validate`: `*valid`, which holds `stale` before.
  unfoldable pub validate : Bool → Group → Run Bool
  validate stale [] = ok stale
  validate stale (m ∷ g) =
      let rest = validate true g in
      (Root.validate sha print_double stack nmt m.root >>= λ valid.
      if valid then rest else ok false)

  -- The inner loop of `compare`: `found`, unless a root with this hash differs.
  unfoldable pub compare_inner : Root → Bool → Group → Run (Option Bool)
  compare_inner r found [] = ok (some found)
  compare_inner r found (m ∷ g) =
      let later = compare_inner r found g in
      let seen = compare_inner r true g in
      if memeq r.hash m.root.hash
      then (Root.compare sha print_double stack nmt r m.root >>= λ diff.
          if diff.equal then seen else ok none)
      else later

  unfoldable pub compare_outer : Group → Group → Run Bool
  unfolding compare_inner
  compare_outer [] remote = ok true
  compare_outer (m ∷ local) remote =
      let rest = compare_outer local remote in
      (compare_inner m.root false remote >>= λ r. elim r [
        | none ↦ ok false
        | some found ↦ if found then rest else ok false
      ])

  -- `compare`: `*equal`.
  unfoldable pub compare : Group → Group → Run Bool
  unfolding compare_outer
  compare local remote =
      if length local == length remote then compare_outer local remote else ok false
