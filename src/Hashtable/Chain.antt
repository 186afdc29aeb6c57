-- ===== src/Hashtable/Chain.antt =====
-- The chain of one index.
use eioie_client.Base.{
  ℕ, suc, ◌≡◌, refl, sym, ap, ◌∙◌, subst, List, [], ◌∷◌, length, memeq, memeq-eq, eq→memeq, false,
  Bool-cases, Option-cases, inl, inr, none, some, arith, if◌then◌else◌,
}
use eioie_client.Hashtable.{Item, chain_get, chain_set, chain_rem}

-- A key that differs from another is not found as it: the order of the two tests does not matter.
pub exclusive :
    {A : Type 0} (k k' key : List ℕ)
    → memeq k k' ≡ false
    → (x y z : A)
    → (if memeq k key then x else if memeq k' key then y else z)
      ≡ (if memeq k' key then y else if memeq k key then x else z)
exclusive k k' key differ x y z = elim (Bool-cases (memeq k key)) [
  | inl first ↦ elim (Bool-cases (memeq k' key)) [
    | inl second ↦
        let e : k ≡ k' = memeq-eq k key first ∙ sym (memeq-eq k' key second) in cc (eq→memeq k k' e)
    | inr other ↦ rw (first, other)
  ]
  | inr other ↦ rw other
]

pub memeq_sym : (k k' : List ℕ) → memeq k k' ≡ false → memeq k' k ≡ false
memeq_sym k k' differ = elim (Bool-cases (memeq k' k)) [
  | inl same ↦ cc (eq→memeq k k' (sym (memeq-eq k' k same)))
  | inr other ↦ other
]

module _ {V : Type 0} where
  -- No key stands twice.
  unfoldable pub Distinct : List (Item V) → Type 0
  Distinct [] = Unit
  Distinct (h ∷ hs) = (chain_get h.k hs ≡ none) × Distinct hs

  pub chain_get-chain_set :
      (new : Item V) (hs hs' : List (Item V)) (key : List ℕ)
      → chain_set new hs ≡ some hs'
      → chain_get key hs' ≡ (if memeq new.k key then some new else chain_get key hs)
  unfolding chain_get chain_set
  chain_get-chain_set new [] hs' key e = cc
  chain_get-chain_set new (h ∷ hs) hs' key e = elim (Bool-cases (memeq h.k new.k)) [
    | inl here ↦
        let same : h.k ≡ new.k = memeq-eq h.k new.k here in
        let first : new ∷ hs ≡ hs' = cc (rw here at e) in rw (← first, same) (ground arith)
    | inr there ↦
        let later = rw there at e in
        elim (Option-cases (chain_set new hs)) [
          | inl absent ↦ cc (rw absent at later)
          | inr (rest, found) ↦
              let whole : h ∷ rest ≡ hs' = cc (rw found at later) in
              let step = chain_get-chain_set new hs rest key found in
              rw (← whole, step)
                (exclusive h.k new.k key there (some h) (some new) (chain_get key hs))
        ]
  ]

  pub chain_set-eq-none :
      (new : Item V) (hs : List (Item V)) → chain_set new hs ≡ none → chain_get new.k hs ≡ none
  unfolding chain_get chain_set
  chain_set-eq-none new [] e = refl
  chain_set-eq-none new (h ∷ hs) e = elim (Bool-cases (memeq h.k new.k)) [
    | inl here ↦ cc (rw here at e)
    | inr there ↦
        let later = rw there at e in
        elim (Option-cases (chain_set new hs)) [
          | inl absent ↦ rw there (chain_set-eq-none new hs absent)
          | inr (rest, found) ↦ cc (rw found at later)
        ]
  ]

  pub length-chain_set :
      (new : Item V) (hs hs' : List (Item V)) → chain_set new hs ≡ some hs' → length hs' ≡ length hs
  unfolding chain_set
  length-chain_set new [] hs' e = cc
  length-chain_set new (h ∷ hs) hs' e = elim (Bool-cases (memeq h.k new.k)) [
    | inl here ↦ let first : new ∷ hs ≡ hs' = cc (rw here at e) in rw (← first)
    | inr there ↦
        let later = rw there at e in
        elim (Option-cases (chain_set new hs)) [
          | inl absent ↦ cc (rw absent at later)
          | inr (rest, found) ↦
              let whole : h ∷ rest ≡ hs' = cc (rw found at later) in
              rw (← whole) (ap suc (length-chain_set new hs rest found))
        ]
  ]

  pub chain_rem-eq-none :
      (key : List ℕ) (hs : List (Item V)) → chain_rem key hs ≡ none → chain_get key hs ≡ none
  unfolding chain_get chain_rem
  chain_rem-eq-none key [] e = refl
  chain_rem-eq-none key (h ∷ hs) e = elim (Bool-cases (memeq h.k key)) [
    | inl here ↦ cc (rw here at e)
    | inr there ↦
        let later = rw there at e in
        elim (Option-cases (chain_rem key hs)) [
          | inl absent ↦ rw there (chain_rem-eq-none key hs absent)
          | inr (rest, found) ↦ cc (rw found at later)
        ]
  ]

  pub chain_get-chain_rem :
      (key : List ℕ) (hs hs' : List (Item V)) (key' : List ℕ)
      → Distinct hs
      → chain_rem key hs ≡ some hs'
      → chain_get key' hs' ≡ (if memeq key key' then none else chain_get key' hs)
  unfolding chain_get chain_rem Distinct
  chain_get-chain_rem key [] hs' key' d e = cc
  chain_get-chain_rem key (h ∷ hs) hs' key' d e = elim (Bool-cases (memeq h.k key)) [
    | inl here ↦
        let same : h.k ≡ key = memeq-eq h.k key here in
        let first : hs ≡ hs' = cc (rw here at e) in
        let tests : memeq h.k key' ≡ memeq key key' = ap (λ k. memeq k key') same in
        elim (Bool-cases (memeq key key')) [
          | inl wanted ↦
              let gone : chain_get key' hs ≡ none =
                ap (λ k. chain_get k hs) (sym (same ∙ memeq-eq key key' wanted)) ∙ d.0 in
              rw (← first, wanted) gone
          | inr other ↦ rw (← first, tests, other)
        ]
    | inr there ↦
        let later = rw there at e in
        elim (Option-cases (chain_rem key hs)) [
          | inl absent ↦ cc (rw absent at later)
          | inr (rest, found) ↦
              let whole : h ∷ rest ≡ hs' = cc (rw found at later) in
              let step = chain_get-chain_rem key hs rest key' d.1 found in
              rw (← whole, step) (exclusive h.k key key' there (some h) none (chain_get key' hs))
        ]
  ]

  -- Replacing a value and removing an item keep the keys distinct.
  pub chain_set-Distinct :
      (new : Item V) (hs hs' : List (Item V))
      → Distinct hs
      → chain_set new hs ≡ some hs'
      → Distinct hs'
  unfolding chain_set Distinct
  chain_set-Distinct new [] hs' d e = cc
  chain_set-Distinct new (h ∷ hs) hs' d e = elim (Bool-cases (memeq h.k new.k)) [
    | inl here ↦
        let first : new ∷ hs ≡ hs' = cc (rw here at e) in
        let same : h.k ≡ new.k = memeq-eq h.k new.k here in
        subst Distinct first (ap (λ k. chain_get k hs) (sym same) ∙ d.0, d.1)
    | inr there ↦
        let later = rw there at e in
        elim (Option-cases (chain_set new hs)) [
          | inl absent ↦ cc (rw absent at later)
          | inr (rest, found) ↦
              let whole : h ∷ rest ≡ hs' = cc (rw found at later) in
              let step = chain_get-chain_set new hs rest h.k found in
              subst Distinct whole (
                step ∙ rw (memeq_sym h.k new.k there) d.0,
                chain_set-Distinct new hs rest d.1 found,
              )
        ]
  ]

  pub chain_rem-Distinct :
      (key : List ℕ) (hs hs' : List (Item V))
      → Distinct hs
      → chain_rem key hs ≡ some hs'
      → Distinct hs'
  unfolding chain_rem Distinct
  chain_rem-Distinct key [] hs' d e = cc
  chain_rem-Distinct key (h ∷ hs) hs' d e = elim (Bool-cases (memeq h.k key)) [
    | inl here ↦ let first : hs ≡ hs' = cc (rw here at e) in subst Distinct first d.1
    | inr there ↦
        let later = rw there at e in
        elim (Option-cases (chain_rem key hs)) [
          | inl absent ↦ cc (rw absent at later)
          | inr (rest, found) ↦
              let whole : h ∷ rest ≡ hs' = cc (rw found at later) in
              let step = chain_get-chain_rem key hs rest h.k d.1 found in
              subst Distinct whole
                (step ∙ rw (memeq_sym h.k key there) d.0, chain_rem-Distinct key hs rest d.1 found)
        ]
  ]
