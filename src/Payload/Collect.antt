-- ===== src/Payload/Collect.antt =====
-- Counting: a list of distinct numbers below `n` has length `n` exactly when it has all of them.
use eioie_client.Base.{
  ℕ, zero, suc, ◌+◌, ◌≤◌, ◌<◌, ◌≡◌, refl, ap, ◌∙◌, List, [], ◌∷◌, ◌++◌, length, arith, ◌==◌, ltb,
  if◌then◌else◌, sym, Bool-cases, inl, inr,
}

-- How often `i` stands in the list.
unfoldable pub count : ℕ → List ℕ → ℕ
count i [] = 0
count i (j ∷ js) = (if j == i then 1 else 0) + count i js

-- f 0 + ... + f (n - 1).
unfoldable pub sum_below : ℕ → (ℕ → ℕ) → ℕ
sum_below zero f = 0
sum_below (suc n) f = sum_below n f + f n

abbrev pub AllBelow : ℕ → List ℕ → Type 0
AllBelow n [] = Unit
AllBelow n (i ∷ is) = (i < n) × AllBelow n is

sum_below-add : (n : ℕ) (f g : ℕ → ℕ) → sum_below n (λ i. f i + g i) ≡ sum_below n f + sum_below n g
unfolding sum_below
sum_below-add zero f g = omega arith
sum_below-add (suc n) f g = omega (arith, sum_below-add n f g)

-- One term of 1 adds up to 1 from there on.
sum_below-single :
    (n j : ℕ) → sum_below n (λ i. if j == i then 1 else 0) ≡ (if ltb j n then 1 else 0)
unfolding sum_below
sum_below-single zero j = ground arith
sum_below-single (suc n) j = ground (arith, sum_below-single n j)

sum_below-zero : (n : ℕ) → sum_below n (λ i. 0) ≡ 0
unfolding sum_below
sum_below-zero zero = refl
sum_below-zero (suc n) = omega (arith, sum_below-zero n)

-- Counting a list by its values.
pub sum_below-count :
    (n : ℕ) (is : List ℕ) → AllBelow n is → sum_below n (λ i. count i is) ≡ length is
unfolding count
sum_below-count n [] h = sum_below-zero n
sum_below-count n (j ∷ is) h =
    sum_below-add n (λ i. if j == i then 1 else 0) (λ i. count i is)
    ∙ ground (arith, sum_below-single n j, sum_below-count n is)

sum_below-le : (n : ℕ) (f : ℕ → ℕ) → ((i : ℕ) → f i ≤ 1) → sum_below n f ≤ n
unfolding sum_below
sum_below-le zero f h = omega arith
sum_below-le (suc n) f h = omega (arith, sum_below-le n f h, h n)

sum_below-lt :
    (n : ℕ) (f : ℕ → ℕ) (j : ℕ) → ((i : ℕ) → f i ≤ 1) → j < n → f j ≡ 0 → sum_below n f < n
unfolding sum_below
sum_below-lt zero f j h lt e = absurd (omega arith)
sum_below-lt (suc n) f j h lt e = elim (Bool-cases (j == n)) [
  | inl last ↦
      let same : j ≡ n = ground arith in
      let none_here : f n ≡ 0 = ap f (sym same) ∙ e in omega (arith, sum_below-le n f h)
  | inr before ↦ omega (arith, sum_below-lt n f j h (ground arith) e, h n)
]

sum_below-all : (n : ℕ) (f : ℕ → ℕ) → ((i : ℕ) → i < n → f i ≡ 1) → sum_below n f ≡ n
unfolding sum_below
sum_below-all zero f h = refl
sum_below-all (suc n) f h =
    omega (arith, sum_below-all n f (λ i p. h i (omega arith)), h n (omega arith))

-- A list of distinct numbers below `n` that lacks one of them is shorter than `n`.
pub length-lt_of_missing :
    (n j : ℕ) (is : List ℕ)
    → AllBelow n is
    → ((i : ℕ) → count i is ≤ 1)
    → j < n
    → count j is ≡ 0
    → length is < n
length-lt_of_missing n j is below once lt missing =
    let short = sum_below-lt n (λ i. count i is) j once lt missing in
    omega (arith, sum_below-count n is below)

-- A list of distinct numbers below `n` that has them all has length `n`.
pub length-eq_of_complete :
    (n : ℕ) (is : List ℕ) → AllBelow n is → ((i : ℕ) → i < n → count i is ≡ 1) → length is ≡ n
length-eq_of_complete n is below all =
    sym (sum_below-count n is below) ∙ sum_below-all n (λ i. count i is) all

pub count-append : (i : ℕ) (is js : List ℕ) → count i (is ++ js) ≡ count i is + count i js
unfolding count
count-append i [] js = omega arith
count-append i (k ∷ is) js = omega (arith, count-append i is js)

pub AllBelow-append :
    (n : ℕ) (is js : List ℕ) → AllBelow n is → AllBelow n js → AllBelow n (is ++ js)
AllBelow-append n [] js h g = g
AllBelow-append n (i ∷ is) js h g = (h.0, AllBelow-append n is js h.1 g)
