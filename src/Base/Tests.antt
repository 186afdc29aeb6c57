-- ===== src/Base/Tests.antt =====
-- Boolean tests on the native numbers and on byte strings, and the conditional.
use Prim.Native.Nat.{ℕ, ◌+◌, ◌-◌, ◌^◌, ◌≤◌, ◌<◌, compare, Ordering}
use mathlib.Core.Path.{◌≡◌, refl}
use mathlib.Core.Logic.{◌↔◌, ◌⊎◌, inl, inr}
use mathlib.Core.Bool.{Bool, true, false, ◌&&◌}
use mathlib.Core.List.{List, [], ◌∷◌}
use mathlib.Core.Option.{Option, none, some}
use native.Mathlib.Omega.{arith}

abbrev pub ltb : ℕ → ℕ → Bool
ltb a b = elim (compare a b) [ Ordering.lt ↦ true | _ ↦ false ]

abbrev pub leb : ℕ → ℕ → Bool
leb a b = elim (compare a b) [ Ordering.gt ↦ false | _ ↦ true ]

infix 50 ◌==◌
abbrev pub ◌==◌ : ℕ → ℕ → Bool
a == b = elim (compare a b) [ Ordering.eq ↦ true | _ ↦ false ]

infix 1 if◌then◌else◌
abbrev pub if◌then◌else◌ {ℓ} : {A : Type ℓ} → Bool → A → A → A
if true then x else y = x
if false then x else y = y

pub ltb→lt : (a b : ℕ) → ltb a b ≡ true → a < b
ltb→lt a b h = ground arith

pub lt→ltb : (a b : ℕ) → a < b → ltb a b ≡ true
lt→ltb a b h = ground arith

pub ge→ltb : (a b : ℕ) → b ≤ a → ltb a b ≡ false
ge→ltb a b h = ground arith

pub le→leb : (a b : ℕ) → a ≤ b → leb a b ≡ true
le→leb a b h = ground arith

pub gt→leb : (a b : ℕ) → b < a → leb a b ≡ false
gt→leb a b h = ground arith

pub ==_iff : (a b : ℕ) → ((a == b) ≡ true) ↔ (a ≡ b)
==_iff a b = ground arith

pub ==_refl : (a : ℕ) → (a == a) ≡ true
==_refl a = ground arith

-- An `int` in two's complement, converted to a `size_t`: the sign is extended.
unfoldable pub size_of_int : ℕ → ℕ
size_of_int x = if ltb x (2 ^ 31) then x else x + (2 ^ 64 - 2 ^ 32)

pub size_of_int_small : (x : ℕ) → x < 2 ^ 31 → size_of_int x ≡ x
unfolding size_of_int
size_of_int_small x h = ground arith

-- To split on a computed value and keep the equation.
pub Bool-cases : (b : Bool) → (b ≡ true) ⊎ (b ≡ false)
Bool-cases true = inl refl
Bool-cases false = inr refl

pub Option-cases {ℓ} : {A : Type ℓ} (o : Option A) → (o ≡ none) ⊎ ((a : A) × (o ≡ some a))
Option-cases none = inl refl
Option-cases (some a) = inr (a, refl)

-- `n == m && memcmp(a, b, n) == 0` on byte strings that know their lengths.
unfoldable pub memeq : List ℕ → List ℕ → Bool
memeq [] [] = true
memeq [] (y ∷ ys) = false
memeq (x ∷ xs) [] = false
memeq (x ∷ xs) (y ∷ ys) = x == y && memeq xs ys

pub memeq_refl : (xs : List ℕ) → memeq xs xs ≡ true
unfolding memeq
memeq_refl [] = refl
memeq_refl (x ∷ xs) = ground (arith, memeq_refl xs)

pub memeq-eq : (xs ys : List ℕ) → memeq xs ys ≡ true → xs ≡ ys
unfolding memeq
memeq-eq [] [] h = refl
memeq-eq [] (y ∷ ys) h = cc
memeq-eq (x ∷ xs) [] h = cc
memeq-eq (x ∷ xs) (y ∷ ys) h = ground (arith, memeq-eq xs ys)

pub eq→memeq : (xs ys : List ℕ) → xs ≡ ys → memeq xs ys ≡ true
eq→memeq xs ys e = rw (← e) (memeq_refl xs)
