-- ===== src/Hashtable/Keys.antt =====
-- The index that `ht_key` of src/tcp/src/hashtable.c computes for a short key.
use eioie_client.Base.{
  ℕ, ◌+◌, ◌-◌, ◌*◌, ◌%◌, ◌^◌, ◌<◌, ◌≤◌, ◌≡◌, refl, List, [], ◌∷◌, length, arith, ltb, true,
  if◌then◌else◌,
}
use eioie_client.Hashtable.{abs_char, key_sum, ht_key}

-- The absolute values of the bytes of a key, each a signed `char`, added up as numbers.
abbrev pub total : List ℕ → ℕ
total [] = 0
total (c ∷ key) = (if ltb c 128 then c else 256 - c) + total key

-- A key of fewer than 2 ^ 24 bytes.
abbrev pub IsShort : List ℕ → Type 0
IsShort key = length key < 2 ^ 24

-- The `int` of `ht_key` does not overflow, so that the index is the remainder of the sum.
pub record IsIndexable (key : List ℕ) : Type 0 where
  pub sum : total key < 2 ^ 31
  pub index : ht_key key ≡ total key % 4096

total-at_most : (key : List ℕ) → total key ≤ 128 * length key
total-at_most [] = omega arith
total-at_most (c ∷ key) = let rest = total-at_most key in ground arith

key_sum-total :
    (dst : ℕ) (key : List ℕ) → dst + total key < 2 ^ 32 → key_sum dst key ≡ dst + total key
unfolding key_sum abs_char
key_sum-total dst [] h = omega arith
key_sum-total dst (c ∷ key) h =
    let a : ℕ = if ltb c 128 then c else 256 - c in
    let small : (dst + a) % 2 ^ 32 ≡ dst + a = omega arith in
    let rest = key_sum-total (dst + a) key (omega arith) in rw small (omega (arith, rest))

pub IsShort-IsIndexable : (key : List ℕ) → IsShort key → IsIndexable key
unfolding ht_key
IsShort-IsIndexable key short =
    let most = total-at_most key in
    let fits : total key < 2 ^ 31 = omega (arith, most, short) in
    let whole : key_sum 0 key ≡ total key =
      omega (arith, key_sum-total 0 key (omega (arith, fits))) in
    let below : ltb (total key) (2 ^ 31) ≡ true = ground (arith, fits) in
    record { sum = fits; index = rw (ht_key, whole, below) refl }
