-- ===== src/Chain/Text.antt =====
-- The texts that `snprintf` makes to be hashed.
use eioie_client.Base.{
  ℕ, zero, suc, ◌+◌, ◌-◌, ◌/◌, ◌%◌, ◌^◌, ◌≡◌, List, [], ◌∷◌, ◌++◌, take, ltb, leb, ◌==◌, Run, ok,
  if◌then◌else◌,
}
use eioie_client.Utils.Hex.{Sha256, sha256hex}
use eioie_client.Utils.Hex.Bounds.{hex, sha256hex_lem}

-- `%.*s` with the precision `n`: what stands before a NUL, at most `n` bytes.
unfoldable pub cstr : ℕ → List ℕ → List ℕ
cstr zero s = []
cstr (suc n) [] = []
cstr (suc n) (c ∷ s) = let rest = cstr n s in if c == 0 then [] else c ∷ rest

-- The decimal digits of a number of at most `rounds` digits.
unfoldable pub digits : ℕ → ℕ → List ℕ
digits zero x = []
digits (suc rounds) x =
    let rest = digits rounds (x / 10) in
    if ltb x 10 then (b'0' + x) ∷ [] else rest ++ (b'0' + x % 10) ∷ []

-- `%d` (`w` is 32) and `%ld` (`w` is 64) of the `w` bits `x`.
unfoldable pub print_signed : ℕ → ℕ → List ℕ
unfolding digits
print_signed w x = if leb (2 ^ (w - 1)) x then b'-' ∷ digits 20 (2 ^ w - x) else digits 20 x

-- `snprintf` to a buffer of `n` bytes, and `sha256hex` of what is there.
unfoldable pub hash_text : Sha256 → ℕ → List ℕ → Run (List ℕ)
hash_text sha n text = sha256hex sha (take (n - 1) text)

-- The hexadecimal digest of the text.
unfoldable pub text_digest : Sha256 → ℕ → List ℕ → List ℕ
text_digest sha n text = hex (sha.digest (take (n - 1) text))

pub hash_text_lem :
    (sha : Sha256) (n : ℕ) (text : List ℕ) → hash_text sha n text ≡ ok (text_digest sha n text)
unfolding hash_text text_digest
hash_text_lem sha n text = sha256hex_lem sha (take (n - 1) text)
