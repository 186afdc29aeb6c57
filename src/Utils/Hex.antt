-- ===== src/Utils/Hex.antt =====
-- `bin2hexstr` of src/utils.c and `sha256hex` of src/include/utils.h. The digest itself is
-- OpenSSL's `SHA256`, a parameter.
pub mod Bounds
use eioie_client.Base.{
  ℕ, suc, ◌+◌, ◌-◌, ◌*◌, ◌/◌, ◌%◌, ◌≡◌, List, [], ◌∷◌, ◌++◌, length, ltb, Run, ok, fault, ◌>>=◌,
  if◌then◌else◌,
}

-- The digit that `printf` writes for a half byte.
unfoldable pub hex_digit : ℕ → ℕ
hex_digit x = if ltb x 10 then b'0' + x else b'a' + (x - 10)

-- `snprintf(tmp, sizeof(tmp), "%02x", byte)`.
unfoldable pub hex_byte : ℕ → List ℕ
unfolding hex_digit
hex_byte b = hex_digit (b / 16 % 16) ∷ hex_digit (b % 16) ∷ []

-- The loop at `step - src = i`, with what it writes from `dst + 2 * i` on. A write past the
-- `dstlen` bytes of `dst` is undefined; the test in the code compares `i + 2`, not `2 * i + 2`.
unfoldable pub hex_loop : ℕ → ℕ → List ℕ → Run (List ℕ)
hex_loop dstlen i [] = ok []
hex_loop dstlen i (b ∷ src) =
    let rest = hex_loop dstlen (suc i) src in
    if ltb dstlen (i + 2)
    then ok []
    else if ltb dstlen (2 * i + 2)
    then fault
    else (rest >>= λ out. ok (hex_byte b ++ out))

unfoldable pub bin2hexstr : ℕ → List ℕ → Run (List ℕ)
unfolding hex_loop hex_byte
bin2hexstr dstlen src = hex_loop dstlen 0 src

-- OpenSSL's `SHA256`: 32 bytes for every input.
pub record Sha256 : Type 0 where
  pub digest : List ℕ → List ℕ
  pub length-digest : (src : List ℕ) → length (digest src) ≡ 32

abbrev pub sha256_hex : ℕ
sha256_hex = 64

unfoldable pub sha256hex : Sha256 → List ℕ → Run (List ℕ)
unfolding bin2hexstr
sha256hex sha src = bin2hexstr sha256_hex (sha.digest src)
