-- ===== src/Utils/Hex/Bounds.antt =====
-- When the hexadecimal string fits, and what it is.
use eioie_client.Base.{
  ℕ, suc, ◌+◌, ◌*◌, ◌≤◌, ◌<◌, ◌≡◌, refl, List, [], ◌∷◌, ◌++◌, arith, length, ok, fault, ge→ltb,
}
use eioie_client.Utils.Hex.{hex_byte, hex_loop, bin2hexstr, Sha256, sha256hex}

-- Two digits for each byte.
unfoldable pub hex : List ℕ → List ℕ
hex [] = []
hex (b ∷ src) = hex_byte b ++ hex src

pub length-hex : (src : List ℕ) → length (hex src) ≡ 2 * length src
unfolding hex hex_byte
length-hex [] = refl
length-hex (b ∷ src) = omega (arith, length-hex src)

hex_loop-eq-hex :
    (dstlen i : ℕ) (src : List ℕ)
    → 2 * i + 2 * length src ≤ dstlen
    → hex_loop dstlen i src ≡ ok (hex src)
unfolding hex_loop hex
hex_loop-eq-hex dstlen i [] h = refl
hex_loop-eq-hex dstlen i (b ∷ src) h = rw (
  ge→ltb dstlen (i + 2) (omega arith),
  ge→ltb dstlen (2 * i + 2) (omega arith),
  hex_loop-eq-hex dstlen (suc i) src (omega arith),
)

-- A source of at most half the room is written whole.
pub bin2hexstr_fits :
    (dstlen : ℕ) (src : List ℕ) → 2 * length src ≤ dstlen → bin2hexstr dstlen src ≡ ok (hex src)
unfolding bin2hexstr
bin2hexstr_fits dstlen src h = hex_loop-eq-hex dstlen 0 src (omega arith)

hex_loop-eq-fault :
    (dstlen i : ℕ) (src : List ℕ)
    → 3 ≤ dstlen
    → 2 * i ≤ dstlen
    → dstlen < 2 * i + 2 * length src
    → hex_loop dstlen i src ≡ fault
unfolding hex_loop
hex_loop-eq-fault dstlen i [] wide start over = absurd (omega arith)
hex_loop-eq-fault dstlen i (b ∷ src) wide start over =
    ground (arith, hex_loop-eq-fault dstlen (suc i) src)

-- A longer source overruns a destination of three bytes or more: the guard does not stop it.
pub bin2hexstr_overruns :
    (dstlen : ℕ) (src : List ℕ)
    → 3 ≤ dstlen
    → dstlen < 2 * length src
    → bin2hexstr dstlen src ≡ fault
unfolding bin2hexstr
bin2hexstr_overruns dstlen src wide over =
    hex_loop-eq-fault dstlen 0 src wide (omega arith) (omega arith)

-- The digest always fits its 64 bytes.
pub sha256hex_lem : (sha : Sha256) (src : List ℕ) → sha256hex sha src ≡ ok (hex (sha.digest src))
unfolding sha256hex
sha256hex_lem sha src = bin2hexstr_fits 64 (sha.digest src) (omega (arith, sha.length-digest src))

pub length-hex-digest : (sha : Sha256) (src : List ℕ) → length (hex (sha.digest src)) ≡ 64
length-hex-digest sha src = omega (arith, length-hex (sha.digest src), sha.length-digest src)
