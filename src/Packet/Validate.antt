-- ===== src/Packet/Validate.antt =====
-- `validate`, `deserialize_init` and `serialize_validate` of src/packet.c.
pub mod Laws
use eioie_client.Base.{
  ℕ, List, [], ◌∷◌, ◌++◌, length, replicate, ltb, memeq, Bool, true, false, Run, ok, fail, ◌>>=◌,
  if◌then◌else◌,
}
use eioie_client.Utils.Hex.{Sha256, sha256hex}
use eioie_client.Packet.{Packet, payload_size}
use eioie_client.Packet.Create.{image, header_image}
use eioie_client.Packet.Wire.{packet_get}

-- The tests on a packet that was read.
unfoldable pub check : Sha256 → Packet → Run (Bool × Packet)
check sha p =
    if ltb payload_size p.header.length
    then ok (false, p)
    else (sha256hex sha (image p.header p.payload) >>= λ md.
        if memeq md p.hash then ok (true, p) else ok (false, p))

-- The flag and the packet that `validate` leaves in its out-parameters.
unfoldable pub validate : Sha256 → List ℕ → Run (Bool × Packet)
unfolding check
validate sha buffer = if ltb (length buffer) 1 then fail else (packet_get buffer >>= check sha)

unfoldable pub deserialize_init : Sha256 → List ℕ → Run Bool
unfolding validate
deserialize_init sha buffer = validate sha buffer >>= λ r. ok r.0

-- The bytes of `struct packet_s` in memory: 534, and two of padding.
unfoldable pub packet_image : Packet → List ℕ
unfolding header_image
packet_image p = header_image p.header ++ (p.payload ++ (p.hash ++ replicate 2 0))

-- The loop leaves at the first packet that is not valid; behind the loop the flag is set to true.
unfoldable pub validate_loop : Sha256 → List Packet → Run Bool
unfolding validate packet_image
validate_loop sha [] = ok false
validate_loop sha (p ∷ ps) =
    let rest = validate_loop sha ps in
    (validate sha (packet_image p) >>= λ r. if r.0 then rest else ok false)

unfoldable pub serialize_validate : Sha256 → List Packet → Run Bool
unfolding validate_loop
serialize_validate sha ps = validate_loop sha ps >>= λ valid. ok true
