-- ===== src/Packet/Validate/Laws.antt =====
-- What a packet that is accepted is, and that the program's own packets are accepted.
use eioie_client.Base.{
  ◌^◌, ℕ, ◌≤◌, ◌<◌, ◌≡◌, refl, ◌∙◌, List, [], ◌∷◌, ◌++◌, length, take, arith, true, false, ◌↔◌, leb,
  memeq, memeq_refl, memeq-eq, ok, ◌>>=◌, >>=-eq-ok, ge→ltb, length-append, sym, subst, ◌&&◌,
  le→leb,
}
use eioie_client.Utils.Hex.{Sha256}
use eioie_client.Utils.Hex.Bounds.{hex, sha256hex_lem}
use eioie_client.Bytes.Sn.{Sn}
use eioie_client.Packet.{Packet, payload_size}
use eioie_client.Packet.Create.{Outgoing, SendBuffer, image, chunks_of}
use eioie_client.Packet.Create.Laws.{IsOutgoing, packet_at, chunk_at, packet_at-IsPacket}
use eioie_client.Packet.Wire.{packet_set, packet_get}
use eioie_client.Packet.Wire.RoundTrip.{
  small_buffer, wire, header_wire, packet_get-wire, packet_set-Holds, length-header_wire,
}
use eioie_client.Packet.Validate.{check, validate, packet_image, serialize_validate}

-- The hash field is the digest of the header and the payload.
abbrev pub HasDigest : Sha256 → Packet → Type 0
HasDigest sha p = p.hash ≡ hex (sha.digest (image p.header p.payload))

-- The tests as one condition, with the digest computed.
check_lem :
    (sha : Sha256) (p : Packet)
    → check sha p
      ≡ ok (
        leb p.header.length payload_size
            && memeq (hex (sha.digest (image p.header p.payload))) p.hash,
        p,
      )
unfolding check
check_lem sha p = rw sha256hex_lem (ground arith)

check_sound :
    (sha : Sha256) (q p : Packet)
    → check sha q ≡ ok (true, p)
    → (q ≡ p) × (p.header.length ≤ payload_size) × HasDigest sha p
check_sound sha q p e =
    let result = sym (check_lem sha q) ∙ e in
    let same : q ≡ p = cc in
    let md = hex (sha.digest (image q.header q.payload)) in
    let tests : (leb q.header.length payload_size && memeq md q.hash) ≡ true = cc in
    let equal : md ≡ q.hash = memeq-eq md q.hash (ground arith) in
    (same, rw (← same) (ground arith), rw (← same) (sym equal))

check_complete :
    (sha : Sha256) (p : Packet)
    → p.header.length ≤ payload_size
    → HasDigest sha p
    → check sha p ≡ ok (true, p)
check_complete sha p fits digest =
    let same : memeq (hex (sha.digest (image p.header p.payload))) p.hash ≡ true =
      subst (λ md. memeq (hex (sha.digest (image p.header p.payload))) md ≡ true) (sym digest)
        (memeq_refl _) in
    check_lem sha p ∙ rw (same, le→leb p.header.length payload_size fits)

-- `validate` accepts a packet exactly when the buffer is not empty and reads as it, its length fits
-- the payload array, and its hash is the digest of its header and payload.
pub validate_iff :
    (sha : Sha256) (buffer : List ℕ) (p : Packet)
    → (validate sha buffer ≡ ok (true, p)) ↔ (
        (1 ≤ length buffer)
        × (packet_get buffer ≡ ok p)
        × (p.header.length ≤ payload_size)
        × HasDigest sha p)
unfolding validate
validate_iff sha [] p = (λ e. cc, λ h. absurd (omega (arith, h.0)))
validate_iff sha (b ∷ bs) p =
    let read_from = ge→ltb (length (b ∷ bs)) 1 (omega arith) in
    (
      λ e.
          let (q, got, checked) = >>=-eq-ok (packet_get (b ∷ bs)) (check sha) (rw read_from at e) in
          let (same, fits, digest) = check_sound sha q p checked in
          (omega arith, rw same at got, fits, digest),
      λ (some_bytes, got, fits, digest). rw (read_from, got) (check_complete sha p fits digest),
    )

packet_at-HasDigest :
    (sha : Sha256) (o : Outgoing) (now : ℕ → ℕ) (sb : SendBuffer) (buffer : List ℕ) (i : ℕ)
    → HasDigest sha (packet_at sha o now sb buffer i)
unfolding packet_at
packet_at-HasDigest sha o now sb buffer i = refl

-- A packet that `serialize_init` made with arguments that fit the header's types, written by
-- `packet_set` and received into a buffer with less than 2 ^ 30 stale bytes behind it, is accepted
-- and read back as it was made.
pub validate-packet_set :
    (sha : Sha256) {o : Outgoing} {now : ℕ → ℕ} {sb : SendBuffer} {buffer : List ℕ}
    → IsOutgoing o now sb buffer
    → (i : ℕ) → i < chunks_of (length buffer)
    → (dst : Sn) (stale : List ℕ) → length dst.s ≡ 1024
    → length stale < 2 ^ 30
    → let p = packet_at sha o now sb buffer i in
      (packet_set dst p >>= λ d. validate sha (take d.offset d.s ++ stale)) ≡ ok (true, p)
validate-packet_set sha {o} {now} {sb} {buffer} v i h dst stale room small =
    let p = packet_at sha o now sb buffer i in
    let body = chunk_at sha o now sb buffer i in
    let good = packet_at-IsPacket sha v i h in
    let (d, written, holds) = packet_set-Holds dst p body room good in
    let there = length-header_wire p.header good.header.filename in
    let some_bytes : 1 ≤ length (wire p body ++ stale) = omega (
      arith,
      length-append {0} (wire p body) stale,
      length-append {0} (header_wire p.header) (body ++ p.hash),
    ) in
    rw (written, holds.written)
      ((validate_iff sha (wire p body ++ stale) p).1 (
        some_bytes,
        packet_get-wire p body stale good (small_buffer p body stale good small),
        good.fits,
        packet_at-HasDigest sha o now sb buffer i,
      ))

-- `serialize_validate` reports success for a group that begins with a packet which `validate`
-- rejects.
pub serialize_validate_accepts :
    (sha : Sha256) (p q : Packet) (ps : List Packet)
    → validate sha (packet_image p) ≡ ok (false, q)
    → serialize_validate sha (p ∷ ps) ≡ ok true
unfolding serialize_validate
serialize_validate_accepts sha p q ps rejected = rw rejected
