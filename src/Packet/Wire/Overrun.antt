-- ===== src/Packet/Wire/Overrun.antt =====
-- The length field that arrives is used before it is checked.
use eioie_client.Base.{
  subst, ◌+◌, length-append, ℕ, ◌≤◌, ◌<◌, ◌^◌, ◌≡◌, List, ◌++◌, arith, length, ◌↔◌, ok, fault,
  ◌>>=◌, inl, inr, ◌⊎◌, >>=-eq-fault, ◌≢◌,
}
use eioie_client.Bytes.Sn.{Sn, read, init_raw}
use eioie_client.Bytes.Sn.Append.{concat-onto}
use eioie_client.Bytes.Sn.Read.{
  Left, read-eq-ok, init_raw-Left, read-eq-fault, read-fault, read-ne-fault,
}
use eioie_client.Packet.{Header, IsHeader, payload_size, hash_size}
use eioie_client.Packet.Wire.{header_fields, packet_get}
use eioie_client.Packet.Wire.RoundTrip.{header_wire, header_get-Reads}

-- The length field names more bytes than the payload array has and than are there to be read, or
-- its end, behind the header's bytes, is no `int`.
abbrev pub Overruns : Header → List ℕ → Type 0
Overruns h rest =
    (2 ^ 31 ≤ length (header_wire h) + h.length)
    ⊎ ((payload_size < h.length) × (h.length ≤ length rest))

hash_get-ne-fault :
    {B : Type 0} (k : List ℕ × Sn → B) (b : Sn)
    → b.offset + hash_size < 2 ^ 31
    → (read hash_size hash_size b >>= λ t. ok (k t)) ≢ fault
hash_get-ne-fault k b small e = elim (>>=-eq-fault (read hash_size hash_size b) _ e) [
  | inl bad ↦ read-ne-fault hash_size hash_size b (omega arith) small bad
  | inr (t, ran, never) ↦ cc
]

-- With a header that is read from a buffer of less than 2 ^ 30 bytes, `packet_get` has undefined
-- behaviour exactly when the length field overruns: its end is no `int`, or it is larger than the
-- payload array and no larger than what is left of the buffer.
pub packet_get-eq-fault :
    (h : Header) (rest : List ℕ)
    → IsHeader h
    → length (header_wire h ++ rest) < 2 ^ 30
    → (packet_get (header_wire h ++ rest) ≡ fault) ↔ Overruns h rest
unfolding packet_get
packet_get-eq-fault h rest v small =
    let whole = header_wire h ++ rest in
    let (s, e, left) = header_get-Reads h rest (init_raw whole) v (
      subst (λ l. Left (length whole) l (init_raw whole)) (concat-onto (header_fields h) rest)
        (init_raw-Left whole (omega arith))) in
    let here : s.offset ≡ length (header_wire h) =
      omega (arith, left.size, left.whole, length-append {0} (header_wire h) rest) in
    rw e (
      λ undefined. elim (>>=-eq-fault (read payload_size h.length s) _ undefined) [
        | inl body ↦ rw here at (read-fault payload_size h.length rest s left body)
        | inr ((body, b), ran, later) ↦
            let ends = read-eq-ok payload_size h.length s body b ran in
            absurd (hash_get-ne-fault _ b (omega (arith, left.whole)) later)
      ],
      λ over. rw (read-eq-fault payload_size h.length rest s left (rw here over)),
    )
