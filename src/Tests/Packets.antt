-- ===== src/Tests/Packets.antt =====
-- Packets on the wire, and their way back into one buffer.
use eioie_client.Base.{
  ℕ, ◌≤◌, ◌≡◌, refl, List, [], ◌∷◌, ◌++◌, replicate, arith, length, take, map, ok, fault, ◌>>=◌,
  true, ◌↔◌,
}
use eioie_client.Bytes.Integer.{to_bytes}
use eioie_client.Packet.{payload_size}
use eioie_client.Packet.Create.{chunks_of}
use eioie_client.Packet.Create.Laws.{packet_at, chunk_at, header_at, packet_at-IsPacket}
use eioie_client.Packet.Wire.{header_fields, packet_set, packet_get}
use eioie_client.Packet.Wire.RoundTrip.{header_wire, packet_get-packet_set}
use eioie_client.Packet.Wire.Overrun.{Overruns, packet_get-eq-fault}
use eioie_client.Packet.Validate.{validate}
use eioie_client.Packet.Validate.Laws.{HasDigest, validate_iff, validate-packet_set}
use eioie_client.Payload.{receive_all, command_find, find_cache}
use eioie_client.Payload.Collect.{count}
use eioie_client.Payload.Delivery.Order.{replies, handled, receive_all-buffer}
use eioie_client.Tests.Sample.{
  sha, message, counters, clock, text, fresh, region, text-IsOutgoing, long, long-IsHeader,
  zero_packet,
}

validate-packet_set_example :
    let p = packet_at sha message clock counters text 1 in
    (packet_set region p >>= λ d. validate sha (take d.offset d.s ++ 1 ∷ [])) ≡ ok (true, p)
unfolding chunks_of
validate-packet_set_example =
    validate-packet_set sha text-IsOutgoing 1 (omega arith) region (1 ∷ []) refl (omega arith)

-- The second packet comes first and twice.
receive_all-buffer_example :
    let headers = header_at sha message clock counters text in
    receive_all fresh [] (map (packet_at sha message clock counters text) (1 ∷ 1 ∷ 0 ∷ []))
    ≡ ok ([], replies headers true (1 ∷ 1 ∷ 0 ∷ []) ++ handled (headers 0) true text)
unfolding chunks_of count command_find find_cache
receive_all-buffer_example =
    receive_all-buffer sha text-IsOutgoing fresh [] refl true true refl (1 ∷ 1 ∷ []) 0 (omega arith)
      (omega arith) refl (λ k h. ground arith)

packet_get-packet_set_example :
    let p = packet_at sha message clock counters text 1 in
    (packet_set region p >>= λ d. packet_get (take d.offset d.s ++ 1 ∷ [])) ≡ ok p
unfolding chunks_of
packet_get-packet_set_example =
    packet_get-packet_set region (packet_at sha message clock counters text 1)
      (chunk_at sha message clock counters text 1) (1 ∷ []) refl
      (packet_at-IsPacket sha text-IsOutgoing 1 (omega arith)) (omega arith)

-- The length field is 400, and 500 bytes follow.
packet_get-eq-fault_example :
    (packet_get (header_wire long ++ replicate 500 0) ≡ fault) ↔ Overruns long (replicate 500 0)
unfolding header_fields to_bytes
packet_get-eq-fault_example = packet_get-eq-fault long (replicate 500 0) long-IsHeader (omega arith)

validate_iff_example :
    let buffer : List ℕ = replicate 300 0 in
    (validate sha buffer ≡ ok (true, zero_packet)) ↔ (
      (1 ≤ length buffer)
      × (packet_get buffer ≡ ok zero_packet)
      × (0 ≤ payload_size)
      × HasDigest sha zero_packet)
validate_iff_example = validate_iff sha (replicate 300 0) zero_packet

-- The second packet comes first and again at the end.
