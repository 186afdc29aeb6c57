-- ===== src/Packet/Create/Laws.antt =====
-- The packets that `serialize_init` makes, in closed form.
use eioie_client.Base.{
  ℕ, zero, suc, ◌+◌, ◌*◌, ◌%◌, ◌^◌, ◌≤◌, ◌<◌, ◌≡◌, refl, List, [], ◌∷◌, length, arith, map, ok,
  ge→ltb,
}
use eioie_client.Bytes.Memory.{slice, length-slice}
use eioie_client.Utils.Hex.{Sha256}
use eioie_client.Utils.Hex.Bounds.{hex, sha256hex_lem, length-hex-digest}
use eioie_client.Packet.{Header, Packet, IsHeader, IsPacket, payload_size, hash_size, zero_filled}
use eioie_client.Packet.Create.{
  Outgoing, SendBuffer, image, header_of, packet_create, chunks_of, chunk_size, chunk_loop,
  serialize_init, name_or_zero, tcp_or_zero,
}
use eioie_client.Packet.Create.Size.{chunk_size_bounds, chunks_of_bounds}

-- `k` numbers from `i` on.
unfoldable pub upto : ℕ → ℕ → List ℕ
upto i zero = []
upto i (suc k) = i ∷ upto (i + 1) k

module _ (sha : Sha256) (o : Outgoing) (now : ℕ → ℕ) (sb : SendBuffer) (buffer : List ℕ) where
  -- The bytes of chunk `i`, its header and its packet.
  abbrev pub chunk_at : ℕ → List ℕ
  chunk_at i = slice buffer (i * payload_size) (chunk_size (length buffer) i)

  abbrev pub header_at : ℕ → Header
  header_at i =
      header_of o sb.gidx (now i) (i * payload_size) (chunks_of (length buffer))
        ((sb.pidx + i) % 2 ^ 32) (chunk_size (length buffer) i)

  abbrev pub payload_at : ℕ → List ℕ
  payload_at i = zero_filled payload_size (chunk_at i)

  unfoldable pub packet_at : ℕ → Packet
  packet_at i = record {
    header = header_at i;
    payload = payload_at i;
    hash = hex (sha.digest (image (header_at i) (payload_at i)));
  }

  pub length-chunk_at :
      (i : ℕ) → i < chunks_of (length buffer) → length (chunk_at i) ≡ chunk_size (length buffer) i
  length-chunk_at i h = length-slice buffer _ _ (chunk_size_bounds (length buffer) i h).2

  packet_create-eq-packet_at :
      (i : ℕ)
      → i < chunks_of (length buffer)
      → packet_create sha o sb.gidx
          (now i)
          (i * payload_size)
          (chunks_of (length buffer))
          ((sb.pidx + i) % 2 ^ 32)
          (chunk_at i)
        ≡ ok (packet_at i)
  unfolding packet_create packet_at
  packet_create-eq-packet_at i h =
      let size = length-chunk_at i h in
      rw (size, ge→ltb payload_size _ (chunk_size_bounds (length buffer) i h).1, sha256hex_lem)

  chunk_loop_lem :
      (rounds i : ℕ)
      → i + rounds ≡ chunks_of (length buffer)
      → chunk_loop sha o now sb.gidx buffer rounds i ((sb.pidx + i) % 2 ^ 32)
        ≡ ok (map packet_at (upto i rounds), (sb.pidx + (i + rounds)) % 2 ^ 32)
  unfolding upto chunk_loop
  chunk_loop_lem zero i h = let e : i + 0 ≡ i = omega arith in rw e
  chunk_loop_lem (suc rounds) i h =
      let step : ((sb.pidx + i) % 2 ^ 32 + 1) % 2 ^ 32 ≡ (sb.pidx + (i + 1)) % 2 ^ 32 =
        omega arith in
      let end : i + 1 + rounds ≡ i + suc rounds = omega arith in
      rw (
        packet_create-eq-packet_at i (omega arith),
        step,
        chunk_loop_lem rounds (i + 1) (omega arith),
        end,
      )

  -- A buffer that is not empty is cut into the packets of its chunks, in order, if the packet
  -- counter is below 2 ^ 32; that counter goes up by their number, the group counter by one.
  pub serialize_init_lem :
      1 ≤ length buffer
      → sb.pidx < 2 ^ 32
      → serialize_init sha o now sb buffer
        ≡ ok (
          map packet_at (upto 0 (chunks_of (length buffer))),
          record {
            pidx = (sb.pidx + chunks_of (length buffer)) % 2 ^ 32;
            gidx = (sb.gidx + 1) % 2 ^ 32;
          },
        )
  unfolding serialize_init
  serialize_init_lem some_bytes small =
      let first : (sb.pidx + 0) % 2 ^ 32 ≡ sb.pidx = omega arith in
      let all : 0 + chunks_of (length buffer) ≡ chunks_of (length buffer) = omega arith in
      rw (
        ge→ltb (length buffer) 1 some_bytes,
        rw (first, all) at (chunk_loop_lem (chunks_of (length buffer)) 0 (omega arith)),
      )

-- The arguments fit the header's types.
pub record IsOutgoing (o : Outgoing) (now : ℕ → ℕ) (sb : SendBuffer) (buffer : List ℕ)
    : Type 0 where
  pub command : o.command < 2 ^ 32
  pub tidx : o.tidx < 2 ^ 32
  pub parts : o.parts < 2 ^ 32
  pub filename : length (name_or_zero o.filename) ≡ hash_size
  pub reqtype : (tcp_or_zero o.tcp).reqtype < 2 ^ 16
  pub cidx : (tcp_or_zero o.tcp).cidx < 2 ^ 16
  pub port_src : (tcp_or_zero o.tcp).src < 2 ^ 16
  pub port_dst : (tcp_or_zero o.tcp).dst < 2 ^ 16
  pub src_host : o.self.host < 2 ^ 32
  pub src_port : o.self.port < 2 ^ 16
  pub dst_host : o.dst.host < 2 ^ 32
  pub dst_port : o.dst.port < 2 ^ 16
  pub clock : (i : ℕ) → now i < 2 ^ 64
  pub pidx : sb.pidx < 2 ^ 32
  pub gidx : sb.gidx < 2 ^ 32
  pub some_bytes : 1 ≤ length buffer
  pub small : length buffer < 2 ^ 31

module _ (sha : Sha256) {o : Outgoing} {now : ℕ → ℕ} {sb : SendBuffer} {buffer : List ℕ}
    (v : IsOutgoing o now sb buffer) (i : ℕ) (h : i < chunks_of (length buffer)) where
  header_at-IsHeader : IsHeader (header_at sha o now sb buffer i)
  header_at-IsHeader =
      let chunks = chunks_of_bounds (length buffer) in
      let size = chunk_size_bounds (length buffer) i h in
      record {
        pidx = omega arith;
        gidx = v.gidx;
        tidx = v.tidx;
        offset = omega arith;
        chunks = omega arith;
        parts = v.parts;
        length = omega arith;
        command = v.command;
        filename = v.filename;
        ts = v.clock i;
        reqtype = v.reqtype;
        cidx = v.cidx;
        port_src = v.port_src;
        port_dst = v.port_dst;
        src_host = v.src_host;
        src_port = v.src_port;
        dst_host = v.dst_host;
        dst_port = v.dst_port;
      }

  -- For arguments that fit the header's types each packet is well formed, with its chunk as the
  -- body.
  pub packet_at-IsPacket :
      IsPacket (chunk_at sha o now sb buffer i) (packet_at sha o now sb buffer i)
  unfolding packet_at
  packet_at-IsPacket = record {
    header = header_at-IsHeader;
    fits = (chunk_size_bounds (length buffer) i h).1;
    size = length-chunk_at sha o now sb buffer i h;
    payload = refl;
    hash = length-hex-digest sha _;
  }
