-- ===== src/Packet/Create.antt =====
-- `packet_create`, `chunk` and `serialize_init` of src/packet.c: a buffer is cut into packets.
pub mod Size
pub mod Laws
use eioie_client.Base.{
  ℕ, zero, suc, ◌+◌, ◌*◌, ◌/◌, ◌%◌, ◌^◌, List, [], ◌∷◌, ◌++◌, length, take, replicate, ltb, ◌==◌,
  ◌&&◌, Option, none, some, Run, ok, fail, fault, ◌>>=◌, if◌then◌else◌,
}
use eioie_client.Bytes.Integer.{to_bytes}
use eioie_client.Bytes.Memory.{slice}
use eioie_client.Utils.Hex.{Sha256, sha256hex}
use eioie_client.Packet.{Tcp, Address, Header, Packet, payload_size, hash_size, zero_filled}

-- The arguments that are the same for all packets of a group. `self` is `pr->net.self.addr`.
pub record Outgoing : Type 0 where
  pub command : ℕ
  pub tidx : ℕ
  pub parts : ℕ
  pub filename : Option (List ℕ)
  pub tcp : Option Tcp
  pub self : Address
  pub dst : Address

-- `struct send_buffer_s`, as far as it counts packets and groups.
pub record SendBuffer : Type 0 where
  pub pidx : ℕ
  pub gidx : ℕ

-- The bytes of `struct header_s` in memory. The gaps are the padding of the 64-bit platform, which
-- `memset` has set to zero.
unfoldable pub header_image : Header → List ℕ
header_image h =
    to_bytes 4 h.pidx
    ++ (to_bytes 4 h.gidx
        ++ (to_bytes 4 h.tidx
            ++ (replicate 4 0
                ++ (to_bytes 8 h.offset
                    ++ (to_bytes 4 h.chunks
                        ++ (to_bytes 4 h.parts
                            ++ (to_bytes 4 h.length
                                ++ (to_bytes 4 h.command
                                    ++ (h.filename
                                        ++ (to_bytes 8 h.ts
                                            ++ (to_bytes 2 h.tcp.reqtype
                                                ++ (to_bytes 2 h.tcp.cidx
                                                    ++ (to_bytes 2 h.tcp.src
                                                        ++ (to_bytes 2 h.tcp.dst
                                                            ++ (to_bytes 4 h.src.host
                                                            ++ (to_bytes 2 h.src.port
                                                            ++ (replicate 2 0
                                                            ++ (to_bytes 4 h.dst.host
                                                            ++ (to_bytes 2 h.dst.port
                                                            ++ replicate 2 0)))))))))))))))))))

-- What is hashed: `sizeof(struct header_s) + header.length` bytes of the packet.
abbrev pub image : Header → List ℕ → List ℕ
image h payload = header_image h ++ take h.length payload

abbrev no_tcp : Tcp
no_tcp = record { reqtype = 0; cidx = 0; src = 0; dst = 0 }

abbrev pub tcp_or_zero : Option Tcp → Tcp
tcp_or_zero none = no_tcp
tcp_or_zero (some t) = t

abbrev pub name_or_zero : Option (List ℕ) → List ℕ
name_or_zero none = replicate hash_size 0
name_or_zero (some name) = name

-- The assignments to `p->header`, for a payload of `nbuffer` bytes.
abbrev pub header_of : Outgoing → (gidx ts offset chunks pidx nbuffer : ℕ) → Header
header_of o gidx ts offset chunks pidx nbuffer = record {
  pidx = pidx;
  gidx = gidx;
  tidx = o.tidx;
  offset = offset;
  chunks = chunks;
  parts = o.parts;
  length = nbuffer;
  command = o.command;
  filename = name_or_zero o.filename;
  ts = ts;
  tcp = tcp_or_zero o.tcp;
  src = o.self;
  dst = o.dst;
}

-- `ts` is the time that `os.gettimems` reads for this packet.
unfoldable pub packet_create :
    Sha256 → Outgoing → (gidx ts offset chunks pidx : ℕ) → List ℕ → Run Packet
packet_create sha o gidx ts offset chunks pidx buffer =
    let header = header_of o gidx ts offset chunks pidx (length buffer) in
    let payload = zero_filled payload_size buffer in
    if ltb payload_size (length buffer)
    then fault
    else (sha256hex sha (image header payload) >>= λ md.
        ok (record { header = header; payload = payload; hash = md }))

-- `nbuffer / UDP_PACKET_PAYLOAD`, rounded up.
abbrev pub remaining_of : ℕ → ℕ
remaining_of nbuffer = nbuffer % payload_size

unfoldable pub chunks_of : ℕ → ℕ
chunks_of nbuffer =
    if ltb 0 (remaining_of nbuffer) then nbuffer / payload_size + 1 else nbuffer / payload_size

-- `rm`, the size of chunk `i`.
unfoldable pub chunk_size : ℕ → ℕ → ℕ
unfolding chunks_of
chunk_size nbuffer i =
    if i + 1 == chunks_of nbuffer && ltb 0 (remaining_of nbuffer)
    then remaining_of nbuffer
    else payload_size

module _ (sha : Sha256) (o : Outgoing) (now : ℕ → ℕ) (gidx : ℕ) (buffer : List ℕ) where
  -- The rounds that are left of the loop from `i` on, with the packets that they make and the
  -- packet counter behind them. `now i` is the time read in round `i`.
  unfoldable pub chunk_loop : ℕ → ℕ → ℕ → Run (List Packet × ℕ)
  unfolding chunks_of
  chunk_loop zero i pidx = ok ([], pidx)
  chunk_loop (suc rounds) i pidx =
      packet_create sha o gidx (now i) (i * payload_size) (chunks_of (length buffer)) pidx
        (slice buffer (i * payload_size) (chunk_size (length buffer) i))
      >>= λ p. chunk_loop rounds (i + 1) ((pidx + 1) % 2 ^ 32) >>= λ r. ok (p ∷ r.0, r.1)

-- An empty buffer is refused. The group counter goes up by one, the packet counter by the number
-- of packets.
unfoldable pub serialize_init :
    Sha256 → Outgoing → (ℕ → ℕ) → SendBuffer → List ℕ → Run (List Packet × SendBuffer)
unfolding chunk_loop
serialize_init sha o now sb buffer =
    if ltb (length buffer) 1
    then fail
    else (chunk_loop sha o now sb.gidx buffer (chunks_of (length buffer)) 0 sb.pidx >>= λ r.
        ok (r.0, record { pidx = r.1; gidx = (sb.gidx + 1) % 2 ^ 32 }))
