-- ===== src/Packet.antt =====
-- The packets of src/packet.c, their memory layout of src/include/packet.h, and the wire format of
-- `packet_set` and `packet_get` in src/data.c.
pub mod Wire
pub mod Create
pub mod Validate
pub mod Queue
use eioie_client.Base
use eioie_client.Base.{
  ℕ, ◌+◌, ◌≡◌, ◌<◌, ◌≤◌, ◌^◌, List, [], ◌∷◌, ◌++◌, length, take, replicate, ◌-◌,
}

-- `struct tcp_s`.
pub record Tcp : Type 0 where
  pub reqtype : ℕ
  pub cidx : ℕ
  pub src : ℕ
  pub dst : ℕ

-- The `host` and `port` pairs of the header: an `int` by its bits, and an `unsigned short`.
pub record Address : Type 0 where
  pub host : ℕ
  pub port : ℕ

-- `struct header_s`. The time `ts` is the 64 bits of the `double`; `command` is the number of an
-- `enum command_e`, which a received packet may have of any value.
pub record Header : Type 0 where
  pub pidx : ℕ
  pub gidx : ℕ
  pub tidx : ℕ
  pub offset : ℕ
  pub chunks : ℕ
  pub parts : ℕ
  pub length : ℕ
  pub command : ℕ
  pub filename : List ℕ
  pub ts : ℕ
  pub tcp : Tcp
  pub src : Address
  pub dst : Address

-- `struct packet_s`: the arrays have `payload_size` and 64 bytes.
pub record Packet : Type 0 where
  pub header : Header
  pub payload : List ℕ
  pub hash : List ℕ

-- `UDP_PACKET_SIZE - sizeof(struct header_s) - SHA256HEX`, with the 136 bytes of the structure on
-- the 64-bit platform.
abbrev pub payload_size : ℕ
payload_size = 334

abbrev pub hash_size : ℕ
hash_size = 64

-- An array of `n` bytes, set to zero, with `bytes` copied to its front.
unfoldable pub zero_filled : ℕ → List ℕ → List ℕ
zero_filled n bytes = bytes ++ replicate (n - length bytes) 0

-- Every field fits its integer type, and the name has its 64 bytes.
pub record IsHeader (h : Header) : Type 0 where
  pub pidx : h.pidx < 2 ^ 32
  pub gidx : h.gidx < 2 ^ 32
  pub tidx : h.tidx < 2 ^ 32
  pub offset : h.offset < 2 ^ 64
  pub chunks : h.chunks < 2 ^ 32
  pub parts : h.parts < 2 ^ 32
  pub length : h.length < 2 ^ 32
  pub command : h.command < 2 ^ 32
  pub filename : Base.length h.filename ≡ hash_size
  pub ts : h.ts < 2 ^ 64
  pub reqtype : h.tcp.reqtype < 2 ^ 16
  pub cidx : h.tcp.cidx < 2 ^ 16
  pub port_src : h.tcp.src < 2 ^ 16
  pub port_dst : h.tcp.dst < 2 ^ 16
  pub src_host : h.src.host < 2 ^ 32
  pub src_port : h.src.port < 2 ^ 16
  pub dst_host : h.dst.host < 2 ^ 32
  pub dst_port : h.dst.port < 2 ^ 16

-- A packet as `packet_create` and `packet_get` leave it: `body` in a payload array that is zero
-- behind it, and a hash of 64 bytes.
pub record IsPacket (body : List ℕ) (p : Packet) : Type 0 where
  pub header : IsHeader p.header
  pub fits : p.header.length ≤ payload_size
  pub size : Base.length body ≡ p.header.length
  pub payload : p.payload ≡ zero_filled payload_size body
  pub hash : Base.length p.hash ≡ hash_size
