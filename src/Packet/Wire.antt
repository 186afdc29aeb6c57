-- ===== src/Packet/Wire.antt =====
-- `packet_set` and `packet_get` of src/data.c.
pub mod RoundTrip
pub mod Overrun
use eioie_client.Base.{
  ◌+◌, ◌^◌, ltb, ℕ, ◌≤◌, List, [], ◌∷◌, take, leb, Run, ok, fail, fault, ◌>>=◌, if◌then◌else◌,
}
use eioie_client.Bytes.Integer.{to_bytes}
use eioie_client.Bytes.Sn.{Sn, append, append_all, read, read_integer, init_raw}
use eioie_client.Packet.{Tcp, Address, Header, Packet, payload_size, hash_size, zero_filled}

-- The header's fields in the order in which they go out.
unfoldable pub header_fields : Header → List (List ℕ)
header_fields h =
    to_bytes 4 h.pidx
    ∷ to_bytes 4 h.gidx
    ∷ to_bytes 4 h.tidx
    ∷ to_bytes 8 h.offset
    ∷ to_bytes 4 h.chunks
    ∷ to_bytes 4 h.parts
    ∷ to_bytes 4 h.length
    ∷ to_bytes 4 h.command
    ∷ h.filename
    ∷ to_bytes 2 h.tcp.reqtype
    ∷ to_bytes 2 h.tcp.cidx
    ∷ to_bytes 2 h.tcp.src
    ∷ to_bytes 2 h.tcp.dst
    ∷ to_bytes 4 h.src.host
    ∷ to_bytes 2 h.src.port
    ∷ to_bytes 4 h.dst.host
    ∷ to_bytes 2 h.dst.port
    ∷ to_bytes 8 h.ts
    ∷ []

-- The append of `header.length` bytes of the payload. More than the array has are read past it,
-- unless the test of `append` stops them; an `int` that is negative or overflows passes that test.
unfoldable pub append_payload : Sn → Packet → Run Sn
append_payload d p =
    if leb p.header.length payload_size
    then append d (take p.header.length p.payload)
    else if leb (2 ^ 31) (p.header.length + d.offset)
    then fault
    else if ltb d.n (p.header.length + d.offset)
    then fail
    else fault

-- The `snb` has an array of 1024 bytes.
unfoldable pub packet_set : Sn → Packet → Run Sn
unfolding append_payload
packet_set dst p = do
  d ← append_all (record dst { n = 1024; offset = 0 }) (header_fields p.header)
  d' ← append_payload d p
  append d' p.hash

-- The fields before the payload; `b` is the `sn` that is read.
unfoldable pub header_get : Sn → Run (Header × Sn)
header_get b0 = do
  (pidx, b1) ← read_integer 4 b0
  (gidx, b2) ← read_integer 4 b1
  (tidx, b3) ← read_integer 4 b2
  (offset, b4) ← read_integer 8 b3
  (chunks, b5) ← read_integer 4 b4
  (parts, b6) ← read_integer 4 b5
  (length, b7) ← read_integer 4 b6
  (command, b8) ← read_integer 4 b7
  (filename, b9) ← read hash_size hash_size b8
  (reqtype, b10) ← read_integer 2 b9
  (cidx, b11) ← read_integer 2 b10
  (port_src, b12) ← read_integer 2 b11
  (port_dst, b13) ← read_integer 2 b12
  (src_host, b14) ← read_integer 4 b13
  (src_port, b15) ← read_integer 2 b14
  (dst_host, b16) ← read_integer 4 b15
  (dst_port, b17) ← read_integer 2 b16
  (ts, b18) ← read_integer 8 b17
  ok (
    record {
      pidx = pidx;
      gidx = gidx;
      tidx = tidx;
      offset = offset;
      chunks = chunks;
      parts = parts;
      length = length;
      command = command;
      filename = filename;
      ts = ts;
      tcp = record { reqtype = reqtype; cidx = cidx; src = port_src; dst = port_dst };
      src = record { host = src_host; port = src_port };
      dst = record { host = dst_host; port = dst_port };
    },
    b18,
  )

-- `memset(p, 0, sizeof(*p))` and the reads. The payload is read for `header.length` bytes before
-- anything has looked at that number.
unfoldable pub packet_get : List ℕ → Run Packet
unfolding header_get init_raw
packet_get buffer = do
  (h, b) ← header_get (init_raw buffer)
  (body, b') ← read payload_size h.length b
  (hash, _) ← read hash_size hash_size b'
  ok (record { header = h; payload = zero_filled payload_size body; hash = hash })
