-- ===== src/Packet/Wire/RoundTrip.antt =====
-- What `packet_set` writes, `packet_get` reads back.
use eioie_client.Base.{
  ◌<◌, ◌≤◌, ◌^◌, ℕ, ◌≡◌, refl, ap, subst, ◌∙◌, List, [], ◌++◌, arith, length, take, ok, ◌>>=◌,
  append_assoc, length-append, take-append, le→leb,
}
use eioie_client.Bytes.Integer.{length-to_bytes}
use eioie_client.Bytes.Sn.{Sn, init_raw}
use eioie_client.Bytes.Sn.Append.{concat, onto, concat-onto, Holds, append-Holds, append_all-Holds}
use eioie_client.Bytes.Sn.Read.{
  Left, init_raw-Left, Reads, Reads-bind, read-Reads, read_integer-Reads,
}
use eioie_client.Packet.{Header, Packet, IsHeader, IsPacket, payload_size, hash_size, zero_filled}
use eioie_client.Packet.Wire.{header_fields, packet_set, header_get, packet_get}

-- The header's bytes on the wire, and all of a packet's.
abbrev pub header_wire : Header → List ℕ
header_wire h = concat (header_fields h)

abbrev pub wire : Packet → List ℕ → List ℕ
wire p body = header_wire p.header ++ (body ++ p.hash)

pub length-header_wire :
    (h : Header) → length h.filename ≡ 64 → length (concat (header_fields h)) ≡ 128
unfolding header_fields
length-header_wire h e = simp (length-append, length-to_bytes, e) (omega arith)

-- The header's fields are read in the order in which they stand.
pub header_get-Reads :
    {n : ℕ} (h : Header) (rest : List ℕ) (src : Sn)
    → IsHeader h
    → Left n (onto (header_fields h) rest) src
    → Reads n (header_get src) h rest
unfolding header_get header_fields
header_get-Reads h rest src v left =
    Reads-bind _ (read_integer-Reads 4 h.pidx _ src v.pidx left) λ s1 l1.
      Reads-bind _ (read_integer-Reads 4 h.gidx _ s1 v.gidx l1) λ s2 l2.
        Reads-bind _ (read_integer-Reads 4 h.tidx _ s2 v.tidx l2) λ s3 l3.
          Reads-bind _ (read_integer-Reads 8 h.offset _ s3 v.offset l3) λ s4 l4.
            Reads-bind _ (read_integer-Reads 4 h.chunks _ s4 v.chunks l4) λ s5 l5.
              Reads-bind _ (read_integer-Reads 4 h.parts _ s5 v.parts l5) λ s6 l6.
                Reads-bind _ (read_integer-Reads 4 h.length _ s6 v.length l6) λ s7 l7.
                  Reads-bind _ (read_integer-Reads 4 h.command _ s7 v.command l7) λ s8 l8.
                    Reads-bind _ (read-Reads 64 h.filename _ s8 v.filename (omega arith) l8)
                      λ s9 l9.
                        Reads-bind _ (read_integer-Reads 2 h.tcp.reqtype _ s9 v.reqtype l9)
                          λ s10 l10.
                            Reads-bind _ (read_integer-Reads 2 h.tcp.cidx _ s10 v.cidx l10)
                              λ s11 l11.
                                Reads-bind _ (read_integer-Reads 2 h.tcp.src _ s11 v.port_src l11)
                                  λ s12 l12.
                                    Reads-bind _
                                      (read_integer-Reads 2 h.tcp.dst _ s12 v.port_dst l12)
                                      λ s13 l13.
                                        Reads-bind _
                                          (read_integer-Reads 4 h.src.host _ s13 v.src_host l13)
                                          λ s14 l14.
                                            Reads-bind _
                                              (read_integer-Reads 2 h.src.port _ s14 v.src_port l14)
                                              λ s15 l15.
                                                Reads-bind _
                                                  (read_integer-Reads 4 h.dst.host _ s15 v.dst_host
                                                    l15)
                                                  λ s16 l16.
                                                    Reads-bind _
                                                      (read_integer-Reads 2 h.dst.port _ s16
                                                        v.dst_port l16)
                                                      λ s17 l17.
                                                        Reads-bind _
                                                          (read_integer-Reads 8 h.ts _ s17 v.ts l17)
                                                          λ s18 l18. (s18, refl, l18)

take-zero_filled : (n : ℕ) (body : List ℕ) → take (length body) (zero_filled n body) ≡ body
unfolding zero_filled
take-zero_filled n body = take-append (length body) body _ refl

-- `packet_set` never fails on a packet of the program: it writes the header, the payload's
-- `header.length` bytes and the hash.
pub packet_set-Holds :
    (dst : Sn) (p : Packet) (body : List ℕ)
    → length dst.s ≡ 1024
    → IsPacket body p
    → (d : Sn) × (packet_set dst p ≡ ok d) × Holds 1024 (wire p body) d
unfolding packet_set
packet_set-Holds dst p body room v =
    let head = concat (header_fields p.header) in
    let head_size = length-header_wire p.header v.header.filename in
    let (d1, e1, h1) =
      append_all-Holds {bytes = []} (record dst { n = 1024; offset = 0 }) (header_fields p.header)
        (record { room = refl; wide = room; written = refl; count = refl }) (omega arith) in
    let body_size = v.size in
    let (d2, e2, h2) = append-Holds d1 body h1 (omega (arith, v.fits)) in
    let (d3, e3, h3) =
      append-Holds d2 p.hash h2 (omega (arith, length-append {0} head body, v.fits, v.hash)) in
    let sent : take p.header.length p.payload ≡ body =
      rw (v.payload, ← v.size) (take-zero_filled payload_size body) in
    (d3, rw (e1, le→leb p.header.length payload_size v.fits, sent, e2) e3, rw append_assoc at h3)

pub packet_get-wire :
    (p : Packet) (body stale : List ℕ)
    → IsPacket body p
    → length (wire p body ++ stale) < 2 ^ 31
    → packet_get (wire p body ++ stale) ≡ ok p
unfolding packet_get
packet_get-wire p body stale v small =
    let tail = body ++ (p.hash ++ stale) in
    let split : wire p body ++ stale ≡ onto (header_fields p.header) tail =
      append_assoc (header_wire p.header) (body ++ p.hash) stale
      ∙ ap (λ l. header_wire p.header ++ l) (append_assoc body p.hash stale)
      ∙ concat-onto (header_fields p.header) tail in
    let (s1, e1, l1) = header_get-Reads p.header tail (init_raw (wire p body ++ stale)) v.header (
      subst (λ l. Left (length (wire p body ++ stale)) l (init_raw (wire p body ++ stale))) split
        (init_raw-Left (wire p body ++ stale) small)) in
    let (s2, e2, l2) = read-Reads payload_size body (p.hash ++ stale) s1 v.size v.fits l1 in
    let (s3, e3, l3) = read-Reads hash_size p.hash stale s2 v.hash (omega arith) l2 in
    rw (e1, e2, e3, ← v.payload)

-- A packet of the program has at most 526 bytes on the wire.
pub length-wire : (p : Packet) (body : List ℕ) → IsPacket body p → length (wire p body) ≤ 526
length-wire p body v = omega (
  arith,
  length-append {0} (header_wire p.header) (body ++ p.hash),
  length-append {0} body p.hash,
  length-header_wire p.header v.header.filename,
  v.fits,
  v.size,
  v.hash,
)

pub small_buffer :
    (p : Packet) (body stale : List ℕ)
    → IsPacket body p
    → length stale < 2 ^ 30
    → length (wire p body ++ stale) < 2 ^ 31
small_buffer p body stale v small =
    omega (arith, length-append {0} (wire p body) stale, length-wire p body v)

-- A packet of the program that is sent and put into the receive buffer, with less than 2 ^ 30 stale
-- bytes behind it there, is read back unchanged.
pub packet_get-packet_set :
    (dst : Sn) (p : Packet) (body stale : List ℕ)
    → length dst.s ≡ 1024
    → IsPacket body p
    → length stale < 2 ^ 30
    → (packet_set dst p >>= λ d. packet_get (take d.offset d.s ++ stale)) ≡ ok p
packet_get-packet_set dst p body stale room v small =
    let (d, e, h) = packet_set-Holds dst p body room v in
    rw (e, h.written) (packet_get-wire p body stale v (small_buffer p body stale v small))
