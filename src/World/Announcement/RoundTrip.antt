-- ===== src/World/Announcement/RoundTrip.antt =====
-- An announcement is read as it was written, up to eight ports.
use eioie_client.Base.{
  ℕ, zero, suc, ◌^◌, ◌≤◌, ◌<◌, ◌≡◌, refl, List, [], ◌∷◌, map, arith, length, replicate, take, not,
  ◌==◌, ok, length-append, ge→ltb, lt→ltb, gt→leb,
}
use eioie_client.Bytes.Integer.{to_bytes, length-to_bytes}
use eioie_client.Bytes.Sn.{Sn, init_raw}
use eioie_client.Bytes.Sn.Append.{concat}
use eioie_client.Bytes.Sn.Read.{Left, init_raw-Left, read-Reads, read_integer-Reads}
use eioie_client.Utils.Hex.{Sha256, sha256hex}
use eioie_client.Packet.{zero_filled}
use eioie_client.Command.{TrackerPeer, bytes_init_new}
use eioie_client.Command.Bytes.{announced, length-announced}
use eioie_client.World.{WorldPeer, PeerType, no_flags}
use eioie_client.World.Announcement.{read_ports, announce_read, description_size}

-- Every port is an `int`.
abbrev pub Ports : List ℕ → Type 0
Ports [] = Unit
Ports (port ∷ ports) = (port < 2 ^ 32) × Ports ports

read_ports-take :
    {n : ℕ} (rounds : ℕ) (ports : List ℕ) (src : Sn)
    → Ports ports
    → Left n (concat (map (to_bytes 4) ports)) src
    → read_ports rounds src ≡ ok (take rounds ports)
unfolding read_ports
read_ports-take zero ports src small left = refl
read_ports-take (suc rounds) [] src small left =
    rw (read_ports, ge→ltb src.offset src.n (omega (arith, left.size)))
read_ports-take {n} (suc rounds) (port ∷ ports) src small left =
    let (src', e, left') = read_integer-Reads 4 port _ src small.0 left in
    let total = length-append {0} (to_bytes 4 port) (concat (map (to_bytes 4) ports)) in
    let more : src.offset < src.n = omega (arith, left.size, length-to_bytes 4 port) in
    rw
      (read_ports, lt→ltb src.offset src.n more, e, read_ports-take rounds ports src' small.1 left')

-- The fields of an announcement fit their types.
pub record IsAnnouncement (u : TrackerPeer) : Type 0 where
  pub host : u.address.host < 2 ^ 32
  pub port : u.address.port < 2 ^ 16
  pub proxy : u.proxy < 256
  pub version : u.version < 2 ^ 32
  pub description : length u.tcpdesc ≤ description_size
  pub ports : Ports u.tcpports
  pub size : length (announced u) < 2 ^ 31

-- The peer that is read.
abbrev pub announced_peer : TrackerPeer → List ℕ → WorldPeer
announced_peer u hash = record {
  kind = PeerType.peer_none;
  address = u.address;
  unreachable = 0;
  pubkey = u.key;
  pubkeyhash = hash;
  authstr = replicate 64 0;
  version = u.version;
  pingms = 0;
  flags = record no_flags { proxy = not (u.proxy == 0) };
  description = zero_filled description_size u.tcpdesc;
  ports = take 8 u.tcpports;
  sent = 0;
}

-- The bytes of an announcement are read as the announced peer.
pub announce_read-announced :
    (fresh : ℕ → ℕ) (sha : Sha256) (u : TrackerPeer) (hash : List ℕ)
    → IsAnnouncement u
    → sha256hex sha u.key ≡ ok hash
    → announce_read fresh sha (announced u) ≡ ok (announced_peer u hash)
unfolding announce_read announced bytes_init_new
announce_read-announced fresh sha u hash v hashed =
    let sizes = length-announced u in
    let key : length u.key < 2 ^ 31 = omega (arith, v.size) in
    let (s1, e1, l1) =
      read_integer-Reads 4 u.address.host _ (init_raw (announced u)) v.host
        (init_raw-Left (announced u) v.size) in
    let (s2, e2, l2) = read_integer-Reads 2 u.address.port _ s1 v.port l1 in
    let (s3, e3, l3) = read_integer-Reads 1 u.proxy _ s2 v.proxy l2 in
    let (s4, e4, l4) = read_integer-Reads 4 (length u.key) _ s3 (omega arith) l3 in
    let (s5, e5, l5) = read-Reads (length u.key) u.key _ s4 refl (omega arith) l4 in
    let (s6, e6, l6) = read_integer-Reads 4 u.version _ s5 v.version l5 in
    let (s7, e7, l7) =
      read_integer-Reads 4 (length u.tcpdesc) _ s6 (omega (arith, v.description)) l6 in
    let (s8, e8, l8) = read-Reads description_size u.tcpdesc _ s7 refl v.description l7 in
    rw (
      e1,
      e2,
      e3,
      e4,
      gt→leb (2 ^ 31) (length u.key) key,
      e5,
      hashed,
      e6,
      e7,
      ge→ltb description_size (length u.tcpdesc) v.description,
      e8,
      read_ports-take 8 u.tcpports s8 v.ports l8,
    )
