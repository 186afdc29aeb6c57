-- ===== src/Command/Bytes.antt =====
-- What the writers of announcements and acknowledgements append.
use eioie_client.Base.{
  ℕ, suc, ◌+◌, ◌*◌, ◌≡◌, refl, List, [], ◌∷◌, map, arith, length, length-append, lt→ltb,
}
use eioie_client.Bytes.Integer.{to_bytes, length-to_bytes}
use eioie_client.Bytes.Sn.Append.{concat, onto}
use eioie_client.Command.{
  Sender, Content, TrackerPeer, write_double, write_int, write_shortint, write_byte, write_raw,
}
use eioie_client.Command.Message.{ack_write}
use eioie_client.Command.Announce.{
  append_ports, tcp_ports, announce_twt, announce_twp, announce_pwp,
}
use eioie_client.Command.Exact.{Appends, append_then, append-nil_lem}

-- The bytes of an announced peer.
unfoldable pub announced : TrackerPeer → List ℕ
announced u =
    onto
      (to_bytes 4 u.address.host
        ∷ to_bytes 2 u.address.port
        ∷ to_bytes 1 u.proxy
        ∷ to_bytes 4 (length u.key)
        ∷ u.key
        ∷ to_bytes 4 u.version
        ∷ to_bytes 4 (length u.tcpdesc)
        ∷ u.tcpdesc
        ∷ [])
      (concat (map (to_bytes 4) u.tcpports))

append_ports-Appends :
    (ports : List ℕ) → Appends (append_ports ports) (concat (map (to_bytes 4) ports))
unfolding append_ports write_int
append_ports-Appends [] d h = append-nil_lem d h
append_ports-Appends (port ∷ ports) d h =
    append_then (to_bytes 4 port) _ d _ h (append_ports-Appends ports)

tcp_ports-Appends :
    (ports desc : List ℕ)
    → Appends
        (tcp_ports ports desc)
        (onto (to_bytes 4 (length desc) ∷ desc ∷ []) (concat (map (to_bytes 4) ports)))
unfolding tcp_ports write_int write_raw
tcp_ports-Appends ports [] d h = append_then _ _ d _ h (append_ports-Appends ports)
tcp_ports-Appends ports (c ∷ desc) d h =
    rw (lt→ltb 0 (suc (length desc)) (omega arith))
      (append_then _ _ d _ h λ d1 h1. append_then (c ∷ desc) _ d1 _ h1 (append_ports-Appends ports))

-- What a peer and a tracker announce of themselves.
abbrev pub self_announced : Sender → TrackerPeer
self_announced p = record {
  address = p.self;
  key = p.public_key;
  tcpdesc = p.description;
  version = p.version;
  tcpports = p.ports;
  proxy = p.proxy;
}

abbrev pub remote_announced : Sender → TrackerPeer
remote_announced p = record {
  address = p.remote;
  key = p.public_key;
  tcpdesc = p.description;
  version = p.version;
  tcpports = p.ports;
  proxy = p.proxy;
}

pub announce_pwp-Appends : (p : Sender) → Appends (announce_pwp p) (announced (self_announced p))
unfolding announce_pwp announced write_int write_shortint write_byte write_raw
announce_pwp-Appends p d h = append_then _ _ d _ h λ d1 h1. append_then _ _ d1 _ h1 λ d2 h2.
    append_then _ _ d2 _ h2 λ d3 h3. append_then _ _ d3 _ h3 λ d4 h4.
      append_then _ _ d4 _ h4
        λ d5 h5. append_then _ _ d5 _ h5 (tcp_ports-Appends p.ports p.description)

pub announce_twt-Appends : (p : Sender) → Appends (announce_twt p) (announced (remote_announced p))
unfolding announce_twt announced write_int write_shortint write_byte write_raw
announce_twt-Appends p d h = append_then _ _ d _ h λ d1 h1. append_then _ _ d1 _ h1 λ d2 h2.
    append_then _ _ d2 _ h2 λ d3 h3. append_then _ _ d3 _ h3 λ d4 h4.
      append_then _ _ d4 _ h4
        λ d5 h5. append_then _ _ d5 _ h5 (tcp_ports-Appends p.ports p.description)

pub announce_twp-Appends :
    (p : Sender) (u : TrackerPeer)
    → p.content ≡ Content.tracker_announce_peer u
    → Appends (announce_twp p) (announced u)
unfolding announce_twp announced write_int write_shortint write_byte write_raw
announce_twp-Appends p u e d h = rw e (
    append_then _ _ d _ h λ d1 h1. append_then _ _ d1 _ h1 λ d2 h2. append_then _ _ d2 _ h2 λ d3 h3.
      append_then _ _ d3 _ h3 λ d4 h4.
        append_then _ _ d4 _ h4
          λ d5 h5. append_then _ _ d5 _ h5 (tcp_ports-Appends u.tcpports u.tcpdesc))

length-ports : (ports : List ℕ) → length (concat (map (to_bytes 4) ports)) ≡ 4 * length ports
length-ports [] = refl
length-ports (port ∷ ports) = omega (
  arith,
  length-append {0} (to_bytes 4 port) (concat (map (to_bytes 4) ports)),
  length-to_bytes 4 port,
  length-ports ports,
)

pub length-announced :
    (u : TrackerPeer)
    → length (announced u) ≡ 19 + length u.key + length u.tcpdesc + 4 * length u.tcpports
unfolding announced
length-announced u = simp (length-append, length-to_bytes, length-ports) (omega arith)

abbrev pub ack_bytes : Sender → List ℕ
ack_bytes p =
    onto
      (to_bytes 4 p.version
        ∷ to_bytes 4 p.received.tidx
        ∷ to_bytes 4 p.received.pidx
        ∷ to_bytes 4 p.received.command
        ∷ [])
      (to_bytes 8 p.received.ts)

pub ack_write-Appends : (p : Sender) → Appends (ack_write p) (ack_bytes p)
unfolding ack_write write_int write_double
ack_write-Appends p d h = append_then _ _ d _ h λ d1 h1.
    append_then _ _ d1 _ h1
      λ d2 h2. append_then _ _ d2 _ h2 λ d3 h3. append_then _ _ d3 _ h3 λ d4 h4. refl
