-- ===== src/Tests/Connections.antt =====
-- A tunnel and its two ends.
use eioie_client.Base.{◌≡◌, refl, List, [], ◌∷◌, memeq, none, some, true, false}
use eioie_client.Packet.{Address, Tcp}
use eioie_client.World.{WorldPeer, map_find, peer_findpubkeyhash}
use eioie_client.Relay.{Gate, Requested, allowed, request}
use eioie_client.Relay.Repeat.{request-request}
use eioie_client.Relay.Tunnels.{
  Tunnel, find_tunnel, new_tunnel, tunnel_open, tunnel_close, tunnel_close-tunnel_open,
}
use eioie_client.Tests.Peers.{peer_at}

abbrev gate : Gate
gate = record {
  ports = 22 ∷ 80 ∷ [];
  public_hash = [];
  accepts = λ s. true;
  connects = λ port. true;
}

abbrev header : Tcp
header = record { reqtype = 1; cidx = 7; src = 4000; dst = 80 }

abbrev client : Address
client = record { host = 16777343; port = 9000 }

abbrev first : Requested
first = request gate client header 1 (b'a' ∷ []) []

request-request_example :
    (first.zero ≡ true)
    × (request gate client header 1 (b'a' ∷ []) first.endpoints
        ≡ record { endpoints = first.endpoints; sent = []; zero = true })
unfolding allowed
request-request_example = request-request gate client header 1 (b'a' ∷ []) (b'a' ∷ []) [] refl refl

abbrev peers : List WorldPeer
peers = peer_at 1 ∷ []

abbrev other : Tunnel
other = new_tunnel (peer_at 1).address (peer_at 1).pubkeyhash 5001 22

tunnel_close-tunnel_open_example :
    let r = tunnel_open (some 5000) peers (peer_at 1).pubkeyhash 80 (other ∷ []) in
    (r.success ≡ true)
    × (r.port_local ≡ 5000)
    × (tunnel_open none peers (peer_at 1).pubkeyhash 80 r.tunnels
        ≡ record { tunnels = r.tunnels; port_local = 0; success = false; zero = true })
    × (tunnel_close peers (peer_at 1).pubkeyhash 80 r.tunnels
        ≡ record { tunnels = other ∷ []; closed = true; zero = true })
unfolding peer_findpubkeyhash map_find memeq find_tunnel
tunnel_close-tunnel_open_example =
    tunnel_close-tunnel_open 5000 none peers (peer_at 1) (peer_at 1).pubkeyhash 80 (other ∷ []) refl
      refl
