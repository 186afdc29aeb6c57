-- ===== src/Relay/Tunnels.antt =====
-- src/tunnel.c, the end of a tunnel where its clients are, without `tunnel_data`, which writes a file.
use eioie_client.Base.{
  ℕ, ◌≡◌, refl, ap, ◌∙◌, List, [], ◌∷◌, ◌++◌, ◌==◌, ==_refl, ◌&&◌, Bool, Bool-cases, true, false,
  Option, none, some, inl, inr, if◌then◌else◌,
}
use eioie_client.Packet.{Address, Tcp}
use eioie_client.Packet.Queue.{Connection, tcpsend, tcpsent}
use eioie_client.World.{WorldPeer, same_address, peer_findpubkeyhash}

-- `struct tunnel_s`, with the clients of its server by their `cidx`.
pub record Tunnel : Type 0 where
  pub remote : Address
  pub pubkeyhash : List ℕ
  pub src : ℕ
  pub dst : ℕ
  pub clients : ℕ → Option Connection

-- The test of `find`.
unfoldable pub same_tunnel : Address → ℕ → Tunnel → Bool
unfolding same_address
same_tunnel remote dst t = same_address t.remote remote && t.dst == dst

-- `list.map` with `find`.
unfoldable pub find_tunnel : Address → ℕ → List Tunnel → Option Tunnel
unfolding same_tunnel
find_tunnel remote dst [] = none
find_tunnel remote dst (t ∷ ts) =
    if same_tunnel remote dst t then some t else find_tunnel remote dst ts

-- `list.del` of the tunnel that was found.
unfoldable pub del_tunnel : Address → ℕ → List Tunnel → List Tunnel
unfolding same_tunnel
del_tunnel remote dst [] = []
del_tunnel remote dst (t ∷ ts) =
    if same_tunnel remote dst t then ts else t ∷ del_tunnel remote dst ts

-- What `tunnel_open` leaves: the tunnels, `*port_local`, `*success`, and whether it returned 0.
pub record Opened : Type 0 where
  pub tunnels : List Tunnel
  pub port_local : ℕ
  pub success : Bool
  pub zero : Bool

-- What `tunnel_close` leaves: the tunnels, `*closed`, and whether it returned 0.
pub record Closed : Type 0 where
  pub tunnels : List Tunnel
  pub closed : Bool
  pub zero : Bool

abbrev pub new_tunnel : Address → List ℕ → ℕ → ℕ → Tunnel
new_tunnel remote hash src dst = record {
  remote = remote;
  pubkeyhash = hash;
  src = src;
  dst = dst;
  clients = λ cidx. none;
}

-- `tunnel_open` behind the search for the peer; `listens` is the local port that `async_server`
-- opens, or none where it does not return GC_OK.
unfoldable pub open_to : Option ℕ → Address → List ℕ → ℕ → List Tunnel → Opened
unfolding find_tunnel
open_to listens remote hash dst ts = elim (find_tunnel remote dst ts) [
  | some t ↦ record { tunnels = ts; port_local = 0; success = false; zero = true }
  | none ↦ elim listens [
    | none ↦ record { tunnels = ts; port_local = 0; success = false; zero = false }
    | some src ↦ record {
      tunnels = ts ++ new_tunnel remote hash src dst ∷ [];
      port_local = src;
      success = true;
      zero = true;
    }
  ]
]

-- `tunnel_open`.
unfoldable pub tunnel_open :
    Option ℕ → List WorldPeer → (hash : List ℕ) → (dst : ℕ) → List Tunnel → Opened
unfolding peer_findpubkeyhash open_to
tunnel_open listens peers hash dst ts = elim (peer_findpubkeyhash hash peers) [
  | none ↦ record { tunnels = ts; port_local = 0; success = false; zero = false }
  | some wp ↦ open_to listens wp.address hash dst ts
]

-- `tunnel_close`.
unfoldable pub tunnel_close : List WorldPeer → (hash : List ℕ) → (dst : ℕ) → List Tunnel → Closed
unfolding peer_findpubkeyhash find_tunnel del_tunnel
tunnel_close peers hash dst ts = elim (peer_findpubkeyhash hash peers) [
  | none ↦ record { tunnels = ts; closed = false; zero = false }
  | some wp ↦ elim (find_tunnel wp.address dst ts) [
    | none ↦ record { tunnels = ts; closed = false; zero = true }
    | some t ↦ record { tunnels = del_tunnel wp.address dst ts; closed = true; zero = true }
  ]
]

-- The clients with one of them changed.
unfoldable pub set_client_of : ℕ → Connection → (ℕ → Option Connection) → ℕ → Option Connection
set_client_of cidx c clients k = if k == cidx then some c else clients k

-- `response` of a packet with the number `tidx`, at the first tunnel with its port that has its
-- client.
unfoldable pub response : Tcp → (tidx : ℕ) → (buf : List ℕ) → List Tunnel → List Tunnel
unfolding tcpsent tcpsend set_client_of
response tcp tidx buf [] = []
response tcp tidx buf (t ∷ ts) =
    let rest = response tcp tidx buf ts in
    if t.src == tcp.src
    then elim (t.clients tcp.cidx) [
      | none ↦ t ∷ rest
      | some c ↦
          if tcpsent c.packets tidx
          then t ∷ ts
          else record t { clients = set_client_of tcp.cidx (tcpsend c buf tidx) t.clients } ∷ ts
    ]
    else t ∷ rest

same_tunnel-new :
    (remote : Address) (hash : List ℕ) (src dst : ℕ)
    → same_tunnel remote dst (new_tunnel remote hash src dst) ≡ true
unfolding same_tunnel same_address
same_tunnel-new remote hash src dst =
    rw (==_refl remote.host, ==_refl remote.port, ==_refl dst) refl

module _ (remote : Address) (dst : ℕ) (new : Tunnel)
    (same : same_tunnel remote dst new ≡ true) where
  find_tunnel-append :
      (ts : List Tunnel)
      → find_tunnel remote dst ts ≡ none
      → find_tunnel remote dst (ts ++ new ∷ []) ≡ some new
  unfolding find_tunnel
  find_tunnel-append [] e = rw same refl
  find_tunnel-append (t ∷ ts) e = elim (Bool-cases (same_tunnel remote dst t)) [
    | inl here ↦ absurd (let h = rw here at e in cc)
    | inr other ↦ rw other (find_tunnel-append ts (rw other at e))
  ]

  del_tunnel-append :
      (ts : List Tunnel)
      → find_tunnel remote dst ts ≡ none
      → del_tunnel remote dst (ts ++ new ∷ []) ≡ ts
  unfolding find_tunnel del_tunnel
  del_tunnel-append [] e = rw same refl
  del_tunnel-append (t ∷ ts) e = elim (Bool-cases (same_tunnel remote dst t)) [
    | inl here ↦ absurd (let h = rw here at e in cc)
    | inr other ↦ rw other (ap (λ l. t ∷ l) (del_tunnel-append ts (rw other at e)))
  ]

tunnel_open-fresh :
    (src : ℕ) (peers : List WorldPeer) (wp : WorldPeer) (hash : List ℕ) (dst : ℕ) (ts : List Tunnel)
    → peer_findpubkeyhash hash peers ≡ some wp
    → find_tunnel wp.address dst ts ≡ none
    → tunnel_open (some src) peers hash dst ts ≡ record {
      tunnels = ts ++ new_tunnel wp.address hash src dst ∷ [];
      port_local = src;
      success = true;
      zero = true;
    }
unfolding tunnel_open open_to
tunnel_open-fresh src peers wp hash dst ts there fresh =
    rw (tunnel_open, there, open_to, fresh) refl

tunnel_open-open :
    (listens : Option ℕ) (peers : List WorldPeer) (wp : WorldPeer) (hash : List ℕ) (dst : ℕ)
    (ts : List Tunnel) (t : Tunnel)
    → peer_findpubkeyhash hash peers ≡ some wp
    → find_tunnel wp.address dst ts ≡ some t
    → tunnel_open listens peers hash dst ts
      ≡ record { tunnels = ts; port_local = 0; success = false; zero = true }
unfolding tunnel_open open_to
tunnel_open-open listens peers wp hash dst ts t there found =
    rw (tunnel_open, there, open_to, found) refl

tunnel_close-open :
    (peers : List WorldPeer) (wp : WorldPeer) (hash : List ℕ) (dst : ℕ) (ts : List Tunnel)
    (t : Tunnel)
    → peer_findpubkeyhash hash peers ≡ some wp
    → find_tunnel wp.address dst ts ≡ some t
    → tunnel_close peers hash dst ts
      ≡ record { tunnels = del_tunnel wp.address dst ts; closed = true; zero = true }
unfolding tunnel_close
tunnel_close-open peers wp hash dst ts t there found = rw (tunnel_close, there, found) refl

-- If a peer with the key's digest is there, no tunnel to it and to that port is open, and a local port
-- can be opened, `tunnel_open` says so with that port; to open the tunnel again then returns 0
-- without success and changes nothing, and `tunnel_close` leaves the tunnels from before.
pub tunnel_close-tunnel_open :
    (src : ℕ) (again : Option ℕ) (peers : List WorldPeer) (wp : WorldPeer) (hash : List ℕ) (dst : ℕ)
    (ts : List Tunnel)
    → peer_findpubkeyhash hash peers ≡ some wp
    → find_tunnel wp.address dst ts ≡ none
    → let r = tunnel_open (some src) peers hash dst ts in
      (r.success ≡ true)
      × (r.port_local ≡ src)
      × (tunnel_open again peers hash dst r.tunnels
          ≡ record { tunnels = r.tunnels; port_local = 0; success = false; zero = true })
      × (tunnel_close peers hash dst r.tunnels
          ≡ record { tunnels = ts; closed = true; zero = true })
tunnel_close-tunnel_open src again peers wp hash dst ts there fresh =
    let new = new_tunnel wp.address hash src dst in
    let same = same_tunnel-new wp.address hash src dst in
    let found = find_tunnel-append wp.address dst new same ts fresh in
    let deleted = del_tunnel-append wp.address dst new same ts fresh in
    rw (tunnel_open-fresh src peers wp hash dst ts there fresh) (
      refl,
      refl,
      tunnel_open-open again peers wp hash dst _ new there found,
      tunnel_close-open peers wp hash dst _ new there found ∙ rw deleted refl,
    )
