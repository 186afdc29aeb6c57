-- ===== src/Relay.antt =====
-- The connections of the tunnels: src/endpoint.c, at the end where the service is.
pub mod Repeat
pub mod Tunnels
use eioie_client.Base.{
  ℕ, List, [], ◌∷◌, ◌++◌, take, ◌==◌, ◌&&◌, ◌||◌, Bool, true, false, Option, none, some,
  if◌then◌else◌,
}
use eioie_client.Packet.{Address, Tcp}
use eioie_client.Packet.Queue.{Connection, tcpsend, tcpsent}
use eioie_client.Chain.Text.{cstr, print_signed}
use eioie_client.Command.{Content}
use eioie_client.World.{Send, same_address}

-- `struct endpoint_s`, with the queue of its client.
pub record Endpoint : Type 0 where
  pub remote : Address
  pub cidx : ℕ
  pub src : ℕ
  pub dst : ℕ
  pub client : Connection

-- What `request` reads of the peer: `cfg.tcp.ports`, `cfg.keys.local.hash.public`, for which calls
-- `payload.send` returns 0, and for which ports `async_client` returns GC_OK.
pub record Gate : Type 0 where
  pub ports : List ℕ
  pub public_hash : List ℕ
  pub accepts : Send → Bool
  pub connects : ℕ → Bool

-- What `request` leaves: the endpoints, what was sent, and whether it returned 0.
pub record Requested : Type 0 where
  pub endpoints : List Endpoint
  pub sent : List Send
  pub zero : Bool

-- `list.map` with `allowed`.
unfoldable pub allowed : ℕ → List ℕ → Bool
allowed port [] = false
allowed port (p ∷ ports) = p == port || allowed port ports

-- The test of `find`.
unfoldable pub same_endpoint : Address → Tcp → Endpoint → Bool
unfolding same_address
same_endpoint from tcp ep =
    same_address ep.remote from && (ep.cidx == tcp.cidx && (ep.src == tcp.src && ep.dst == tcp.dst))

-- `list.map` with `find`.
unfoldable pub find_endpoint : Address → Tcp → List Endpoint → Option Endpoint
unfolding same_endpoint
find_endpoint from tcp [] = none
find_endpoint from tcp (ep ∷ eps) =
    if same_endpoint from tcp ep then some ep else find_endpoint from tcp eps

-- A write to the client of the endpoint that was found.
unfoldable pub set_client : Address → Tcp → Connection → List Endpoint → List Endpoint
unfolding same_endpoint
set_client from tcp c [] = []
set_client from tcp c (ep ∷ eps) =
    if same_endpoint from tcp ep
    then record ep { client = c } ∷ eps
    else ep ∷ set_client from tcp c eps

-- "Port %d not allowed on peer %.*s..", at most 255 characters.
abbrev pub refusal : List ℕ → ℕ → List ℕ
refusal hash port = take 255 (
    (b'P' ∷ b'o' ∷ b'r' ∷ b't' ∷ b' ' ∷ [])
    ++ (print_signed 32 port
        ++ ((b' ' ∷ b'n' ∷ b'o' ∷ b't' ∷ b' ' ∷ b'a' ∷ b'l' ∷ b'l' ∷ b'o' ∷ b'w' ∷ b'e' ∷ b'd'
              ∷ b' ' ∷ b'o' ∷ b'n' ∷ b' ' ∷ b'p' ∷ b'e' ∷ b'e' ∷ b'r' ∷ b' ' ∷ [])
            ++ (cstr 10 hash ++ b'.' ∷ b'.' ∷ []))))

abbrev pub refused : Gate → Address → Tcp → Send
refused g from tcp = record {
  command = 5;
  to = from;
  content = Content.message (refusal g.public_hash tcp.dst);
}

-- The queue of a new client.
abbrev pub no_connection : Connection
no_connection = record { tidx = 0; packets = []; sent = [] }

abbrev pub new_endpoint : Address → Tcp → List ℕ → ℕ → Endpoint
new_endpoint from tcp buf tidx = record {
  remote = from;
  cidx = tcp.cidx;
  src = tcp.src;
  dst = tcp.dst;
  client = tcpsend no_connection buf tidx;
}

-- `request` of a packet with the number `tidx` from `from`.
unfoldable pub request :
    Gate → Address → Tcp → (tidx : ℕ) → (buf : List ℕ) → List Endpoint → Requested
unfolding allowed find_endpoint set_client tcpsent tcpsend
request g from tcp tidx buf eps =
    if allowed tcp.dst g.ports
    then elim (find_endpoint from tcp eps) [
      | some ep ↦
          if tcpsent ep.client.packets tidx
          then record { endpoints = eps; sent = []; zero = true }
          else record {
            endpoints = set_client from tcp (tcpsend ep.client buf tidx) eps;
            sent = [];
            zero = true;
          }
      | none ↦
          if g.connects tcp.dst
          then record {
            endpoints = eps ++ new_endpoint from tcp buf tidx ∷ [];
            sent = [];
            zero = true;
          }
          else record { endpoints = eps; sent = []; zero = false }
    ]
    else if g.accepts (refused g from tcp)
    then record { endpoints = eps; sent = refused g from tcp ∷ []; zero = true }
    else record { endpoints = eps; sent = []; zero = false }
