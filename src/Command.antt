-- ===== src/Command.antt =====
-- What a peer sends: `data_s` with its writers in src/data.c, and `send_buffer_s` of
-- src/include/peer.h, which the commands of src/payload write out.
pub mod Message
pub mod Announce
pub mod Table
pub mod Exact
pub mod Bytes
pub mod Counts
pub mod Prepared
pub mod OtherKey
pub mod Reader
use eioie_client.Base.{ℕ, ◌+◌, ◌%◌, ◌^◌, List, leb, Run, ok, fail, ◌>>=◌, if◌then◌else◌}
use eioie_client.Bytes.Integer.{to_bytes}
use eioie_client.Bytes.Sn.{Sn, append}
use eioie_client.Packet.{Address, Header}
use eioie_client.Payload.{fill}

-- `u.tracker_peer`. `key` is the peer's public key, and `proxy` a `char`.
pub record TrackerPeer : Type 0 where
  pub address : Address
  pub key : List ℕ
  pub tcpdesc : List ℕ
  pub version : ℕ
  pub tcpports : List ℕ
  pub proxy : ℕ

-- `type` of the send buffer with the member of the union that it stands for. A C string is its
-- characters; `fileask` has two names of 64 characters; `reachable` is a `bool`.
pub data Content : Type 0 where
  empty : Content
  message : List ℕ → Content
  file : List ℕ → Content
  fileask : List ℕ → List ℕ → Content
  tracker_announce_peer : TrackerPeer → Content
  auth : List ℕ → Content
  auth_reply : List ℕ → Content
  tcp : Content
  query : Address → Content
  query_reply : Address → ℕ → Content
  ping : ℕ → Content
  pong : ℕ → Content

-- The fields of `struct peer_s` that are written out: `net.self` and `net.remote`, `cfg.net.proxy`,
-- `cfg.keys.local.str.public`, `cfg.tcp`, the header of the packet that is being answered, and the
-- send buffer. `version` is SPN_VERSION, which the build generates.
pub record Sender : Type 0 where
  pub self : Address
  pub remote : Address
  pub proxy : ℕ
  pub public_key : List ℕ
  pub ports : List ℕ
  pub description : List ℕ
  pub received : Header
  pub content : Content
  pub version : ℕ

-- `struct data_s`.
pub record Data : Type 0 where
  pub command : ℕ
  pub payload : Sn

-- The writers of src/data.c, on the payload.
unfoldable pub write_double : ℕ → Sn → Run Sn
write_double v d = append d (to_bytes 8 v)

unfoldable pub write_int : ℕ → Sn → Run Sn
write_int v d = append d (to_bytes 4 v)

unfoldable pub write_shortint : ℕ → Sn → Run Sn
write_shortint v d = append d (to_bytes 2 v)

unfoldable pub write_byte : ℕ → Sn → Run Sn
write_byte v d = append d (to_bytes 1 v)

unfoldable pub write_raw : List ℕ → Sn → Run Sn
write_raw src d = append d src

-- `sn_bytes_init_new` of an `int` size: a negative one is too large for `malloc`.
unfoldable pub bytes_init_new : (ℕ → ℕ) → ℕ → Run Sn
unfolding fill
bytes_init_new fresh size =
    if leb (2 ^ 31) size then fail else ok (record { s = fill fresh size; n = size; offset = 0 })

-- `init` of src/data.c: room for the size that `callback_size` gives, filled by `callback`.
unfoldable pub data_init : (ℕ → ℕ) → ℕ → (Sn → Run Sn) → Run ℕ → Run Data
unfolding bytes_init_new
data_init fresh cmd callback callback_size = do
  sz ← callback_size
  room ← bytes_init_new fresh sz
  payload ← callback room
  ok (record { command = cmd; payload = payload })
