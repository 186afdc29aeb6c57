-- ===== src/World/Announcement/Handler.antt =====
-- The handlers of announcements in src/payload/announce.c, `peer_auth` of src/world.c and
-- `wl_exists` of src/whitelist.c.
use eioie_client.Base.{
  ℕ, List, [], ◌∷◌, ◌++◌, length, memeq, ◌==◌, Bool, true, false, Run, ok, fail, ◌>>=◌,
  if◌then◌else◌,
}
use eioie_client.Utils.Hex.{Sha256, sha256hex}
use eioie_client.Packet.{Address, hash_size}
use eioie_client.Command.{Content}
use eioie_client.World.{Instance, WorldPeer, PeerType, Send, payload_send, peer_add, peer_shadow}
use eioie_client.World.Announcement.{announce_read}

-- The parts of `struct peer_s` that announcements touch: `type`, `net.self`, `net.remote`, `peers`
-- and `whitelist`.
pub record Node : Type 0 where
  pub kind : Instance
  pub self : Address
  pub remote : Address
  pub peers : List WorldPeer
  pub whitelist : List (List ℕ)

-- What the rest of the program is told: the `online` callback, and calls of `payload.send`.
pub data Notice : Type 0 where
  online : WorldPeer → Notice
  sends : List Send → Notice

-- What the handlers take from outside: fresh memory, the digest, the text that `peer_auth` hashes,
-- the encryption with a peer's key, and for which calls `payload.send` returns 0.
pub record Outside : Type 0 where
  pub fresh : ℕ → ℕ
  pub sha : Sha256
  pub text : List ℕ
  pub encrypt : List ℕ → List ℕ → Run (List ℕ)
  pub accepts : Send → Bool

-- `find` of src/whitelist.c for all keys.
unfoldable pub wl_find : List ℕ → List (List ℕ) → Bool
wl_find pubhash [] = false
wl_find pubhash (key ∷ keys) = if memeq key pubhash then true else wl_find pubhash keys

-- `wl_exists`.
unfoldable pub wl_exists : List (List ℕ) → List ℕ → Run Bool
unfolding wl_find
wl_exists keys pubhash = if length pubhash == hash_size then ok (wl_find pubhash keys) else fail

-- `peer_auth`: the peer with its new secret, and the message that carries it.
unfoldable pub peer_auth : Outside → WorldPeer → Run (WorldPeer × List Send)
unfolding payload_send
peer_auth o wp = do
  authstr ← sha256hex o.sha o.text
  str ← o.encrypt wp.pubkey authstr
  sent ←
      payload_send o.accepts (record { command = 8; to = wp.address; content = Content.auth str })
  ok (record wp { authstr = authstr }, sent)

-- The peer that is added, and the call of `online` if it is new.
unfoldable pub add_online : Node → WorldPeer → Run (Node × List Notice)
unfolding peer_add
add_online n wp =
    let (peers, added) = peer_add n.peers wp in
    ok (record n { peers = peers }, if added then online wp ∷ [] else [])

-- `announce_trt`.
unfoldable pub announce_trt : Outside → Node → List ℕ → Run (Node × List Notice)
unfolding add_online
announce_trt o n bytes = elim n.kind [
  | Instance.tracker ↦ fail
  | Instance.peer ↦
      (announce_read o.fresh o.sha bytes >>= λ wp.
      add_online (record n { self = wp.address })
        (record wp { kind = PeerType.peer_tracker; address = n.remote }))
]

-- `announce_trp`.
unfoldable pub announce_trp : Outside → Node → List ℕ → Run (Node × List Notice)
unfolding add_online
announce_trp o n bytes = elim n.kind [
  | Instance.tracker ↦ fail
  | Instance.peer ↦
      (announce_read o.fresh o.sha bytes >>= λ wp.
      add_online n (record wp { kind = PeerType.peer_peer }))
]

-- `announce_prp` for a peer that is on the whitelist. `payload.send` in `peer_auth` goes through
-- `peer_shadow`, which counts the message in the peer at that address.
unfoldable pub admit : Outside → Node → WorldPeer → Run (Node × List Notice)
unfolding peer_add peer_auth peer_shadow
admit o n wp =
    let added = (peer_add n.peers wp).1 in
    if added
    then (peer_auth o wp >>= λ r.
        let (peers, to) = peer_shadow (n.peers ++ r.0 ∷ []) r.0.address in
        ok (record n { peers = peers }, sends r.1 ∷ []))
    else ok (n, [])

-- `announce_prp`.
unfoldable pub announce_prp : Outside → Node → List ℕ → Run (Node × List Notice)
unfolding wl_exists admit
announce_prp o n bytes = elim n.kind [
  | Instance.peer ↦ fail
  | Instance.tracker ↦
      (announce_read o.fresh o.sha bytes >>= λ read.
      let wp : WorldPeer = record read { kind = PeerType.peer_peer; address = n.remote } in
      wl_exists n.whitelist wp.pubkeyhash >>= λ whitelisted.
      if whitelisted then admit o n wp else ok (n, []))
]
