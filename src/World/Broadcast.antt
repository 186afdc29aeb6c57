-- ===== src/World/Broadcast.antt =====
-- `peer_broadcast` of src/world.c and `dfs_auth_reply` of src/mtracker.c: an authenticated peer is
-- announced to the others, and they to it.
use eioie_client.Base.{
  ℕ, List, [], ◌∷◌, ◌++◌, length, memeq, ◌==◌, ◌||◌, not, Bool, true, none, some, Run, ok, fail,
  ◌>>=◌, if◌then◌else◌,
}
use eioie_client.Packet.{hash_size}
use eioie_client.Chain.Text.{cstr}
use eioie_client.Command.{Content, TrackerPeer}
use eioie_client.World.{
  Instance, WorldPeer, Send, payload_send, same_address, peer_findauthstr, modify,
}

-- What is announced of a peer: the description up to its NUL, and the bit 0x8 as a `char`.
unfoldable pub announcement : WorldPeer → TrackerPeer
unfolding cstr
announcement wp = record {
  address = wp.address;
  key = wp.pubkey;
  tcpdesc = cstr 256 wp.description;
  version = wp.version;
  tcpports = wp.ports;
  proxy = if wp.flags.proxy then 8 else 0;
}

-- The call of `payload.send` in `item`: `about` is announced to `to`.
unfoldable pub item : WorldPeer → WorldPeer → Send
unfolding announcement
item to about = record {
  command = 3;
  to = to.address;
  content = Content.tracker_announce_peer (announcement about);
}

-- The callback `cb` for all peers.
unfoldable pub broadcast_loop : (Send → Bool) → WorldPeer → List WorldPeer → Run (List Send)
unfolding payload_send same_address item
broadcast_loop accepts wp [] = ok []
broadcast_loop accepts wp (ex ∷ peers) =
    let rest = broadcast_loop accepts wp peers in
    if same_address wp.address ex.address || not wp.flags.authed
    then rest
    else (payload_send accepts (item wp ex) >>= λ a.
        payload_send accepts (item ex wp) >>= λ b. rest >>= λ sent. ok (a ++ (b ++ sent)))

-- `peer_broadcast`.
unfoldable pub peer_broadcast :
    Instance → (Send → Bool) → WorldPeer → List WorldPeer → Run (List Send)
unfolding broadcast_loop
peer_broadcast kind accepts wp peers = elim kind [
  | Instance.tracker ↦ broadcast_loop accepts wp peers
  | Instance.peer ↦ fail
]

-- The flag that `dfs_auth_reply` sets.
abbrev pub set_authed : WorldPeer → WorldPeer
set_authed wp = record wp { flags = record wp.flags { authed = true } }

-- `dfs_auth_reply`, with the reply in `reply`.
unfoldable pub dfs_auth_reply :
    Instance → (Send → Bool) → List ℕ → List WorldPeer → Run (List WorldPeer × List Send)
unfolding peer_findauthstr modify peer_broadcast payload_send
dfs_auth_reply kind accepts reply peers =
    let peers' = modify (λ ex. memeq ex.authstr reply) set_authed peers in
    if not (length reply == hash_size) then fail else elim (peer_findauthstr reply peers) [
      | none ↦ ok (peers, [])
      | some wp ↦
          if wp.flags.authed
          then ok (peers, [])
          else (payload_send accepts
                (record { command = 2; to = wp.address; content = Content.empty })
              >>= λ first. peer_broadcast kind accepts (set_authed wp) peers' >>= λ sent.
                  ok (peers', first ++ sent))
    ]
