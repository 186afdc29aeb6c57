-- ===== src/World/Check.antt =====
-- `peer_check` and `peer_offline_shadow` of src/world.c.
use eioie_client.Base.{
  ℕ, zero, suc, ◌+◌, ◌%◌, ◌^◌, List, [], ◌∷◌, ◌++◌, leb, Bool, true, false, if◌then◌else◌,
}
use eioie_client.Packet.{Address}
use eioie_client.Command.{Content}
use eioie_client.World.{Instance, WorldPeer, Send}

-- What the check reads of `struct peer_s`: `type`, `tracker`, `cfg.net.max.peer_unreachable`, the
-- clock, and for which calls `payload.send` returns 0.
pub record Checker : Type 0 where
  pub kind : Instance
  pub tracker : Address
  pub peer_unreachable : ℕ
  pub now : ℕ
  pub accepts : Send → Bool

-- What the callback of `list.map` leaves: the peer, unless it was deleted, the message, and whether
-- it returned 0.
pub record Checked : Type 0 where
  pub left : List WorldPeer
  pub sent : List Send
  pub continues : Bool

-- `payload.send` behind a change of the peer.
unfoldable pub send_to : (Send → Bool) → WorldPeer → Send → Checked
send_to accepts wp s =
    if accepts s
    then record { left = wp ∷ []; sent = s ∷ []; continues = true }
    else record { left = wp ∷ []; sent = []; continues = false }

-- `peer_offline_shadow`; a tracker has no `offline` callback.
unfoldable pub peer_offline_shadow : Checker → WorldPeer → Checked
unfolding send_to
peer_offline_shadow c wp = elim c.kind [
  | Instance.peer ↦
      send_to c.accepts (record wp { flags = record wp.flags { queried = true } })
        (record { command = 13; to = c.tracker; content = Content.query wp.address })
  | Instance.tracker ↦ record { left = []; sent = []; continues = true }
]

-- The callback of `peer_check`.
unfoldable pub check_peer : Checker → WorldPeer → Checked
unfolding peer_offline_shadow send_to
check_peer c wp =
    let unreachable = (wp.unreachable + 1) % 2 ^ 32 in
    let wp' : WorldPeer = record wp { unreachable = unreachable } in
    if leb c.peer_unreachable unreachable
    then peer_offline_shadow c wp'
    else send_to c.accepts wp'
        (record { command = 10; to = wp.address; content = Content.ping c.now })

-- `peer_check`: the peers behind the first callback that fails stay as they are.
unfoldable pub peer_check : Checker → List WorldPeer → List WorldPeer × List Send
unfolding check_peer
peer_check c [] = ([], [])
peer_check c (wp ∷ peers) =
    let r = check_peer c wp in
    let (left, sent) = peer_check c peers in
    if r.continues then (r.left ++ left, r.sent ++ sent) else (r.left ++ peers, r.sent)

-- As many runs of the timer, each by its own clock.
unfoldable pub checks : ℕ → (ℕ → Checker) → List WorldPeer → List WorldPeer
unfolding peer_check
checks zero c peers = peers
checks (suc n) c peers = (peer_check (c n) (checks n c peers)).0
