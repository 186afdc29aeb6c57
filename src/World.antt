-- ===== src/World.antt =====
-- src/world.c: the peers that a peer or a tracker knows, in the order in which they were added.
pub mod Check
pub mod Broadcast
pub mod Laws
pub mod Steps
pub mod Eviction
pub mod Announced
pub mod Announcement
pub mod Query
use eioie_client.Base.{
  ℕ, ◌+◌, ◌%◌, ◌^◌, List, [], ◌∷◌, ◌++◌, memeq, ◌==◌, ◌&&◌, Bool, true, false, Option, none, some,
  Run, ok, fail, ◌>>=◌, if◌then◌else◌,
}
use eioie_client.Packet.{Address}
use eioie_client.Command.{Content}

-- `enum instance_e` and `enum world_peer_e`.
pub data Instance : Type 0 where
  tracker peer : Instance

pub data PeerType : Type 0 where
  peer_none peer_tracker peer_peer : PeerType

-- The bits WORLD_PEER_* of `flags`.
pub record Flags : Type 0 where
  pub authed : Bool
  pub queried : Bool
  pub shadow : Bool
  pub proxy : Bool
  pub offline : Bool

abbrev pub no_flags : Flags
no_flags = record {
  authed = false;
  queried = false;
  shadow = false;
  proxy = false;
  offline = false;
}

-- `struct world_peer_s`; the address is its `host` and `port`, and `sent` is `stats.sent`.
pub record WorldPeer : Type 0 where
  pub kind : PeerType
  pub address : Address
  pub unreachable : ℕ
  pub pubkey : List ℕ
  pub pubkeyhash : List ℕ
  pub authstr : List ℕ
  pub version : ℕ
  pub pingms : ℕ
  pub flags : Flags
  pub description : List ℕ
  pub ports : List ℕ
  pub sent : ℕ

-- A call of `payload.send`: the command, the send buffer and where it goes.
pub record Send : Type 0 where
  pub command : ℕ
  pub to : Address
  pub content : Content

-- `payload.send`, which returns 0 where `accepts` says so.
unfoldable pub payload_send : (Send → Bool) → Send → Run (List Send)
payload_send accepts s = if accepts s then ok (s ∷ []) else fail

unfoldable pub same_address : Address → Address → Bool
same_address a b = a.host == b.host && a.port == b.port

-- `list.map` with a callback that stops at the first peer that passes its test.
unfoldable pub map_find : (WorldPeer → Bool) → List WorldPeer → Option WorldPeer
map_find test [] = none
map_find test (ex ∷ peers) = if test ex then some ex else map_find test peers

-- `peer_find`.
unfoldable pub peer_find : Address → List WorldPeer → Option WorldPeer
unfolding map_find same_address
peer_find a = map_find (λ ex. same_address a ex.address)

-- `peer_findpubkeyhash`.
unfoldable pub peer_findpubkeyhash : List ℕ → List WorldPeer → Option WorldPeer
unfolding map_find
peer_findpubkeyhash hash = map_find (λ ex. memeq ex.pubkeyhash hash)

-- `peer_findauthstr`.
unfoldable pub peer_findauthstr : List ℕ → List WorldPeer → Option WorldPeer
unfolding map_find
peer_findauthstr authstr = map_find (λ ex. memeq ex.authstr authstr)

-- `peer_findproxy`.
unfoldable pub peer_findproxy : List WorldPeer → Option WorldPeer
unfolding map_find
peer_findproxy = map_find (λ ex. ex.flags.proxy)

-- A write through the pointer that a search returned: the first peer that passes the test.
unfoldable pub modify :
    (WorldPeer → Bool) → (WorldPeer → WorldPeer) → List WorldPeer → List WorldPeer
modify test change [] = []
modify test change (ex ∷ peers) =
    if test ex then change ex ∷ peers else ex ∷ modify test change peers

-- `peer_isreachable`.
unfoldable pub peer_isreachable : Address → List WorldPeer → Bool
unfolding peer_find
peer_isreachable a peers = elim (peer_find a peers) [ none ↦ false | some ex ↦ true ]

-- `peer_reachable`; `pingms` is the `int` of the milliseconds since `ts`, by the clock.
unfoldable pub peer_reachable : Address → ℕ → List WorldPeer → List WorldPeer
unfolding modify same_address
peer_reachable a pingms =
    modify (λ ex. same_address a ex.address) (λ ex. record ex { unreachable = 0; pingms = pingms })

-- `peer_add`: the peers, and `*added`.
unfoldable pub peer_add : List WorldPeer → WorldPeer → List WorldPeer × Bool
unfolding peer_find
peer_add peers wp = elim (peer_find wp.address peers) [
  | some ex ↦ (peers, false)
  | none ↦ (peers ++ wp ∷ [], true)
]

-- `wp.found->stats.sent++`.
abbrev pub count_sent : WorldPeer → WorldPeer
count_sent ex = record ex { sent = (ex.sent + 1) % 2 ^ 32 }

-- `peer_shadow`: the peers, and where the packet goes.
unfoldable pub peer_shadow : List WorldPeer → Address → List WorldPeer × Address
unfolding peer_find peer_findproxy modify same_address
peer_shadow peers a =
    let counted = modify (λ ex. same_address a ex.address) count_sent peers in
    elim (peer_find a peers) [
      | none ↦ (peers, a)
      | some ex ↦
          if ex.flags.shadow
          then elim (peer_findproxy peers) [
            | none ↦ (counted, a)
            | some proxy ↦ (counted, proxy.address)
          ]
          else (counted, a)
    ]
