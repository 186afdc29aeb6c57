-- ===== src/World/Steps.antt =====
-- What changes the peers of a tracker or a peer, as a step relation.
use eioie_client.Base.{
  ℕ, ◌≡◌, refl, sym, subst, List, [], ◌==◌, memeq, length, Bool, Bool-cases, Option-cases, ◌⊎◌, inl,
  inr, ok, >>=-eq-ok,
}
use eioie_client.Packet.{Address, hash_size}
use eioie_client.World.{
  Instance, WorldPeer, Send, same_address, peer_find, modify, peer_reachable, peer_add, count_sent,
  peer_shadow, peer_findproxy, peer_findauthstr, payload_send,
}
use eioie_client.World.Check.{Checker, peer_check}
use eioie_client.World.Broadcast.{dfs_auth_reply, set_authed, peer_broadcast}
use eioie_client.World.Query.{dfs_query_reply, dfs_query_reply-Distinct}
use eioie_client.World.Laws.{Distinct, peer_add-Distinct, modify-Distinct, peer_check-Distinct}

pub data Step (peers : List WorldPeer) : List WorldPeer → Type 0 where
  add : (wp : WorldPeer) → Step peers (peer_add peers wp).0
  reachable : (a : Address) (pingms : ℕ) → Step peers (peer_reachable a pingms peers)
  send : (a : Address) → Step peers (peer_shadow peers a).0
  check : (c : Checker) → Step peers (peer_check c peers).0
  reply :
      (kind : Instance) (accepts : Send → Bool) (bytes : List ℕ) (out : List WorldPeer × List Send)
      → dfs_auth_reply kind accepts bytes peers ≡ ok out
      → Step peers out.0
  query_reply : (a : Address) (reachable : Bool) → Step peers (dfs_query_reply a reachable peers)

pub data Reach (peers : List WorldPeer) : List WorldPeer → Type 0 where
  here : Reach peers peers
  next : {some_ later : List WorldPeer} → Reach peers some_ → Step some_ later → Reach peers later

peer_reachable-Distinct :
    (a : Address) (pingms : ℕ) (peers : List WorldPeer)
    → Distinct peers
    → Distinct (peer_reachable a pingms peers)
unfolding peer_reachable
peer_reachable-Distinct a pingms peers d = modify-Distinct _ _ (λ ex. refl) peers d

-- Sending changes nothing, or counts the packet of one peer.
peer_shadow-peers :
    (a : Address) (peers : List WorldPeer)
    → ((peer_shadow peers a).0 ≡ peers)
      ⊎ ((peer_shadow peers a).0 ≡ modify (λ ex. same_address a ex.address) count_sent peers)
unfolding peer_shadow
peer_shadow-peers a peers = elim (Option-cases (peer_find a peers)) [
  | inl absent ↦ inl (rw (peer_shadow, absent))
  | inr (ex, found) ↦ elim (Bool-cases ex.flags.shadow) [
    | inr open_ ↦ inr (rw (peer_shadow, found, open_))
    | inl hidden ↦ elim (Option-cases (peer_findproxy peers)) [
      | inl without ↦ inr (rw (peer_shadow, found, hidden, without))
      | inr (proxy, there) ↦ inr (rw (peer_shadow, found, hidden, there))
    ]
  ]
]

peer_shadow-Distinct :
    (a : Address) (peers : List WorldPeer) → Distinct peers → Distinct (peer_shadow peers a).0
peer_shadow-Distinct a peers d = elim (peer_shadow-peers a peers) [
  | inl e ↦ subst Distinct (sym e) d
  | inr e ↦ subst Distinct (sym e) (modify-Distinct _ count_sent (λ ex. refl) peers d)
]

-- A reply changes nothing, or the flags of one peer.
dfs_auth_reply-peers :
    (kind : Instance) (accepts : Send → Bool) (bytes : List ℕ) (peers : List WorldPeer)
    (out : List WorldPeer × List Send)
    → dfs_auth_reply kind accepts bytes peers ≡ ok out
    → (peers ≡ out.0) ⊎ (modify (λ ex. memeq ex.authstr bytes) set_authed peers ≡ out.0)
unfolding dfs_auth_reply
dfs_auth_reply-peers kind accepts bytes peers out e =
    elim (Bool-cases (length bytes == hash_size)) [
      | inr wrong ↦ cc (rw wrong at e)
      | inl right ↦
          let e1 = rw right at e in
          elim (Option-cases (peer_findauthstr bytes peers)) [
            | inl absent ↦ inl (cc (rw absent at e1))
            | inr (wp, found) ↦
                let e2 = rw found at e1 in
                elim (Bool-cases wp.flags.authed) [
                  | inl again ↦ inl (cc (rw again at e2))
                  | inr first ↦
                      let e3 = rw first at e2 in
                      let (sent1, _, e4) = >>=-eq-ok (payload_send accepts _) _ e3 in
                      let (sent2, _, e5) =
                        >>=-eq-ok (peer_broadcast kind accepts (set_authed wp) _) _ e4 in
                      inr (cc e5)
                ]
          ]
    ]

Step-Distinct : {peers later : List WorldPeer} → Step peers later → Distinct peers → Distinct later
Step-Distinct {peers} (add wp) d = peer_add-Distinct peers wp d
Step-Distinct {peers} (reachable a pingms) d = peer_reachable-Distinct a pingms peers d
Step-Distinct {peers} (send a) d = peer_shadow-Distinct a peers d
Step-Distinct {peers} (check c) d = peer_check-Distinct c peers d
Step-Distinct {peers} (reply kind accepts bytes out e) d =
    elim (dfs_auth_reply-peers kind accepts bytes peers out e) [
      | inl same ↦ subst Distinct same d
      | inr changed ↦ subst Distinct changed (modify-Distinct _ set_authed (λ ex. refl) peers d)
    ]
Step-Distinct {peers} (query_reply a known) d = dfs_query_reply-Distinct a known peers d

-- In every list of peers that grows from the empty one by additions, answered pings, sent packets,
-- checks, authentication replies and replies to queries, no two peers have one address.
pub Reach-Distinct : {peers : List WorldPeer} → Reach [] peers → Distinct peers
Reach-Distinct here = tt
Reach-Distinct (next r s) = Step-Distinct s (Reach-Distinct r)
