-- ===== src/World/Query.antt =====
-- The queries, their replies and the pings of src/distfs.c.
pub mod Shadows
use eioie_client.Base.{
  ℕ, ◌≡◌, refl, List, [], ◌∷◌, Bool, Bool-cases, true, false, Option-cases, none, some, inl, inr,
  arith, Run, ok, if◌then◌else◌,
}
use eioie_client.Packet.{Address}
use eioie_client.Command.{Content}
use eioie_client.World.{
  WorldPeer, Send, payload_send, same_address, map_find, peer_find, modify, peer_isreachable,
  peer_reachable,
}
use eioie_client.World.Laws.{Distinct, modify-Distinct, Fresh}

-- `dfs_query` from `from` for the peer at `a`.
unfoldable pub dfs_query : (Send → Bool) → Address → Address → List WorldPeer → Run (List Send)
unfolding payload_send peer_isreachable
dfs_query accepts from a peers = payload_send accepts (record {
  command = 14;
  to = from;
  content = Content.query_reply a (if peer_isreachable a peers then 1 else 0);
})

-- `list.del` of the peer that `peer_find` found.
unfoldable pub del_peer : Address → List WorldPeer → List WorldPeer
unfolding same_address
del_peer a [] = []
del_peer a (ex ∷ peers) = if same_address a ex.address then peers else ex ∷ del_peer a peers

-- A peer that the tracker reaches is reached by way of the proxy from then on.
abbrev pub set_shadow : WorldPeer → WorldPeer
set_shadow ex = record ex {
  unreachable = 0;
  flags = record ex.flags { queried = false; shadow = true };
}

-- `dfs_query_reply` for the peer at `a`.
unfoldable pub dfs_query_reply : Address → Bool → List WorldPeer → List WorldPeer
unfolding peer_find modify del_peer same_address
dfs_query_reply a reachable peers = elim (peer_find a peers) [
  | none ↦ peers
  | some ex ↦
      if ex.flags.queried
      then (if reachable
          then modify (λ wp. same_address a wp.address) set_shadow peers
          else del_peer a peers)
      else peers
]

-- `dfs_ping_reply` to the source of the ping.
unfoldable pub dfs_ping_reply : (Send → Bool) → Address → ℕ → Run (List Send)
unfolding payload_send
dfs_ping_reply accepts src ts =
    payload_send accepts (record { command = 11; to = src; content = Content.pong ts })

-- `dfs_hello`.
unfoldable pub dfs_hello : (Send → Bool) → Address → Run (List Send)
unfolding payload_send
dfs_hello accepts a = payload_send accepts (record {
  command = 5;
  to = a;
  content = Content.message (b'h' ∷ b'e' ∷ b'l' ∷ b'l' ∷ b'o' ∷ []);
})

-- `dfs_pong_reply`; `pingms` is the `int` of the milliseconds since the time of the pong.
unfoldable pub dfs_pong_reply : Address → ℕ → List WorldPeer → List WorldPeer
unfolding peer_reachable
dfs_pong_reply a pingms peers = peer_reachable a pingms peers

Fresh-del_peer :
    (a b : Address) (peers : List WorldPeer) → Fresh b peers → Fresh b (del_peer a peers)
unfolding del_peer
Fresh-del_peer a b [] f = tt
Fresh-del_peer a b (ex ∷ peers) f = elim (Bool-cases (same_address a ex.address)) [
  | inl here ↦ rw here f.1
  | inr other ↦ rw other (f.0, Fresh-del_peer a b peers f.1)
]

pub Distinct-del_peer :
    (a : Address) (peers : List WorldPeer) → Distinct peers → Distinct (del_peer a peers)
unfolding del_peer
Distinct-del_peer a [] d = tt
Distinct-del_peer a (ex ∷ peers) d = elim (Bool-cases (same_address a ex.address)) [
  | inl here ↦ rw here d.1
  | inr other ↦ rw other (Fresh-del_peer a ex.address peers d.0, Distinct-del_peer a peers d.1)
]

pub dfs_query_reply-Distinct :
    (a : Address) (reachable : Bool) (peers : List WorldPeer)
    → Distinct peers
    → Distinct (dfs_query_reply a reachable peers)
unfolding dfs_query_reply
dfs_query_reply-Distinct a reachable peers d = elim (Option-cases (peer_find a peers)) [
  | inl absent ↦ rw (dfs_query_reply, absent) d
  | inr (ex, there) ↦ elim (Bool-cases ex.flags.queried) [
    | inr unasked ↦ rw (dfs_query_reply, there, unasked) d
    | inl queried ↦ elim (Bool-cases reachable) [
      | inl known ↦
          rw (dfs_query_reply, there, queried, known)
            (modify-Distinct _ set_shadow (λ wp. refl) peers d)
      | inr unknown ↦ rw (dfs_query_reply, there, queried, unknown) (Distinct-del_peer a peers d)
    ]
  ]
]
