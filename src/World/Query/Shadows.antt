-- ===== src/World/Query/Shadows.antt =====
-- What a query of src/distfs.c and its reply leave of the queried peer and of the others.
use eioie_client.Base.{
  ℕ, ◌≡◌, refl, List, [], ◌∷◌, ◌==◌, not, Bool, Bool-cases, true, false, Option-cases, none, some,
  inl, inr, arith, ok,
}
use eioie_client.Packet.{Address}
use eioie_client.Command.{Content}
use eioie_client.World.{
  WorldPeer, Send, payload_send, same_address, map_find, peer_find, modify, peer_isreachable,
}
use eioie_client.World.Laws.{Distinct, Fresh}
use eioie_client.World.Query.{dfs_query, del_peer, set_shadow, dfs_query_reply}

same_address_trans :
    (a b c : Address)
    → same_address a b ≡ true
    → same_address b c ≡ false
    → same_address a c ≡ false
unfolding same_address
same_address_trans a b c h k = ground arith

find-Fresh :
    (a b : Address) (peers : List WorldPeer)
    → same_address a b ≡ true
    → Fresh b peers
    → peer_find a peers ≡ none
unfolding peer_find map_find
find-Fresh a b [] same f = refl
find-Fresh a b (ex ∷ peers) same f =
    rw (same_address_trans a b ex.address same f.0) (find-Fresh a b peers same f.1)

find-del_peer :
    (a : Address) (peers : List WorldPeer) → Distinct peers → peer_find a (del_peer a peers) ≡ none
unfolding peer_find map_find del_peer
find-del_peer a [] d = refl
find-del_peer a (ex ∷ peers) d = elim (Bool-cases (same_address a ex.address)) [
  | inl here ↦ rw here (find-Fresh a ex.address peers here d.0)
  | inr other ↦ rw (other, other) (find-del_peer a peers d.1)
]

find-set_shadow :
    (a : Address) (peers : List WorldPeer) (ex : WorldPeer)
    → peer_find a peers ≡ some ex
    → peer_find a (modify (λ wp. same_address a wp.address) set_shadow peers) ≡ some (set_shadow ex)
unfolding peer_find map_find modify
find-set_shadow a [] ex e = cc
find-set_shadow a (wp ∷ peers) ex e = elim (Bool-cases (same_address a wp.address)) [
  | inl here ↦ let same : wp ≡ ex = let h = rw here at e in cc in rw (here, here, same) refl
  | inr other ↦ rw (other, other) (find-set_shadow a peers ex (rw other at e))
]

same_address_apart :
    (a b c : Address)
    → same_address a c ≡ true
    → same_address a b ≡ false
    → same_address b c ≡ false
unfolding same_address
same_address_apart a b c h k = ground arith

find-del_peer_other :
    (a b : Address) (peers : List WorldPeer)
    → same_address a b ≡ false
    → peer_find b (del_peer a peers) ≡ peer_find b peers
unfolding peer_find map_find del_peer
find-del_peer_other a b [] apart = refl
find-del_peer_other a b (wp ∷ peers) apart = elim (Bool-cases (same_address a wp.address)) [
  | inl here ↦ rw (here, same_address_apart a b wp.address here apart) refl
  | inr other ↦ elim (Bool-cases (same_address b wp.address)) [
    | inl found ↦ rw (other, found) refl
    | inr past ↦ rw (other, past) (find-del_peer_other a b peers apart)
  ]
]

find-set_shadow_other :
    (a b : Address) (peers : List WorldPeer)
    → same_address a b ≡ false
    → peer_find b (modify (λ wp. same_address a wp.address) set_shadow peers) ≡ peer_find b peers
unfolding peer_find map_find modify
find-set_shadow_other a b [] apart = refl
find-set_shadow_other a b (wp ∷ peers) apart = elim (Bool-cases (same_address a wp.address)) [
  | inl here ↦ rw (here, same_address_apart a b wp.address here apart) refl
  | inr other ↦ elim (Bool-cases (same_address b wp.address)) [
    | inl found ↦ rw (other, found) refl
    | inr past ↦ rw (other, past) (find-set_shadow_other a b peers apart)
  ]
]

-- If a peer has queried its tracker for a peer at an address, no two of its peers have one address,
-- and the tracker's message goes out, that message says 1 if the tracker has a peer there and 0
-- otherwise. The asking peer takes a number other than 0 as reachable, and afterwards finds the
-- queried peer with the shadow flag set, the queried flag not set and `unreachable` at 0, in the first
-- case, and no peer there in the second. At every other address it finds what it found before.
pub dfs_query_reply-dfs_query :
    (accepts : Send → Bool) (from a b : Address) (tracked peers : List WorldPeer) (ex : WorldPeer)
    → ((s : Send) → accepts s ≡ true)
    → Distinct peers
    → peer_find a peers ≡ some ex
    → ex.flags.queried ≡ true
    → same_address a b ≡ false
    → let flag : ℕ = elim (peer_find a tracked) [ none ↦ 0 | some wp ↦ 1 ] in
      let later = dfs_query_reply a (not (flag == 0)) peers in
      (dfs_query accepts from a tracked
        ≡ ok (record { command = 14; to = from; content = Content.query_reply a flag } ∷ []))
      × (peer_find a later ≡ elim (peer_find a tracked) [
        | none ↦ none
        | some wp ↦ some (record ex {
          unreachable = 0;
          flags = record {
            authed = ex.flags.authed;
            queried = false;
            shadow = true;
            proxy = ex.flags.proxy;
            offline = ex.flags.offline;
          };
        })
      ])
      × (peer_find b later ≡ peer_find b peers)
unfolding dfs_query payload_send dfs_query_reply peer_isreachable
dfs_query_reply-dfs_query accepts from a b tracked peers ex sends d there queried apart =
    elim (Option-cases (peer_find a tracked)) [
      | inl unknown ↦ rw unknown (
        rw (peer_isreachable, unknown, sends _) refl,
        rw (dfs_query_reply, there, queried) (find-del_peer a peers d),
        rw (dfs_query_reply, there, queried) (find-del_peer_other a b peers apart),
      )
      | inr (wp, known) ↦ rw known (
        rw (peer_isreachable, known, sends _) refl,
        rw (dfs_query_reply, there, queried) (find-set_shadow a peers ex there),
        rw (dfs_query_reply, there, queried) (find-set_shadow_other a b peers apart),
      )
    ]
