-- ===== src/World/Announcement/Counted.antt =====
-- `peer_shadow` of src/world.c for the peer that was added last.
use eioie_client.Base.{
  ◌≡◌, ap, ◌∙◌, List, [], ◌∷◌, ◌++◌, ==_refl, true, Bool-cases, none, some, inl, inr, Option-cases,
}
use eioie_client.Packet.{Address}
use eioie_client.World.{
  WorldPeer, same_address, map_find, peer_find, peer_findproxy, modify, count_sent, peer_shadow,
}

same_address_refl : (a : Address) → same_address a a ≡ true
unfolding same_address
same_address_refl a = rw (==_refl a.host, ==_refl a.port)

find-added :
    (wp : WorldPeer) (peers : List WorldPeer)
    → peer_find wp.address peers ≡ none
    → peer_find wp.address (peers ++ wp ∷ []) ≡ some wp
unfolding peer_find map_find
find-added wp [] e = rw (same_address_refl wp.address)
find-added wp (ex ∷ peers) e = elim (Bool-cases (same_address wp.address ex.address)) [
  | inl here ↦ absurd (let f = rw here at e in cc)
  | inr other ↦ rw other (find-added wp peers (rw other at e))
]

counts :
    (wp : WorldPeer) (peers : List WorldPeer)
    → peer_find wp.address peers ≡ none
    → modify (λ ex. same_address wp.address ex.address) count_sent (peers ++ wp ∷ [])
      ≡ peers ++ count_sent wp ∷ []
unfolding peer_find map_find modify
counts wp [] e = rw (same_address_refl wp.address)
counts wp (ex ∷ peers) e = elim (Bool-cases (same_address wp.address ex.address)) [
  | inl here ↦ absurd (let f = rw here at e in cc)
  | inr other ↦ rw other (ap (λ rest. ex ∷ rest) (counts wp peers (rw other at e)))
]

peer_shadow-found :
    (a : Address) (peers : List WorldPeer) (ex : WorldPeer)
    → peer_find a peers ≡ some ex
    → (peer_shadow peers a).0 ≡ modify (λ wp. same_address a wp.address) count_sent peers
unfolding peer_shadow
peer_shadow-found a peers ex found = elim (Bool-cases ex.flags.shadow) [
  | inr open_ ↦ rw (peer_shadow, found, open_)
  | inl hidden ↦ elim (Option-cases (peer_findproxy peers)) [
    | inl without ↦ rw (peer_shadow, found, hidden, without)
    | inr (proxy, there) ↦ rw (peer_shadow, found, hidden, there)
  ]
]

-- A message to a peer that was just added is counted in that peer, and in no other.
pub peer_shadow-added :
    (wp : WorldPeer) (peers : List WorldPeer)
    → peer_find wp.address peers ≡ none
    → (peer_shadow (peers ++ wp ∷ []) wp.address).0 ≡ peers ++ count_sent wp ∷ []
peer_shadow-added wp peers e =
    peer_shadow-found wp.address (peers ++ wp ∷ []) wp (find-added wp peers e) ∙ counts wp peers e
