-- ===== src/World/Announced.antt =====
-- What a broadcast sends.
use eioie_client.Base.{
  ◌≡◌, refl, sym, ap, ◌∙◌, List, [], ◌∷◌, Bool, true, false, Bool-cases, inl, inr, ok,
  if◌then◌else◌, ◌⊎◌, ◌↔◌,
}
use mathlib.Core.List.{Memᴰ}
use mathlib.Core.List.Memᴰ
use eioie_client.Chain.Text.{cstr}
use eioie_client.Command.{Content}
use eioie_client.World.{Instance, WorldPeer, Send, payload_send, same_address}
use eioie_client.World.Broadcast.{announcement, item, broadcast_loop, peer_broadcast}

-- The message that tells `to` of `about`.
abbrev pub tells : WorldPeer → WorldPeer → Send
tells to about = record {
  command = 3;
  to = to.address;
  content = Content.tracker_announce_peer (record {
    address = about.address;
    key = about.pubkey;
    tcpdesc = cstr 256 about.description;
    version = about.version;
    tcpports = about.ports;
    proxy = if about.flags.proxy then 8 else 0;
  });
}

-- For each other peer, what tells `wp` of it, and what tells it of `wp`.
abbrev pub introductions : WorldPeer → List WorldPeer → List Send
introductions wp [] = []
introductions wp (ex ∷ peers) =
    let rest = introductions wp peers in
    if same_address wp.address ex.address then rest else tells wp ex ∷ tells ex wp ∷ rest

-- The message tells `wp` of a peer at another address, or such a peer of `wp`.
abbrev pub Introduces : WorldPeer → List WorldPeer → Send → Type 0
Introduces wp peers s =
    (ex : WorldPeer) × Memᴰ ex peers
    × (same_address wp.address ex.address ≡ false)
    × ((s ≡ tells wp ex) ⊎ (s ≡ tells ex wp))

one_more :
    (wp wp' : WorldPeer) (peers : List WorldPeer) (s : Send)
    → Introduces wp peers s
    → Introduces wp (wp' ∷ peers) s
one_more wp wp' peers s (ex, there, other, told) = (ex, Memᴰ.tail there, other, told)

introductions-Introduces :
    (wp : WorldPeer) (peers : List WorldPeer) (s : Send)
    → Memᴰ s (introductions wp peers)
    → Introduces wp peers s
introductions-Introduces wp [] s m = absurd (Memᴰ.not-nil m)
introductions-Introduces wp (ex ∷ peers) s m =
    let later = λ (n : Memᴰ s (introductions wp peers)).
      one_more wp ex peers s (introductions-Introduces wp peers s n) in
    elim (Bool-cases (same_address wp.address ex.address)) [
      | inl same ↦ later (rw same at m)
      | inr other ↦ elim (Memᴰ.cases_cons (rw other at m)) [
        | inl e ↦ (ex, Memᴰ.head refl, other, inl e)
        | inr n ↦ elim (Memᴰ.cases_cons n) [
          | inl e ↦ (ex, Memᴰ.head refl, other, inr e)
          | inr n' ↦ later n'
        ]
      ]
    ]

Introduces-introductions :
    (wp : WorldPeer) (peers : List WorldPeer) (s : Send)
    → Introduces wp peers s
    → Memᴰ s (introductions wp peers)
Introduces-introductions wp [] s (ex, there, other, told) = absurd (Memᴰ.not-nil there)
Introduces-introductions wp (ex ∷ peers) s (ex', Memᴰ.head e, other, told) =
    let apart = rw e at other in
    elim told [
      | inl to ↦ rw apart (Memᴰ.head (to ∙ ap (tells wp) e))
      | inr of_ ↦ rw apart (Memᴰ.tail (Memᴰ.head (of_ ∙ ap (λ w. tells w wp) e)))
    ]
Introduces-introductions wp (ex ∷ peers) s (ex', Memᴰ.tail there, other, told) =
    let m = Introduces-introductions wp peers s (ex', there, other, told) in
    elim (Bool-cases (same_address wp.address ex.address)) [
      | inl same ↦ rw same m
      | inr apart ↦ rw apart (Memᴰ.tail (Memᴰ.tail m))
    ]

broadcast_loop_lem :
    (accepts : Send → Bool) (wp : WorldPeer) (peers : List WorldPeer)
    → ((s : Send) → accepts s ≡ true)
    → wp.flags.authed ≡ true
    → broadcast_loop accepts wp peers ≡ ok (introductions wp peers)
unfolding broadcast_loop payload_send item announcement
broadcast_loop_lem accepts wp [] sends authed = refl
broadcast_loop_lem accepts wp (ex ∷ peers) sends authed =
    let rest = broadcast_loop_lem accepts wp peers sends authed in
    elim (Bool-cases (same_address wp.address ex.address)) [
      | inl same ↦ rw same rest
      | inr other ↦ rw (other, authed, sends (tells wp ex), sends (tells ex wp), rest)
    ]

broadcast_loop_silent :
    (accepts : Send → Bool) (wp : WorldPeer) (peers : List WorldPeer)
    → wp.flags.authed ≡ false
    → broadcast_loop accepts wp peers ≡ ok []
unfolding broadcast_loop
broadcast_loop_silent accepts wp [] unknown = refl
broadcast_loop_silent accepts wp (ex ∷ peers) unknown =
    let rest = broadcast_loop_silent accepts wp peers unknown in
    elim (Bool-cases (same_address wp.address ex.address)) [
      | inl same ↦ rw same rest
      | inr other ↦ rw (other, unknown) rest
    ]

-- Where its messages go out, a tracker's broadcast of a peer sends nothing if the peer is not
-- authenticated, and otherwise, peer by peer, what `introductions` lists. These are exactly the
-- announcements, written out field by field, of a peer at another address to it, and of it to a peer
-- at another address; whether that peer is authenticated does not matter.
pub peer_broadcast_lem :
    (accepts : Send → Bool) (wp : WorldPeer) (peers : List WorldPeer)
    → ((s : Send) → accepts s ≡ true)
    → (peer_broadcast Instance.tracker accepts wp peers
        ≡ ok (if wp.flags.authed then introductions wp peers else []))
      × ((s : Send) → Memᴰ s (introductions wp peers) ↔ Introduces wp peers s)
unfolding peer_broadcast
peer_broadcast_lem accepts wp peers sends = (
  elim (Bool-cases wp.flags.authed) [
    | inl authed ↦
        broadcast_loop_lem accepts wp peers sends authed
        ∙ ap (λ b. ok (if b then introductions wp peers else [])) (sym authed)
    | inr unknown ↦
        broadcast_loop_silent accepts wp peers unknown
        ∙ ap (λ b. ok (if b then introductions wp peers else [])) (sym unknown)
  ],
  λ s. (introductions-Introduces wp peers s, Introduces-introductions wp peers s),
)
