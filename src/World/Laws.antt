-- ===== src/World/Laws.antt =====
-- No two peers of a world have one address, whatever happens to it.
use eioie_client.Base.{
  ◌+◌, ◌%◌, ◌^◌, ◌≡◌, refl, sym, ap, ◌∙◌, subst, List, [], ◌∷◌, ◌++◌, arith, leb, Bool, true, false,
  Bool-cases, Option-cases, none, ◌⊎◌, inl, inr,
}
use eioie_client.Packet.{Address}
use eioie_client.World.{
  Instance, WorldPeer, Send, same_address, map_find, peer_find, modify, peer_add,
}
use eioie_client.World.Check.{Checker, send_to, peer_offline_shadow, check_peer, peer_check}

pub same_address_sym : (a b : Address) → same_address a b ≡ false → same_address b a ≡ false
unfolding same_address
same_address_sym a b h = ground arith

-- No peer has the address.
abbrev pub Fresh : Address → List WorldPeer → Type 0
Fresh a [] = Unit
Fresh a (ex ∷ peers) = (same_address a ex.address ≡ false) × Fresh a peers

abbrev pub Distinct : List WorldPeer → Type 0
Distinct [] = Unit
Distinct (ex ∷ peers) = Fresh ex.address peers × Distinct peers

Fresh-find : (a : Address) (peers : List WorldPeer) → peer_find a peers ≡ none → Fresh a peers
unfolding peer_find map_find
Fresh-find a [] e = tt
Fresh-find a (ex ∷ peers) e = elim (Bool-cases (same_address a ex.address)) [
  | inl here ↦ cc (rw here at e)
  | inr other ↦ (other, Fresh-find a peers (rw other at e))
]

Fresh-append :
    (a : Address) (peers more : List WorldPeer)
    → Fresh a peers
    → Fresh a more
    → Fresh a (peers ++ more)
Fresh-append a [] more f g = g
Fresh-append a (ex ∷ peers) more f g = (f.0, Fresh-append a peers more f.1 g)

Distinct-append :
    (peers : List WorldPeer) (wp : WorldPeer)
    → Distinct peers
    → Fresh wp.address peers
    → Distinct (peers ++ wp ∷ [])
Distinct-append [] wp d f = (tt, tt)
Distinct-append (ex ∷ peers) wp d f = (
  Fresh-append ex.address peers (wp ∷ []) d.0 (same_address_sym wp.address ex.address f.0, tt),
  Distinct-append peers wp d.1 f.1,
)

pub peer_add-Distinct :
    (peers : List WorldPeer) (wp : WorldPeer) → Distinct peers → Distinct (peer_add peers wp).0
unfolding peer_add
peer_add-Distinct peers wp d = elim (Option-cases (peer_find wp.address peers)) [
  | inl absent ↦
      let e : peer_add peers wp ≡ (peers ++ wp ∷ [], true) = rw (peer_add, absent) in
      subst (λ r. Distinct r.0) (sym e)
        (Distinct-append peers wp d (Fresh-find wp.address peers absent))
  | inr (ex, found) ↦
      let e : peer_add peers wp ≡ (peers, false) = rw (peer_add, found) in
      subst (λ r. Distinct r.0) (sym e) d
]

module _ (test : WorldPeer → Bool) (change : WorldPeer → WorldPeer)
    (stays : (ex : WorldPeer) → (change ex).address ≡ ex.address) where
  modify-Fresh :
      (a : Address) (peers : List WorldPeer) → Fresh a peers → Fresh a (modify test change peers)
  unfolding modify
  modify-Fresh a [] f = tt
  modify-Fresh a (ex ∷ peers) f = elim (Bool-cases (test ex)) [
    | inl here ↦ rw here (ap (same_address a) (stays ex) ∙ f.0, f.1)
    | inr other ↦ rw other (f.0, modify-Fresh a peers f.1)
  ]

  pub modify-Distinct :
      (peers : List WorldPeer) → Distinct peers → Distinct (modify test change peers)
  unfolding modify
  modify-Distinct [] d = tt
  modify-Distinct (ex ∷ peers) d = elim (Bool-cases (test ex)) [
    | inl here ↦ rw here (rw (stays ex) d.0, d.1)
    | inr other ↦ rw other (modify-Fresh ex.address peers d.0, modify-Distinct peers d.1)
  ]

-- The check leaves a peer with its address, or none.
abbrev LeftOf : WorldPeer → List WorldPeer → Type 0
LeftOf wp left = (left ≡ []) ⊎ ((wp' : WorldPeer) × (left ≡ wp' ∷ []) × (wp'.address ≡ wp.address))

pub Instance-cases : (k : Instance) → (k ≡ Instance.peer) ⊎ (k ≡ Instance.tracker)
Instance-cases Instance.peer = inl refl
Instance-cases Instance.tracker = inr refl

send_to-left :
    (accepts : Send → Bool) (wp : WorldPeer) (s : Send) → (send_to accepts wp s).left ≡ wp ∷ []
unfolding send_to
send_to-left accepts wp s = elim (Bool-cases (accepts s)) [ inl y ↦ rw y | inr n ↦ rw n ]

offline-left : (c : Checker) (wp : WorldPeer) → LeftOf wp (peer_offline_shadow c wp).left
unfolding peer_offline_shadow
offline-left c wp = elim (Instance-cases c.kind) [
  | inl e ↦ inr (
    record wp { flags = record wp.flags { queried = true } },
    rw e (send_to-left c.accepts _ _),
    refl,
  )
  | inr e ↦ inl (rw e)
]

check_peer-left : (c : Checker) (wp : WorldPeer) → LeftOf wp (check_peer c wp).left
unfolding check_peer
check_peer-left c wp =
    let wp' : WorldPeer = record wp { unreachable = (wp.unreachable + 1) % 2 ^ 32 } in
    elim (Bool-cases (leb c.peer_unreachable ((wp.unreachable + 1) % 2 ^ 32))) [
      | inl over ↦
          let e : (check_peer c wp).left ≡ (peer_offline_shadow c wp').left =
            rw (check_peer, over) in
          subst (LeftOf wp) (sym e) (offline-left c wp')
      | inr alive ↦ inr (wp', rw (check_peer, alive) (send_to-left c.accepts wp' _), refl)
    ]

LeftOf-Fresh :
    (a : Address) (wp : WorldPeer) (left rest : List WorldPeer)
    → LeftOf wp left
    → same_address a wp.address ≡ false
    → Fresh a rest
    → Fresh a (left ++ rest)
LeftOf-Fresh a wp left rest (inl e) other f = rw e f
LeftOf-Fresh a wp left rest (inr (wp', e, same)) other f = rw e (rw same other, f)

LeftOf-Distinct :
    (wp : WorldPeer) (left rest : List WorldPeer)
    → LeftOf wp left
    → Fresh wp.address rest
    → Distinct rest
    → Distinct (left ++ rest)
LeftOf-Distinct wp left rest (inl e) f d = rw e d
LeftOf-Distinct wp left rest (inr (wp', e, same)) f d = rw (e, same) (f, d)

peer_check-Fresh :
    (c : Checker) (a : Address) (peers : List WorldPeer)
    → Fresh a peers
    → Fresh a (peer_check c peers).0
unfolding peer_check
peer_check-Fresh c a [] f = tt
peer_check-Fresh c a (wp ∷ peers) f = elim (Bool-cases (check_peer c wp).continues) [
  | inl go ↦
      rw go (LeftOf-Fresh a wp _ _ (check_peer-left c wp) f.0 (peer_check-Fresh c a peers f.1))
  | inr stop ↦ rw stop (LeftOf-Fresh a wp _ _ (check_peer-left c wp) f.0 f.1)
]

pub peer_check-Distinct :
    (c : Checker) (peers : List WorldPeer) → Distinct peers → Distinct (peer_check c peers).0
unfolding peer_check
peer_check-Distinct c [] d = tt
peer_check-Distinct c (wp ∷ peers) d = elim (Bool-cases (check_peer c wp).continues) [
  | inl go ↦ rw go (
      LeftOf-Distinct wp _ _ (check_peer-left c wp) (peer_check-Fresh c wp.address peers d.0)
        (peer_check-Distinct c peers d.1))
  | inr stop ↦ rw stop (LeftOf-Distinct wp _ _ (check_peer-left c wp) d.0 d.1)
]
