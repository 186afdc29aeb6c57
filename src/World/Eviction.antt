-- ===== src/World/Eviction.antt =====
-- A tracker forgets the peers that do not answer.
use eioie_client.Base.{
  ℕ, zero, suc, ◌+◌, ◌%◌, ◌^◌, ◌≤◌, ◌<◌, ◌≡◌, refl, subst, List, [], ◌∷◌, ◌++◌, arith, leb, true,
  Bool-cases, inl, inr,
}
use eioie_client.World.{Instance, WorldPeer, Send}
use eioie_client.World.Check.{Checker, send_to, peer_offline_shadow, check_peer, peer_check, checks}

-- Every peer has been asked `n` times since its last answer, and not too often.
abbrev pub Waiting : ℕ → ℕ → List WorldPeer → Type 0
Waiting limit n [] = Unit
Waiting limit n (wp ∷ peers) =
    (n ≤ wp.unreachable) × (wp.unreachable < limit) × Waiting limit n peers

Waiting-append :
    (limit n : ℕ) (peers more : List WorldPeer)
    → Waiting limit n peers
    → Waiting limit n more
    → Waiting limit n (peers ++ more)
Waiting-append limit n [] more w v = v
Waiting-append limit n (wp ∷ peers) more w v = (w.0, w.1, Waiting-append limit n peers more w.2 v)

-- A tracker whose messages go out.
pub record Checks (limit : ℕ) (c : Checker) : Type 0 where
  pub kind : c.kind ≡ Instance.tracker
  pub limited : c.peer_unreachable ≡ limit
  pub sends : (s : Send) → c.accepts s ≡ true

check_peer-Waiting :
    (limit n : ℕ) (c : Checker) (wp : WorldPeer)
    → limit < 2 ^ 32
    → Checks limit c
    → n ≤ wp.unreachable
    → wp.unreachable < limit
    → Waiting limit (n + 1) (check_peer c wp).left × ((check_peer c wp).continues ≡ true)
unfolding check_peer peer_offline_shadow send_to
check_peer-Waiting limit n c wp small k low high =
    elim (Bool-cases (leb c.peer_unreachable ((wp.unreachable + 1) % 2 ^ 32))) [
      | inl over ↦ rw (over, k.kind) (tt, refl)
      | inr alive ↦
          let l = k.limited in rw (alive, k.sends _) ((ground arith, ground arith, tt), refl)
    ]

peer_check-Waiting :
    (limit n : ℕ) (c : Checker) (peers : List WorldPeer)
    → limit < 2 ^ 32
    → Checks limit c
    → Waiting limit n peers
    → Waiting limit (n + 1) (peer_check c peers).0
unfolding peer_check
peer_check-Waiting limit n c [] small k w = tt
peer_check-Waiting limit n c (wp ∷ peers) small k w =
    let (first, goes) = check_peer-Waiting limit n c wp small k w.0 w.1 in
    rw goes
      (Waiting-append limit (n + 1) _ _ first (peer_check-Waiting limit n c peers small k w.2))

add_one : (n : ℕ) → n + 1 ≡ suc n
add_one n = omega arith

checks-Waiting :
    (limit n : ℕ) (c : ℕ → Checker) (peers : List WorldPeer)
    → limit < 2 ^ 32
    → ((i : ℕ) → Checks limit (c i))
    → Waiting limit 0 peers
    → Waiting limit n (checks n c peers)
unfolding checks
checks-Waiting limit zero c peers small k w = w
checks-Waiting limit (suc n) c peers small k w =
    subst (λ m. Waiting limit m (peer_check (c n) (checks n c peers)).0) (add_one n)
      (peer_check-Waiting limit n (c n) _ small (k n) (checks-Waiting limit n c peers small k w))

Waiting-nil :
    (limit n : ℕ) (peers : List WorldPeer) → limit ≤ n → Waiting limit n peers → peers ≡ []
Waiting-nil limit n [] h w = refl
Waiting-nil limit n (wp ∷ peers) h w = absurd (let (low, high, _) = w in omega arith)

-- Peers that stay silent are all gone after as many checks as the limit says.
pub checks-eq-nil :
    (limit n : ℕ) (c : ℕ → Checker) (peers : List WorldPeer)
    → limit < 2 ^ 32
    → limit ≤ n
    → ((i : ℕ) → Checks limit (c i))
    → Waiting limit 0 peers
    → checks n c peers ≡ []
checks-eq-nil limit n c peers small enough k w =
    Waiting-nil limit n _ enough (checks-Waiting limit n c peers small k w)
