-- ===== src/Tests/Peers.antt =====
-- The world of a tracker.
use eioie_client.Base.{
  ℕ, ◌≡◌, refl, List, [], ◌∷◌, arith, replicate, true, false, not, ◌==◌, none, some, ok, ◌↔◌,
  if◌then◌else◌,
}
use mathlib.Core.List.{Memᴰ}
use eioie_client.World.{
  Send, Instance, PeerType, WorldPeer, no_flags, peer_add, peer_find, map_find, same_address,
}
use eioie_client.Command.{Content}
use eioie_client.World.Check.{Checker, checks}
use eioie_client.World.Broadcast.{peer_broadcast}
use eioie_client.World.Laws.{Distinct}
use eioie_client.World.Steps.{Step, Reach, Reach-Distinct}
use eioie_client.World.Eviction.{Checks, checks-eq-nil}
use eioie_client.World.Query.{dfs_query, dfs_query_reply}
use eioie_client.World.Query.Shadows.{dfs_query_reply-dfs_query}
use eioie_client.World.Announced.{introductions, Introduces, peer_broadcast_lem}

abbrev pub peer_at : ℕ → WorldPeer
peer_at port = record {
  kind = PeerType.peer_peer;
  address = record { host = 16777343; port = port };
  unreachable = 0;
  pubkey = 75 ∷ [];
  pubkeyhash = replicate 64 48;
  authstr = replicate 64 port;
  version = 12;
  pingms = 0;
  flags = no_flags;
  description = replicate 256 0;
  ports = 80 ∷ [];
  sent = 0;
}

-- Two peers that join.
abbrev two : List WorldPeer
two = (peer_add (peer_add [] (peer_at 1)).0 (peer_at 2)).0

history : Reach [] two
history = Reach.next (Reach.next Reach.here (Step.add (peer_at 1))) (Step.add (peer_at 2))

Reach-Distinct_example : Distinct two
Reach-Distinct_example = Reach-Distinct history

abbrev timer : ℕ → Checker
timer i = record {
  kind = Instance.tracker;
  tracker = record { host = 16777343; port = 9000 };
  peer_unreachable = 3;
  now = i;
  accepts = λ s. true;
}

timer-Checks : (i : ℕ) → Checks 3 (timer i)
timer-Checks i = record { kind = refl; limited = refl; sends = λ s. refl }

checks-eq-nil_example : checks 3 timer (peer_at 1 ∷ peer_at 2 ∷ []) ≡ []
checks-eq-nil_example =
    checks-eq-nil 3 3 timer (peer_at 1 ∷ peer_at 2 ∷ []) (omega arith) (omega arith) timer-Checks
      (omega arith, omega arith, (omega arith, omega arith, tt))

abbrev known : WorldPeer
known = record (peer_at 1) { flags = record no_flags { authed = true } }

peer_broadcast_lem_example :
    (peer_broadcast Instance.tracker (λ s. true) known (known ∷ peer_at 2 ∷ [])
      ≡ ok (if true then introductions known (known ∷ peer_at 2 ∷ []) else []))
    × ((s : Send)
        → Memᴰ s (introductions known (known ∷ peer_at 2 ∷ []))
          ↔ Introduces known (known ∷ peer_at 2 ∷ []) s)
peer_broadcast_lem_example =
    peer_broadcast_lem (λ s. true) known (known ∷ peer_at 2 ∷ []) (λ s. refl)

-- A peer that was asked for.
abbrev asked : WorldPeer
asked = record (peer_at 1) { flags = record no_flags { queried = true } }

first_asked : peer_find asked.address (asked ∷ peer_at 2 ∷ []) ≡ some asked
unfolding peer_find map_find same_address
first_asked = refl

elsewhere : same_address asked.address (peer_at 2).address ≡ false
unfolding same_address
elsewhere = refl

asked-Distinct : Distinct (asked ∷ peer_at 2 ∷ [])
unfolding same_address
asked-Distinct = ((refl, tt), (tt, tt))

-- The tracker knows the peer.
dfs_query_reply-dfs_query_example :
    let flag : ℕ = elim (peer_find asked.address (peer_at 1 ∷ [])) [ none ↦ 0 | some wp ↦ 1 ] in
    let later = dfs_query_reply asked.address (not (flag == 0)) (asked ∷ peer_at 2 ∷ []) in
    (dfs_query (λ s. true) (peer_at 3).address asked.address (peer_at 1 ∷ [])
      ≡ ok (
          record {
            command = 14;
            to = (peer_at 3).address;
            content = Content.query_reply asked.address flag;
          }
          ∷ []))
    × (peer_find asked.address later ≡ elim (peer_find asked.address (peer_at 1 ∷ [])) [
      | none ↦ none
      | some wp ↦ some (record asked {
        unreachable = 0;
        flags = record {
          authed = false;
          queried = false;
          shadow = true;
          proxy = false;
          offline = false;
        };
      })
    ])
    × (peer_find (peer_at 2).address later ≡ peer_find (peer_at 2).address (asked ∷ peer_at 2 ∷ []))
dfs_query_reply-dfs_query_example =
    dfs_query_reply-dfs_query (λ s. true) (peer_at 3).address asked.address (peer_at 2).address
      (peer_at 1 ∷ []) (asked ∷ peer_at 2 ∷ []) asked (λ s. refl) asked-Distinct first_asked refl
      elsewhere
