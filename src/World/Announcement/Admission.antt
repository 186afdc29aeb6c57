-- ===== src/World/Announcement/Admission.antt =====
-- Which peers a tracker admits, and how a peer is admitted by its own announcement.
use eioie_client.Base.{
  ℕ, ◌+◌, ◌%◌, ◌^◌, ◌≡◌, refl, sym, ap, ◌∙◌, List, [], ◌∷◌, ◌++◌, length, ==_iff, ◌==◌, Bool, true,
  false, Bool-cases, Option-cases, none, ◌⊎◌, inl, inr, ok, ◌>>=◌, >>=-eq-ok, if◌then◌else◌,
}
use eioie_client.Utils.Hex.{sha256hex}
use eioie_client.Packet.{hash_size}
use eioie_client.Command.{Sender, Content}
use eioie_client.Command.Bytes.{announced, self_announced}
use eioie_client.Command.Table.{payload_init}
use eioie_client.Command.Counts.{full}
use eioie_client.Command.Prepared.{Kind, bytes_of, payload_init-full}
use eioie_client.World.{
  Instance, WorldPeer, PeerType, Send, payload_send, peer_find, peer_add, peer_shadow, count_sent,
}
use eioie_client.World.Laws.{Instance-cases}
use eioie_client.World.Announcement.Counted.{peer_shadow-added}
use eioie_client.World.Announcement.{announce_read}
use eioie_client.World.Announcement.RoundTrip.{
  IsAnnouncement, announced_peer, announce_read-announced,
}
use eioie_client.World.Announcement.Handler.{
  Node, Notice, Outside, sends, wl_find, wl_exists, peer_auth, admit, announce_prp,
}

-- The tracker's new peer: its key is on the whitelist, and its address is the one the packet came
-- from and is new.
pub record IsAdmitted (n n' : Node) (wp : WorldPeer) : Type 0 where
  pub peers : n'.peers ≡ n.peers ++ wp ∷ []
  pub whitelisted : wl_find wp.pubkeyhash n.whitelist ≡ true
  pub address : wp.address ≡ n.remote
  pub unknown : peer_find n.remote n.peers ≡ none

peer_auth-keeps :
    (o : Outside) (wp : WorldPeer) (r : WorldPeer × List Send)
    → peer_auth o wp ≡ ok r
    → (r.0.pubkeyhash ≡ wp.pubkeyhash) × (r.0.address ≡ wp.address)
unfolding peer_auth
peer_auth-keeps o wp r e =
    let (authstr, _, e1) = >>=-eq-ok (sha256hex o.sha o.text) _ e in
    let (str, _, e2) = >>=-eq-ok (o.encrypt wp.pubkey authstr) _ e1 in
    let (sent, _, e3) =
      >>=-eq-ok
        (payload_send o.accepts
          (record { command = 8; to = wp.address; content = Content.auth str }))
        _ e2 in
    let same : (record wp { authstr = authstr }, sent) ≡ r = cc in
    (
      ap (λ (q : WorldPeer × List Send). q.0.pubkeyhash) (sym same),
      ap (λ (q : WorldPeer × List Send). q.0.address) (sym same),
    )

admit-eq-ok :
    (o : Outside) (n n' : Node) (wp : WorldPeer) (notices : List Notice)
    → wp.address ≡ n.remote
    → wl_find wp.pubkeyhash n.whitelist ≡ true
    → admit o n wp ≡ ok (n', notices)
    → (n' ≡ n) ⊎ ((wp' : WorldPeer) × IsAdmitted n n' wp')
unfolding admit peer_add
admit-eq-ok o n n' wp notices here listed e = elim (Option-cases (peer_find wp.address n.peers)) [
  | inr (ex, found) ↦ inl (cc (rw (admit, peer_add, found) at e))
  | inl absent ↦
      let (r, sent, e1) = >>=-eq-ok (peer_auth o wp) _ (rw (admit, peer_add, absent) at e) in
      let kept = peer_auth-keeps o wp r sent in
      let counted = peer_shadow-added r.0 n.peers (ap (λ a. peer_find a n.peers) kept.1 ∙ absent) in
      let done : record n { peers = (peer_shadow (n.peers ++ r.0 ∷ []) r.0.address).0 } ≡ n' =
        cc e1 in
      inr (
        count_sent r.0,
        record {
          peers = ap (λ (m : Node). m.peers) (sym done) ∙ counted;
          whitelisted = ap (λ k. wl_find k n.whitelist) kept.0 ∙ listed;
          address = kept.1 ∙ here;
          unknown = ap (λ a. peer_find a n.peers) (sym here) ∙ absent;
        },
      )
]

wl_exists-eq-ok :
    (keys : List (List ℕ)) (hash : List ℕ) (b : Bool)
    → wl_exists keys hash ≡ ok b
    → wl_find hash keys ≡ b
unfolding wl_exists
wl_exists-eq-ok keys hash b e = elim (Bool-cases (length hash == hash_size)) [
  | inl fits ↦ cc (rw fits at e)
  | inr other ↦ cc (rw other at e)
]

decided :
    (o : Outside) (n n' : Node) (wp : WorldPeer) (notices : List Notice) (listed : Bool)
    → wp.address ≡ n.remote
    → wl_exists n.whitelist wp.pubkeyhash ≡ ok listed
    → (if listed then admit o n wp else ok (n, [])) ≡ ok (n', notices)
    → (n' ≡ n) ⊎ ((wp' : WorldPeer) × IsAdmitted n n' wp')
decided o n n' wp notices true here asked e =
    admit-eq-ok o n n' wp notices here (wl_exists-eq-ok n.whitelist wp.pubkeyhash true asked) e
decided o n n' wp notices false here asked e = inl (cc)

-- `announce_prp` with any bytes leaves the tracker as it was, or adds one peer that it may admit.
pub announce_prp-IsAdmitted :
    (o : Outside) (n n' : Node) (bytes : List ℕ) (notices : List Notice)
    → announce_prp o n bytes ≡ ok (n', notices)
    → (n' ≡ n) ⊎ ((wp : WorldPeer) × IsAdmitted n n' wp)
unfolding announce_prp wl_exists
announce_prp-IsAdmitted o n n' bytes notices e = elim (Instance-cases n.kind) [
  | inl peer_ ↦ cc (rw (announce_prp, peer_) at e)
  | inr tracker_ ↦
      let (read, _, e1) =
        >>=-eq-ok (announce_read o.fresh o.sha bytes) _ (rw (announce_prp, tracker_) at e) in
      let wp : WorldPeer = record read { kind = PeerType.peer_peer; address = n.remote } in
      let (listed, asked, e2) = >>=-eq-ok (wl_exists n.whitelist wp.pubkeyhash) _ e1 in
      decided o n n' wp notices listed refl asked e2
]

-- The peer that a tracker makes of an announcement that `p` has prepared.
abbrev pub newcomer : Sender → Node → List ℕ → WorldPeer
newcomer p n hash = record (announced_peer (self_announced p) hash) {
  kind = PeerType.peer_peer;
  address = n.remote;
}

-- The challenge with the secret `authstr`, encrypted as `str`.
peer_auth_lem :
    (o : Outside) (wp : WorldPeer) (authstr str : List ℕ)
    → sha256hex o.sha o.text ≡ ok authstr
    → o.encrypt wp.pubkey authstr ≡ ok str
    → o.accepts (record { command = 8; to = wp.address; content = Content.auth str }) ≡ true
    → peer_auth o wp
      ≡ ok (
        record wp { authstr = authstr },
        record { command = 8; to = wp.address; content = Content.auth str } ∷ [],
      )
unfolding peer_auth payload_send
peer_auth_lem o wp authstr str secret encrypted sends_ =
    rw (peer_auth, secret, encrypted, payload_send, sends_) refl

pub announce_prp-newcomer :
    (o : Outside) (n : Node) (bytes : List ℕ) (read : WorldPeer) (authstr str : List ℕ)
    → n.kind ≡ Instance.tracker
    → announce_read o.fresh o.sha bytes ≡ ok read
    → length read.pubkeyhash ≡ hash_size
    → wl_find read.pubkeyhash n.whitelist ≡ true
    → peer_find n.remote n.peers ≡ none
    → sha256hex o.sha o.text ≡ ok authstr
    → o.encrypt read.pubkey authstr ≡ ok str
    → o.accepts (record { command = 8; to = n.remote; content = Content.auth str }) ≡ true
    → let wp : WorldPeer = record read {
      kind = PeerType.peer_peer;
      address = n.remote;
      authstr = authstr;
      sent = (read.sent + 1) % 2 ^ 32;
    } in
      announce_prp o n bytes
      ≡ ok (
        record n { peers = n.peers ++ wp ∷ [] },
        sends (record { command = 8; to = n.remote; content = Content.auth str } ∷ []) ∷ [],
      )
unfolding announce_prp admit wl_exists peer_add
announce_prp-newcomer o n bytes read authstr str kind e sized listed unknown secret encrypted
      sends_ =
    let wp : WorldPeer = record read { kind = PeerType.peer_peer; address = n.remote } in
    rw
      (
        announce_prp,
        kind,
        e,
        (==_iff (length read.pubkeyhash) hash_size).1 sized,
        listed,
        admit,
        peer_add,
        unknown,
        peer_auth_lem o wp authstr str secret encrypted sends_,
        peer_shadow-added (record wp { authstr = authstr }) n.peers unknown,
      )
      (rw kind)

-- If a peer whose announcement fits its types and whose send buffer is empty announces itself to a
-- tracker that has its key's digest, of 64 characters, on the whitelist and no peer at the address
-- the packet came from, and if the secret can be hashed and encrypted and its message goes out, then
-- the payload that `payload_init` prepares makes `announce_prp` add the peer, with that address, with
-- the secret, and with 1 as its count of messages, and send it the encrypted secret.
pub announce_prp-payload_init :
    (fresh : ℕ → ℕ) (o : Outside) (p : Sender) (n : Node) (hash authstr str : List ℕ)
    → p.content ≡ Content.empty
    → IsAnnouncement (self_announced p)
    → n.kind ≡ Instance.tracker
    → sha256hex o.sha p.public_key ≡ ok hash
    → length hash ≡ hash_size
    → wl_find hash n.whitelist ≡ true
    → peer_find n.remote n.peers ≡ none
    → sha256hex o.sha o.text ≡ ok authstr
    → o.encrypt p.public_key authstr ≡ ok str
    → o.accepts (record { command = 8; to = n.remote; content = Content.auth str }) ≡ true
    → let wp : WorldPeer = record (newcomer p n hash) { authstr = authstr; sent = 1 } in
      (payload_init fresh 4 p >>= λ d. announce_prp o n d.payload.s)
      ≡ ok (
        record n { peers = n.peers ++ wp ∷ [] },
        sends (record { command = 8; to = n.remote; content = Content.auth str } ∷ []) ∷ [],
      )
announce_prp-payload_init fresh o p n hash authstr str empty v kind hashed sized listed unknown
      secret encrypted sends_ =
    let prepared : payload_init fresh 4 p ≡ ok (full 4 (announced (self_announced p))) =
      payload_init-full fresh Kind.peer_announce_peer p Content.empty _ empty
        (unfold bytes_of in refl) v.size in
    let read = announce_read-announced o.fresh o.sha (self_announced p) hash v hashed in
    rw prepared (
      announce_prp-newcomer o n _ _ authstr str kind read sized listed unknown secret encrypted
        sends_)
