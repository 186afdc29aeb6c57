-- ===== src/Net/Send.antt =====
-- `data_send` of src/data.c: a payload is cut into packets, and each goes to the queue.
use eioie_client.Base.{
  ℕ, zero, suc, arith, ◌+◌, ◌%◌, ◌^◌, ◌<◌, ◌≡◌, refl, sym, ap, ◌∙◌, List, [], ◌∷◌, ◌++◌, length,
  map, false, Bool-cases, inl, inr, Run, ok, ◌>>=◌, memeq, memeq-eq, append_assoc, append-nil,
  subst, take, take-append,
}
use eioie_client.Bytes.Integer.{to_bytes, from_bytes, length-to_bytes, from_bytes-to_bytes}
use eioie_client.Utils.Hex.{Sha256}
use eioie_client.Packet.{Address, Packet}
use eioie_client.Packet.Create.{Outgoing, SendBuffer, serialize_init, chunks_of}
use eioie_client.Packet.Create.Size.{chunks_of_bounds}
use eioie_client.Packet.Create.Laws.{
  IsOutgoing, packet_at, chunk_at, upto, serialize_init_lem, packet_at-IsPacket,
}
use eioie_client.Packet.Wire.RoundTrip.{wire}
use eioie_client.World.{WorldPeer, peer_shadow}
use eioie_client.Columns.Index.{Lacks}
use eioie_client.Net.{Nb, pidx_tidx}
use eioie_client.Net.Queue.{IsQueue, key_of, key_bytes, waiting}
use eioie_client.Net.Submit.{NetSend, is_oneshot, nb_of, data_submit, data_submit-IsQueue}

-- What `data_send` changes of `struct peer_s`.
pub record SendState : Type 0 where
  pub peers : List WorldPeer
  pub send_buffer : SendBuffer
  pub send : NetSend

-- The loop of `data_send`.
unfoldable pub submit_all : (ℕ → ℕ) → NetSend → List Packet → Address → Run NetSend
unfolding data_submit
submit_all fresh p [] remote = ok p
submit_all fresh p (pck ∷ packets) remote =
    data_submit fresh p pck remote >>= λ p'. submit_all fresh p' packets remote

-- `data_send` of the payload `buffer`; `o.dst` is the host and the port that it is called with.
unfoldable pub data_send :
    Sha256 → (ℕ → ℕ) → (ℕ → ℕ) → Outgoing → SendState → List ℕ → Run SendState
unfolding peer_shadow serialize_init submit_all
data_send sha fresh now o s buffer =
    let (peers, remote) = peer_shadow s.peers o.dst in
    serialize_init sha o now s.send_buffer buffer >>= λ r.
    submit_all fresh s.send r.0 remote >>= λ send.
    ok (record { peers = peers; send_buffer = r.1; send = send })

-- A key holds its packet number.
pidx_of : (pidx tidx : ℕ) → pidx < 2 ^ 32 → from_bytes (take 4 (key_bytes pidx tidx)) ≡ pidx
pidx_of pidx tidx small =
    ap from_bytes (take-append 4 (to_bytes 4 pidx) _ (length-to_bytes 4 pidx))
    ∙ from_bytes-to_bytes 4 pidx small

key_bytes_differ :
    (a b tidx : ℕ)
    → a < 2 ^ 32
    → b < 2 ^ 32
    → ¬ (a ≡ b)
    → memeq (key_bytes a tidx) (key_bytes b tidx) ≡ false
key_bytes_differ a b tidx small_a small_b other =
    elim (Bool-cases (memeq (key_bytes a tidx) (key_bytes b tidx))) [
      | inl same ↦
          let keys = memeq-eq (key_bytes a tidx) (key_bytes b tidx) same in
          absurd (
            other (
              sym (pidx_of a tidx small_a)
              ∙ ap (λ k. from_bytes (take 4 k)) keys
              ∙ pidx_of b tidx small_b))
      | inr differ ↦ differ
    ]

Lacks-append :
    (k : List ℕ) (xs : List Nb) (x : Nb)
    → Lacks pidx_tidx key_of k xs
    → memeq (key_of x) k ≡ false
    → Lacks pidx_tidx key_of k (xs ++ x ∷ [])
Lacks-append k [] x a other = (other, tt)
Lacks-append k (y ∷ xs) x a other = (a.0, Lacks-append k xs x a.1 other)

module _ (sha : Sha256) {o : Outgoing} {now : ℕ → ℕ} {sb : SendBuffer} {buffer : List ℕ}
    (v : IsOutgoing o now sb buffer) (fresh : ℕ → ℕ) (remote : Address)
    (ordinary : is_oneshot o.command ≡ false) where
  -- The buffer of packet `i`, and its key.
  abbrev pub nb_at : ℕ → Nb
  nb_at i =
      nb_of (packet_at sha o now sb buffer i) remote
        (wire (packet_at sha o now sb buffer i) (chunk_at sha o now sb buffer i))

  abbrev pub key_at : ℕ → List ℕ
  key_at i = key_bytes ((sb.pidx + i) % 2 ^ 32) o.tidx

  key_at_lem : (i : ℕ) → key_of (nb_at i) ≡ key_at i
  unfolding packet_at
  key_at_lem i = refl

  ordinary_at : (i : ℕ) → is_oneshot (packet_at sha o now sb buffer i).header.command ≡ false
  unfolding packet_at
  ordinary_at i = ordinary

  keys_differ :
      (i j : ℕ)
      → i < j
      → j < chunks_of (length buffer)
      → memeq (key_of (nb_at i)) (key_at j) ≡ false
  keys_differ i j less few =
      let bounds = chunks_of_bounds (length buffer) in
      rw (key_at_lem i) (
        key_bytes_differ ((sb.pidx + i) % 2 ^ 32) ((sb.pidx + j) % 2 ^ 32) o.tidx (omega arith)
          (omega arith) (λ same. omega (arith, same, v.small)))

  submit_all-IsQueue :
      (k i : ℕ) (p : NetSend)
      → i + k ≡ chunks_of (length buffer)
      → IsQueue p.nbl
      → ((j : ℕ)
          → ¬ (j < i)
          → j < chunks_of (length buffer)
          → Lacks pidx_tidx key_of (key_at j) (waiting p.nbl))
      → (p' : NetSend) × (submit_all fresh p (map (packet_at sha o now sb buffer) (upto i k)) remote
          ≡ ok p')
        × IsQueue p'.nbl
        × (waiting p'.nbl ≡ waiting p.nbl ++ map nb_at (upto i k))
        × (p'.instant ≡ p.instant)
  unfolding submit_all upto
  submit_all-IsQueue zero i p count q new = (p, refl, q, sym (append-nil (waiting p.nbl)), refl)
  submit_all-IsQueue (suc k) i p count q new =
      let pck = packet_at sha o now sb buffer i in
      let (p1, e1, q1, waits1, same1) =
        data_submit-IsQueue p pck remote fresh (chunk_at sha o now sb buffer i) q
          (packet_at-IsPacket sha v i (omega arith)) (ordinary_at i)
          (subst (λ key. Lacks pidx_tidx key_of key (waiting p.nbl)) (sym (key_at_lem i))
            (new i (omega arith) (omega arith))) in
      let new1 : (j : ℕ)
          → ¬ (j < i + 1)
          → j < chunks_of (length buffer)
          → Lacks pidx_tidx key_of (key_at j) (waiting p1.nbl) =
        λ j late few. subst (Lacks pidx_tidx key_of (key_at j)) (sym waits1) (
          Lacks-append (key_at j) (waiting p.nbl) (nb_at i) (new j (omega arith) few)
            (keys_differ i j (omega arith) few)) in
      let (p2, e2, q2, waits2, same2) = submit_all-IsQueue k (i + 1) p1 (omega arith) q1 new1 in
      (
        p2,
        rw e1 e2,
        q2,
        waits2
            ∙ ap (λ w. w ++ map nb_at (upto (i + 1) k)) waits1
            ∙ append_assoc (waiting p.nbl) (nb_at i ∷ []) (map nb_at (upto (i + 1) k)),
        same2 ∙ same1,
      )

-- If a buffer is sent with arguments that fit the header's types, with a command that is none of the
-- acknowledgement, the ping and the pong, and no waiting packet has its task number with a packet
-- number that is to be used, `data_send` puts its packets, in their order and as bytes on the wire, behind
-- the others of a well-formed queue, each to the address that `peer_shadow` gives, and counts the packets and
-- the group.
pub data_send-IsQueue :
    (sha : Sha256) (fresh now : ℕ → ℕ) (o : Outgoing) (s : SendState) (buffer : List ℕ)
    → (v : IsOutgoing o now s.send_buffer buffer) → (ordinary : is_oneshot o.command ≡ false)
    → IsQueue s.send.nbl
    → ((i : ℕ)
        → i < chunks_of (length buffer)
        → Lacks pidx_tidx key_of
            (key_bytes ((s.send_buffer.pidx + i) % 2 ^ 32) o.tidx)
            (waiting s.send.nbl))
    → (s' : SendState) × (data_send sha fresh now o s buffer ≡ ok s')
      × (s'.peers ≡ (peer_shadow s.peers o.dst).0)
      × IsQueue s'.send.nbl
      × (waiting s'.send.nbl
          ≡ waiting s.send.nbl
            ++ map
                (nb_at sha v fresh (peer_shadow s.peers o.dst).1 ordinary)
                (upto 0 (chunks_of (length buffer))))
      × (s'.send.instant ≡ s.send.instant)
      × (s'.send_buffer.pidx ≡ (s.send_buffer.pidx + chunks_of (length buffer)) % 2 ^ 32)
      × (s'.send_buffer.gidx ≡ (s.send_buffer.gidx + 1) % 2 ^ 32)
unfolding data_send
data_send-IsQueue sha fresh now o s buffer v ordinary q new =
    let shadow = peer_shadow s.peers o.dst in
    let packets = serialize_init_lem sha o now s.send_buffer buffer v.some_bytes v.pidx in
    let (send, e, q', waits, same) =
      submit_all-IsQueue sha v fresh shadow.1 ordinary (chunks_of (length buffer)) 0 s.send
        (omega arith) q (λ j late few. new j few) in
    (
      record {
        peers = shadow.0;
        send_buffer = record {
          pidx = (s.send_buffer.pidx + chunks_of (length buffer)) % 2 ^ 32;
          gidx = (s.send_buffer.gidx + 1) % 2 ^ 32;
        };
        send = send;
      },
      rw (data_send, packets, e),
      refl,
      q',
      waits,
      same,
      refl,
      refl,
    )
