-- ===== src/Command/OtherKey.antt =====
-- `announce_size` counts the sender's own key where the tracker announces another peer.
use eioie_client.Base.{
  ℕ, ◌+◌, ◌-◌, ◌*◌, ◌^◌, ◌≤◌, ◌<◌, ◌≡◌, refl, ap, ◌∙◌, length, arith, ok, fail, ◌>>=◌, ge→ltb,
  lt→ltb, gt→leb, ltb, ltb→lt, Bool-cases, ◌⊎◌, inl, inr,
}
use eioie_client.Bytes.Memory.{memcpy}
use eioie_client.Bytes.Sn.{append}
use eioie_client.Payload.{fill}
use eioie_client.Command.{Sender, Content, TrackerPeer, Data, bytes_init_new, data_init}
use eioie_client.Command.Announce.{announce_size}
use eioie_client.Command.Table.{payload_init}
use eioie_client.Command.Bytes.{announced, announce_twp-Appends, length-announced}

-- The payload that is filled, with a region of the size that `announce_size` gives.
twp_init :
    (fresh : ℕ → ℕ) (p : Sender) (u : TrackerPeer) (size : ℕ)
    → p.content ≡ Content.tracker_announce_peer u
    → size ≡ 19 + length p.public_key + length u.tcpdesc + 4 * length u.tcpports
    → size < 2 ^ 31
    → payload_init fresh 3 p ≡ (
        append (record { s = fill fresh size; n = size; offset = 0 }) (announced u) >>= λ d.
        ok (record { command = 3; payload = d }))
unfolding payload_init data_init bytes_init_new
twp_init fresh p u size e count small =
    let sized : announce_size p ≡ ok size = unfold announce_size in rw e (ap ok (omega arith)) in
    rw (
      sized,
      gt→leb (2 ^ 31) size small,
      announce_twp-Appends p u e (record { s = fill fresh size; n = size; offset = 0 })
          (omega arith),
    )

-- A peer whose key is longer than the tracker's own is never announced.
payload_init-eq-fail :
    (fresh : ℕ → ℕ) (p : Sender) (u : TrackerPeer)
    → p.content ≡ Content.tracker_announce_peer u
    → 19 + length p.public_key + length u.tcpdesc + 4 * length u.tcpports < 2 ^ 31
    → length p.public_key < length u.key
    → payload_init fresh 3 p ≡ fail
unfolding append
payload_init-eq-fail fresh p u e small longer =
    let size = 19 + length p.public_key + length u.tcpdesc + 4 * length u.tcpports in
    let over : size < length (announced u) + 0 = omega (arith, length-announced u) in
    twp_init fresh p u size e refl small ∙ rw (lt→ltb size (length (announced u) + 0) over)

-- With a shorter key, as many bytes go out that nobody has written as the tracker's key is longer.
payload_init-unwritten :
    (fresh : ℕ → ℕ) (p : Sender) (u : TrackerPeer)
    → p.content ≡ Content.tracker_announce_peer u
    → 19 + length p.public_key + length u.tcpdesc + 4 * length u.tcpports < 2 ^ 31
    → length u.key ≤ length p.public_key
    → (d : Data) × (payload_init fresh 3 p ≡ ok d)
      × (d.payload.n ≡ d.payload.offset + (length p.public_key - length u.key))
unfolding append
payload_init-unwritten fresh p u e small shorter =
    let size = 19 + length p.public_key + length u.tcpdesc + 4 * length u.tcpports in
    let fits : length (announced u) + 0 ≤ size = omega (arith, length-announced u) in
    (
      record {
        command = 3;
        payload = record {
          s = memcpy (fill fresh size) 0 (announced u);
          n = size;
          offset = 0 + length (announced u);
        };
      },
      twp_init fresh p u size e refl small ∙ rw (ge→ltb size (length (announced u) + 0) fits),
      omega (arith, length-announced u),
    )

-- Another peer's announcement, whose size counts the tracker's own key: with a longer key it fails,
-- and otherwise as many bytes that nobody has written follow it as the tracker's key is longer.
pub payload_init-other_key :
    (fresh : ℕ → ℕ) (p : Sender) (u : TrackerPeer)
    → p.content ≡ Content.tracker_announce_peer u
    → 19 + length p.public_key + length u.tcpdesc + 4 * length u.tcpports < 2 ^ 31
    → ((length p.public_key < length u.key) × (payload_init fresh 3 p ≡ fail))
      ⊎ ((d : Data) × (length u.key ≤ length p.public_key)
          × (payload_init fresh 3 p ≡ ok d)
          × (d.payload.n ≡ d.payload.offset + (length p.public_key - length u.key)))
payload_init-other_key fresh p u e small =
    elim (Bool-cases (ltb (length p.public_key) (length u.key))) [
      | inl longer ↦
          let more = ltb→lt _ _ longer in inl (more, payload_init-eq-fail fresh p u e small more)
      | inr shorter ↦
          let fits : length u.key ≤ length p.public_key = ground arith in
          let (d, made, room) = payload_init-unwritten fresh p u e small fits in
          inr (d, fits, made, room)
    ]
