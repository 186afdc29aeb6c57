-- ===== src/Net/Submit.antt =====
-- `data_submit` of src/data.c: a packet becomes a buffer of the queue, or of the list that is sent at
-- once.
use eioie_client.Base.{
  ℕ, zero, suc, arith, ◌≡◌, refl, ap, ◌∙◌, List, [], ◌∷◌, ◌++◌, length, take, ◌==◌, memeq_refl,
  ◌||◌, Bool, false, Run, ok, ◌>>=◌, if◌then◌else◌,
}
use eioie_client.Payload.{fill}
use eioie_client.Packet.{Address, Packet, IsPacket}
use eioie_client.Packet.Wire.{packet_set}
use eioie_client.Packet.Wire.RoundTrip.{wire, packet_set-Holds}
use eioie_client.Columns.{ColumnList, column_add}
use eioie_client.Columns.Index.{Lacks, remove}
use eioie_client.Net.{Nb, Feed, map_columns, pidx_tidx, ack}
use eioie_client.Net.Queue.{IsQueue, key_of, key_bytes, waiting, column_add-IsQueue, ack-IsQueue}

-- `p->send`.
pub record NetSend : Type 0 where
  pub nbl : ColumnList Nb
  pub instant : List Nb

-- COMMAND_ACK, COMMAND_PING and COMMAND_PONG.
abbrev pub is_oneshot : ℕ → Bool
is_oneshot cmd = cmd == 1 || cmd == 10 || cmd == 11

-- The buffer that is made of a packet with these bytes.
abbrev pub nb_of : Packet → Address → List ℕ → Nb
nb_of pck remote bytes = record {
  pidx = pck.header.pidx;
  gidx = pck.header.gidx;
  tidx = pck.header.tidx;
  cmd = pck.header.command;
  buffer = bytes;
  remote = remote;
  oneshot = is_oneshot pck.header.command;
  attempt = 0;
}

-- What `data_submit` does with the bytes of the packet.
unfoldable pub enqueue : NetSend → Packet → Address → List ℕ → Run NetSend
unfolding column_add map_columns
enqueue p pck remote bytes =
    let nb = nb_of pck remote bytes in
    if is_oneshot pck.header.command
    then ok (record p { instant = p.instant ++ nb ∷ [] })
    else (column_add p.nbl nb map_columns >>= λ nbl. ok (record p { nbl = nbl }))

-- `data_submit`, with fresh memory for the buffer.
unfoldable pub data_submit : (ℕ → ℕ) → NetSend → Packet → Address → Run NetSend
unfolding fill packet_set enqueue
data_submit fresh p pck remote =
    packet_set (record { s = fill fresh 1024; n = 1024; offset = 0 }) pck >>= λ d.
    enqueue p pck remote (take d.offset d.s)

length-fill : (fresh : ℕ → ℕ) (k : ℕ) → length (fill fresh k) ≡ k
unfolding fill
length-fill fresh zero = refl
length-fill fresh (suc k) = omega (arith, length-fill fresh k)

module _ (p : NetSend) (pck : Packet) (remote : Address) where
  enqueue-IsQueue :
      (bytes : List ℕ)
      → IsQueue p.nbl
      → is_oneshot pck.header.command ≡ false
      → Lacks pidx_tidx key_of (key_of (nb_of pck remote bytes)) (waiting p.nbl)
      → (p' : NetSend) × (enqueue p pck remote bytes ≡ ok p')
        × IsQueue p'.nbl
        × (waiting p'.nbl ≡ waiting p.nbl ++ nb_of pck remote bytes ∷ [])
        × (p'.instant ≡ p.instant)
  unfolding enqueue
  enqueue-IsQueue bytes v ordinary new =
      let (nbl, e, v', waits) = column_add-IsQueue p.nbl (nb_of pck remote bytes) v new in
      (record p { nbl = nbl }, rw (enqueue, e, ordinary), v', waits, refl)

  -- The packet's bytes on the wire wait as a buffer behind the others.
  pub data_submit-IsQueue :
      (fresh : ℕ → ℕ) (body : List ℕ)
      → IsQueue p.nbl
      → IsPacket body pck
      → is_oneshot pck.header.command ≡ false
      → Lacks pidx_tidx key_of (key_of (nb_of pck remote (wire pck body))) (waiting p.nbl)
      → (p' : NetSend) × (data_submit fresh p pck remote ≡ ok p')
        × IsQueue p'.nbl
        × (waiting p'.nbl ≡ waiting p.nbl ++ nb_of pck remote (wire pck body) ∷ [])
        × (p'.instant ≡ p.instant)
  unfolding data_submit
  data_submit-IsQueue fresh body v w ordinary new =
      let (d, e, holds) =
        packet_set-Holds (record { s = fill fresh 1024; n = 1024; offset = 0 }) pck body
          (length-fill fresh 1024) w in
      let (p', e2, v', waits, same) = enqueue-IsQueue (wire pck body) v ordinary new in
      (p', rw (data_submit, e) (ap (enqueue p pck remote) holds.written ∙ e2), v', waits, same)

remove-absent :
    (k : List ℕ) (xs : List Nb) → Lacks pidx_tidx key_of k xs → remove pidx_tidx key_of k xs ≡ xs
remove-absent k [] a = refl
remove-absent k (x ∷ xs) a = rw a.0 (ap (λ l. x ∷ l) (remove-absent k xs a.1))

remove-last :
    (x : Nb) (xs : List Nb)
    → Lacks pidx_tidx key_of (key_of x) xs
    → remove pidx_tidx key_of (key_of x) (xs ++ x ∷ []) ≡ xs
remove-last x [] a = rw (memeq_refl (key_of x))
remove-last x (y ∷ xs) a = rw a.0 (ap (λ l. y ∷ l) (remove-last x xs a.1))

-- If the queue and the packet are well-formed, the packet's command is none of the acknowledgement,
-- the ping and the pong, no waiting buffer has its packet and task number, and no file waits to be
-- sent, `data_submit` puts the packet's bytes on the wire as a buffer behind the others, and an `ack`
-- of its numbers takes that buffer out and leaves the others in their order.
pub ack-data_submit :
    (feed : Feed) (fresh : ℕ → ℕ) (p : NetSend) (pck : Packet) (remote : Address) (body : List ℕ)
    → feed.tasks ≡ 0
    → IsQueue p.nbl
    → IsPacket body pck
    → is_oneshot pck.header.command ≡ false
    → Lacks pidx_tidx key_of (key_bytes pck.header.pidx pck.header.tidx) (waiting p.nbl)
    → (p' : NetSend) × (data_submit fresh p pck remote ≡ ok p')
      × (waiting p'.nbl ≡ waiting p.nbl ++ nb_of pck remote (wire pck body) ∷ [])
      × (nbl : ColumnList Nb) × (ack feed p'.nbl pck.header.tidx pck.header.pidx ≡ ok nbl)
      × IsQueue nbl
      × (waiting nbl ≡ waiting p.nbl)
ack-data_submit feed fresh p pck remote body idle v w ordinary new =
    let nb = nb_of pck remote (wire pck body) in
    let (p', e, v', waits, same) = data_submit-IsQueue p pck remote fresh body v w ordinary new in
    let (nbl, e2, v2, left) = ack-IsQueue feed p'.nbl nb.tidx nb.pidx idle v' in
    let back =
      left ∙ ap (remove pidx_tidx key_of (key_of nb)) waits ∙ remove-last nb (waiting p.nbl) new in
    (p', e, waits, nbl, e2, v2, back)
