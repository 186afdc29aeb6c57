-- ===== src/Command/Reader/RoundTrip.antt =====
-- What a command writes is heard, and an acknowledgement takes its packet out of the queue.
use eioie_client.Base.{
  ℕ, ◌^◌, ◌<◌, ◌≡◌, refl, sym, ◌∙◌, subst, [], arith, length, ok, length-append, append-nil,
}
use eioie_client.Bytes.Integer.{to_bytes, length-to_bytes}
use eioie_client.Bytes.Sn.{init_raw}
use eioie_client.Bytes.Sn.Read.{Left, init_raw-Left, read_integer-Reads}
use eioie_client.Columns.{ColumnList}
use eioie_client.Columns.Index.{remove}
use eioie_client.Net.{Nb, Feed, ack, pidx_tidx}
use eioie_client.Net.Queue.{IsQueue, key_of, key_bytes, waiting, ack-IsQueue}
use eioie_client.Command.{Sender, Data}
use eioie_client.Command.Table.{payload_init}
use eioie_client.Command.Bytes.{ack_bytes}
use eioie_client.Command.Counts.{full}
use eioie_client.Command.Prepared.{Kind, bytes_of, payload_init-full}
use eioie_client.Command.Reader.{ack_read}

-- The fields that an acknowledgement copies fit their types.
pub record IsReceived (p : Sender) : Type 0 where
  pub version : p.version < 2 ^ 32
  pub tidx : p.received.tidx < 2 ^ 32
  pub pidx : p.received.pidx < 2 ^ 32
  pub command : p.received.command < 2 ^ 32
  pub ts : p.received.ts < 2 ^ 64

length-ack_bytes : (p : Sender) → length (ack_bytes p) ≡ 24
length-ack_bytes p = simp (length-append, length-to_bytes) (omega arith)

ack_read-ack :
    (feed : Feed) (nbl : ColumnList Nb) (p : Sender)
    → IsReceived p
    → ack_read feed nbl (ack_bytes p) ≡ ack feed nbl p.received.tidx p.received.pidx
unfolding ack_read
ack_read-ack feed nbl p v =
    let bytes = ack_bytes p in
    let (s1, e1, l1) =
      read_integer-Reads 4 p.version _ (init_raw bytes) v.version
        (init_raw-Left bytes (omega (arith, length-ack_bytes p))) in
    let (s2, e2, l2) = read_integer-Reads 4 p.received.tidx _ s1 v.tidx l1 in
    let (s3, e3, l3) = read_integer-Reads 4 p.received.pidx _ s2 v.pidx l2 in
    let (s4, e4, l4) = read_integer-Reads 4 p.received.command _ s3 v.command l3 in
    let (s5, e5, l5) =
      read_integer-Reads 8 p.received.ts [] s4 v.ts
        (subst (λ b. Left (length bytes) b s4) (sym (append-nil (to_bytes 8 p.received.ts))) l4) in
    rw (e1, e2, e3, e4, e5)

-- If the fields of the packet that a peer answers fit their types, its acknowledgement, read by the
-- sender of the packet, whose queue is well formed and which has no file to send, takes the waiting
-- buffer with that packet's numbers out of the queue and leaves the others in order.
pub ack_read-payload_init :
    (fresh : ℕ → ℕ) (p : Sender) (feed : Feed) (nbl : ColumnList Nb)
    → IsReceived p
    → feed.tasks ≡ 0
    → IsQueue nbl
    → (d : Data) × (payload_init fresh 1 p ≡ ok d)
      × (nbl' : ColumnList Nb) × (ack_read feed nbl d.payload.s ≡ ok nbl')
      × IsQueue nbl'
      × (waiting nbl'
          ≡ remove pidx_tidx key_of (key_bytes p.received.pidx p.received.tidx) (waiting nbl))
unfolding bytes_of
ack_read-payload_init fresh p feed nbl v idle q =
    let prepared =
      payload_init-full fresh Kind.ack p p.content (ack_bytes p) refl refl
        (omega (arith, length-ack_bytes p)) in
    let (nbl', e, q', left) = ack-IsQueue feed nbl p.received.tidx p.received.pidx idle q in
    (full 1 (ack_bytes p), prepared, nbl', ack_read-ack feed nbl p v ∙ e, q', left)
