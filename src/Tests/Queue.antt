-- ===== src/Tests/Queue.antt =====
-- A queue that a packet goes to.
use eioie_client.Base.{
  ◌*◌, ◌≤◌, ℕ, ◌+◌, ◌≡◌, refl, subst, [], ◌∷◌, ◌++◌, arith, true, false, ok, memeq, map, length,
  ◌%◌, ◌^◌, Bool, List, ◌<◌, ◌↔◌, ◌⊎◌,
}
use eioie_client.Bytes.Integer.{to_bytes}
use eioie_client.Hashtable.{ht_init, ht_add}
use eioie_client.Packet.Create.Laws.{packet_at, chunk_at, packet_at-IsPacket, upto}
use eioie_client.Packet.Create.{chunks_of}
use eioie_client.Packet.Wire.RoundTrip.{wire}
use eioie_client.Columns.{
  ColumnList, column_init, column_add, add_internal, column_map, filter_find, set_column,
}
use eioie_client.Columns.Calls.{column_init-IsIndexed}
use eioie_client.Config.{send_table, sends}
use eioie_client.Config.Table.{IsPower, send_table_iff}
use eioie_client.Net.Limit.{granted, in_window, granted-within}
use eioie_client.Net.{
  Nb, NetConfig, Sending, no_tasks, unique_key, unique_together, together_loop, pidx_tidx,
  map_columns, ack,
}
use eioie_client.Net.Queue.{IsQueue, key_of, key_bytes, waiting, column_add-IsQueue}
use eioie_client.Net.Drain.{rounds, rounds-eq-nil}
use eioie_client.Net.Submit.{NetSend, nb_of, data_submit, ack-data_submit}
use eioie_client.Net.Send.{SendState, nb_at, data_send, data_send-IsQueue}
use eioie_client.Command.{Sender, Content, Data}
use eioie_client.Command.Table.{payload_init}
use eioie_client.Command.Reader.{ack_read}
use eioie_client.Command.Reader.RoundTrip.{IsReceived, ack_read-payload_init}
use eioie_client.Columns.Index.{remove}
use eioie_client.World.{peer_shadow}
use eioie_client.Tests.Sample.{
  zero_header, sha, message, counters, clock, text, fresh, text-IsOutgoing,
}

abbrev empty : ColumnList Nb
empty = column_init (pidx_tidx ∷ [])

ack-data_submit_example :
    let p : NetSend = record { nbl = empty; instant = [] } in
    let pck = packet_at sha message clock counters text 1 in
    let body = chunk_at sha message clock counters text 1 in
    (p' : NetSend) × (data_submit fresh p pck message.self ≡ ok p')
    × (waiting p'.nbl ≡ waiting p.nbl ++ nb_of pck message.self (wire pck body) ∷ [])
    × (nbl : ColumnList Nb) × (ack no_tasks p'.nbl pck.header.tidx pck.header.pidx ≡ ok nbl)
    × IsQueue nbl
    × (waiting nbl ≡ waiting p.nbl)
unfolding chunks_of column_init packet_at
ack-data_submit_example =
    ack-data_submit no_tasks fresh (record { nbl = empty; instant = [] })
      (packet_at sha message clock counters text 1) message.self
      (chunk_at sha message clock counters text 1) refl (column_init-IsIndexed pidx_tidx key_of)
      (packet_at-IsPacket sha text-IsOutgoing 1 (omega arith)) refl tt

abbrev sender : SendState
sender = record { peers = []; send_buffer = counters; send = record { nbl = empty; instant = [] } }

data_send-IsQueue_example :
    (s' : SendState) × (data_send sha fresh clock message sender text ≡ ok s')
    × (s'.peers ≡ (peer_shadow sender.peers message.dst).0)
    × IsQueue s'.send.nbl
    × (waiting s'.send.nbl
        ≡ waiting sender.send.nbl
          ++ map
              (nb_at sha text-IsOutgoing fresh (peer_shadow sender.peers message.dst).1 refl)
              (upto 0 (chunks_of (length text))))
    × (s'.send.instant ≡ sender.send.instant)
    × (s'.send_buffer.pidx ≡ (counters.pidx + chunks_of (length text)) % 2 ^ 32)
    × (s'.send_buffer.gidx ≡ (counters.gidx + 1) % 2 ^ 32)
unfolding column_init
data_send-IsQueue_example =
    data_send-IsQueue sha fresh clock message sender text text-IsOutgoing refl
      (column_init-IsIndexed pidx_tidx key_of) (λ i h. tt)

abbrev buffer : Nb
buffer = record {
  pidx = 7;
  gidx = 3;
  tidx = 0;
  cmd = 5;
  buffer = 1 ∷ 2 ∷ [];
  remote = message.self;
  oneshot = false;
  attempt = 0;
}

abbrev one : ColumnList Nb
one = record {
  cells = record { li = 0; item = buffer } ∷ [];
  columns = (pidx_tidx, ht_add ht_init (key_of buffer) 0 false) ∷ [];
  unused = 1;
}

one_lem : column_add empty buffer map_columns ≡ ok one
unfolding column_init column_add add_internal map_columns unique_key unique_together together_loop
    column_map filter_find set_column to_bytes memeq
one_lem = refl

one-IsQueue : IsQueue one
unfolding column_init
one-IsQueue =
    let (nbl, e, v, w) =
      column_add-IsQueue empty buffer (column_init-IsIndexed pidx_tidx key_of) tt in
    let same : nbl ≡ one = cc (e, one_lem) in subst IsQueue same v

-- The peer that got the waiting packet.
abbrev answering : Sender
answering = record {
  self = message.dst;
  remote = message.self;
  proxy = 0;
  public_key = [];
  ports = [];
  description = [];
  received = record zero_header { pidx = 7; tidx = 0; command = 5 };
  content = Content.empty;
  version = 12;
}

answering-IsReceived : IsReceived answering
answering-IsReceived = record {
  version = omega arith;
  tidx = omega arith;
  pidx = omega arith;
  command = omega arith;
  ts = omega arith;
}

ack_read-payload_init_example :
    (d : Data) × (payload_init fresh 1 answering ≡ ok d)
    × (nbl' : ColumnList Nb) × (ack_read no_tasks one d.payload.s ≡ ok nbl')
    × IsQueue nbl'
    × (waiting nbl' ≡ remove pidx_tidx key_of (key_bytes 7 0) (waiting one))
ack_read-payload_init_example =
    ack_read-payload_init fresh answering no_tasks one answering-IsReceived refl one-IsQueue

-- The limit on the upload is 0, so that the rounds within a second send nothing.
abbrev config : ℕ → NetConfig
config i = record { sendtable = λ k. true; send_retry = 2; upload = 0; clock = λ k. 5000 + i }

abbrev sending : Sending
sending = record { nbl = one; traffic = record { start = 4900; bytes = 0; ticks = 0 }; sent = [] }

rounds-eq-nil_example :
    (s' : Sending) × (rounds 3 config sending ≡ ok s') × IsQueue s'.nbl × (s'.nbl.cells ≡ [])
rounds-eq-nil_example =
    rounds-eq-nil 2 3 config sending (omega arith) (λ i. refl) one-IsQueue (omega arith, tt)
      (omega arith)

send_table_iff_example :
    (t : List Bool) × (send_table 10 2 ≡ ok t)
    × (length t ≡ 10)
    × ((i : ℕ) → i < 10 → (sends t i ≡ true) ↔ ((i ≡ 0) ⊎ IsPower 2 i))
send_table_iff_example = send_table_iff 10 2 (omega arith) (omega arith) (omega arith)

-- Three packets while a kilobyte a second is allowed; the clock goes on a tenth of a second at a time.
granted-within_example :
    in_window 1100 (
      granted
        (λ i. 1000 + 100 * i)
        1
        (400 ∷ 500 ∷ 300 ∷ [])
        (record { start = 0; bytes = 0; ticks = 0 }))
    ≤ 1024
granted-within_example =
    granted-within (λ i. 1000 + 100 * i) 1 (λ i. (omega arith, omega arith)) 1024
      (400 ∷ 500 ∷ 300 ∷ []) 1100 (omega arith) (omega arith) (omega arith)
      (omega arith, (omega arith, (omega arith, tt)))
