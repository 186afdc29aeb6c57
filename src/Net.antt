-- ===== src/Net.antt =====
-- The queue of packets that wait for their acknowledgement: src/net.c with `unique_together` of
-- src/utils.c, and src/traffic.c.
pub mod Limit
pub mod Queue
pub mod Dispatch
pub mod Drain
pub mod Submit
pub mod Send
use eioie_client.Base.{
  ℕ, ◌+◌, ◌*◌, ◌%◌, ◌^◌, size_of_int, List, [], ◌∷◌, ◌++◌, length, ltb, leb, ◌==◌, ◌||◌, ◌&&◌, not,
  Bool, true, false, Run, ok, fail, fault, ◌>>=◌, if◌then◌else◌,
}
use eioie_client.Bytes.Integer.{to_bytes}
use eioie_client.Packet.{Address}
use eioie_client.Columns.{Cell, ColumnList, column_map, column_del, modify_cell}

-- `struct nb_s`: `buffer` is what was written of it, and `oneshot` says that `status` is NET_ONESHOT.
pub record Nb : Type 0 where
  pub pidx : ℕ
  pub gidx : ℕ
  pub tidx : ℕ
  pub cmd : ℕ
  pub buffer : List ℕ
  pub remote : Address
  pub oneshot : Bool
  pub attempt : ℕ

-- The loop of `unique_together`, with `offset` bytes written.
unfoldable pub together_loop : ℕ → ℕ → List (List ℕ) → Run (List ℕ)
together_loop noutput offset [] = ok []
together_loop noutput offset (buf ∷ params) =
    let rest = together_loop noutput (offset + length buf) params in
    if ltb noutput (offset + length buf) then fail else (rest >>= λ out. ok (buf ++ out))

-- `unique_together`: what is written to the array of `noutput` bytes.
unfoldable pub unique_together : ℕ → List (List ℕ) → Run (List ℕ)
unfolding together_loop
unique_together noutput params = together_loop noutput 0 params

-- `unique_key`, into an array of 128 bytes.
unfoldable pub unique_key : ℕ → ℕ → Run (List ℕ)
unfolding unique_together
unique_key pidx tidx = unique_together 128 (to_bytes 4 pidx ∷ to_bytes 4 tidx ∷ [])

-- The name of the column, "pidx_tidx".
abbrev pub pidx_tidx : List ℕ
pidx_tidx = b'p' ∷ b'i' ∷ b'd' ∷ b'x' ∷ b'_' ∷ b't' ∷ b'i' ∷ b'd' ∷ b'x' ∷ []

-- `map_columns` of src/data.c.
unfoldable pub map_columns : ColumnList Nb → ℕ → Nb → Run (ColumnList Nb)
unfolding unique_key column_map
map_columns l li nb = unique_key nb.pidx nb.tidx >>= λ key. column_map l pidx_tidx key li

-- What `update` of src/task.c reads: `max.send_queue`, the number of waiting tasks, and what sending
-- the next part of a file does to the queue.
pub record Feed : Type 0 where
  pub send_queue : ℕ
  pub tasks : ℕ
  pub resume : ColumnList Nb → Run (ColumnList Nb)

-- `nb_clean`, which calls `update` of src/task.c.
unfoldable pub nb_clean : Feed → ColumnList Nb → Run (ColumnList Nb)
nb_clean feed nbl =
    if leb (length nbl.cells) feed.send_queue && not (feed.tasks == 0)
    then feed.resume nbl
    else ok nbl

-- `ack`.
unfoldable pub ack : Feed → ColumnList Nb → ℕ → ℕ → Run (ColumnList Nb)
unfolding unique_key column_del nb_clean
ack feed nbl tidx pidx =
    unique_key pidx tidx >>= λ key. column_del (nb_clean feed) nbl pidx_tidx key

-- One direction of `struct traffic_s`: times are in thousandths of a second. `ticks` counts the
-- readings of the clock.
pub record Traffic : Type 0 where
  pub start : ℕ
  pub bytes : ℕ
  pub ticks : ℕ

-- `update` of src/traffic.c: the counters, and `*suspend`. `limit` is an `int` in two's complement,
-- its product with 1,024 is one too, and the sum of bytes is a `size_t`.
unfoldable pub update : (ℕ → ℕ) → ℕ → ℕ → Traffic → Traffic × Bool
unfolding size_of_int
update clock limit bytes t =
    if t.start == 0 || leb (t.start + 1000) (clock t.ticks)
    then (record { start = clock (t.ticks + 1); bytes = bytes; ticks = t.ticks + 2 }, false)
    else if leb (size_of_int (limit * 1024 % 2 ^ 32)) ((t.bytes + bytes) % 2 ^ 64)
    then (record t { ticks = t.ticks + 1 }, true)
    else (record t { bytes = (t.bytes + bytes) % 2 ^ 64; ticks = t.ticks + 1 }, false)

-- No file waits to be sent.
abbrev pub no_tasks : Feed
no_tasks = record { send_queue = 0; tasks = 0; resume = λ nbl. ok nbl }

-- What `dispatch` reads of the configuration, and the clock. `sendtable` has `send_retry` entries.
pub record NetConfig : Type 0 where
  pub sendtable : ℕ → Bool
  pub send_retry : ℕ
  pub upload : ℕ
  pub clock : ℕ → ℕ

-- `p->send.nbl`, `p->traffic.send`, and the buffers that were handed to `sendto`.
pub record Sending : Type 0 where
  pub nbl : ColumnList Nb
  pub traffic : Traffic
  pub sent : List Nb

abbrev pub bump : Nb → Nb
bump nb = record nb { attempt = nb.attempt + 1 }

-- `attempts`, while no file waits to be sent: the queue, and `*skip`.
unfoldable pub attempts : NetConfig → ColumnList Nb → Cell Nb → Run (ColumnList Nb × Bool)
unfolding modify_cell ack
attempts cfg nbl c =
    let nb = c.item in
    let nbl' : ColumnList Nb = record nbl { cells = modify_cell c.li bump nbl.cells } in
    if cfg.send_retry == 0
    then fault
    else if ltb cfg.send_retry (nb.attempt + 1)
    then (ack no_tasks nbl' nb.tidx nb.pidx >>= λ nbl''. ok (nbl'', true))
    else ok (nbl', not (cfg.sendtable (nb.attempt % cfg.send_retry)))

-- The callback of `dispatch` on the queue, whose buffers are NET_INIT: it says whether it returned 1.
unfoldable pub dispatch_item : NetConfig → Cell Nb → Sending → Run (Sending × Bool)
unfolding attempts update
dispatch_item cfg c s = attempts cfg s.nbl c >>= λ r.
    if r.1
    then ok (record s { nbl = r.0 }, false)
    else (let (traffic, suspend) = update cfg.clock cfg.upload (length c.item.buffer) s.traffic in
        if suspend
        then ok (record s { nbl = r.0; traffic = traffic }, true)
        else ok (record { nbl = r.0; traffic = traffic; sent = s.sent ++ bump c.item ∷ [] }, false))

-- `list.map`, over the cells that the list has at the beginning.
unfoldable pub dispatch_loop : NetConfig → List (Cell Nb) → Sending → Run Sending
unfolding dispatch_item
dispatch_loop cfg [] s = ok s
dispatch_loop cfg (c ∷ cells) s =
    dispatch_item cfg c s >>= λ r. elim r.1 [ true ↦ ok r.0 | false ↦ dispatch_loop cfg cells r.0 ]

-- `dispatch`.
unfoldable pub dispatch : NetConfig → Sending → Run Sending
unfolding dispatch_loop
dispatch cfg s = dispatch_loop cfg s.nbl.cells s
