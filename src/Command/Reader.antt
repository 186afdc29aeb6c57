-- ===== src/Command/Reader.antt =====
-- The readers of src/payload: what a payload tells, and the callbacks that hear it.
pub mod RoundTrip
pub mod Told
use eioie_client.Base.{ℕ, ◌%◌, ◌^◌, List, ◌==◌, not, Bool, Option, none, some, Run, ok, ◌>>=◌}
use eioie_client.Bytes.Sn.{read_integer, init_raw}
use eioie_client.Packet.{Address}
use eioie_client.Columns.{ColumnList}
use eioie_client.Net.{Nb, Feed, ack}

-- A call of a member of `p->user.cb`, after the host and the port.
pub data Heard : Type 0 where
  message fileask auth authrpl : List ℕ → Heard
  ping pong : ℕ → Heard
  query : Address → Heard
  query_reply : Address → Bool → Heard

-- The member of `p->user.cb`, which may be NULL, and its outcome.
abbrev pub Callback : Type 0
Callback = Option (Address → Heard → Run (Unit {0}))

unfoldable pub calls : Callback → Address → Heard → Run (Unit {0})
calls none src h = ok tt
calls (some cb) src h = cb src h

-- The readers get the callback, `received.header.src`, and the bytes of `recv_buffer.available`.
unfoldable pub message_read : Callback → Address → List ℕ → Run (Unit {0})
unfolding calls
message_read cb src s = calls cb src (Heard.message s)

unfoldable pub fileask_read : Callback → Address → List ℕ → Run (Unit {0})
unfolding calls
fileask_read cb src s = calls cb src (Heard.fileask s)

unfoldable pub auth_read : Callback → Address → List ℕ → Run (Unit {0})
unfolding calls
auth_read cb src s = calls cb src (Heard.auth s)

unfoldable pub authrpl_read : Callback → Address → List ℕ → Run (Unit {0})
unfolding calls
authrpl_read cb src s = calls cb src (Heard.authrpl s)

-- The port is the source's host, cut to 16 bits.
unfoldable pub ping_read : Callback → Address → List ℕ → Run (Unit {0})
unfolding calls
ping_read cb src s = do
  (ts, bf) ← read_integer 8 (init_raw s)
  calls cb (record { host = src.host; port = src.host % 2 ^ 16 }) (Heard.ping ts)

unfoldable pub pong_read : Callback → Address → List ℕ → Run (Unit {0})
unfolding calls
pong_read cb src s = do (ts, bf) ← read_integer 8 (init_raw s); calls cb src (Heard.pong ts)

unfoldable pub query_read : Callback → Address → List ℕ → Run (Unit {0})
unfolding calls
query_read cb src s = do
  (host, b1) ← read_integer 4 (init_raw s)
  (port, b2) ← read_integer 2 b1
  calls cb src (Heard.query (record { host = host; port = port }))

unfoldable pub queryrpl_read : Callback → Address → List ℕ → Run (Unit {0})
unfolding calls
queryrpl_read cb src s = do
  (host, b1) ← read_integer 4 (init_raw s)
  (port, b2) ← read_integer 2 b1
  (reachable, b3) ← read_integer 1 b2
  calls cb src (Heard.query_reply (record { host = host; port = port }) (not (reachable == 0)))

-- `ack_read`: the queue.
unfoldable pub ack_read : Feed → ColumnList Nb → List ℕ → Run (ColumnList Nb)
unfolding ack
ack_read feed nbl s = do
  (version, b1) ← read_integer 4 (init_raw s)
  (tidx, b2) ← read_integer 4 b1
  (pidx, b3) ← read_integer 4 b2
  (cmd, b4) ← read_integer 4 b3
  (ts, b5) ← read_integer 8 b4
  ack feed nbl tidx pidx
