-- ===== src/Command/Table.antt =====
-- The writing half of the table `cmds` in src/payload/payload.c, and `payload_send` up to the
-- finished payload.
use eioie_client.Base.{ℕ, List, [], ◌∷◌, ◌==◌, Option, none, some, Run, fail, if◌then◌else◌}
use eioie_client.Bytes.Sn.{Sn}
use eioie_client.Command.{Sender, Data, data_init}
use eioie_client.Command.Message.{
  ack_write, ack_size, message_write, message_size, file_write, file_size, fileask_write,
  fileask_size, auth_write, auth_size, authrpl_write, authrpl_size, ping_write, ping_size,
  pong_write, pong_size, query_write, query_size, queryrpl_write, queryrpl_size,
}
use eioie_client.Command.Announce.{announce_twt, announce_twp, announce_pwp, announce_size}

-- A row: the command, and `cb_write` with `cb_size` unless they are NULL.
pub record Row : Type 0 where
  pub cmd : ℕ
  pub callbacks : Option ((Sender → Sn → Run Sn) × (Sender → Run ℕ))

abbrev row : ℕ → (Sender → Sn → Run Sn) → (Sender → Run ℕ) → Row
row cmd cb_write cb_size = record { cmd = cmd; callbacks = some (cb_write, cb_size) }

abbrev pub cmds : List Row
cmds =
    record { cmd = 0; callbacks = none }
    ∷ row 1 ack_write ack_size
    ∷ row 2 announce_twt announce_size
    ∷ row 3 announce_twp announce_size
    ∷ row 4 announce_pwp announce_size
    ∷ row 5 message_write message_size
    ∷ row 6 file_write file_size
    ∷ row 7 fileask_write fileask_size
    ∷ row 8 auth_write auth_size
    ∷ row 9 authrpl_write authrpl_size
    ∷ row 10 ping_write ping_size
    ∷ row 11 pong_write pong_size
    ∷ row 13 query_write query_size
    ∷ row 14 queryrpl_write queryrpl_size
    ∷ []

-- `command_find`: `none` for a command that has no row.
unfoldable pub row_find : ℕ → List Row → Option Row
row_find cmd [] = none
row_find cmd (r ∷ rows) = if r.cmd == cmd then some r else row_find cmd rows

-- `payload_send` and `exec` as far as `data.init`, which returns -1 for callbacks that are NULL.
unfoldable pub payload_init : (ℕ → ℕ) → ℕ → Sender → Run Data
unfolding row_find data_init
payload_init fresh cmd p = elim (row_find cmd cmds) [
  | none ↦ fail
  | some r ↦ elim r.callbacks [
    | none ↦ fail
    | some (cb_write, cb_size) ↦ data_init fresh cmd (cb_write p) (cb_size p)
  ]
]
