-- ===== src/Command/Message.antt =====
-- The writers and the size functions of src/payload, except those of announcements.
use eioie_client.Base.{ℕ, ◌+◌, ◌*◌, length, Run, ok, fail, ◌>>=◌}
use eioie_client.Bytes.Sn.{Sn}
use eioie_client.Packet.{hash_size}
use eioie_client.Command.{
  Sender, Content, write_double, write_int, write_shortint, write_byte, write_raw,
}

-- DATA_SIZE_DOUBLE, DATA_SIZE_INT, DATA_SIZE_SHORT and DATA_SIZE_BYTE.
abbrev pub data_size_double : ℕ
data_size_double = 8

abbrev pub data_size_int : ℕ
data_size_int = 4

abbrev pub data_size_short : ℕ
data_size_short = 2

abbrev pub data_size_byte : ℕ
data_size_byte = 1

unfoldable pub ack_write : Sender → Sn → Run Sn
unfolding write_int write_double
ack_write p d = do
  d1 ← write_int p.version d
  d2 ← write_int p.received.tidx d1
  d3 ← write_int p.received.pidx d2
  d4 ← write_int p.received.command d3
  write_double p.received.ts d4

unfoldable pub ack_size : Sender → Run ℕ
ack_size p = ok (data_size_int * 4 + data_size_double)

unfoldable pub message_write : Sender → Sn → Run Sn
unfolding write_raw
message_write p d = elim p.content [ Content.message str ↦ write_raw str d | _ ↦ fail ]

unfoldable pub message_size : Sender → Run ℕ
message_size p = elim p.content [ Content.message str ↦ ok (length str) | _ ↦ fail ]

unfoldable pub file_write : Sender → Sn → Run Sn
unfolding write_raw
file_write p d = elim p.content [ Content.file bin ↦ write_raw bin d | _ ↦ fail ]

unfoldable pub file_size : Sender → Run ℕ
file_size p = elim p.content [ Content.file bin ↦ ok (length bin) | _ ↦ fail ]

-- Both writes take 64 characters, the size of the names.
unfoldable pub fileask_write : Sender → Sn → Run Sn
unfolding write_raw
fileask_write p d = elim p.content [
  | Content.fileask file chunk ↦ (write_raw file d >>= λ d'. write_raw chunk d')
  | _ ↦ fail
]

unfoldable pub fileask_size : Sender → Run ℕ
fileask_size p = elim p.content [ Content.fileask file chunk ↦ ok (hash_size * 2) | _ ↦ fail ]

unfoldable pub auth_write : Sender → Sn → Run Sn
unfolding write_raw
auth_write p d = elim p.content [ Content.auth str ↦ write_raw str d | _ ↦ fail ]

unfoldable pub auth_size : Sender → Run ℕ
auth_size p = elim p.content [ Content.auth str ↦ ok (length str) | _ ↦ fail ]

unfoldable pub authrpl_write : Sender → Sn → Run Sn
unfolding write_raw
authrpl_write p d = elim p.content [ Content.auth_reply str ↦ write_raw str d | _ ↦ fail ]

unfoldable pub authrpl_size : Sender → Run ℕ
authrpl_size p = elim p.content [ Content.auth_reply str ↦ ok (length str) | _ ↦ fail ]

unfoldable pub ping_write : Sender → Sn → Run Sn
unfolding write_double
ping_write p d = elim p.content [ Content.ping ts ↦ write_double ts d | _ ↦ fail ]

unfoldable pub ping_size : Sender → Run ℕ
ping_size p = ok data_size_double

unfoldable pub pong_write : Sender → Sn → Run Sn
unfolding write_double
pong_write p d = elim p.content [ Content.pong ts ↦ write_double ts d | _ ↦ fail ]

unfoldable pub pong_size : Sender → Run ℕ
pong_size p = ok data_size_double

unfoldable pub query_write : Sender → Sn → Run Sn
unfolding write_int write_shortint
query_write p d = elim p.content [
  | Content.query a ↦ (write_int a.host d >>= λ d'. write_shortint a.port d')
  | _ ↦ fail
]

unfoldable pub query_size : Sender → Run ℕ
query_size p = ok (data_size_int + data_size_short)

unfoldable pub queryrpl_write : Sender → Sn → Run Sn
unfolding write_int write_shortint write_byte
queryrpl_write p d = elim p.content [
  | Content.query_reply a reachable ↦
      (write_int a.host d >>= λ d1. write_shortint a.port d1 >>= λ d2. write_byte reachable d2)
  | _ ↦ fail
]

unfoldable pub queryrpl_size : Sender → Run ℕ
queryrpl_size p = ok (data_size_int + data_size_short + data_size_byte)
