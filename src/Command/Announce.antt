-- ===== src/Command/Announce.antt =====
-- The writers of src/payload/announce.c and `announce_size`.
use eioie_client.Base.{ℕ, ◌+◌, ◌*◌, List, [], ◌∷◌, length, ltb, Run, ok, fail, ◌>>=◌, if◌then◌else◌}
use eioie_client.Bytes.Sn.{Sn}
use eioie_client.Command.{
  Sender, Content, TrackerPeer, write_int, write_shortint, write_byte, write_raw,
}
use eioie_client.Command.Message.{data_size_int, data_size_short, data_size_byte}

-- `list.map(tcpports, append, d)`.
unfoldable pub append_ports : List ℕ → Sn → Run Sn
unfolding write_int
append_ports [] d = ok d
append_ports (port ∷ ports) d = write_int port d >>= λ d'. append_ports ports d'

unfoldable pub tcp_ports : List ℕ → List ℕ → Sn → Run Sn
unfolding write_int write_raw append_ports
tcp_ports tcpports tcpdesc d = do
  d1 ← write_int (length tcpdesc) d
  d2 ← (if ltb 0 (length tcpdesc) then write_raw tcpdesc d1 else ok d1)
  append_ports tcpports d2

-- `announce_pwp`.
unfoldable pub announce_pwp : Sender → Sn → Run Sn
unfolding write_int write_shortint write_byte write_raw tcp_ports
announce_pwp p d = do
  d1 ← write_int p.self.host d
  d2 ← write_shortint p.self.port d1
  d3 ← write_byte p.proxy d2
  d4 ← write_int (length p.public_key) d3
  d5 ← write_raw p.public_key d4
  d6 ← write_int p.version d5
  tcp_ports p.ports p.description d6

write_tracker_peer : TrackerPeer → Sn → Run Sn
unfolding write_int write_shortint write_byte write_raw tcp_ports
write_tracker_peer u d = do
  d1 ← write_int u.address.host d
  d2 ← write_shortint u.address.port d1
  d3 ← write_byte u.proxy d2
  d4 ← write_int (length u.key) d3
  d5 ← write_raw u.key d4
  d6 ← write_int u.version d5
  tcp_ports u.tcpports u.tcpdesc d6

-- `announce_twp`.
unfoldable pub announce_twp : Sender → Sn → Run Sn
unfolding write_tracker_peer
announce_twp t d = elim t.content [
  | Content.tracker_announce_peer u ↦ write_tracker_peer u d
  | _ ↦ fail
]

-- `announce_twt`.
unfoldable pub announce_twt : Sender → Sn → Run Sn
unfolding write_int write_shortint write_byte write_raw tcp_ports
announce_twt t d = do
  d1 ← write_int t.remote.host d
  d2 ← write_shortint t.remote.port d1
  d3 ← write_byte t.proxy d2
  d4 ← write_int (length t.public_key) d3
  d5 ← write_raw t.public_key d4
  d6 ← write_int t.version d5
  tcp_ports t.ports t.description d6

-- `announce_size`. The key that is counted is the sender's own, whoever is announced. The sizes are
-- those of objects, so the `int` sums do not overflow.
unfoldable pub announce_size : Sender → Run ℕ
announce_size p =
    let head =
      data_size_int
      + data_size_short
      + data_size_byte
      + length p.public_key
      + data_size_int
      + data_size_int in
    elim p.content [
      | Content.tracker_announce_peer u ↦
          ok (head + data_size_int + length u.tcpdesc + data_size_int * length u.tcpports)
      | _ ↦ ok (head + length p.description + data_size_int + data_size_int * length p.ports)
    ]
