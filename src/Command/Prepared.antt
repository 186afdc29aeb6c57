-- ===== src/Command/Prepared.antt =====
-- `payload_init` of each command of `enum command_e` gives a payload that is exactly filled.
use eioie_client.Base.{
  ℕ, ◌^◌, ◌<◌, ◌≡◌, refl, List, ◌++◌, arith, length, ◌==◌, ◌&&◌, Bool, ==_iff, Option, none, some,
  ok, Bool-cases, inl, inr, if◌then◌else◌,
}
use eioie_client.Bytes.Integer.{to_bytes}
use eioie_client.Packet.{hash_size}
use eioie_client.Command.{Sender, Content}
use eioie_client.Command.Table.{payload_init}
use eioie_client.Command.Bytes.{announced, self_announced, remote_announced, ack_bytes}
use eioie_client.Command.Counts.{
  full, counted_full, ack-Counts, own_size, announce_twt-Counts, announce_pwp-Counts,
  announce_twp-Counts, message-Counts, file-Counts, auth-Counts, authrpl-Counts, ping-Counts,
  pong-Counts, query-Counts, queryrpl-Counts, fileask-Counts,
}

-- `enum command_e`.
pub data Kind : Type 0 where
  ack tracker_announce_tracker tracker_announce_peer peer_announce_peer message file fileask auth
        auth_reply ping pong query query_reply :
      Kind

abbrev pub number : Kind → ℕ
number Kind.ack = 1
number Kind.tracker_announce_tracker = 2
number Kind.tracker_announce_peer = 3
number Kind.peer_announce_peer = 4
number Kind.message = 5
number Kind.file = 6
number Kind.fileask = 7
number Kind.auth = 8
number Kind.auth_reply = 9
number Kind.ping = 10
number Kind.pong = 11
number Kind.query = 13
number Kind.query_reply = 14

abbrev bytes_if : Bool → List ℕ → Option (List ℕ)
bytes_if b bytes = if b then some bytes else none

-- The bytes that a command sends, if the send buffer is what the command wants.
unfoldable pub bytes_of : Kind → Sender → Content → Option (List ℕ)
bytes_of Kind.ack p c = some (ack_bytes p)
bytes_of Kind.tracker_announce_tracker p c = elim c [
  | Content.tracker_announce_peer u ↦ none
  | _ ↦ some (announced (remote_announced p))
]
bytes_of Kind.tracker_announce_peer p c = elim c [
  | Content.tracker_announce_peer u ↦ bytes_if (length u.key == length p.public_key) (announced u)
  | _ ↦ none
]
bytes_of Kind.peer_announce_peer p c = elim c [
  | Content.tracker_announce_peer u ↦ none
  | _ ↦ some (announced (self_announced p))
]
bytes_of Kind.message p c = elim c [ Content.message str ↦ some str | _ ↦ none ]
bytes_of Kind.file p c = elim c [ Content.file bin ↦ some bin | _ ↦ none ]
bytes_of Kind.fileask p c = elim c [
  | Content.fileask name chunk ↦
      bytes_if (length name == hash_size && length chunk == hash_size) (name ++ chunk)
  | _ ↦ none
]
bytes_of Kind.auth p c = elim c [ Content.auth str ↦ some str | _ ↦ none ]
bytes_of Kind.auth_reply p c = elim c [ Content.auth_reply str ↦ some str | _ ↦ none ]
bytes_of Kind.ping p c = elim c [ Content.ping ts ↦ some (to_bytes 8 ts) | _ ↦ none ]
bytes_of Kind.pong p c = elim c [ Content.pong ts ↦ some (to_bytes 8 ts) | _ ↦ none ]
bytes_of Kind.query p c = elim c [
  | Content.query a ↦ some (to_bytes 4 a.host ++ to_bytes 2 a.port)
  | _ ↦ none
]
bytes_of Kind.query_reply p c = elim c [
  | Content.query_reply a reachable ↦
      some (to_bytes 4 a.host ++ (to_bytes 2 a.port ++ to_bytes 1 reachable))
  | _ ↦ none
]

-- The command's payload, when the send buffer is what the command wants.
pub payload_init-full :
    (fresh : ℕ → ℕ) (k : Kind) (p : Sender) (c : Content) (bytes : List ℕ)
    → p.content ≡ c
    → bytes_of k p c ≡ some bytes
    → length bytes < 2 ^ 31
    → payload_init fresh (number k) p ≡ ok (full (number k) bytes)
unfolding payload_init bytes_of
payload_init-full fresh Kind.ack p _ bytes e h small =
    counted_full fresh 1 _ _ _ bytes (ack-Counts p) h small
payload_init-full fresh Kind.message p (Content.message str) bytes e h small =
    counted_full fresh 5 _ _ _ bytes (message-Counts p str e) h small
payload_init-full fresh Kind.file p (Content.file bin) bytes e h small =
    counted_full fresh 6 _ _ _ bytes (file-Counts p bin e) h small
payload_init-full fresh Kind.auth p (Content.auth str) bytes e h small =
    counted_full fresh 8 _ _ _ bytes (auth-Counts p str e) h small
payload_init-full fresh Kind.auth_reply p (Content.auth_reply str) bytes e h small =
    counted_full fresh 9 _ _ _ bytes (authrpl-Counts p str e) h small
payload_init-full fresh Kind.ping p (Content.ping ts) bytes e h small =
    counted_full fresh 10 _ _ _ bytes (ping-Counts p ts e) h small
payload_init-full fresh Kind.pong p (Content.pong ts) bytes e h small =
    counted_full fresh 11 _ _ _ bytes (pong-Counts p ts e) h small
payload_init-full fresh Kind.query p (Content.query a) bytes e h small =
    counted_full fresh 13 _ _ _ bytes (query-Counts p a e) h small
payload_init-full fresh Kind.query_reply p (Content.query_reply a r) bytes e h small =
    counted_full fresh 14 _ _ _ bytes (queryrpl-Counts p a r e) h small
payload_init-full fresh Kind.fileask p (Content.fileask name chunk) bytes e h small =
    elim (Bool-cases (length name == hash_size && length chunk == hash_size)) [
      | inl sizes ↦
          counted_full fresh 7 _ _ _ bytes
            (fileask-Counts p name chunk e (ground arith) (ground arith)) (rw sizes at h) small
      | inr other ↦ cc (rw other at h)
    ]
payload_init-full fresh Kind.tracker_announce_peer p (Content.tracker_announce_peer u) bytes e h
      small =
    elim (Bool-cases (length u.key == length p.public_key)) [
      | inl same ↦
          counted_full fresh 3 _ _ _ bytes (announce_twp-Counts p u e ((==_iff _ _).0 same))
            (rw same at h) small
      | inr other ↦ cc (rw other at h)
    ]
payload_init-full fresh Kind.tracker_announce_tracker p (Content.tracker_announce_peer u) bytes e h
      small =
    cc
payload_init-full fresh Kind.tracker_announce_tracker p c bytes e h small =
    counted_full fresh 2 _ _ _ bytes (announce_twt-Counts p (own_size p c e refl)) h small
payload_init-full fresh Kind.peer_announce_peer p (Content.tracker_announce_peer u) bytes e h
      small =
    cc
payload_init-full fresh Kind.peer_announce_peer p c bytes e h small =
    counted_full fresh 4 _ _ _ bytes (announce_pwp-Counts p (own_size p c e refl)) h small
payload_init-full fresh k p c bytes e h small = cc
