-- ===== src/Command/Counts.antt =====
-- Each writer appends what its size function counts.
use eioie_client.Base.{
  ℕ, ◌+◌, ◌*◌, ◌^◌, ◌<◌, ◌≡◌, refl, ap, sym, ◌∙◌, List, ◌++◌, arith, length, subst, Bool, true,
  false, some, Run, ok, length-append,
}
use eioie_client.Bytes.Integer.{to_bytes, length-to_bytes}
use eioie_client.Bytes.Sn.{Sn}
use eioie_client.Packet.{Address, hash_size}
use eioie_client.Command.{
  Sender, Content, TrackerPeer, Data, data_init, write_double, write_int, write_shortint,
  write_byte, write_raw,
}
use eioie_client.Command.Message.{
  ack_write, ack_size, message_write, message_size, file_write, file_size, fileask_write,
  fileask_size, auth_write, auth_size, authrpl_write, authrpl_size, ping_write, ping_size,
  pong_write, pong_size, query_write, query_size, queryrpl_write, queryrpl_size,
}
use eioie_client.Command.Announce.{announce_twt, announce_twp, announce_pwp, announce_size}
use eioie_client.Command.Bytes.{
  announced, self_announced, remote_announced, ack_bytes, announce_pwp-Appends,
  announce_twt-Appends, announce_twp-Appends, length-announced, ack_write-Appends,
}
use eioie_client.Command.Exact.{Appends, append_then, data_init-exact}

-- A finished payload: filled to its end.
abbrev pub full : ℕ → List ℕ → Data
full cmd bytes = record {
  command = cmd;
  payload = record { s = bytes; n = length bytes; offset = length bytes };
}

pub data_init-full :
    (fresh : ℕ → ℕ) (cmd : ℕ) (writer : Sn → Run Sn) (size : Run ℕ) (bytes : List ℕ)
    → length bytes < 2 ^ 31
    → Appends writer bytes
    → size ≡ ok (length bytes)
    → data_init fresh cmd writer size ≡ ok (full cmd bytes)
data_init-full fresh cmd writer size bytes small writes e =
    ap (data_init fresh cmd writer) e ∙ data_init-exact fresh cmd writer bytes small writes

-- The writer appends `bytes`, and the size function counts them.
abbrev pub Counts : (Sn → Run Sn) → Run ℕ → List ℕ → Type 0
Counts writer size bytes = Appends writer bytes × (size ≡ ok (length bytes))

pub counted_full :
    (fresh : ℕ → ℕ) (cmd : ℕ) (writer : Sn → Run Sn) (size : Run ℕ) (str bytes : List ℕ)
    → Counts writer size str
    → some str ≡ some bytes
    → length bytes < 2 ^ 31
    → data_init fresh cmd writer size ≡ ok (full cmd bytes)
counted_full fresh cmd writer size str bytes c h small =
    let same : str ≡ bytes = cc in
    data_init-full fresh cmd writer size bytes small (subst (Appends writer) same c.0)
      (c.1 ∙ ap (λ l. ok (length l)) same)

pub ack-Counts : (p : Sender) → Counts (ack_write p) (ack_size p) (ack_bytes p)
unfolding ack_size
ack-Counts p = (ack_write-Appends p, simp (length-append, length-to_bytes))

-- What `announce_size` looks at: the send buffer does not hold another peer.
abbrev pub own : Content → Bool
own (Content.tracker_announce_peer u) = false
own _ = true

pub own_size :
    (p : Sender) (c : Content)
    → p.content ≡ c
    → own c ≡ true
    → announce_size p ≡ ok (19 + length p.public_key + length p.description + 4 * length p.ports)
unfolding announce_size
own_size p (Content.tracker_announce_peer u) e h = cc
own_size p c e h = rw e (ap ok (omega arith))

pub announce_twt-Counts :
    (p : Sender)
    → announce_size p ≡ ok (19 + length p.public_key + length p.description + 4 * length p.ports)
    → Counts (announce_twt p) (announce_size p) (announced (remote_announced p))
announce_twt-Counts p e =
    (announce_twt-Appends p, e ∙ ap ok (sym (length-announced (remote_announced p))))

pub announce_pwp-Counts :
    (p : Sender)
    → announce_size p ≡ ok (19 + length p.public_key + length p.description + 4 * length p.ports)
    → Counts (announce_pwp p) (announce_size p) (announced (self_announced p))
announce_pwp-Counts p e =
    (announce_pwp-Appends p, e ∙ ap ok (sym (length-announced (self_announced p))))

pub announce_twp-Counts :
    (p : Sender) (u : TrackerPeer)
    → p.content ≡ Content.tracker_announce_peer u
    → length u.key ≡ length p.public_key
    → Counts (announce_twp p) (announce_size p) (announced u)
unfolding announce_size
announce_twp-Counts p u e keys =
    (announce_twp-Appends p u e, rw (e, length-announced u, keys) (ap ok (omega arith)))

pub message-Counts :
    (p : Sender) (str : List ℕ)
    → p.content ≡ Content.message str
    → Counts (message_write p) (message_size p) str
unfolding message_write message_size write_raw
message-Counts p str e = (λ d i. rw e, rw e)

pub file-Counts :
    (p : Sender) (bin : List ℕ)
    → p.content ≡ Content.file bin
    → Counts (file_write p) (file_size p) bin
unfolding file_write file_size write_raw
file-Counts p bin e = (λ d i. rw e, rw e)

pub auth-Counts :
    (p : Sender) (str : List ℕ)
    → p.content ≡ Content.auth str
    → Counts (auth_write p) (auth_size p) str
unfolding auth_write auth_size write_raw
auth-Counts p str e = (λ d i. rw e, rw e)

pub authrpl-Counts :
    (p : Sender) (str : List ℕ)
    → p.content ≡ Content.auth_reply str
    → Counts (authrpl_write p) (authrpl_size p) str
unfolding authrpl_write authrpl_size write_raw
authrpl-Counts p str e = (λ d i. rw e, rw e)

pub ping-Counts :
    (p : Sender) (ts : ℕ)
    → p.content ≡ Content.ping ts
    → Counts (ping_write p) (ping_size p) (to_bytes 8 ts)
unfolding ping_write ping_size write_double
ping-Counts p ts e = (λ d i. rw e, ap ok (sym (length-to_bytes 8 ts)))

pub pong-Counts :
    (p : Sender) (ts : ℕ)
    → p.content ≡ Content.pong ts
    → Counts (pong_write p) (pong_size p) (to_bytes 8 ts)
unfolding pong_write pong_size write_double
pong-Counts p ts e = (λ d i. rw e, ap ok (sym (length-to_bytes 8 ts)))

pub query-Counts :
    (p : Sender) (a : Address)
    → p.content ≡ Content.query a
    → Counts (query_write p) (query_size p) (to_bytes 4 a.host ++ to_bytes 2 a.port)
unfolding query_write query_size write_int write_shortint
query-Counts p a e =
    (λ d i. rw e (append_then _ _ d _ i λ d1 i1. refl), simp (length-append, length-to_bytes))

pub queryrpl-Counts :
    (p : Sender) (a : Address) (reachable : ℕ)
    → p.content ≡ Content.query_reply a reachable
    → Counts
        (queryrpl_write p)
        (queryrpl_size p)
        (to_bytes 4 a.host ++ (to_bytes 2 a.port ++ to_bytes 1 reachable))
unfolding queryrpl_write queryrpl_size write_int write_shortint write_byte
queryrpl-Counts p a reachable e = (
  λ d i. rw e (append_then _ _ d _ i λ d1 i1. append_then _ _ d1 _ i1 λ d2 i2. refl),
  simp (length-append, length-to_bytes),
)

pub fileask-Counts :
    (p : Sender) (name chunk : List ℕ)
    → p.content ≡ Content.fileask name chunk
    → length name ≡ hash_size
    → length chunk ≡ hash_size
    → Counts (fileask_write p) (fileask_size p) (name ++ chunk)
unfolding fileask_write fileask_size write_raw
fileask-Counts p name chunk e n1 n2 = (
  λ d i. rw e (append_then _ _ d _ i λ d1 i1. refl),
  rw e (ap ok (omega (arith, length-append {0} name chunk))),
)
