-- ===== src/Payload.antt =====
-- The receiving side of src/payload/payload.c: packets of one group are collected in a cache until
-- all are there, then put together and handed to the handler of their command.
pub mod Collect
pub mod Assemble
pub mod Delivery
use eioie_client.Base.{
  ℕ, zero, suc, ◌+◌, ◌-◌, ◌%◌, ◌^◌, List, [], ◌∷◌, ◌++◌, length, take, ltb, leb, ◌==◌, ◌&&◌, ◌||◌,
  Bool, true, false, Option, none, some, Run, ok, fail, fault, ◌>>=◌, if◌then◌else◌,
}
use eioie_client.Bytes.Memory.{memcpy}
use eioie_client.Packet.{Header, Packet}

-- `struct cache_s`. `all` are the packets, `received` their numbers; `bytes` is the region `data`,
-- whose `n` is its length.
pub record Cache : Type 0 where
  pub group : ℕ
  pub host : ℕ
  pub port : ℕ
  pub total : ℕ
  pub all : List Packet
  pub received : List ℕ
  pub bytes : List ℕ

-- `p->recv_buffer.cache`.
abbrev pub RecvBuffer : Type 0
RecvBuffer = List Cache

-- `k` bytes of memory that nobody has written.
unfoldable pub fill : (ℕ → ℕ) → ℕ → List ℕ
fill fresh zero = []
fill fresh (suc k) = fresh k ∷ fill fresh k

-- `realloc` to `n` bytes, for `n` above the old size.
unfoldable pub grow : (ℕ → ℕ) → ℕ → List ℕ → List ℕ
unfolding fill
grow fresh n bytes = bytes ++ fill fresh (n - length bytes)

-- The `memcpy` of the payload at its offset; past the end of the region it is undefined.
unfoldable pub place : Packet → List ℕ → Run (List ℕ)
place p bytes =
    if leb (p.header.offset + p.header.length) (length bytes)
    then ok (memcpy bytes p.header.offset (take p.header.length p.payload))
    else fault

-- `avcb` for one packet. The sum is an `uint64_t`; the new size is cut to an `int`, and `realloc`
-- fails for a negative one and returns NULL for zero.
unfoldable pub assemble_packet : (ℕ → ℕ) → List ℕ → Packet → Run (List ℕ)
assemble_packet fresh bytes p =
    let end = (p.header.offset + p.header.length) % 2 ^ 64 in
    let n = end % 2 ^ 32 in
    if ltb (length bytes) end
    then (if leb (2 ^ 31) n || n == 0 then fail else place p (grow fresh n bytes))
    else place p bytes

-- `list.map(&c->packets.all, avcb, &c->data)`.
unfoldable pub assemble : (ℕ → ℕ) → List ℕ → List Packet → Run (List ℕ)
assemble fresh bytes [] = ok bytes
assemble fresh bytes (p ∷ ps) = assemble_packet fresh bytes p >>= λ bytes'. assemble fresh bytes' ps

-- The scan of `c->packets.received.idx`.
unfoldable pub contains : ℕ → List ℕ → Bool
contains i [] = false
contains i (j ∷ js) = j == i || contains i js

-- `packet_recv_cache`: the flag says that the cache is `*available`. A packet that was received
-- before is dropped; the last one empties `all` and fills `bytes`.
unfoldable pub packet_recv_cache : (ℕ → ℕ) → Cache → Packet → Run (Cache × Bool)
packet_recv_cache fresh c p =
    let all = c.all ++ p ∷ [] in
    let received = c.received ++ p.header.pidx ∷ [] in
    if contains p.header.pidx c.received
    then ok (c, false)
    else if length received == c.total
    then (assemble fresh c.bytes all >>= λ bytes.
        ok (record c { all = []; received = received; bytes = bytes }, true))
    else ok (record c { all = all; received = received }, false)

-- The test of `find` in `packet_recv`.
unfoldable pub is_for : Header → Cache → Bool
is_for h c = c.group == h.gidx && c.host == h.dst.host && c.port == h.dst.port

unfoldable pub find_cache : Header → RecvBuffer → Option Cache
find_cache h [] = none
find_cache h (c ∷ cs) = if is_for h c then some c else find_cache h cs

-- The cache that `find` returns, changed in place.
unfoldable pub replace_cache : Header → Cache → RecvBuffer → RecvBuffer
replace_cache h c' [] = []
replace_cache h c' (c ∷ cs) = if is_for h c then c' ∷ cs else c ∷ replace_cache h c' cs

-- `list.del(&p->recv_buffer.cache, p->recv_buffer.available)`.
unfoldable pub delete_cache : Header → RecvBuffer → RecvBuffer
delete_cache h [] = []
delete_cache h (c ∷ cs) = if is_for h c then cs else c ∷ delete_cache h cs

unfoldable pub new_cache : Header → Cache
new_cache h = record {
  group = h.gidx;
  host = h.dst.host;
  port = h.dst.port;
  total = h.chunks;
  all = [];
  received = [];
  bytes = [];
}

-- The cache that the packet goes to, behind `list.add` of a new one if `find` has none.
abbrev pub cache_for : Header → RecvBuffer → Option Cache → RecvBuffer × Cache
cache_for h rb none = (rb ++ new_cache h ∷ [], new_cache h)
cache_for h rb (some c) = (rb, c)

-- `packet_recv`: the data of the group once it is complete.
unfoldable pub packet_recv : (ℕ → ℕ) → RecvBuffer → Packet → Run (RecvBuffer × Option (List ℕ))
packet_recv fresh rb p =
    let (rb', c) = cache_for p.header rb (find_cache p.header rb) in
    (packet_recv_cache fresh c p >>= λ r.
    ok (replace_cache p.header r.0 rb', if r.1 then some r.0.bytes else none))

-- What the rest of the peer is told: `cb_reply` for a packet, `cb_read` with the data of a group.
pub data Event : Type 0 where
  reply : Header → Event
  handle : Header → List ℕ → Event

-- The rows of `cmds`: the command's number, whether `cb_read` is there, and whether `cb_reply` is.
-- COMMAND_TCP, 12, has no row.
abbrev pub commands : List (ℕ × Bool × Bool)
commands =
    (0, false, false)
    ∷ (1, true, false)
    ∷ (2, true, true)
    ∷ (3, true, true)
    ∷ (4, true, true)
    ∷ (5, true, true)
    ∷ (6, true, true)
    ∷ (7, true, true)
    ∷ (8, true, true)
    ∷ (9, true, true)
    ∷ (10, true, true)
    ∷ (11, true, true)
    ∷ (13, true, true)
    ∷ (14, true, true)
    ∷ []

unfoldable pub command_find : ℕ → List (ℕ × Bool × Bool) → Run (ℕ × Bool × Bool)
command_find cmd [] = fail
command_find cmd (row ∷ rows) = if row.0 == cmd then ok row else command_find cmd rows

-- `payload_recv`, for handlers that return 0: the events in their order. The finished cache is
-- deleted behind its handler.
unfoldable pub payload_recv : (ℕ → ℕ) → RecvBuffer → Packet → Run (RecvBuffer × List Event)
payload_recv fresh rb p = do
  (_, has_read, has_reply) ← command_find p.header.command commands
  (rb', available) ← packet_recv fresh rb p
  let replies = if has_reply then reply p.header ∷ [] else []
  ok (elim available [
    | none ↦ (rb', replies)
    | some bytes ↦ (
      delete_cache p.header rb',
      replies ++ (if has_read then handle p.header bytes ∷ [] else []),
    )
  ])

-- A row of packets received one after the other.
unfoldable pub receive_all : (ℕ → ℕ) → RecvBuffer → List Packet → Run (RecvBuffer × List Event)
receive_all fresh rb [] = ok (rb, [])
receive_all fresh rb (p ∷ ps) = do
  (rb1, events) ← payload_recv fresh rb p
  (rb2, later) ← receive_all fresh rb1 ps
  ok (rb2, events ++ later)
