-- ===== src/Lib.antt =====
-- eioie-client is a peer of a file-sharing and tunnelling network: it cuts messages into UDP
-- packets, checks and answers the packets that arrive, puts a group of packets together again and
-- hands it to the handler of its command. The files of the peers are recorded in chains of mined
-- blocks, which the peers exchange and merge.
--
-- The parts and their files. A buffer is sent by `serialize_init` (src/packet.c), which cuts it
-- into packets with `chunk` and `packet_create`; `packet_set` (src/data.c) writes a packet to the
-- bytes of a datagram. A datagram that arrives is read by `packet_get` inside `validate`
-- (src/packet.c), and `payload_recv` (src/payload/payload.c) collects it in the cache of its group.
-- The data of a tunnel goes through `tcpsend`, which restores the order of its buffers. A file becomes
-- a transaction (src/transaction.c), a transaction the content of a block (src/block.c), and a block
-- is appended to the peer's root (src/root.c). What is sent is first written into a payload by the
-- writer of its command (src/payload). The peers that are known stand in the world (src/world.c): a
-- tracker admits those that announce themselves, challenges them, and introduces them to one another.
--
-- - Base: names of the library, Boolean tests, lists over the native numbers, and `Run`, the
--   outcome of a C function: 0 with what it wrote to its out-parameters, -1, or undefined behaviour.
-- - Bytes/Memory: `memcpy` and slices of an array; Bytes/Integer: the little-endian bytes of an
--   integer; Bytes/Sn: `sn` and `snb` of src/include/sn.h, with `sn_bytes_append_raw` as `append`
--   and `sn_read` as `read`.
-- - Utils/Hex: `bin2hexstr` of src/utils.c and `sha256hex` of src/include/utils.h.
-- - Packet: the structures of src/include/packet.h. Packet/Wire: `packet_set` and `packet_get`.
--   Packet/Create: `packet_create`, `chunk` and `serialize_init`. Packet/Validate: `validate`,
--   `deserialize_init` and `serialize_validate`. Packet/Queue: `tcpsend`, `tcpdispatch`, `tcpsent`, and
--   `queue_add` of src/tcp/src/list.c.
-- - Payload: `packet_recv_cache`, `packet_recv`, `command_find` and `payload_recv`.
-- - Chain/Text: the texts of `snprintf` that are hashed. Chain/Transaction: src/transaction.c and
--   src/transaction/file_add.c. Chain/Block: src/block.c, with `mine` in rounds. Chain/Root:
--   src/root.c.
-- - Task: src/task.c, with `filepart` and `fileparts` of src/os.c.
-- - Command: `data_s` with its writers of src/data.c, and the send buffer. Command/Message and
--   Command/Announce: the writers and size functions of src/payload; Command/Table: the table of them
--   in src/payload/payload.c, with `payload_init` for `payload_send` as far as the finished payload.
--   Command/Reader: the readers of src/payload; the members of `p->user.cb`, which they call, are
--   parameters.
-- - Hashtable: src/tcp/src/hashtable.c, a chain of items for each index. Hashtable/Keys: the sum over
--   a short key. Hashtable/Refinement: its calls as updates of a function.
-- - Columns: the lists of src/tcp/src/list.c with columns. Net: src/net.c with `unique_together` of
--   src/utils.c and `update` of src/traffic.c, where times are in thousandths of a second; Net/Submit:
--   `data_submit` of src/data.c, and Net/Send: `data_send`, which ends the way of a payload from
--   `peer_shadow` and `serialize_init` to the queue; Net/Limit, Net/Queue, Net/Dispatch and Net/Drain: theorems
--   on them. An acknowledgement frees a buffer, and `nb_clean` may then send the next part of a file, which is the
--   parameter `resume` there; `dispatch` is modelled while no file waits.
-- - Config: `send_table` of src/config.c, the attempts at which a packet is sent.
-- - Rogue: `add` of src/rogue.c, as `rogue_add`. Rogue/Count: its calls as counts of reports.
-- - World: the searches, `peer_add`, `peer_reachable` and `peer_shadow` of src/world.c. World/Check:
--   `peer_check`. World/Broadcast: `peer_broadcast`, and `dfs_auth_reply` of src/mtracker.c.
--   World/Announcement: `announce_read`, and in its Handler the handlers of src/payload/announce.c with
--   `peer_auth`. World/Steps: what changes a list of peers, as a relation.
-- - Group: the roots of the other peers, src/group.c. Job: the downloads, src/job.c, with its State for the
--   counters and its Arrival for `update`; os.fileexists is the parameter `exists`, and the calls that
--   tell the plugins of a change are taken to return 0. Job/Counts, Job/Progress, Job/Sound, Job/Mark
--   and Job/Finish: theorems on them. Job/Steps: what changes the list of jobs, as a relation. Job/Asks:
--   what is requested.
-- - Mining: the mining thread and the commands around it, src/distfs.c; a thread runs in three parts, between
--   which the others run, and the mutex is what makes each test and its write one step. Mining/Steps: the
--   order of these as a relation; Mining/Single, Mining/Parts and Mining/Reached: theorems on it.
--   World/Query: the queries and pings of src/distfs.c, and in its Shadows what a query leaves.
-- - Relay: `request` of src/endpoint.c. Relay/Tunnels: src/tunnel.c. `async_server` and `async_client` of the
--   GrizzlyCloud library are parameters. Relay/Repeat: theorems on packets that arrive twice.
-- - Inbox: `dfile` of src/mpeer.c, which gives a file that has arrived to a tunnel, to the root of its owner or
--   to the downloads, with the loading of a root as a parameter. Inbox/Jobs: what it does to the downloads.
-- - Tests: sample values and the theorems applied to them.
--
-- Memory is a list of bytes, and a byte a number. An `int` is the number of its 32 bits; a `double`
-- is the number of its 64 bits. `malloc` and `realloc` succeed for a positive size, and fresh memory
-- holds whatever the parameter `fresh` says. Pointers that a function tests for NULL are taken to be
-- there. The structures have the layout of the 64-bit platform: 136 bytes of header, 334 of payload,
-- 64 of hash.
--
-- Parameters: OpenSSL's `SHA256` with 32 bytes for every input; the clock; the content of fresh
-- memory and of the stack; `%f` of `printf`; RSA encryption; SPN_VERSION, which the build makes;
-- which calls of `payload.send` return 0; the files on disk; the way of a block through JSON, of
-- which the theorems on `merge` assume that the block comes back as it was, and that of a transaction, of which
-- the theorem on mining assumes the same; the loading of a root from a file; what `async_server`,
-- `async_client` and `pthread_create` return. The handlers and the replies of commands are events, and are
-- taken to return 0. `stats.sent` of a peer is counted by `data_send` and by `announce_prp`; the messages of
-- `peer_check`, of a broadcast and of the other replies are told without it. Where a definition gives `Run`, what a failing call has changed before is left out.
--
-- Loops are recursion on their list or the number of rounds. `tcpdispatch` gets as many rounds as there
-- are buffers, and none that could be sent is left then. `mine` has no bound in the code; it is
-- modelled for every number of rounds, and returns once these reach a nonce that hits the target.
-- Arithmetic on an `int` or a `size_t` wraps where a limit or a key is long enough for it; the theorems on
-- them assume a limit below 2 ^ 21, keys below 2 ^ 24 bytes, and fewer than 2 ^ 31 chunks.
--
-- Not modelled: the splitting and putting together of files, which read and encrypt them; the dispatch of
-- the buffers that are sent once; the files that a tunnel's data is written to. Nor are sockets and the
-- event loop, JSON, directories, the command line, cryptography other than the use of the digest, and the
-- files under src/tcp that bear the notice of the GrizzlyCloud library; list.c and hashtable.c there bear
-- none, and are modelled as containers of this program.
pub mod Base
pub mod Bytes
pub mod Utils
pub mod Packet
pub mod Payload
pub mod Chain
pub mod Command
pub mod Hashtable
pub mod Columns
pub mod Config
pub mod Net
pub mod World
pub mod Task
pub mod Rogue
pub mod Group
pub mod Job
pub mod Mining
pub mod Relay
pub mod Inbox
mod Tests
