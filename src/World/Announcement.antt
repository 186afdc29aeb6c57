-- ===== src/World/Announcement.antt =====
-- The readers of src/payload/announce.c, and src/whitelist.c as far as they ask it.
pub mod RoundTrip
pub mod Handler
pub mod Counted
pub mod Admission
use eioie_client.Base.{
  ℕ, zero, suc, ◌+◌, ◌^◌, List, [], ◌∷◌, replicate, ◌++◌, ltb, memeq, ◌==◌, not, Bool, true, false,
  Run, ok, fail, ◌>>=◌, if◌then◌else◌,
}
use eioie_client.Bytes.Sn.{Sn, read, read_integer, init_raw}
use eioie_client.Utils.Hex.{Sha256, sha256hex}
use eioie_client.Packet.{Address, hash_size, zero_filled}
use eioie_client.Command.{Content, bytes_init_new}
use eioie_client.World.{
  Instance, WorldPeer, PeerType, Flags, Send, no_flags, payload_send, peer_add,
}

-- MAX_ANNOUNCED_PORTS, and the size of `tcp.description`.
abbrev pub max_announced_ports : ℕ
max_announced_ports = 8

abbrev pub description_size : ℕ
description_size = 256

-- The loop over the ports, with as many rounds as may still be added.
unfoldable pub read_ports : ℕ → Sn → Run (List ℕ)
read_ports zero bf = ok []
read_ports (suc rounds) bf = elim (ltb bf.offset bf.n) [
  | false ↦ ok []
  | true ↦ (read_integer 4 bf >>= λ r. read_ports rounds r.1 >>= λ ports. ok (r.0 ∷ ports))
]

-- `announce_read` into a peer that is zero. A description that fills its array has no terminator.
unfoldable pub announce_read : (ℕ → ℕ) → Sha256 → List ℕ → Run WorldPeer
unfolding read_ports bytes_init_new
announce_read fresh sha src = do
  (host, b1) ← read_integer 4 (init_raw src)
  (port, b2) ← read_integer 2 b1
  (proxy, b3) ← read_integer 1 b2
  (nkey, b4) ← read_integer 4 b3
  _ ← bytes_init_new fresh nkey
  (pubkey, b5) ← read nkey nkey b4
  pubkeyhash ← sha256hex sha pubkey
  (version, b6) ← read_integer 4 b5
  (ndesc, b7) ← read_integer 4 b6
  (description, b8) ← (if ltb description_size ndesc then fail else read description_size ndesc b7)
  ports ← read_ports max_announced_ports b8
  ok (record {
    kind = PeerType.peer_none;
    address = record { host = host; port = port };
    unreachable = 0;
    pubkey = pubkey;
    pubkeyhash = pubkeyhash;
    authstr = replicate hash_size 0;
    version = version;
    pingms = 0;
    flags = record no_flags { proxy = not (proxy == 0) };
    description = zero_filled description_size description;
    ports = ports;
    sent = 0;
  })
