-- ===== src/Tests/Announcements.antt =====
-- The payloads of commands, and a peer that announces itself to a tracker.
use eioie_client.Base.{
  ℕ, ◌+◌, ◌-◌, ◌<◌, ◌≤◌, ◌≡◌, refl, List, [], ◌∷◌, arith, length, memeq, some, true, ◌⊎◌, ok, fail,
  ◌>>=◌,
}
use eioie_client.Utils.Hex.{sha256hex, bin2hexstr, hex_loop, hex_byte, hex_digit}
use eioie_client.Packet.{Address}
use eioie_client.Command.{Sender, Content, TrackerPeer, Data}
use eioie_client.Bytes.Integer.{to_bytes}
use eioie_client.Command.Bytes.{announced, self_announced, length-announced}
use eioie_client.Command.Table.{payload_init}
use eioie_client.Command.Counts.{full}
use eioie_client.Command.Prepared.{Kind, bytes_of, payload_init-full}
use eioie_client.Command.OtherKey.{payload_init-other_key}
use eioie_client.Command.Reader.{Heard, Callback, calls, queryrpl_read}
use eioie_client.Command.Reader.Told.{reader_of, told, Fits, teller, reader-payload_init}
use eioie_client.World.{Instance, WorldPeer, Send, peer_find, map_find}
use eioie_client.World.Announcement.RoundTrip.{
  IsAnnouncement, announced_peer, announce_read-announced,
}
use eioie_client.World.Announcement.Handler.{Node, Outside, sends, wl_find, announce_prp}
use eioie_client.World.Announcement.Admission.{
  IsAdmitted, announce_prp-IsAdmitted, newcomer, announce_prp-newcomer, announce_prp-payload_init,
}
use eioie_client.Tests.Sample.{sha, fresh, zero_header}

abbrev home : Address
home = record { host = 33554559; port = 9001 }

abbrev sender_of : Content → Sender
sender_of c = record {
  self = home;
  remote = home;
  proxy = 1;
  public_key = 75 ∷ 69 ∷ 89 ∷ [];
  ports = 80 ∷ 443 ∷ [];
  description = 104 ∷ 105 ∷ [];
  received = zero_header;
  content = c;
  version = 12;
}

payload_init-full_example :
    payload_init fresh 14 (sender_of (Content.query_reply home 1))
    ≡ ok (full 14 (127 ∷ 0 ∷ 0 ∷ 2 ∷ 41 ∷ 35 ∷ 1 ∷ []))
unfolding bytes_of to_bytes
payload_init-full_example =
    payload_init-full fresh Kind.query_reply (sender_of (Content.query_reply home 1))
      (Content.query_reply home 1) (127 ∷ 0 ∷ 0 ∷ 2 ∷ 41 ∷ 35 ∷ 1 ∷ []) refl refl (omega arith)

-- The callback fails for every reply.
abbrev deny : Callback
deny = some (λ src h. fail)

reader-payload_init_example :
    (d : Data) × (payload_init fresh 14 (sender_of (Content.query_reply home 1)) ≡ ok d)
    × (queryrpl_read deny home d.payload.s
        ≡ calls deny (teller Kind.query_reply home) (Heard.query_reply home true))
unfolding bytes_of to_bytes reader_of told Fits
reader-payload_init_example =
    reader-payload_init fresh Kind.query_reply (sender_of (Content.query_reply home 1))
      (127 ∷ 0 ∷ 0 ∷ 2 ∷ 41 ∷ 35 ∷ 1 ∷ []) deny home queryrpl_read (Heard.query_reply home true)
      refl (omega arith) refl refl (omega arith, omega arith, omega arith)

-- A peer whose key is one byte shorter than the tracker's.
abbrev other : TrackerPeer
other = record {
  address = home;
  key = 75 ∷ 69 ∷ [];
  tcpdesc = [];
  version = 12;
  tcpports = [];
  proxy = 0;
}

payload_init-other_key_example :
    ((3 < length other.key)
      × (payload_init fresh 3 (sender_of (Content.tracker_announce_peer other)) ≡ fail))
    ⊎ ((d : Data) × (length other.key ≤ 3)
        × (payload_init fresh 3 (sender_of (Content.tracker_announce_peer other)) ≡ ok d)
        × (d.payload.n ≡ d.payload.offset + (3 - length other.key)))
payload_init-other_key_example =
    payload_init-other_key fresh (sender_of (Content.tracker_announce_peer other)) other refl
      (omega arith)

abbrev joining : Sender
joining = sender_of Content.empty

joining-IsAnnouncement : IsAnnouncement (self_announced joining)
joining-IsAnnouncement = record {
  host = omega arith;
  port = omega arith;
  proxy = omega arith;
  version = omega arith;
  description = omega arith;
  ports = (omega arith, (omega arith, tt));
  size = omega (arith, length-announced (self_announced joining));
}

-- The digits of the sample digest.
abbrev hash : List ℕ
hash =
    48 ∷ 55 ∷ 48 ∷ 55 ∷ 48 ∷ 55 ∷ 48 ∷ 55 ∷ 48 ∷ 55 ∷ 48 ∷ 55 ∷ 48 ∷ 55 ∷ 48 ∷ 55 ∷ 48 ∷ 55 ∷ 48
    ∷ 55 ∷ 48 ∷ 55 ∷ 48 ∷ 55 ∷ 48 ∷ 55 ∷ 48 ∷ 55 ∷ 48 ∷ 55 ∷ 48 ∷ 55 ∷ 48 ∷ 55 ∷ 48 ∷ 55 ∷ 48 ∷ 55
    ∷ 48 ∷ 55 ∷ 48 ∷ 55 ∷ 48 ∷ 55 ∷ 48 ∷ 55 ∷ 48 ∷ 55 ∷ 48 ∷ 55 ∷ 48 ∷ 55 ∷ 48 ∷ 55 ∷ 48 ∷ 55 ∷ 48
    ∷ 55 ∷ 48 ∷ 55 ∷ 48 ∷ 55 ∷ 48 ∷ 55 ∷ []

hashed : (bytes : List ℕ) → sha256hex sha bytes ≡ ok hash
unfolding sha256hex bin2hexstr hex_loop hex_byte hex_digit
hashed bytes = refl

abbrev registry : Node
registry = record {
  kind = Instance.tracker;
  self = home;
  remote = record { host = 16777343; port = 9000 };
  peers = [];
  whitelist = hash ∷ [];
}

abbrev outside : Outside
outside = record {
  fresh = fresh;
  sha = sha;
  text = 49 ∷ [];
  encrypt = λ key secret. ok (9 ∷ []);
  accepts = λ s. true;
}

abbrev challenged : WorldPeer
challenged = record (newcomer joining registry hash) { authstr = hash; sent = 1 }

abbrev challenge : List Send
challenge = record { command = 8; to = registry.remote; content = Content.auth (9 ∷ []) } ∷ []

announce_prp-payload_init_example :
    (payload_init fresh 4 joining >>= λ d. announce_prp outside registry d.payload.s)
    ≡ ok (record registry { peers = challenged ∷ [] }, sends challenge ∷ [])
unfolding wl_find memeq peer_find map_find
announce_prp-payload_init_example =
    announce_prp-payload_init fresh outside joining registry hash hash (9 ∷ []) refl
      joining-IsAnnouncement refl (hashed joining.public_key) refl refl refl (hashed outside.text)
      refl refl

admission :
    announce_prp outside registry (announced (self_announced joining))
    ≡ ok (record registry { peers = challenged ∷ [] }, sends challenge ∷ [])
unfolding wl_find memeq peer_find map_find
admission =
    announce_prp-newcomer outside registry (announced (self_announced joining))
      (announced_peer (self_announced joining) hash) hash (9 ∷ []) refl
      (announce_read-announced fresh sha (self_announced joining) hash joining-IsAnnouncement
        (hashed joining.public_key))
      refl refl refl (hashed outside.text) refl refl

announce_prp-IsAdmitted_example :
    (record registry { peers = challenged ∷ [] } ≡ registry)
    ⊎ ((wp : WorldPeer) × IsAdmitted registry (record registry { peers = challenged ∷ [] }) wp)
announce_prp-IsAdmitted_example =
    announce_prp-IsAdmitted outside registry (record registry { peers = challenged ∷ [] })
      (announced (self_announced joining)) (sends challenge ∷ []) admission
