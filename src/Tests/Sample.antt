-- ===== src/Tests/Sample.antt =====
-- A message of two packets, and the parameters that it is sent with.
use eioie_client.Base.{◌+◌, ◌%◌, ℕ, refl, List, [], ◌∷◌, ◌++◌, replicate, none, arith}
use eioie_client.Utils.Hex.{Sha256}
use eioie_client.Bytes.Sn.{Sn}
use eioie_client.Bytes.Sn.Append.{Holds}
use eioie_client.Packet.{Header, Packet, IsHeader, payload_size, hash_size}
use eioie_client.Packet.Create.{Outgoing, SendBuffer}
use eioie_client.Packet.Create.Laws.{IsOutgoing}

-- A digest of the right size.
abbrev pub sha : Sha256
sha = record { digest = λ src. replicate 32 7; length-digest = λ src. refl }

abbrev pub message : Outgoing
message = record {
  command = 5;
  tidx = 0;
  parts = 0;
  filename = none;
  tcp = none;
  self = record { host = 16777343; port = 9000 };
  dst = record { host = 33554559; port = 9001 };
}

-- The packet counter is about to wrap.
abbrev pub counters : SendBuffer
counters = record { pidx = 4294967295; gidx = 3 }

abbrev pub clock : ℕ → ℕ
clock i = 1000

-- 334 bytes, and two more.
abbrev pub text : List ℕ
text = replicate 334 65 ++ 66 ∷ 67 ∷ []

abbrev pub fresh : ℕ → ℕ
fresh k = 204

abbrev pub region : Sn
region = record { s = replicate 1024 0; n = 0; offset = 0 }

pub text-IsOutgoing : IsOutgoing message clock counters text
text-IsOutgoing = record {
  command = omega arith;
  tidx = omega arith;
  parts = omega arith;
  filename = refl;
  reqtype = omega arith;
  cidx = omega arith;
  port_src = omega arith;
  port_dst = omega arith;
  src_host = omega arith;
  src_port = omega arith;
  dst_host = omega arith;
  dst_port = omega arith;
  clock = λ i. omega arith;
  pidx = omega arith;
  gidx = omega arith;
  some_bytes = omega arith;
  small = omega arith;
}

-- A header of zeros, and one whose length is larger than a payload.
abbrev pub zero_header : Header
zero_header = record {
  pidx = 0;
  gidx = 0;
  tidx = 0;
  offset = 0;
  chunks = 0;
  parts = 0;
  length = 0;
  command = 0;
  filename = replicate 64 0;
  ts = 0;
  tcp = record { reqtype = 0; cidx = 0; src = 0; dst = 0 };
  src = record { host = 0; port = 0 };
  dst = record { host = 0; port = 0 };
}

abbrev pub long : Header
long = record zero_header { length = 400 }

pub long-IsHeader : IsHeader long
long-IsHeader = record {
  pidx = omega arith;
  gidx = omega arith;
  tidx = omega arith;
  offset = omega arith;
  chunks = omega arith;
  parts = omega arith;
  length = omega arith;
  command = omega arith;
  filename = refl;
  ts = omega arith;
  reqtype = omega arith;
  cidx = omega arith;
  port_src = omega arith;
  port_dst = omega arith;
  src_host = omega arith;
  src_port = omega arith;
  dst_host = omega arith;
  dst_port = omega arith;
}

abbrev pub zero_packet : Packet
zero_packet = record {
  header = zero_header;
  payload = replicate payload_size 0;
  hash = replicate hash_size 0;
}

-- Four bytes, nothing written.
abbrev pub blank : Sn
blank = record { s = replicate 4 0; n = 4; offset = 0 }

pub blank-Holds : Holds 4 [] blank
blank-Holds = record { room = refl; wide = refl; written = refl; count = refl }

-- A digest that ends in the sum of the bytes.
abbrev byte_sum : List ℕ → ℕ
byte_sum [] = 0
byte_sum (b ∷ bs) = b + byte_sum bs

abbrev pub sum_sha : Sha256
sum_sha = record {
  digest = λ src. replicate 31 7 ++ (byte_sum src % 256) ∷ [];
  length-digest = λ src. refl;
}

abbrev pub print_double : ℕ → List ℕ
print_double x = b'0' ∷ []
