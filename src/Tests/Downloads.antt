-- ===== src/Tests/Downloads.antt =====
-- A download of two chunks.
use eioie_client.Base.{
  ℕ, ◌≡◌, refl, List, [], ◌∷◌, arith, replicate, memeq, none, some, true, false, ok, if◌then◌else◌,
}
use eioie_client.Chain.Block
use eioie_client.Chain.Block.{Block}
use eioie_client.Chain.Root
use eioie_client.Chain.Root.{Root}
use eioie_client.Chain.Transaction
use eioie_client.Chain.Transaction.{File, FileChunk, Transaction}
use eioie_client.Group.{Group, find_transaction}
use eioie_client.World.{WorldPeer, PeerType, no_flags}
use eioie_client.Job.State.{ChunkState, JobChunk, Job, counter, chunk_state}
use eioie_client.Job.{Env, add, find_job, new_job, resume}
use eioie_client.Job.Arrival.{Downloads, mark_chunk, mark_job, update_jobs}
use eioie_client.Job.Counts.{number}
use eioie_client.Job.Sound.{IsSound, IsCounted, Ahead}
use eioie_client.Job.Mark.{is_there}
use eioie_client.Job.Finish.{all_done, update_jobs-all_done}
use eioie_client.Job.Steps.{Step, Reach, Reach-IsSound}
use eioie_client.Job.Asks.{Each, AsksFor, resume-AsksFor}

abbrev file_name : List ℕ
file_name = replicate 64 70

abbrev content : ℕ → FileChunk
content k = record {
  size = 100;
  part = k;
  tag = [];
  timeiter = [];
  content = replicate 64 k;
  chunk = replicate 64 9;
}

abbrev shared : Transaction
shared = record {
  version = 1;
  timestamp = 0;
  hash = [];
  kind = 1;
  prev = [];
  current = [];
  add = record {
    hash = [];
    pubkeyhash = replicate 64 80;
    name = file_name;
    size = 200;
    enc = [];
    tags = [];
    meta_hash = [];
    chunks = content 1 ∷ content 2 ∷ [];
    chunks_hash = [];
  };
}

abbrev remote : Group
remote =
    record {
      pubkeyhash = replicate 64 80;
      root = record {
        hash = [];
        blocks =
            record { prev = []; locked = []; nonce = 0; pow = []; transactions = shared ∷ [] } ∷ [];
      };
    }
    ∷ []

abbrev owner : WorldPeer
owner = record {
  kind = PeerType.peer_peer;
  address = record { host = 16777343; port = 9000 };
  unreachable = 0;
  pubkey = 75 ∷ [];
  pubkeyhash = replicate 64 80;
  authstr = [];
  version = 12;
  pingms = 0;
  flags = no_flags;
  description = [];
  ports = [];
  sent = 0;
}

abbrev here : Env
here = record {
  remote = remote;
  peers = owner ∷ [];
  download = 47 ∷ [];
  exists = λ path. false;
  now = 5;
  accepts = λ s. true;
}

abbrev started : List Job
started = new_job file_name shared.add ∷ []

add_first :
    add here (48 ∷ []) file_name []
    ≡ ok (started, record { exists = false; found = true; added = true })
unfolding add find_job find_transaction Root.find Root.find_loop Block.find Block.find_loop
    Transaction.find memeq
add_first = refl

history : Reach started
history = Reach.next Reach.start (Step.added here (48 ∷ []) file_name _ add_first)

Reach-IsSound_example : IsSound started
Reach-IsSound_example = Reach-IsSound started history

resume-AsksFor_example : Each (AsksFor here started) (resume here started).1
resume-AsksFor_example = resume-AsksFor here started

-- The first chunk is there, and the second one arrives.
abbrev chunk_in : ChunkState → ℕ → JobChunk
chunk_in s k = record {
  chunk = replicate 64 k;
  size = 100;
  state = s;
  updated = 5;
  net = record { host = 16777343; port = 9000 };
}

abbrev half : Job
half = record {
  name = file_name;
  size = 200;
  pubkeyhash = replicate 64 80;
  chunks = chunk_in ChunkState.done 1 ∷ chunk_in ChunkState.receiving 2 ∷ [];
  counter = record { none = 0; receiving = 1; notfound = 0; done = 1 };
}

abbrev whole : Job
whole = record half {
  chunks = chunk_in ChunkState.done 1 ∷ chunk_in ChunkState.done 2 ∷ [];
  counter = record { none = 0; receiving = 0; notfound = 0; done = 2 };
}

half-IsCounted : IsCounted half
unfolding number
half-IsCounted ChunkState.none = refl
half-IsCounted ChunkState.notfound = refl
half-IsCounted ChunkState.receiving = refl
half-IsCounted ChunkState.done = refl

marked : mark_job (replicate 64 2) (half ∷ []) ≡ some (whole ∷ [], whole)
unfolding mark_job mark_chunk chunk_state counter memeq
marked = refl

abbrev before : Downloads
before = record { jobs = half ∷ []; rogue = []; disk = λ path. none; done = [] }

update_jobs-all_done_example :
    (update_jobs (47 ∷ []) (replicate 64 2) (record { host = 1; port = 2 }) before
      ≡ ok (record before {
        jobs = whole ∷ [];
        done = if all_done whole.chunks then file_name ∷ [] else [];
      }))
    × (is_there (replicate 64 2) whole.chunks ≡ true)
    × Ahead (half ∷ []) (whole ∷ [])
update_jobs-all_done_example =
    update_jobs-all_done (47 ∷ []) (replicate 64 2) (record { host = 1; port = 2 }) before
      (whole ∷ []) whole (half-IsCounted, tt, tt) marked (omega arith)
