-- ===== src/Job.antt =====
-- The downloads: src/job.c without what loads, saves, dumps and decrypts them. A job is a file, and
-- its chunks are asked for and arrive one by one.
pub mod State
pub mod Arrival
pub mod Counts
pub mod Progress
pub mod Sound
pub mod Mark
pub mod Finish
pub mod Steps
pub mod Asks
pub mod Order
use eioie_client.Base.{
  ℕ, ◌+◌, ◌-◌, ◌%◌, ◌^◌, List, [], ◌∷◌, ◌++◌, length, take, ltb, memeq, ◌==◌, ◌&&◌, Bool, true,
  false, Option, none, some, map, Run, ok, fail, fault, ◌>>=◌, if◌then◌else◌,
}
use eioie_client.Packet.{Address}
use eioie_client.Job.State.{ChunkState, JobChunk, Counter, Job, inc, counter, chunk_state}
use eioie_client.Command.{Content}
use eioie_client.Chain.Transaction.{File, FileChunk}
use eioie_client.World.{WorldPeer, Send, peer_findpubkeyhash, peer_isreachable}
use eioie_client.Group.{Group, find_transaction, find_owner}

-- What the downloads read of the peer: the roots of the others, the peers that are there,
-- `cfg.dir.download` with its slash, whether a file is there, the clock, and for which calls
-- `payload.send` returns 0.
pub record Env : Type 0 where
  pub remote : Group
  pub peers : List WorldPeer
  pub download : List ℕ
  pub exists : List ℕ → Bool
  pub now : ℕ
  pub accepts : Send → Bool

-- `chunk_find`: where the owner of a root with the file is.
unfoldable pub chunk_find : Env → List ℕ → Run (Option Address)
unfolding find_owner peer_findpubkeyhash
chunk_find env filename =
    find_owner
      (λ hash. elim (peer_findpubkeyhash hash env.peers) [
        | none ↦ none
        | some wp ↦ some wp.address
      ])
      env.remote filename

-- What a step leaves of a job: the counters, the chunks, what was sent, and whether it returned 0.
pub record Stepped : Type 0 where
  pub counter : Counter
  pub chunks : List JobChunk
  pub sent : List Send
  pub continues : Bool

abbrev pub settled : Counter × JobChunk → Stepped
settled (c, jc) = record { counter = c; chunks = jc ∷ []; sent = []; continues = true }

abbrev pub stopped : Counter → JobChunk → Stepped
stopped c jc = record { counter = c; chunks = jc ∷ []; sent = []; continues = false }

-- The request for a chunk, `payload.send` with what `send_buffer` holds.
abbrev pub fileask : List ℕ → JobChunk → Send
fileask name jc = record { command = 7; to = jc.net; content = Content.fileask name jc.chunk }

-- `chunk_start` behind `chunk_find`, which has left the address of the chunk as it was, or set it.
unfoldable pub chunk_request : Env → List ℕ → Counter → JobChunk → Stepped
unfolding chunk_state
chunk_request env name c jc =
    if env.exists (take 255 (env.download ++ jc.chunk))
    then settled (chunk_state c jc ChunkState.done)
    else if jc.net.host == 0 && jc.net.port == 0
    then settled (chunk_state c jc ChunkState.notfound)
    else (let (c2, jc2) = chunk_state c jc ChunkState.receiving in
        let jc3 : JobChunk = record jc2 { updated = env.now } in
        let sends = env.accepts (fileask name jc3) in
        record {
          counter = c2;
          chunks = jc3 ∷ [];
          sent = if sends then fileask name jc3 ∷ [] else [];
          continues = sends;
        })

unfoldable pub chunk_found : Env → List ℕ → Counter → JobChunk → Run (Option Address) → Stepped
unfolding chunk_request
chunk_found env name c jc (ok none) = chunk_request env name c jc
chunk_found env name c jc (ok (some a)) = chunk_request env name c (record jc { net = a })
chunk_found env name c jc fail = stopped c jc
chunk_found env name c jc fault = stopped c jc

-- `chunk_start` of a chunk of the job `name`.
unfoldable pub chunk_start : Env → List ℕ → Counter → JobChunk → Stepped
unfolding chunk_find chunk_found
chunk_start env name c jc = chunk_found env name c jc (chunk_find env name)

-- `chunk_restart`.
unfoldable pub chunk_restart : Env → List ℕ → Counter → JobChunk → Stepped
unfolding peer_isreachable chunk_start
chunk_restart env name c jc =
    if peer_isreachable jc.net env.peers then settled (c, jc) else chunk_start env name c jc

-- MAX_JOB_CHUNK_IDLE.
abbrev pub max_job_chunk_idle : ℕ
max_job_chunk_idle = 10000

-- The switch of `resume` on one chunk.
unfoldable pub resume_chunk : Env → List ℕ → Counter → JobChunk → Stepped
unfolding chunk_start chunk_restart
resume_chunk env name c jc =
    let late =
      if ltb (jc.updated + max_job_chunk_idle) env.now
      then chunk_restart env name c jc
      else settled (c, jc) in
    elim jc.state [
      | ChunkState.none ↦ chunk_start env name c jc
      | ChunkState.notfound ↦ late
      | ChunkState.receiving ↦ late
      | ChunkState.done ↦ settled (c, jc)
    ]

-- The loop over the chunks.
unfoldable pub resume_chunks : Env → List ℕ → Counter → List JobChunk → Stepped
unfolding resume_chunk
resume_chunks env name c [] = record { counter = c; chunks = []; sent = []; continues = true }
resume_chunks env name c (jc ∷ jcs) =
    let r = resume_chunk env name c jc in
    let rest = resume_chunks env name r.counter jcs in
    if r.continues
    then record rest { chunks = r.chunks ++ rest.chunks; sent = r.sent ++ rest.sent }
    else record r { chunks = r.chunks ++ jcs }

-- `resume`: the jobs behind one that fails stay as they are.
unfoldable pub resume : Env → List Job → List Job × List Send
unfolding resume_chunks
resume env [] = ([], [])
resume env (j ∷ jobs) =
    let r = resume_chunks env j.name j.counter j.chunks in
    let j' : Job = record j { counter = r.counter; chunks = r.chunks } in
    let (jobs', sent) = resume env jobs in
    if r.continues then (j' ∷ jobs', r.sent ++ sent) else (j' ∷ jobs, r.sent)

-- `list.map` with `find_job`.
unfoldable pub find_job : List ℕ → List Job → Option Job
find_job file [] = none
find_job file (j ∷ jobs) = if memeq j.name file then some j else find_job file jobs

abbrev pub new_chunk : FileChunk → JobChunk
new_chunk f = record {
  chunk = f.content;
  size = f.size;
  state = ChunkState.none;
  updated = 0;
  net = record { host = 0; port = 0 };
}

-- The loop of `add`: `counter.none` goes up with each chunk.
unfoldable pub count_new : Counter → List FileChunk → Counter
unfolding counter
count_new c [] = c
count_new c (f ∷ fs) = count_new (counter inc ChunkState.none c) fs

abbrev pub no_chunks : Counter
no_chunks = record { none = 0; receiving = 0; notfound = 0; done = 0 }

unfoldable pub new_job : List ℕ → File → Job
unfolding count_new
new_job file f = record {
  name = file;
  size = f.size;
  pubkeyhash = f.pubkeyhash;
  chunks = map new_chunk f.chunks;
  counter = count_new no_chunks f.chunks;
}

-- What `add` writes: `*exists`, `*found` and `*added`. The last two are not written where the file
-- is there.
pub record Added : Type 0 where
  pub exists : Bool
  pub found : Bool
  pub added : Bool

-- The end of `add`, with what `find_transaction` wrote.
unfoldable pub add_found : List ℕ → List Job → Option File → Run (List Job × Added)
unfolding new_job
add_found file jobs none = ok (jobs, record { exists = false; found = false; added = false })
add_found file jobs (some f) =
    ok (jobs ++ new_job file f ∷ [], record { exists = false; found = true; added = true })

-- `add` of a name of 64 bytes; `finalized` is `cfg.dir.finalized` with its slash.
unfoldable pub add : Env → List ℕ → List ℕ → List Job → Run (List Job × Added)
unfolding find_job find_transaction add_found
add env finalized file jobs =
    if env.exists (take 255 (finalized ++ file))
    then ok (jobs, record { exists = true; found = false; added = false })
    else elim (find_job file jobs) [
      | some j ↦ ok (jobs, record { exists = false; found = true; added = true })
      | none ↦ find_transaction env.remote file >>= add_found file jobs
    ]

-- `job_remove`: the jobs, and `*removed`.
unfoldable pub job_remove : List ℕ → List Job → List Job × Bool
job_remove file [] = ([], false)
job_remove file (j ∷ jobs) =
    let (jobs', removed) = job_remove file jobs in
    if memeq j.name file then (jobs, true) else (j ∷ jobs', removed)

-- `job_clean` with `list.clean`.
abbrev pub job_clean : List Job
job_clean = []
