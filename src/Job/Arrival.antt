-- ===== src/Job/Arrival.antt =====
-- `update` of src/job.c: a file has arrived.
use eioie_client.Base.{
  ℕ, size_of_int, List, [], ◌∷◌, ◌++◌, length, take, memeq, ◌==◌, Option, none, some, Run, ok, fail,
  ◌>>=◌, if◌then◌else◌,
}
use eioie_client.Packet.{Address}
use eioie_client.Task
use eioie_client.Task.{Disk}
use eioie_client.Rogue.{Rogue, Reason, rogue_add}
use eioie_client.Job.State.{ChunkState, JobChunk, Counter, Job, chunk_state}

-- The chunks of a job with the first one of that name done, and the counters.
unfoldable pub mark_chunk : List ℕ → Counter → List JobChunk → Option (Counter × List JobChunk)
unfolding chunk_state
mark_chunk filename c [] = none
mark_chunk filename c (jc ∷ jcs) =
    let rest = mark_chunk filename c jcs in
    let (c', jc') = chunk_state c jc ChunkState.done in
    if memeq jc.chunk filename
    then some (c', jc' ∷ jcs)
    else elim rest [ none ↦ none | some r ↦ some (r.0, jc ∷ r.1) ]

-- The jobs with that chunk done in the first one that has it, and this job.
unfoldable pub mark_job : List ℕ → List Job → Option (List Job × Job)
unfolding mark_chunk
mark_job filename [] = none
mark_job filename (j ∷ jobs) =
    let rest = mark_job filename jobs in
    elim (mark_chunk filename j.counter j.chunks) [
      | some (c, jcs) ↦
          let j' : Job = record j { counter = c; chunks = jcs } in some (j' ∷ jobs, j')
      | none ↦ elim rest [ none ↦ none | some r ↦ some (j ∷ r.0, r.1) ]
    ]

-- What `update` changes: the jobs, the rogue list, the disk, and the names that
-- `p->api.cb.job.done` is told.
pub record Downloads : Type 0 where
  pub jobs : List Job
  pub rogue : List Rogue
  pub disk : Disk
  pub done : List (List ℕ)

-- `update` of a name of 64 bytes that came from `from`; `download` ends in a slash. A file that no
-- job wants is removed, which fails where it is not there. The counter is an `int` in two's
-- complement, which is compared with a `size_t`.
unfoldable pub update_jobs : List ℕ → List ℕ → Address → Downloads → Run Downloads
unfolding mark_job size_of_int
update_jobs download filename from d = elim (mark_job filename d.jobs) [
  | none ↦
      let path = take 511 (download ++ filename) in
      elim (d.disk path) [
        | none ↦ fail
        | some content ↦
            rogue_add d.rogue
              (record { host = from.host; port = from.port; reason = Reason.unwanted_file })
            >>= λ rogue. ok (record d { rogue = rogue; disk = Task.remove d.disk path })
      ]
  | some (jobs, j) ↦ ok (record d {
    jobs = jobs;
    done = if size_of_int j.counter.done == length j.chunks then d.done ++ j.name ∷ [] else d.done;
  })
]
