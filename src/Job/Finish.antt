-- ===== src/Job/Finish.antt =====
-- When `update` of src/job.c tells that a job is done.
use eioie_client.Base.{
  ℕ, ◌^◌, size_of_int, size_of_int_small, ◌≤◌, ◌<◌, ◌≡◌, refl, List, [], ◌∷◌, ◌++◌, length, take,
  ◌==◌, ◌&&◌, arith, Bool, true, ◌∙◌, Bool-cases, inl, inr, Option-cases, none, some, ok, >>=-eq-ok,
  if◌then◌else◌,
}
use eioie_client.Packet.{Address}
use eioie_client.Rogue.{Reason, rogue_add}
use eioie_client.Task
use eioie_client.Job.State.{ChunkState, JobChunk, Job}
use eioie_client.Job.Arrival.{Downloads, mark_job, update_jobs}
use eioie_client.Job.Counts.{number, same_state}
use eioie_client.Job.Sound.{IsSound, Ahead, Ahead-refl}
use eioie_client.Job.Mark.{is_there, mark_job-MarkedJobs}

-- Every chunk is there.
unfoldable pub all_done : List JobChunk → Bool
all_done [] = true
all_done (jc ∷ jcs) = same_state jc.state ChunkState.done && all_done jcs

number-at_most : (s : ChunkState) (jcs : List JobChunk) → number s jcs ≤ length jcs
unfolding number
number-at_most s [] = omega arith
number-at_most s (jc ∷ jcs) = let rest = number-at_most s jcs in ground arith

-- The counter is the length where all the chunks are done, and no other time.
number-all_done : (jcs : List JobChunk) → (number ChunkState.done jcs == length jcs) ≡ all_done jcs
unfolding number all_done
number-all_done [] = refl
number-all_done (jc ∷ jcs) =
    let rest = number-all_done jcs in
    let most = number-at_most ChunkState.done jcs in
    elim (Bool-cases (same_state jc.state ChunkState.done)) [
      | inl there ↦ rw there (ground arith)
      | inr busy ↦ rw busy (ground arith)
    ]

module _ (download filename : List ℕ) (from : Address) (d : Downloads) where
  unwanted :
      (d' : Downloads)
      → mark_job filename d.jobs ≡ none
      → update_jobs download filename from d ≡ ok d'
      → d'.jobs ≡ d.jobs
  unfolding update_jobs
  unwanted d' nowhere e = elim (Option-cases (d.disk (take 511 (download ++ filename)))) [
    | inl absent ↦ absurd (let f = rw (update_jobs, nowhere, absent) at e in cc)
    | inr (content, there) ↦
        let removed = Task.remove d.disk (take 511 (download ++ filename)) in
        let (listed, added, last) =
          >>=-eq-ok
            (rogue_add d.rogue
              (record { host = from.host; port = from.port; reason = Reason.unwanted_file }))
            (λ r. ok (record d { rogue = r; disk = removed }))
            (rw (update_jobs, nowhere, there) at e) in
        cc
  ]

  wanted :
      (d' : Downloads) (r : List Job × Job)
      → mark_job filename d.jobs ≡ some r
      → update_jobs download filename from d ≡ ok d'
      → d'.jobs ≡ r.0
  unfolding update_jobs
  wanted d' r here e = let f = rw (update_jobs, here) at e in cc

  pub update_jobs-IsSound :
      (d' : Downloads)
      → IsSound d.jobs
      → update_jobs download filename from d ≡ ok d'
      → IsSound d'.jobs × Ahead d.jobs d'.jobs
  update_jobs-IsSound d' sound e = elim (Option-cases (mark_job filename d.jobs)) [
    | inl nowhere ↦ rw (unwanted d' nowhere e) (sound, Ahead-refl d.jobs)
    | inr (r, here) ↦
        let m = mark_job-MarkedJobs filename d.jobs r sound here in
        rw (wanted d' r here e) (m.sound, m.ahead)
  ]

-- If a sound list of jobs has one that wants a file and that has fewer than 2 ^ 31 chunks, `update`
-- returns 0 and tells that the job is done exactly if all its chunks are done then; one chunk of that
-- name is done, and no name changes and no chunk that was done stops being so.
pub update_jobs-all_done :
    (download filename : List ℕ) (from : Address) (d : Downloads) (jobs : List Job) (j : Job)
    → IsSound d.jobs
    → mark_job filename d.jobs ≡ some (jobs, j)
    → length j.chunks < 2 ^ 31
    → (update_jobs download filename from d
        ≡ ok (record d {
          jobs = jobs;
          done = if all_done j.chunks then d.done ++ j.name ∷ [] else d.done;
        }))
      × (is_there filename j.chunks ≡ true)
      × Ahead d.jobs jobs
unfolding update_jobs
update_jobs-all_done download filename from d jobs j sound found few =
    let m = mark_job-MarkedJobs filename d.jobs (jobs, j) sound found in
    let counted = m.counted ChunkState.done in
    let most = number-at_most ChunkState.done j.chunks in
    let exact : j.counter.done ≡ number ChunkState.done j.chunks = omega arith in
    let plain : size_of_int j.counter.done ≡ number ChunkState.done j.chunks =
      size_of_int_small j.counter.done (omega arith) ∙ exact in
    let full : (size_of_int j.counter.done == length j.chunks) ≡ all_done j.chunks =
      rw plain (number-all_done j.chunks) in
    (rw (update_jobs, found, full) refl, m.there, m.ahead)
