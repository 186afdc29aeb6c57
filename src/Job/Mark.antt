-- ===== src/Job/Mark.antt =====
-- The chunk that `update` of src/job.c marks.
use eioie_client.Base.{
  ℕ, ◌≡◌, refl, List, [], ◌∷◌, memeq, ◌&&◌, ◌||◌, Bool, true, false, Bool-cases, inl, inr,
  Option-cases, some,
}
use eioie_client.Job.State.{ChunkState, JobChunk, Counter, Job, chunk_state}
use eioie_client.Job.Arrival.{mark_chunk, mark_job}
use eioie_client.Job.Counts.{
  Counts, Forward, Forward-refl, behind, Counts-tail, Counts-cons, chunk_state-Counts, same_state,
}
use eioie_client.Job.Sound.{IsCounted, IsSound, Ahead, Ahead-refl, Ahead-IsFresh}

-- A chunk of that name is done.
unfoldable pub is_there : List ℕ → List JobChunk → Bool
is_there filename [] = false
is_there filename (jc ∷ jcs) =
    (memeq jc.chunk filename && same_state jc.state ChunkState.done) || is_there filename jcs

-- What a mark leaves of the chunks: one of that name is done, the counts, and what was done is done.
pub record Marked (before : ChunkState → ℕ) (filename : List ℕ) (jcs : List JobChunk)
    (r : Counter × List JobChunk) : Type 0 where
  pub forward : Forward jcs r.1
  pub counts : Counts before r.0 r.1
  pub there : is_there filename r.1 ≡ true

mark_chunk_cons-Marked :
    (before : ChunkState → ℕ) (filename : List ℕ) (jc : JobChunk) (jcs : List JobChunk)
    (r : Counter × List JobChunk)
    → memeq jc.chunk filename ≡ false
    → Marked (behind before jc) filename jcs r
    → Marked before filename (jc ∷ jcs) (r.0, jc ∷ r.1)
unfolding is_there
mark_chunk_cons-Marked before filename jc jcs r other m = record {
  forward = (refl, λ e. e, m.forward);
  counts = Counts-cons before r.0 jc r.1 m.counts;
  there = rw other m.there;
}

mark_chunk-Marked :
    (before : ChunkState → ℕ) (filename : List ℕ) (c : Counter) (jcs : List JobChunk)
    (r : Counter × List JobChunk)
    → Counts before c jcs
    → mark_chunk filename c jcs ≡ some r
    → Marked before filename jcs r
unfolding is_there mark_chunk chunk_state
mark_chunk-Marked before filename c [] r h e = cc
mark_chunk-Marked before filename c (jc ∷ jcs) r h e = elim (Bool-cases (memeq jc.chunk filename)) [
  | inl this ↦
      let marked = chunk_state c jc ChunkState.done in
      let same : (marked.0, marked.1 ∷ jcs) ≡ r = let f = rw this at e in cc in
      rw (← same) (record {
        forward = (refl, λ d. refl, Forward-refl jcs);
        counts = chunk_state-Counts before c jc jcs ChunkState.done h;
        there = rw this refl;
      })
  | inr other ↦ elim (Option-cases (mark_chunk filename c jcs)) [
    | inl nowhere ↦ absurd (let f = rw (other, nowhere) at e in cc)
    | inr (q, found) ↦
        let same : (q.0, jc ∷ q.1) ≡ r = let f = rw (other, found) at e in cc in
        rw (← same) (
          mark_chunk_cons-Marked before filename jc jcs q other (
            mark_chunk-Marked (behind before jc) filename c jcs q (Counts-tail before c jc jcs h)
              found))
  ]
]

-- What a mark leaves of the jobs.
pub record MarkedJobs (filename : List ℕ) (jobs : List Job) (r : List Job × Job) : Type 0 where
  pub ahead : Ahead jobs r.0
  pub sound : IsSound r.0
  pub counted : IsCounted r.1
  pub there : is_there filename r.1.chunks ≡ true

pub mark_job-MarkedJobs :
    (filename : List ℕ) (jobs : List Job) (r : List Job × Job)
    → IsSound jobs
    → mark_job filename jobs ≡ some r
    → MarkedJobs filename jobs r
unfolding mark_job
mark_job-MarkedJobs filename [] r sound e = cc
mark_job-MarkedJobs filename (j ∷ jobs) r sound e =
    elim (Option-cases (mark_chunk filename j.counter j.chunks)) [
      | inr ((c, jcs), here) ↦
          let m = mark_chunk-Marked (λ s. 0) filename j.counter j.chunks (c, jcs) sound.0 here in
          let j' : Job = record j { counter = c; chunks = jcs } in
          let same : (j' ∷ jobs, j') ≡ r = let f = rw (mark_job, here) at e in cc in
          rw (← same) (record {
            ahead = (refl, m.forward, Ahead-refl jobs);
            sound = (m.counts, sound.1, sound.2);
            counted = m.counts;
            there = m.there;
          })
      | inl past ↦ elim (Option-cases (mark_job filename jobs)) [
        | inl nowhere ↦ absurd (let f = rw (mark_job, past, nowhere) at e in cc)
        | inr (q, found) ↦
            let same : (j ∷ q.0, q.1) ≡ r = let f = rw (mark_job, past, found) at e in cc in
            let m = mark_job-MarkedJobs filename jobs q sound.2 found in
            rw (← same) (record {
              ahead = (refl, Forward-refl j.chunks, m.ahead);
              sound = (sound.0, Ahead-IsFresh j.name jobs q.0 m.ahead sound.1, m.sound);
              counted = m.counted;
              there = m.there;
            })
      ]
    ]
