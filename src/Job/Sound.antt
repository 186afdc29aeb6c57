-- ===== src/Job/Sound.antt =====
-- Sound lists of jobs: the counters count the chunks, and the names differ. What `add`, `resume` and
-- `job_remove` of src/job.c leave of one.
use eioie_client.Base.{
  ℕ, ◌≡◌, refl, sym, List, [], ◌∷◌, ◌++◌, map, memeq, memeq-eq, eq→memeq, arith, true, false,
  Bool-cases, inl, inr, Option, Option-cases, none, some, take, >>=-eq-ok, ok,
}
use eioie_client.Chain.Transaction.{File, FileChunk}
use eioie_client.Group.{find_transaction}
use eioie_client.Job.State.{ChunkState, Counter, Job, inc, counter}
use eioie_client.Job.{
  Env, Added, find_job, add, add_found, new_job, new_chunk, count_new, no_chunks, resume,
  resume_chunks, job_remove,
}
use eioie_client.Job.Counts.{Counts, Forward, Forward-refl, number, behind, Counts-cons}
use eioie_client.Job.Progress.{resume_chunks-Passed}

-- The counters of the job are the numbers of its chunks, of 32 bits.
abbrev pub IsCounted : Job → Type 0
IsCounted j = Counts (λ s. 0) j.counter j.chunks

-- No job has the name.
abbrev pub IsFresh : List ℕ → List Job → Type 0
IsFresh file [] = Unit
IsFresh file (j ∷ jobs) = (memeq j.name file ≡ false) × IsFresh file jobs

-- Every job is counted, and no two have one name.
abbrev pub IsSound : List Job → Type 0
IsSound [] = Unit
IsSound (j ∷ jobs) = IsCounted j × IsFresh j.name jobs × IsSound jobs

-- The same names in the same order, and what was done is done.
abbrev pub Ahead : List Job → List Job → Type 0
Ahead [] [] = Unit
Ahead (a ∷ js) (b ∷ ks) = (b.name ≡ a.name) × Forward a.chunks b.chunks × Ahead js ks
Ahead js ks = ⊥

pub Ahead-refl : (jobs : List Job) → Ahead jobs jobs
Ahead-refl [] = tt
Ahead-refl (j ∷ jobs) = (refl, Forward-refl j.chunks, Ahead-refl jobs)

pub Ahead-IsFresh :
    (file : List ℕ) (js ks : List Job) → Ahead js ks → IsFresh file js → IsFresh file ks
Ahead-IsFresh file [] [] same h = tt
Ahead-IsFresh file (a ∷ js) (b ∷ ks) same h = (rw same.0 h.0, Ahead-IsFresh file js ks same.2 h.1)
Ahead-IsFresh file [] (b ∷ ks) same h = absurd same
Ahead-IsFresh file (a ∷ js) [] same h = absurd same

find_job-IsFresh : (file : List ℕ) (jobs : List Job) → find_job file jobs ≡ none → IsFresh file jobs
unfolding find_job
find_job-IsFresh file [] e = tt
find_job-IsFresh file (j ∷ jobs) e = elim (Bool-cases (memeq j.name file)) [
  | inl this ↦ absurd (let h = e in cc)
  | inr other ↦ (other, find_job-IsFresh file jobs (rw other at e))
]

memeq_sym : (xs ys : List ℕ) → memeq xs ys ≡ false → memeq ys xs ≡ false
memeq_sym xs ys e = elim (Bool-cases (memeq ys xs)) [
  | inl same ↦ let other : memeq xs ys ≡ true = eq→memeq xs ys (sym (memeq-eq ys xs same)) in cc
  | inr h ↦ h
]

append-IsFresh :
    (file : List ℕ) (jobs : List Job) (j : Job)
    → IsFresh file jobs
    → memeq j.name file ≡ false
    → IsFresh file (jobs ++ j ∷ [])
append-IsFresh file [] j fresh other = (other, tt)
append-IsFresh file (x ∷ jobs) j fresh other = (fresh.0, append-IsFresh file jobs j fresh.1 other)

-- A new job behind the others.
append-IsSound :
    (jobs : List Job) (j : Job)
    → IsSound jobs
    → IsFresh j.name jobs
    → IsCounted j
    → IsSound (jobs ++ j ∷ [])
append-IsSound [] j sound fresh counted = (counted, tt, tt)
append-IsSound (x ∷ jobs) j sound fresh counted = (
  sound.0,
  append-IsFresh x.name jobs j sound.1 (memeq_sym x.name j.name fresh.0),
  append-IsSound jobs j sound.2 fresh.1 counted,
)

one_more :
    (before : ChunkState → ℕ) (c : Counter) (f : FileChunk)
    → Counts before c []
    → Counts (behind before (new_chunk f)) (counter inc ChunkState.none c) []
unfolding number behind counter
one_more before c f h ChunkState.none = let known = h ChunkState.none in omega arith
one_more before c f h ChunkState.notfound = let known = h ChunkState.notfound in omega arith
one_more before c f h ChunkState.receiving = let known = h ChunkState.receiving in omega arith
one_more before c f h ChunkState.done = let known = h ChunkState.done in omega arith

-- The chunks of `count_new` are all new.
count_new-Counts :
    (before : ChunkState → ℕ) (c : Counter) (fs : List FileChunk)
    → Counts before c []
    → Counts before (count_new c fs) (map new_chunk fs)
unfolding count_new number
count_new-Counts before c [] h = h
count_new-Counts before c (f ∷ fs) h = Counts-cons before _ (new_chunk f) (map new_chunk fs) (
    count_new-Counts (behind before (new_chunk f)) (counter inc ChunkState.none c) fs
      (one_more before c f h))

no_chunks-Counts : Counts (λ s. 0) no_chunks []
unfolding number
no_chunks-Counts ChunkState.none = refl
no_chunks-Counts ChunkState.notfound = refl
no_chunks-Counts ChunkState.receiving = refl
no_chunks-Counts ChunkState.done = refl

new_job-IsCounted : (file : List ℕ) (f : File) → IsCounted (new_job file f)
unfolding new_job
new_job-IsCounted file f = count_new-Counts (λ s. 0) no_chunks f.chunks no_chunks-Counts

add_found-IsSound :
    (file : List ℕ) (jobs jobs' : List Job) (r : Option File) (a : Added)
    → IsSound jobs
    → IsFresh file jobs
    → add_found file jobs r ≡ ok (jobs', a)
    → IsSound jobs'
unfolding add_found new_job
add_found-IsSound file jobs jobs' none a sound fresh e =
    let same : jobs ≡ jobs' = cc in rw (← same) sound
add_found-IsSound file jobs jobs' (some f) a sound fresh e =
    let same : jobs ++ new_job file f ∷ [] ≡ jobs' = cc in
    rw (← same) (append-IsSound jobs (new_job file f) sound fresh (new_job-IsCounted file f))

pub add-IsSound :
    (env : Env) (finalized file : List ℕ) (jobs jobs' : List Job) (a : Added)
    → IsSound jobs
    → add env finalized file jobs ≡ ok (jobs', a)
    → IsSound jobs'
unfolding add
add-IsSound env finalized file jobs jobs' a sound e =
    elim (Bool-cases (env.exists (take 255 (finalized ++ file)))) [
      | inl there ↦ let same : jobs ≡ jobs' = let h = rw there at e in cc in rw (← same) sound
      | inr absent ↦ elim (Option-cases (find_job file jobs)) [
        | inr (j, known) ↦
            let same : jobs ≡ jobs' = let h = rw (absent, known) at e in cc in rw (← same) sound
        | inl fresh ↦
            let (r, found, last) =
              >>=-eq-ok (find_transaction env.remote file) (add_found file jobs)
                (rw (absent, fresh) at e) in
            add_found-IsSound file jobs jobs' r a sound (find_job-IsFresh file jobs fresh) last
      ]
    ]

-- What `job_remove` leaves.
job_remove-IsFresh :
    (name file : List ℕ) (jobs : List Job)
    → IsFresh name jobs
    → IsFresh name (job_remove file jobs).0
unfolding job_remove
job_remove-IsFresh name file [] fresh = tt
job_remove-IsFresh name file (j ∷ jobs) fresh = elim (Bool-cases (memeq j.name file)) [
  | inl this ↦ rw this fresh.1
  | inr other ↦ rw other (fresh.0, job_remove-IsFresh name file jobs fresh.1)
]

pub job_remove-IsSound :
    (file : List ℕ) (jobs : List Job) → IsSound jobs → IsSound (job_remove file jobs).0
unfolding job_remove
job_remove-IsSound file [] sound = tt
job_remove-IsSound file (j ∷ jobs) sound = elim (Bool-cases (memeq j.name file)) [
  | inl this ↦ rw this sound.2
  | inr other ↦
      rw other
        (sound.0, job_remove-IsFresh j.name file jobs sound.1, job_remove-IsSound file jobs sound.2)
]

-- `resume` goes ahead.
resume-Ahead : (env : Env) (jobs : List Job) → IsSound jobs → Ahead jobs (resume env jobs).0
unfolding resume
resume-Ahead env [] sound = tt
resume-Ahead env (j ∷ jobs) sound =
    let ahead = (resume_chunks-Passed env j.name (λ s. 0) j.counter j.chunks sound.0).forward in
    elim (Bool-cases (resume_chunks env j.name j.counter j.chunks).continues) [
      | inl on ↦ rw on (refl, ahead, resume-Ahead env jobs sound.2)
      | inr off ↦ rw off (refl, ahead, Ahead-refl jobs)
    ]

pub resume-IsSound : (env : Env) (jobs : List Job) → IsSound jobs → IsSound (resume env jobs).0
unfolding resume
resume-IsSound env [] sound = tt
resume-IsSound env (j ∷ jobs) sound =
    let counted = (resume_chunks-Passed env j.name (λ s. 0) j.counter j.chunks sound.0).counts in
    elim (Bool-cases (resume_chunks env j.name j.counter j.chunks).continues) [
      | inl on ↦ rw on (
        counted,
        Ahead-IsFresh j.name jobs _ (resume-Ahead env jobs sound.2) sound.1,
        resume-IsSound env jobs sound.2,
      )
      | inr off ↦ rw off (counted, sound.1, sound.2)
    ]
