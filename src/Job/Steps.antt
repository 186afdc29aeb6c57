-- ===== src/Job/Steps.antt =====
-- The list of jobs over the calls that change it: `add`, `resume`, `update`, `job_remove` and
-- `job_clean` of src/job.c and `dfile` of src/mpeer.c, in any order.
use eioie_client.Base.{ℕ, ◌≡◌, List, [], inl, inr, ok}
use eioie_client.Packet.{Address, Tcp}
use eioie_client.Utils.Hex.{Sha256}
use eioie_client.Inbox.{Inbox, Shelf, dfile}
use eioie_client.Inbox.Jobs.{dfile-IsJobStep}
use eioie_client.Job.State.{Job}
use eioie_client.Job.{Env, Added, add, resume, job_remove, job_clean}
use eioie_client.Job.Arrival.{Downloads, update_jobs}
use eioie_client.Job.Sound.{IsSound, add-IsSound, resume-IsSound, job_remove-IsSound}
use eioie_client.Job.Finish.{update_jobs-IsSound}

-- One call that returns.
pub data Step : List Job → List Job → Type 0 where
  added :
      {jobs jobs' : List Job} (env : Env) (finalized file : List ℕ) (a : Added)
      → add env finalized file jobs ≡ ok (jobs', a)
      → Step jobs jobs'
  resumed : {jobs : List Job} (env : Env) → Step jobs (resume env jobs).0
  arrived :
      (download filename : List ℕ) (from : Address) (d d' : Downloads)
      → update_jobs download filename from d ≡ ok d'
      → Step d.jobs d'.jobs
  received :
      (sha : Sha256) (print_double : ℕ → List ℕ) (stack : List ℕ) (nmt : ℕ) (shelf : Shelf)
      (tcp : Tcp) (tidx : ℕ) (from : Address) (hash fullpath filename : List ℕ) (s s' : Inbox)
      → dfile sha print_double stack nmt shelf tcp tidx from hash fullpath filename s ≡ ok s'
      → Step s.downloads.jobs s'.downloads.jobs
  removed : {jobs : List Job} (file : List ℕ) → Step jobs (job_remove file jobs).0
  cleaned : {jobs : List Job} → Step jobs job_clean

-- The lists that calls lead to, from the empty one.
pub data Reach : List Job → Type 0 where
  start : Reach []
  next : {jobs jobs' : List Job} → Reach jobs → Step jobs jobs' → Reach jobs'

Step-IsSound : (jobs jobs' : List Job) → Step jobs jobs' → IsSound jobs → IsSound jobs'
Step-IsSound jobs jobs' (added env finalized file a e) sound =
    add-IsSound env finalized file jobs jobs' a sound e
Step-IsSound jobs _ (resumed env) sound = resume-IsSound env jobs sound
Step-IsSound _ _ (arrived download filename from d d' e) sound =
    (update_jobs-IsSound download filename from d d' sound e).0
Step-IsSound _ _
      (received sha print_double stack nmt shelf tcp tidx from hash fullpath filename s s' e)
      sound =
    elim (dfile-IsJobStep sha print_double stack nmt shelf tcp tidx from hash fullpath filename s s'
      e) [
        | inl same ↦ rw same sound
        | inr ran ↦
            (update_jobs-IsSound shelf.download filename from s.downloads s'.downloads sound ran).0
      ]
Step-IsSound jobs _ (removed file) sound = job_remove-IsSound file jobs sound
Step-IsSound jobs _ cleaned sound = tt

-- In every list of downloads that is reached from the empty one by calls of `add`, `resume`,
-- `update`, `job_remove`, `job_clean` and `dfile` that return 0, in any order and with any
-- surroundings, the four counters of each job are the numbers, of 32 bits, of its chunks in the four states, and no two
-- jobs have one name.
pub Reach-IsSound : (jobs : List Job) → Reach jobs → IsSound jobs
Reach-IsSound _ start = tt
Reach-IsSound _ (next {jobs} {jobs'} before step) =
    Step-IsSound jobs jobs' step (Reach-IsSound jobs before)
