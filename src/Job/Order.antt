-- ===== src/Job/Order.antt =====
-- `dfs_job_add` of src/distfs.c: a download is asked for.
use eioie_client.Base.{ℕ, List, Run, ok, ◌>>=◌, if◌then◌else◌}
use eioie_client.Job.State.{Job}
use eioie_client.Job.{Env, Added, add}

-- `*dfserr` behind `job.add`; it stays as it was where the job is added.
unfoldable pub dfserr_of : ℕ → Added → ℕ
dfserr_of err a = if a.exists then 1 else if a.found then (if a.added then err else 3) else 2

-- `dfs_job_add` of a hash of 64 characters: the jobs and `*dfserr`.
unfoldable pub dfs_job_add : Env → (finalized hash : List ℕ) → ℕ → List Job → Run (List Job × ℕ)
unfolding add dfserr_of
dfs_job_add env finalized hash err jobs =
    add env finalized hash jobs >>= λ r. ok (r.0, dfserr_of err r.1)
