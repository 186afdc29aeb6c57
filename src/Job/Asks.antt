-- ===== src/Job/Asks.antt =====
-- What `resume` of src/job.c asks the other peers for.
use eioie_client.Base.{
  ℕ, ◌+◌, ◌≡◌, ◌≢◌, ◌⊎◌, refl, List, [], ◌∷◌, ◌++◌, take, ltb, ◌==◌, ◌&&◌, true, false, Bool-cases,
  inl, inr, Option, none, some, Run, ok, fail, fault, if◌then◌else◌,
}
use eioie_client.Packet.{Address}
use eioie_client.Command.{Content}
use eioie_client.World.{Send, peer_isreachable}
use eioie_client.Job.State.{ChunkState, JobChunk, Counter, Job, chunk_state}
use eioie_client.Job.{
  Env, fileask, chunk_find, chunk_request, chunk_found, chunk_start, chunk_restart, resume_chunk,
  resume_chunks, resume, settled, max_job_chunk_idle,
}
use eioie_client.Job.Progress.{not_done-none, not_done-notfound, not_done-receiving}

-- A request for the chunk, which is not in `cfg.dir.download`.
abbrev pub Requests : Env → List ℕ → List ℕ → Send → Type 0
Requests env name chunk s =
    (env.exists (take 255 (env.download ++ chunk)) ≡ false)
    × (s.content ≡ Content.fileask name chunk)
    × (env.accepts s ≡ true)

-- A request for one of the chunks that are not done.
abbrev pub Asks : Env → List ℕ → List JobChunk → Send → Type 0
Asks env name [] s = ⊥
Asks env name (jc ∷ jcs) s =
    ((jc.state ≢ ChunkState.done) × Requests env name jc.chunk s) ⊎ Asks env name jcs s

-- A request for a chunk of one of the jobs.
abbrev pub AsksFor : Env → List Job → Send → Type 0
AsksFor env [] s = ⊥
AsksFor env (j ∷ jobs) s = Asks env j.name j.chunks s ⊎ AsksFor env jobs s

abbrev pub Each : (Send → Type 0) → List Send → Type 0
Each P [] = Unit
Each P (s ∷ sent) = P s × Each P sent

Each-map :
    (P Q : Send → Type 0) (sent : List Send) → ((s : Send) → P s → Q s) → Each P sent → Each Q sent
Each-map P Q [] f h = tt
Each-map P Q (s ∷ sent) f h = (f s h.0, Each-map P Q sent f h.1)

Each-append : (P : Send → Type 0) (a b : List Send) → Each P a → Each P b → Each P (a ++ b)
Each-append P [] b h k = k
Each-append P (s ∷ a) b h k = (h.0, Each-append P a b h.1 k)

module _ (env : Env) (name : List ℕ) where
  chunk_request-Requests :
      (c : Counter) (jc : JobChunk)
      → Each (Requests env name jc.chunk) (chunk_request env name c jc).sent
  unfolding chunk_request chunk_state
  chunk_request-Requests c jc =
      elim (Bool-cases (env.exists (take 255 (env.download ++ jc.chunk)))) [
        | inl there ↦ rw there tt
        | inr absent ↦ elim (Bool-cases (jc.net.host == 0 && jc.net.port == 0)) [
          | inl nobody ↦ rw (absent, nobody) tt
          | inr owner ↦
              let s =
                fileask name (record jc { state = ChunkState.receiving; updated = env.now }) in
              elim (Bool-cases (env.accepts s)) [
                | inl accepted ↦ rw (absent, owner, accepted) ((absent, refl, accepted), tt)
                | inr refused ↦ rw (absent, owner, refused) tt
              ]
        ]
      ]

  chunk_found-Requests :
      (c : Counter) (jc : JobChunk) (r : Run (Option Address))
      → Each (Requests env name jc.chunk) (chunk_found env name c jc r).sent
  unfolding chunk_found
  chunk_found-Requests c jc (ok none) = chunk_request-Requests c jc
  chunk_found-Requests c jc (ok (some a)) = chunk_request-Requests c (record jc { net = a })
  chunk_found-Requests c jc fail = tt
  chunk_found-Requests c jc fault = tt

  chunk_start-Requests :
      (c : Counter) (jc : JobChunk)
      → Each (Requests env name jc.chunk) (chunk_start env name c jc).sent
  unfolding chunk_start
  chunk_start-Requests c jc = chunk_found-Requests c jc (chunk_find env name)

  late-Requests :
      (c : Counter) (jc : JobChunk)
      → Each
          (Requests env name jc.chunk)
          (if ltb (jc.updated + max_job_chunk_idle) env.now
            then chunk_restart env name c jc
            else settled (c, jc)).sent
  unfolding chunk_restart
  late-Requests c jc = elim (Bool-cases (ltb (jc.updated + max_job_chunk_idle) env.now)) [
    | inr soon ↦ rw soon tt
    | inl late ↦ elim (Bool-cases (peer_isreachable jc.net env.peers)) [
      | inl there ↦ rw (late, there) tt
      | inr gone ↦ rw (late, gone) (chunk_start-Requests c jc)
    ]
  ]

  resume_chunk_by-Asks :
      (c : Counter) (chunk : List ℕ) (size : ℕ) (s : ChunkState) (updated : ℕ) (net : Address)
      → let jc : JobChunk = record {
        chunk = chunk;
        size = size;
        state = s;
        updated = updated;
        net = net;
      } in
        Each
          (λ sent. (s ≢ ChunkState.done) × Requests env name chunk sent)
          (resume_chunk env name c jc).sent
  unfolding resume_chunk
  resume_chunk_by-Asks c chunk size ChunkState.none updated net =
      Each-map _ _ _ (λ s h. (not_done-none, h)) (chunk_start-Requests c _)
  resume_chunk_by-Asks c chunk size ChunkState.notfound updated net =
      Each-map _ _ _ (λ s h. (not_done-notfound, h)) (late-Requests c _)
  resume_chunk_by-Asks c chunk size ChunkState.receiving updated net =
      Each-map _ _ _ (λ s h. (not_done-receiving, h)) (late-Requests c _)
  resume_chunk_by-Asks c chunk size ChunkState.done updated net = tt

  resume_chunks-Asks :
      (c : Counter) (jcs : List JobChunk)
      → Each (Asks env name jcs) (resume_chunks env name c jcs).sent
  unfolding resume_chunks
  resume_chunks-Asks c [] = tt
  resume_chunks-Asks c (jc ∷ jcs) =
      let r = resume_chunk env name c jc in
      let first : Each (Asks env name (jc ∷ jcs)) r.sent =
        Each-map _ _ _ (λ s h. inl h)
          (resume_chunk_by-Asks c jc.chunk jc.size jc.state jc.updated jc.net) in
      let rest : Each (Asks env name (jc ∷ jcs)) (resume_chunks env name r.counter jcs).sent =
        Each-map _ _ _ (λ s h. inr h) (resume_chunks-Asks r.counter jcs) in
      elim (Bool-cases r.continues) [
        | inl on ↦ rw on (Each-append _ r.sent _ first rest)
        | inr off ↦ rw off first
      ]

-- Everything that `resume` sends is a request, which `payload.send` accepts, for a chunk of a job
-- that is not done and that is not in the directory of the downloads.
pub resume-AsksFor : (env : Env) (jobs : List Job) → Each (AsksFor env jobs) (resume env jobs).1
unfolding resume
resume-AsksFor env [] = tt
resume-AsksFor env (j ∷ jobs) =
    let r = resume_chunks env j.name j.counter j.chunks in
    let first : Each (AsksFor env (j ∷ jobs)) r.sent =
      Each-map _ _ _ (λ s h. inl h) (resume_chunks-Asks env j.name j.counter j.chunks) in
    let rest : Each (AsksFor env (j ∷ jobs)) (resume env jobs).1 =
      Each-map _ _ _ (λ s h. inr h) (resume-AsksFor env jobs) in
    elim (Bool-cases r.continues) [
      | inl on ↦ rw on (Each-append _ r.sent _ first rest)
      | inr off ↦ rw off first
    ]
