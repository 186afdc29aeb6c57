-- ===== src/Job/Progress.antt =====
-- What `resume` of src/job.c leaves of the downloads: the counters count the chunks, and no chunk
-- that is done is asked for again.
use eioie_client.Base.{ℕ, ◌≡◌, ◌≢◌, refl, List, [], ◌∷◌, ◌++◌, Bool, Bool-cases, inl, inr}
use eioie_client.Packet.{Address}
use eioie_client.Job.State.{ChunkState, JobChunk, Counter}
use eioie_client.Job.{Env, Stepped, resume_chunk, resume_chunks}
use eioie_client.Job.Counts.{
  Counts, Kept, Forward, Forward-refl, behind, Counts-tail, Counts-cons, chunk_start-Kept,
  late-Kept,
}

-- What `resume` leaves of a chunk, by its state.
record Resumed (before : ChunkState → ℕ) (jc : JobChunk) (jcs : List JobChunk) (r : Stepped)
    : Type 0 where
  left : JobChunk
  one : r.chunks ≡ left ∷ []
  name : left.chunk ≡ jc.chunk
  stays : jc.state ≡ ChunkState.done → left.state ≡ ChunkState.done
  counts : Counts before r.counter (left ∷ jcs)

Kept-Resumed :
    {before : ChunkState → ℕ} {jc : JobChunk} {jcs : List JobChunk} {r : Stepped}
    → (jc.state ≢ ChunkState.done)
    → Kept before jc jcs r
    → Resumed before jc jcs r
Kept-Resumed busy k = record {
  left = k.left;
  one = k.one;
  name = k.name;
  stays = λ e. absurd (busy e);
  counts = k.counts;
}

pub not_done-none : ChunkState.none ≢ ChunkState.done
not_done-none e = cc

pub not_done-notfound : ChunkState.notfound ≢ ChunkState.done
not_done-notfound e = cc

pub not_done-receiving : ChunkState.receiving ≢ ChunkState.done
not_done-receiving e = cc

-- One pass of `resume` over the chunks of a job.
pub record Passed (before : ChunkState → ℕ) (jcs : List JobChunk) (r : Stepped) : Type 0 where
  pub forward : Forward jcs r.chunks
  pub counts : Counts before r.counter r.chunks

module _ (env : Env) (name : List ℕ) where
  resume_chunk_by-Resumed :
      (before : ChunkState → ℕ) (c : Counter) (chunk : List ℕ) (size : ℕ) (s : ChunkState)
      (updated : ℕ) (net : Address) (jcs : List JobChunk)
      → let jc : JobChunk = record {
        chunk = chunk;
        size = size;
        state = s;
        updated = updated;
        net = net;
      } in
        Counts before c (jc ∷ jcs) → Resumed before jc jcs (resume_chunk env name c jc)
  unfolding resume_chunk
  resume_chunk_by-Resumed before c chunk size ChunkState.none updated net jcs h =
      Kept-Resumed not_done-none (chunk_start-Kept env name before c _ jcs h)
  resume_chunk_by-Resumed before c chunk size ChunkState.notfound updated net jcs h =
      Kept-Resumed not_done-notfound (late-Kept env name before c _ jcs h)
  resume_chunk_by-Resumed before c chunk size ChunkState.receiving updated net jcs h =
      Kept-Resumed not_done-receiving (late-Kept env name before c _ jcs h)
  resume_chunk_by-Resumed before c chunk size ChunkState.done updated net jcs h = record {
    left = _;
    one = refl;
    name = refl;
    stays = λ d. d;
    counts = h;
  }

  -- The chunks in front, and those behind.
  join-Passed :
      (before : ChunkState → ℕ) (c : Counter) (jc : JobChunk) (jcs : List JobChunk)
      (left : JobChunk) (rest : List JobChunk)
      → left.chunk ≡ jc.chunk
      → (jc.state ≡ ChunkState.done → left.state ≡ ChunkState.done)
      → Forward jcs rest
      → Counts (behind before left) c rest
      → (sent : List _) (go : Bool)
      → Passed before
          (jc ∷ jcs)
          (record { counter = c; chunks = (left ∷ []) ++ rest; sent = sent; continues = go })
  join-Passed before c jc jcs left rest same stays forward h sent go = record {
    forward = (same, stays, forward);
    counts = Counts-cons before c left rest h;
  }

  pub resume_chunks-Passed :
      (before : ChunkState → ℕ) (c : Counter) (jcs : List JobChunk)
      → Counts before c jcs
      → Passed before jcs (resume_chunks env name c jcs)
  unfolding resume_chunks
  resume_chunks-Passed before c [] h = record { forward = tt; counts = h }
  resume_chunks-Passed before c (jc ∷ jcs) h =
      let r = resume_chunk env name c jc in
      let first =
        resume_chunk_by-Resumed before c jc.chunk jc.size jc.state jc.updated jc.net jcs h in
      let counts = Counts-tail before r.counter first.left jcs first.counts in
      let rest = resume_chunks-Passed (behind before first.left) r.counter jcs counts in
      elim (Bool-cases r.continues) [
        | inl on ↦
            rw (on, first.one)
              (join-Passed before _ jc jcs first.left _ first.name first.stays rest.forward
                rest.counts _ _)
        | inr off ↦
            rw (off, first.one)
              (join-Passed before _ jc jcs first.left jcs first.name first.stays (Forward-refl jcs)
                counts _ _)
      ]
