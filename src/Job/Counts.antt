-- ===== src/Job/Counts.antt =====
-- The counters of a job are the numbers of its chunks in each state.
use eioie_client.Base.{
  ℕ, ◌+◌, ◌%◌, ◌^◌, ◌≡◌, refl, ◌∙◌, List, [], ◌∷◌, ◌++◌, arith, take, ltb, ◌==◌, ◌&&◌, Bool, true,
  false, Bool-cases, Option, none, some, inl, inr, Run, ok, fail, fault, if◌then◌else◌,
}
use eioie_client.Packet.{Address}
use eioie_client.World.{Send, peer_isreachable}
use eioie_client.Job.State.{ChunkState, JobChunk, Counter, inc, dec, counter, chunk_state}
use eioie_client.Job.{
  Env, Stepped, settled, chunk_find, chunk_start, chunk_restart, chunk_found, chunk_request,
  max_job_chunk_idle,
}

abbrev pub same_state : ChunkState → ChunkState → Bool
same_state ChunkState.none ChunkState.none = true
same_state ChunkState.notfound ChunkState.notfound = true
same_state ChunkState.receiving ChunkState.receiving = true
same_state ChunkState.done ChunkState.done = true
same_state s t = false

-- The counter of a state.
abbrev pub counter_of : ChunkState → Counter → ℕ
counter_of ChunkState.none c = c.none
counter_of ChunkState.notfound c = c.notfound
counter_of ChunkState.receiving c = c.receiving
counter_of ChunkState.done c = c.done

-- How many chunks are in the state.
unfoldable pub number : ChunkState → List JobChunk → ℕ
number s [] = 0
number s (jc ∷ jcs) = (if same_state jc.state s then 1 else 0) + number s jcs

-- The counters, of 32 bits, of chunks behind others of which there are `before`.
abbrev pub Counts : (ChunkState → ℕ) → Counter → List JobChunk → Type 0
Counts before c jcs = (s : ChunkState) → counter_of s c ≡ (before s + number s jcs) % 2 ^ 32

pub counter_of-counter :
    (step : ℕ → ℕ) (s t : ChunkState) (c : Counter)
    → counter_of s (counter step t c)
      ≡ (if same_state t s then step (counter_of s c) else counter_of s c)
unfolding counter
counter_of-counter step ChunkState.none ChunkState.none c = refl
counter_of-counter step ChunkState.none ChunkState.notfound c = refl
counter_of-counter step ChunkState.none ChunkState.receiving c = refl
counter_of-counter step ChunkState.none ChunkState.done c = refl
counter_of-counter step ChunkState.notfound ChunkState.none c = refl
counter_of-counter step ChunkState.notfound t c = ground arith
counter_of-counter step s t c = ground arith

pub chunk_state-Counts :
    (before : ChunkState → ℕ) (c : Counter) (jc : JobChunk) (jcs : List JobChunk) (t : ChunkState)
    → Counts before c (jc ∷ jcs)
    → Counts before (chunk_state c jc t).0 ((chunk_state c jc t).1 ∷ jcs)
unfolding chunk_state number
chunk_state-Counts before c jc jcs t h s =
    let first = counter_of-counter inc s t (counter dec jc.state c) in
    let second = counter_of-counter dec s jc.state c in
    let known = h s in
    elim (Bool-cases (same_state t s)) [
      | inl into ↦ elim (Bool-cases (same_state jc.state s)) [
        | inl out ↦ rw (first, second, into, out) (omega (arith, rw out at known))
        | inr other ↦ rw (first, second, into, other) (omega (arith, rw other at known))
      ]
      | inr past ↦ elim (Bool-cases (same_state jc.state s)) [
        | inl out ↦ rw (first, second, past, out) (omega (arith, rw out at known))
        | inr other ↦ rw (first, second, past, other) (omega (arith, rw other at known))
      ]
    ]

-- Steps that leave the state of the chunk alone leave the counts.
same-Counts :
    (before : ChunkState → ℕ) (c : Counter) (jc jc' : JobChunk) (jcs : List JobChunk)
    → jc'.state ≡ jc.state
    → Counts before c (jc ∷ jcs)
    → Counts before c (jc' ∷ jcs)
unfolding number
same-Counts before c jc jc' jcs e h s = h s ∙ rw e

-- The chunks from the second on, behind the first.
unfoldable pub behind : (ChunkState → ℕ) → JobChunk → ChunkState → ℕ
behind before jc s = before s + (if same_state jc.state s then 1 else 0)

pub Counts-tail :
    (before : ChunkState → ℕ) (c : Counter) (jc : JobChunk) (jcs : List JobChunk)
    → Counts before c (jc ∷ jcs)
    → Counts (behind before jc) c jcs
unfolding number behind
Counts-tail before c jc jcs h s = let known = h s in omega arith

pub Counts-cons :
    (before : ChunkState → ℕ) (c : Counter) (jc : JobChunk) (jcs : List JobChunk)
    → Counts (behind before jc) c jcs
    → Counts before c (jc ∷ jcs)
unfolding number behind
Counts-cons before c jc jcs h s = let known = h s in omega arith

-- What a step leaves of the first chunk: one chunk of the same name, and the counts.
pub record Kept (before : ChunkState → ℕ) (jc : JobChunk) (jcs : List JobChunk) (r : Stepped)
    : Type 0 where
  pub left : JobChunk
  pub one : r.chunks ≡ left ∷ []
  pub name : left.chunk ≡ jc.chunk
  pub counts : Counts before r.counter (left ∷ jcs)

-- The same names in the same order, and what was done is done.
abbrev pub Forward : List JobChunk → List JobChunk → Type 0
Forward [] [] = Unit
Forward (a ∷ as_) (b ∷ bs) =
    (b.chunk ≡ a.chunk) × (a.state ≡ ChunkState.done → b.state ≡ ChunkState.done) × Forward as_ bs
Forward as_ bs = ⊥

pub Forward-refl : (jcs : List JobChunk) → Forward jcs jcs
Forward-refl [] = tt
Forward-refl (jc ∷ jcs) = (refl, λ e. e, Forward-refl jcs)

pub Forward-trans : (a b c : List JobChunk) → Forward a b → Forward b c → Forward a c
Forward-trans [] [] [] f g = tt
Forward-trans (x ∷ a) (y ∷ b) (z ∷ c) f g =
    (g.0 ∙ f.0, λ e. g.1 (f.1 e), Forward-trans a b c f.2 g.2)
Forward-trans [] [] (z ∷ c) f g = absurd g
Forward-trans [] (y ∷ b) c f g = absurd f
Forward-trans (x ∷ a) [] c f g = absurd f
Forward-trans (x ∷ a) (y ∷ b) [] f g = absurd g

module _ (env : Env) (name : List ℕ) (before : ChunkState → ℕ) where
  changed-Kept :
      (c : Counter) (jc jc1 jc2 : JobChunk) (jcs : List JobChunk) (t : ChunkState)
      (sent : List Send) (go : Bool)
      → jc1.state ≡ jc.state
      → jc1.chunk ≡ jc.chunk
      → jc2.chunk ≡ jc.chunk
      → jc2.state ≡ t
      → Counts before c (jc ∷ jcs)
      → Kept before jc jcs (record {
        counter = (chunk_state c jc1 t).0;
        chunks = jc2 ∷ [];
        sent = sent;
        continues = go;
      })
  unfolding chunk_state
  changed-Kept c jc jc1 jc2 jcs t sent go same name1 name2 state h = record {
    left = jc2;
    one = refl;
    name = name2;
    counts =
        same-Counts before _ _ jc2 jcs state
          (chunk_state-Counts before c jc1 jcs t (same-Counts before c jc jc1 jcs same h));
  }

  pub still-Kept :
      (c : Counter) (jc : JobChunk) (jcs : List JobChunk) (go : Bool)
      → Counts before c (jc ∷ jcs)
      → Kept before jc jcs (record { counter = c; chunks = jc ∷ []; sent = []; continues = go })
  still-Kept c jc jcs go h = record { left = jc; one = refl; name = refl; counts = h }

  chunk_request-Kept :
      (c : Counter) (jc jc1 : JobChunk) (jcs : List JobChunk)
      → jc1.state ≡ jc.state
      → jc1.chunk ≡ jc.chunk
      → Counts before c (jc ∷ jcs)
      → Kept before jc jcs (chunk_request env name c jc1)
  unfolding chunk_request chunk_state
  chunk_request-Kept c jc jc1 jcs same name1 h =
      elim (Bool-cases (env.exists (take 255 (env.download ++ jc1.chunk)))) [
        | inl there ↦
            rw there (changed-Kept c jc jc1 _ jcs ChunkState.done [] true same name1 name1 refl h)
        | inr absent ↦ elim (Bool-cases (jc1.net.host == 0 && jc1.net.port == 0)) [
          | inl nobody ↦
              rw (absent, nobody)
                (changed-Kept c jc jc1 _ jcs ChunkState.notfound [] true same name1 name1 refl h)
          | inr owner ↦
              rw (absent, owner)
                (changed-Kept c jc jc1 _ jcs ChunkState.receiving _ _ same name1 name1 refl h)
        ]
      ]

  chunk_found-Kept :
      (c : Counter) (jc : JobChunk) (jcs : List JobChunk) (r : Run (Option Address))
      → Counts before c (jc ∷ jcs)
      → Kept before jc jcs (chunk_found env name c jc r)
  unfolding chunk_found
  chunk_found-Kept c jc jcs (ok none) h = chunk_request-Kept c jc jc jcs refl refl h
  chunk_found-Kept c jc jcs (ok (some a)) h =
      chunk_request-Kept c jc (record jc { net = a }) jcs refl refl h
  chunk_found-Kept c jc jcs fail h = still-Kept c jc jcs false h
  chunk_found-Kept c jc jcs fault h = still-Kept c jc jcs false h

  pub chunk_start-Kept :
      (c : Counter) (jc : JobChunk) (jcs : List JobChunk)
      → Counts before c (jc ∷ jcs)
      → Kept before jc jcs (chunk_start env name c jc)
  unfolding chunk_start
  chunk_start-Kept c jc jcs h = chunk_found-Kept c jc jcs (chunk_find env name) h

  chunk_restart-Kept :
      (c : Counter) (jc : JobChunk) (jcs : List JobChunk)
      → Counts before c (jc ∷ jcs)
      → Kept before jc jcs (chunk_restart env name c jc)
  unfolding chunk_restart
  chunk_restart-Kept c jc jcs h = elim (Bool-cases (peer_isreachable jc.net env.peers)) [
    | inl there ↦ rw there (still-Kept c jc jcs true h)
    | inr gone ↦ rw gone (chunk_start-Kept c jc jcs h)
  ]

  pub late-Kept :
      (c : Counter) (jc : JobChunk) (jcs : List JobChunk)
      → Counts before c (jc ∷ jcs)
      → Kept before jc jcs (
          if ltb (jc.updated + max_job_chunk_idle) env.now
          then chunk_restart env name c jc
          else settled (c, jc))
  late-Kept c jc jcs h = elim (Bool-cases (ltb (jc.updated + max_job_chunk_idle) env.now)) [
    | inl late ↦ rw late (chunk_restart-Kept c jc jcs h)
    | inr soon ↦ rw soon (still-Kept c jc jcs true h)
  ]
