-- ===== src/Job/State.antt =====
-- The chunks of a job with their states, and the counters of `counter` and `chunk_state` of
-- src/job.c.
use eioie_client.Base.{ℕ, ◌+◌, ◌-◌, ◌%◌, ◌^◌, List}
use eioie_client.Packet.{Address}

-- `enum job_chunk_state_e`.
pub data ChunkState : Type 0 where
  none notfound receiving done : ChunkState

-- `struct job_chunk_s`; times are in thousandths of a second.
pub record JobChunk : Type 0 where
  pub chunk : List ℕ
  pub size : ℕ
  pub state : ChunkState
  pub updated : ℕ
  pub net : Address

-- `counter`.
pub record Counter : Type 0 where
  pub none : ℕ
  pub receiving : ℕ
  pub notfound : ℕ
  pub done : ℕ

-- `struct job_s`.
pub record Job : Type 0 where
  pub name : List ℕ
  pub size : ℕ
  pub pubkeyhash : List ℕ
  pub chunks : List JobChunk
  pub counter : Counter

abbrev pub inc : ℕ → ℕ
inc n = (n + 1) % 2 ^ 32

abbrev pub dec : ℕ → ℕ
dec n = (n + 2 ^ 32 - 1) % 2 ^ 32

-- `counter`, with `m_dst++` or `m_dst--` for `step`.
unfoldable pub counter : (ℕ → ℕ) → ChunkState → Counter → Counter
counter step ChunkState.none c = record c { none = step c.none }
counter step ChunkState.notfound c = record c { notfound = step c.notfound }
counter step ChunkState.receiving c = record c { receiving = step c.receiving }
counter step ChunkState.done c = record c { done = step c.done }

-- `chunk_state`.
unfoldable pub chunk_state : Counter → JobChunk → ChunkState → Counter × JobChunk
unfolding counter
chunk_state c jc state = (counter inc state (counter dec jc.state c), record jc { state = state })
