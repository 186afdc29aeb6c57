-- ===== src/Packet/Create/Size.antt =====
-- The chunks of a buffer: their sizes and offsets.
use eioie_client.Base.{ℕ, ◌+◌, ◌*◌, ◌/◌, ◌≤◌, ◌<◌, arith}
use eioie_client.Packet.{payload_size}
use eioie_client.Packet.Create.{chunks_of, chunk_size}

-- A chunk is not empty, fits the payload, and lies in the buffer.
pub chunk_size_bounds :
    (n i : ℕ)
    → i < chunks_of n
    → (0 < chunk_size n i)
      × (chunk_size n i ≤ payload_size)
      × (i * payload_size + chunk_size n i ≤ n)
unfolding chunk_size
chunk_size_bounds n i h = ground arith

-- Every position of the buffer lies in a chunk.
pub chunk_covers :
    (n k : ℕ)
    → k < n
    → (k / payload_size < chunks_of n)
      × (k / payload_size * payload_size ≤ k)
      × (k < k / payload_size * payload_size + chunk_size n (k / payload_size))
unfolding chunk_size
chunk_covers n k h = ground arith

pub chunks_of_bounds : (n : ℕ) → (n ≤ chunks_of n * payload_size) × (chunks_of n ≤ n)
unfolding chunks_of
chunks_of_bounds n = ground arith
