-- ===== src/Payload/Assemble.antt =====
-- The packets of a buffer, put together in any order, give the buffer.
use eioie_client.Base.{
  ℕ, zero, suc, ◌+◌, ◌-◌, ◌*◌, ◌/◌, ◌%◌, ◌^◌, ◌≤◌, ◌<◌, ◌≡◌, refl, ap, ◌∙◌, subst, List, [], ◌∷◌,
  length, get_elem?, map, arith, false, ◌==◌, ltb, ok, Bool-cases, inl, inr, le→leb, gt→leb,
  length-append, take-append, ltb→lt, if◌then◌else◌,
}
use eioie_client.Bytes.Memory.{
  memcpy, slice, length-memcpy, get_elem?-memcpy-slice, get_elem?-memcpy-slice_keeps,
  get_elem?-append_left, get_elem?_ext,
}
use eioie_client.Utils.Hex.{Sha256}
use eioie_client.Packet.{Packet, payload_size, zero_filled}
use eioie_client.Packet.Create.{Outgoing, SendBuffer, chunks_of, chunk_size}
use eioie_client.Packet.Create.Size.{chunk_size_bounds, chunk_covers}
use eioie_client.Packet.Create.Laws.{packet_at, chunk_at, length-chunk_at}
use eioie_client.Payload.{fill, grow, place, assemble_packet, assemble}
use eioie_client.Payload.Collect.{AllBelow, count}

length-fill : (fresh : ℕ → ℕ) (k : ℕ) → length (fill fresh k) ≡ k
unfolding fill
length-fill fresh zero = refl
length-fill fresh (suc k) = ap suc (length-fill fresh k)

-- The step on a packet whose end is a positive `int`.
assemble_packet_lem :
    (fresh : ℕ → ℕ) (p : Packet) (bytes : List ℕ)
    → 0 < p.header.offset + p.header.length
    → p.header.offset + p.header.length < 2 ^ 31
    → assemble_packet fresh bytes p ≡ (
        if ltb (length bytes) (p.header.offset + p.header.length)
        then place p (grow fresh (p.header.offset + p.header.length) bytes)
        else place p bytes)
unfolding assemble_packet
assemble_packet_lem fresh p bytes pos small =
    let end = p.header.offset + p.header.length in
    let wide : end % 2 ^ 64 ≡ end = omega arith in
    let narrow : end % 2 ^ 32 ≡ end = omega arith in
    let nonzero : (end == 0) ≡ false = ground arith in
    rw (wide, narrow, gt→leb (2 ^ 31) end small, nonzero)

module _ (sha : Sha256) (o : Outgoing) (now : ℕ → ℕ) (sb : SendBuffer) (buffer : List ℕ)
    (fresh : ℕ → ℕ) (small : length buffer < 2 ^ 31) where
  -- The region has the buffer's byte at `k`.
  pub record Filled (out : List ℕ) (k : ℕ) : Type 0 where
    pub there : k < length out
    pub same : get_elem? out k ≡ get_elem? buffer k

  -- `k` lies in chunk `i`.
  abbrev pub InChunk : ℕ → ℕ → Type 0
  InChunk i k = (i * payload_size ≤ k) × (k < i * payload_size + chunk_size (length buffer) i)

  -- One packet is placed: the region stays within the buffer's size, keeps what it has of the
  -- buffer, and has the packet's chunk.
  pub record Placed (bytes : List ℕ) (i : ℕ) (out : List ℕ) : Type 0 where
    pub size : length out ≤ length buffer
    pub keeps : (k : ℕ) → Filled bytes k → Filled out k
    pub gains : (k : ℕ) → InChunk i k → Filled out k

  -- The `memcpy` into a region that has room.
  memcpy-Placed :
      (bytes grown : List ℕ) (i : ℕ)
      → i < chunks_of (length buffer)
      → length grown ≤ length buffer
      → i * payload_size + chunk_size (length buffer) i ≤ length grown
      → ((k : ℕ) → Filled bytes k → Filled grown k)
      → Placed bytes i (memcpy grown (i * payload_size) (chunk_at sha o now sb buffer i))
  memcpy-Placed bytes grown i h wide room keeps =
      let n = chunk_size (length buffer) i in
      let start = i * payload_size in
      let inside = (chunk_size_bounds (length buffer) i h).2 in
      let size_kept = length-memcpy grown start (slice buffer start n) in
      record {
        size = omega arith;
        keeps = λ k old.
            let was = keeps k old in
            record {
              there = omega (arith, was.there);
              same = get_elem?-memcpy-slice_keeps grown buffer start n k room inside was.same;
            };
        gains = λ k within. record {
          there = omega arith;
          same = get_elem?-memcpy-slice grown buffer start n k room inside within.0 within.1;
        };
      }

  -- `place` copies the chunk of a packet of the group.
  place-eq-memcpy :
      (grown : List ℕ) (i : ℕ)
      → i < chunks_of (length buffer)
      → i * payload_size + chunk_size (length buffer) i ≤ length grown
      → place (packet_at sha o now sb buffer i) grown
        ≡ ok (memcpy grown (i * payload_size) (chunk_at sha o now sb buffer i))
  unfolding place packet_at zero_filled
  place-eq-memcpy grown i h room =
      rw (le→leb (i * payload_size + chunk_size (length buffer) i) (length grown) room) (
        ap (λ l. ok (memcpy grown (i * payload_size) l))
          (take-append (chunk_size (length buffer) i) (chunk_at sha o now sb buffer i) _
            (length-chunk_at sha o now sb buffer i h)))

  length-grow : (n : ℕ) (bytes : List ℕ) → length bytes ≤ n → length (grow fresh n bytes) ≡ n
  unfolding grow
  length-grow n bytes h = omega (
    arith,
    length-append {0} bytes (fill fresh (n - length bytes)),
    length-fill fresh (n - length bytes),
  )

  grow-Filled :
      (n : ℕ) (bytes : List ℕ) (k : ℕ)
      → length bytes ≤ n
      → Filled bytes k
      → Filled (grow fresh n bytes) k
  unfolding grow
  grow-Filled n bytes k h old = record {
    there = omega (arith, length-grow n bytes h, old.there);
    same = get_elem?-append_left bytes _ k old.there ∙ old.same;
  }

  -- `avcb` places a packet of the group without an error.
  assemble_packet-Placed :
      (bytes : List ℕ) (i : ℕ)
      → i < chunks_of (length buffer)
      → length bytes ≤ length buffer
      → (out : List ℕ) × (assemble_packet fresh bytes (packet_at sha o now sb buffer i) ≡ ok out)
        × Placed bytes i out
  unfolding packet_at
  assemble_packet-Placed bytes i h wide =
      let p = packet_at sha o now sb buffer i in
      let end = i * payload_size + chunk_size (length buffer) i in
      let bounds = chunk_size_bounds (length buffer) i h in
      elim (Bool-cases (ltb (length bytes) end)) [
        | inl short ↦
            let longer = ltb→lt (length bytes) end short in
            let size = length-grow end bytes (omega arith) in
            (
              _,
              assemble_packet_lem fresh p bytes (omega arith) (omega arith)
                  ∙ rw short (place-eq-memcpy (grow fresh end bytes) i h (omega arith)),
              memcpy-Placed bytes (grow fresh end bytes) i h (omega arith) (omega arith)
                  (λ k. grow-Filled end bytes k (omega arith)),
            )
        | inr long ↦ (
          _,
          assemble_packet_lem fresh p bytes (omega arith) (omega arith)
              ∙ rw long (place-eq-memcpy bytes i h (ground arith)),
          memcpy-Placed bytes bytes i h wide (ground arith) (λ k old. old),
        )
      ]

  -- What a row of packets of the group leaves, in any order and with repetitions.
  record Covers (bytes : List ℕ) (is : List ℕ) (out : List ℕ) : Type 0 where
    size : length out ≤ length buffer
    keeps : (k : ℕ) → Filled bytes k → Filled out k
    gains : (i k : ℕ) → 0 < count i is → InChunk i k → Filled out k

  assemble-Covers :
      (bytes : List ℕ) (is : List ℕ)
      → AllBelow (chunks_of (length buffer)) is
      → length bytes ≤ length buffer
      → (out : List ℕ) × (assemble fresh bytes (map (packet_at sha o now sb buffer) is) ≡ ok out)
        × Covers bytes is out
  unfolding assemble count
  assemble-Covers bytes [] below wide = (
    bytes,
    refl,
    record { size = wide; keeps = λ k old. old; gains = λ i k none_here. absurd (omega arith) },
  )
  assemble-Covers bytes (j ∷ is) below wide =
      let (mid, e1, placed) = assemble_packet-Placed bytes j below.0 wide in
      let (out, e2, covers) = assemble-Covers mid is below.1 placed.size in
      (
        out,
        rw e1 e2,
        record {
          size = covers.size;
          keeps = λ k old. covers.keeps k (placed.keeps k old);
          gains = λ i k here within. elim (Bool-cases (j == i)) [
            | inl first ↦
                let same : i ≡ j = ground arith in
                covers.keeps k (placed.gains k (subst (λ m. InChunk m k) same within))
            | inr later ↦ covers.gains i k (ground arith) within
          ];
        },
      )

  same_bytes :
      (out : List ℕ)
      → length out ≤ length buffer
      → ((k : ℕ) → k < length buffer → Filled out k)
      → out ≡ buffer
  same_bytes out wide filled =
      let size : length out ≡ length buffer = elim (Bool-cases (length buffer == 0)) [
        | inl none_there ↦ ground arith
        | inr some_there ↦
            let last = filled (length buffer - 1) (ground arith) in
            let reached = last.there in omega arith
      ] in
      get_elem?_ext out buffer size (λ k h. (filled k h).same)

  -- All packets of the group, in any order, are put together to the buffer.
  pub assemble-eq-buffer :
      (is : List ℕ)
      → AllBelow (chunks_of (length buffer)) is
      → ((i : ℕ) → i < chunks_of (length buffer) → 0 < count i is)
      → assemble fresh [] (map (packet_at sha o now sb buffer) is) ≡ ok buffer
  assemble-eq-buffer is below complete =
      let (out, run, covers) = assemble-Covers [] is below (omega arith) in
      let filled : (k : ℕ) → k < length buffer → Filled out k = λ k h.
        let (inside, lo, hi) = chunk_covers (length buffer) k h in
        covers.gains (k / payload_size) k (complete _ inside) (lo, hi) in
      run ∙ ap ok (same_bytes out covers.size filled)
