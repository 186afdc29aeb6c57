-- ===== src/Payload/Delivery/Group.antt =====
-- The packets of one group, from the first to arrive to the last that is missing.
use eioie_client.Base.{
  ℕ, ◌+◌, ◌%◌, ◌^◌, ◌<◌, ◌≡◌, refl, ap, ◌∙◌, sym, List, [], ◌∷◌, ◌++◌, length, map, arith, Bool,
  true, false, ◌==◌, none, some, ok, inl, inr, ◌⊎◌, if◌then◌else◌, length-append, map-append,
  ==_refl,
}
use eioie_client.Utils.Hex.{Sha256}
use eioie_client.Packet.{Packet}
use eioie_client.Packet.Create.{Outgoing, SendBuffer, chunks_of}
use eioie_client.Packet.Create.Size.{chunks_of_bounds}
use eioie_client.Packet.Create.Laws.{IsOutgoing, header_at, packet_at}
use eioie_client.Payload.{
  Cache, RecvBuffer, contains, assemble, packet_recv_cache, is_for, find_cache, new_cache,
  cache_for, packet_recv,
}
use eioie_client.Payload.Assemble.{assemble-eq-buffer}
use eioie_client.Payload.Collect.{AllBelow, AllBelow-append, count}
use eioie_client.Payload.Delivery.Caches.{find_cache_congr, find_cache-append, replace_cache-append}

pub contains-count : (i : ℕ) (js : List ℕ) → contains i js ≡ false → count i js ≡ 0
unfolding contains count
contains-count i [] h = refl
contains-count i (j ∷ js) h = ground (arith, contains-count i js)

pub contains-count_pos : (i : ℕ) (js : List ℕ) → contains i js ≡ true → 0 < count i js
unfolding contains count
contains-count_pos i [] h = cc
contains-count_pos i (j ∷ js) h = ground (arith, contains-count_pos i js)

pub count-contains : (i : ℕ) (js : List ℕ) → count i js ≡ 0 → contains i js ≡ false
unfolding contains count
count-contains i [] h = refl
count-contains i (j ∷ js) h = ground (arith, count-contains i js)

length-map' : {A : Type 0} (f : ℕ → A) (js : List ℕ) → length (map f js) ≡ length js
length-map' f [] = refl
length-map' f (j ∷ js) = omega (arith, length-map' f js)

module _ (sha : Sha256) {o : Outgoing} {now : ℕ → ℕ} {sb : SendBuffer} {buffer : List ℕ}
    (v : IsOutgoing o now sb buffer) (fresh : ℕ → ℕ) (rb : RecvBuffer)
    (absent : find_cache (header_at sha o now sb buffer 0) rb ≡ none) where
  abbrev pub packet : ℕ → Packet
  packet = packet_at sha o now sb buffer

  -- The number of packet `i`.
  abbrev pub number : ℕ → ℕ
  number i = (sb.pidx + i) % 2 ^ 32

  -- The cache when the packets `js` have arrived, in that order.
  pub cache_of : List ℕ → Cache
  cache_of js = record {
    group = sb.gidx;
    host = o.dst.host;
    port = o.dst.port;
    total = chunks_of (length buffer);
    all = map packet js;
    received = map number js;
    bytes = [];
  }

  -- Packets are told apart by their numbers, also where the counter wraps.
  contains-number :
      (i : ℕ) (js : List ℕ)
      → i < chunks_of (length buffer)
      → AllBelow (chunks_of (length buffer)) js
      → contains (number i) (map number js) ≡ contains i js
  unfolding contains
  contains-number i [] h below = refl
  contains-number i (j ∷ js) h below =
      let bound = chunks_of_bounds (length buffer) in
      let small = v.small in
      let same : (number j == number i) ≡ (j == i) = ground arith in
      rw (same, contains-number i js h below.1)

  pub header-packet_at : (i : ℕ) → (packet i).header ≡ header_at sha o now sb buffer i
  unfolding packet_at
  header-packet_at i = refl

  pidx-packet_at : (i : ℕ) → (packet i).header.pidx ≡ number i
  unfolding packet_at
  pidx-packet_at i = refl

  length-number : (i : ℕ) (js : List ℕ) → length (map number js ++ number i ∷ []) ≡ length js + 1
  length-number i js =
      omega (arith, length-append {0} (map number js) (number i ∷ []), length-map' number js)

  -- The three branches of `packet_recv_cache`.
  pub again :
      (i : ℕ) (js : List ℕ)
      → i < chunks_of (length buffer)
      → AllBelow (chunks_of (length buffer)) js
      → contains i js ≡ true
      → packet_recv_cache fresh (cache_of js) (packet i) ≡ ok (cache_of js, false)
  unfolding packet_recv_cache cache_of
  again i js h below old = rw (pidx-packet_at, contains-number i js h below, old)

  pub waiting :
      (i : ℕ) (js : List ℕ)
      → i < chunks_of (length buffer)
      → AllBelow (chunks_of (length buffer)) js
      → contains i js ≡ false
      → length js + 1 < chunks_of (length buffer)
      → packet_recv_cache fresh (cache_of js) (packet i) ≡ ok (cache_of (js ++ i ∷ []), false)
  unfolding packet_recv_cache cache_of
  waiting i js h below new more =
      let unfinished : (length js + 1 == chunks_of (length buffer)) ≡ false = ground arith in
      simp (
        pidx-packet_at,
        contains-number i js h below,
        new,
        length-number i js,
        unfinished,
        map-append packet js (i ∷ []),
        map-append number js (i ∷ []),
      )

  -- The cache behind the last packet `i`.
  unfoldable pub full_cache : ℕ → List ℕ → Cache
  full_cache i js = record {
    group = sb.gidx;
    host = o.dst.host;
    port = o.dst.port;
    total = chunks_of (length buffer);
    all = [];
    received = map number js ++ number i ∷ [];
    bytes = buffer;
  }

  pub finished :
      (i : ℕ) (js : List ℕ)
      → i < chunks_of (length buffer)
      → AllBelow (chunks_of (length buffer)) js
      → contains i js ≡ false
      → length js + 1 ≡ chunks_of (length buffer)
      → ((k : ℕ) → k < chunks_of (length buffer) → 0 < count k (js ++ i ∷ []))
      → packet_recv_cache fresh (cache_of js) (packet i) ≡ ok (full_cache i js, true)
  unfolding packet_recv_cache cache_of full_cache
  finished i js h below new last complete =
      let done : (length js + 1 == chunks_of (length buffer)) ≡ true = ground arith in
      let whole : assemble fresh [] (map packet js ++ packet i ∷ []) ≡ ok buffer =
        ap (assemble fresh []) (sym (map-append packet js (i ∷ [])))
        ∙ assemble-eq-buffer sha o now sb buffer fresh v.small (js ++ i ∷ [])
            (AllBelow-append _ js (i ∷ []) below (h, tt)) complete in
      simp (pidx-packet_at, contains-number i js h below, new, length-number i js, done, whole)

  -- The caches when `js` have arrived: none yet for the group, or one at the end.
  abbrev pub IsState : List ℕ → RecvBuffer → Type 0
  IsState js r = ((r ≡ rb) × (js ≡ [])) ⊎ (r ≡ rb ++ cache_of js ∷ [])

  pub absent_for : (i : ℕ) → find_cache (packet i).header rb ≡ none
  absent_for i =
      ap (λ h. find_cache h rb) (header-packet_at i)
      ∙ find_cache_congr (header_at sha o now sb buffer i) (header_at sha o now sb buffer 0) rb refl
          refl
      ∙ absent

  own : (i : ℕ) (js : List ℕ) → is_for (packet i).header (cache_of js) ≡ true
  unfolding is_for packet_at cache_of
  own i js = rw (==_refl sb.gidx, ==_refl o.dst.host, ==_refl o.dst.port)

  pub own_full : (i j : ℕ) (js : List ℕ) → is_for (packet i).header (full_cache j js) ≡ true
  unfolding is_for packet_at full_cache
  own_full i j js = rw (==_refl sb.gidx, ==_refl o.dst.host, ==_refl o.dst.port)

  new_cache-packet_at : (i : ℕ) → new_cache (packet i).header ≡ cache_of []
  unfolding new_cache packet_at cache_of
  new_cache-packet_at i = refl

  cache_for_lem :
      (i : ℕ) (js : List ℕ) (r : RecvBuffer)
      → IsState js r
      → cache_for (packet i).header r (find_cache (packet i).header r)
        ≡ (rb ++ cache_of js ∷ [], cache_of js)
  cache_for_lem i js r (inl (same, none_yet)) =
      rw (same, none_yet, absent_for i, new_cache-packet_at i)
  cache_for_lem i js r (inr there) =
      rw (there, find_cache-append (packet i).header (cache_of js) (own i js) rb (absent_for i))

  -- `packet_recv` by the outcome of `packet_recv_cache`.
  pub packet_recv_lem :
      (i : ℕ) (js : List ℕ) (r : RecvBuffer) (c : Cache) (full : Bool)
      → IsState js r
      → packet_recv_cache fresh (cache_of js) (packet i) ≡ ok (c, full)
      → packet_recv fresh r (packet i) ≡ ok (rb ++ c ∷ [], if full then some c.bytes else none)
  unfolding packet_recv
  packet_recv_lem i js r c full state e = rw (
    cache_for_lem i js r state,
    e,
    replace_cache-append (packet i).header (cache_of js) (own i js) c rb (absent_for i),
  )
