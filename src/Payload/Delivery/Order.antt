-- ===== src/Payload/Delivery/Order.antt =====
-- The whole arrival: what the peer is told.
use eioie_client.Base.{
  ℕ, ◌+◌, ◌≤◌, ◌<◌, ◌≡◌, refl, ap, ◌∙◌, sym, subst, List, [], ◌∷◌, ◌++◌, length, map, arith, Bool,
  true, false, ◌==◌, none, some, ok, Bool-cases, inl, inr, if◌then◌else◌, append_assoc, append-nil,
  length-append,
}
use eioie_client.Utils.Hex.{Sha256}
use eioie_client.Packet.{Header, Packet}
use eioie_client.Packet.Create.{Outgoing, SendBuffer, chunks_of}
use eioie_client.Packet.Create.Laws.{IsOutgoing, header_at, packet_at}
use eioie_client.Payload.{
  RecvBuffer, Event, reply, handle, contains, packet_recv, find_cache, commands, command_find,
  payload_recv, receive_all,
}
use eioie_client.Payload.Collect.{
  AllBelow, AllBelow-append, count, count-append, length-lt_of_missing, length-eq_of_complete,
}
use eioie_client.Payload.Delivery.Caches.{delete_cache-append}
use eioie_client.Payload.Delivery.Group.{
  contains-count, contains-count_pos, count-contains, cache_of, full_cache, again, waiting,
  finished, IsState, packet_recv_lem, own_full, absent_for, header-packet_at,
}

-- A number that is not in a list of distinct numbers can be added.
once_more :
    (j : ℕ) (js : List ℕ)
    → ((k : ℕ) → count k js ≤ 1)
    → contains j js ≡ false
    → (k : ℕ) → count k (js ++ j ∷ []) ≤ 1
unfolding count
once_more j js once new k =
    let absent_before = contains-count j js new in
    elim (Bool-cases (j == k)) [
      | inl same ↦
          let here : j ≡ k = ground arith in
          let zero_here : count k js ≡ 0 = ap (λ m. count m js) (sym here) ∙ absent_before in
          rw count-append (ground arith)
      | inr other ↦ rw count-append (ground (arith, once k))
    ]

-- What `contains` says of a list with one more number in front or at the end.
contains-cons :
    (j i : ℕ) (is : List ℕ)
    → contains j (i ∷ is) ≡ false
    → ((i == j) ≡ false) × (contains j is ≡ false)
unfolding contains
contains-cons j i is h = ground arith

contains-append_one :
    (j i : ℕ) (js : List ℕ)
    → contains j js ≡ false
    → (i == j) ≡ false
    → contains j (js ++ i ∷ []) ≡ false
unfolding contains
contains-append_one j i [] h e = ground arith
contains-append_one j i (k ∷ js) h e = ground (arith, contains-append_one j i js)

-- A number that was counted already is still there when its repetition is dropped.
counted_again :
    (k i : ℕ) (js is : List ℕ)
    → contains i js ≡ true
    → 0 < count k js + count k (i ∷ is)
    → 0 < count k js + count k is
unfolding count
counted_again k i js is old h =
    let there = contains-count_pos i js old in
    elim (Bool-cases (i == k)) [
      | inl same ↦
          let here : i ≡ k = ground arith in
          let seen : 0 < count k js = subst (λ m. 0 < count m js) here there in omega arith
      | inr other ↦ ground arith
    ]

counted_first :
    (k i : ℕ) (js is : List ℕ)
    → 0 < count k js + count k (i ∷ is)
    → 0 < count k (js ++ i ∷ []) + count k is
unfolding count
counted_first k i js is h = rw count-append (omega arith)

-- The reply to packet `i`, and those to the packets `is`, one for each arrival.
abbrev pub reply_to : (ℕ → Header) → Bool → ℕ → List Event
reply_to headers has_reply i = if has_reply then reply (headers i) ∷ [] else []

abbrev pub replies : (ℕ → Header) → Bool → List ℕ → List Event
replies headers has_reply [] = []
replies headers has_reply (i ∷ is) = reply_to headers has_reply i ++ replies headers has_reply is

-- The data goes to the command's handler, with the header of the packet that completes it.
abbrev pub handled : Header → Bool → List ℕ → List Event
handled h has_read bytes = if has_read then handle h bytes ∷ [] else []

module _ (sha : Sha256) {o : Outgoing} {now : ℕ → ℕ} {sb : SendBuffer} {buffer : List ℕ}
    (v : IsOutgoing o now sb buffer) (fresh : ℕ → ℕ) (rb : RecvBuffer)
    (absent : find_cache (header_at sha o now sb buffer 0) rb ≡ none) (has_read has_reply : Bool)
    (known : command_find o.command commands ≡ ok (o.command, has_read, has_reply)) where
  abbrev packet : ℕ → Packet
  packet = packet_at sha o now sb buffer

  abbrev state_of : List ℕ → RecvBuffer
  state_of js = rb ++ cache_of sha v fresh rb absent js ∷ []

  abbrev headers : ℕ → Header
  headers = header_at sha o now sb buffer

  known_at :
      (i : ℕ)
      → command_find (packet i).header.command commands ≡ ok (o.command, has_read, has_reply)
  unfolding packet_at
  known_at i = known

  -- A packet that does not complete the group.
  unfinished :
      (i : ℕ) (ks : List ℕ) (r : RecvBuffer)
      → packet_recv fresh r (packet i) ≡ ok (state_of ks, none)
      → payload_recv fresh r (packet i) ≡ ok (state_of ks, reply_to headers has_reply i)
  unfolding payload_recv
  unfinished i ks r e = simp (known_at i, e) (rw (header-packet_at sha v fresh rb absent i))

  -- The packet that does.
  complete :
      (i : ℕ) (js : List ℕ) (r : RecvBuffer)
      → packet_recv fresh r (packet i)
        ≡ ok (rb ++ full_cache sha v fresh rb absent i js ∷ [], some buffer)
      → payload_recv fresh r (packet i)
        ≡ ok (rb, reply_to headers has_reply i ++ handled (headers i) has_read buffer)
  unfolding payload_recv
  complete i js r e =
      let gone =
        delete_cache-append (packet i).header (full_cache sha v fresh rb absent i js)
          (own_full sha v fresh rb absent i i js) rb (absent_for sha v fresh rb absent i) in
      simp (known_at i, e, gone) (rw (header-packet_at sha v fresh rb absent i))

  -- The packets `is` arrive behind `js`, and `j`, which is in neither, comes last.
  arrive :
      (j : ℕ) (js is : List ℕ) (r : RecvBuffer)
      → IsState sha v fresh rb absent js r
      → j < chunks_of (length buffer)
      → AllBelow (chunks_of (length buffer)) js
      → AllBelow (chunks_of (length buffer)) is
      → ((k : ℕ) → count k js ≤ 1)
      → contains j js ≡ false
      → contains j is ≡ false
      → ((k : ℕ) → k < chunks_of (length buffer) → 0 < count k js + count k (is ++ j ∷ []))
      → receive_all fresh r (map packet (is ++ j ∷ []))
        ≡ ok (rb, replies headers has_reply (is ++ j ∷ []) ++ handled (headers j) has_read buffer)
  unfolding receive_all full_cache
  arrive j js [] r state inside below _ once new _ covered =
      let more = once_more j js once new in
      let all_there = λ (k : ℕ) (h : k < chunks_of (length buffer)).
        let seen = covered k h in
        let there : 0 < count k (js ++ j ∷ []) = omega (arith, count-append k js (j ∷ [])) in
        there in
      let size =
        length-eq_of_complete (chunks_of (length buffer)) (js ++ j ∷ [])
          (AllBelow-append _ js (j ∷ []) below (inside, tt))
          (λ k h. omega (arith, more k, all_there k h)) in
      let last : length js + 1 ≡ chunks_of (length buffer) =
        omega (arith, length-append {0} js (j ∷ [])) in
      let received = finished sha v fresh rb absent j js inside below new last all_there in
      let told =
        complete j js r (packet_recv_lem sha v fresh rb absent j js r _ true state received) in
      rw told (
        rw (
          append-nil (reply_to headers has_reply j),
          append-nil (reply_to headers has_reply j ++ handled (headers j) has_read buffer),
        ))
  arrive j js (i ∷ is) r state inside below coming once new missing covered =
      elim (Bool-cases (contains i js)) [
        | inl old ↦
            let told = unfinished i js r (
              packet_recv_lem sha v fresh rb absent i js r _ false state
                (again sha v fresh rb absent i js coming.0 below old)) in
            let rest =
              arrive j js is (state_of js) (inr refl) inside below coming.1 once new
                (contains-cons j i is missing).1
                (λ k h. counted_again k i js (is ++ j ∷ []) old (covered k h)) in
            rw (
              told,
              rest,
              append_assoc (reply_to headers has_reply i) (replies headers has_reply (is ++ j ∷ []))
                  (handled (headers j) has_read buffer),
            )
        | inr first ↦
            let more = once_more i js once first in
            let below' = AllBelow-append _ js (i ∷ []) below (coming.0, tt) in
            let (differ, missing') = contains-cons j i is missing in
            let new' = contains-append_one j i js new differ in
            let short =
              length-lt_of_missing (chunks_of (length buffer)) j (js ++ i ∷ []) below' more inside
                (contains-count j (js ++ i ∷ []) new') in
            let size = length-append {0} js (i ∷ []) in
            let told = unfinished i (js ++ i ∷ []) r (
              packet_recv_lem sha v fresh rb absent i js r _ false state
                (waiting sha v fresh rb absent i js coming.0 below first (omega arith))) in
            let rest =
              arrive j (js ++ i ∷ []) is (state_of (js ++ i ∷ [])) (inr refl) inside below' coming.1
                more new' missing' (λ k h. counted_first k i js (is ++ j ∷ []) (covered k h)) in
            rw (
              told,
              rest,
              append_assoc (reply_to headers has_reply i) (replies headers has_reply (is ++ j ∷ []))
                  (handled (headers j) has_read buffer),
            )
      ]

  -- The packets of a buffer, made with arguments that fit the header's types and a command that has
  -- a row, arrive in any order, each any number of times but the last one once, with no cache waiting
  -- for the group. Then every arrival is answered, if the command has a reply; the command's handler,
  -- if it has one, is called once, at the end, with the buffer that was sent; and the other caches are
  -- as before.
  pub receive_all-buffer :
      (is : List ℕ) (j : ℕ)
      → AllBelow (chunks_of (length buffer)) is
      → j < chunks_of (length buffer)
      → count j is ≡ 0
      → ((k : ℕ) → k < chunks_of (length buffer) → 0 < count k (is ++ j ∷ []))
      → receive_all fresh rb (map packet (is ++ j ∷ []))
        ≡ ok (rb, replies headers has_reply (is ++ j ∷ []) ++ handled (headers j) has_read buffer)
  unfolding count contains
  receive_all-buffer is j below inside missing covered =
      arrive j [] is rb (inl (refl, refl)) inside tt below (λ k. omega arith) refl
        (count-contains j is missing) (λ k h. omega (arith, covered k h))
