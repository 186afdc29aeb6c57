-- ===== src/Packet/Queue/Laws.antt =====
-- The queue is bounded, and its buffers are sent in the order of their indices.
use eioie_client.Base.{
  ℕ, zero, suc, ◌+◌, ◌≤◌, ◌≡◌, refl, sym, ap, ◌∙◌, List, [], ◌∷◌, ◌++◌, length, map, true, false,
  Bool-cases, Option-cases, inl, inr, ◌⊎◌, none, some, arith, if◌then◌else◌, append_assoc,
  append-nil,
}
use eioie_client.Packet.Create.Laws.{upto}
use eioie_client.Packet.Queue.{
  TcpBuffer, Connection, queue_size, del_tail, queue_add, is_next, take_next, dispatch_loop,
  tcpdispatch, tcpsend,
}

length-del_tail : {A : Type 0} (x : A) (xs : List A) → length (del_tail (x ∷ xs)) ≡ length xs
unfolding del_tail
length-del_tail x [] = refl
length-del_tail x (y ∷ xs) = ap suc (length-del_tail y xs)

length-queue_add :
    {A : Type 0} (xs : List A) (x : A)
    → length xs ≤ queue_size
    → length (queue_add xs x) ≤ queue_size
unfolding queue_add
length-queue_add [] x h = omega arith
length-queue_add (y ∷ xs) x h = ground (arith, length-del_tail y xs)

-- The buffers that wait.
unfoldable pub waiting : List TcpBuffer → ℕ
waiting [] = 0
waiting (b ∷ bs) = (if b.dispatched then 0 else 1) + waiting bs

waiting-length : (bs : List TcpBuffer) → waiting bs ≤ length bs
unfolding waiting
waiting-length [] = omega arith
waiting-length (b ∷ bs) = ground (arith, waiting-length bs)

not_dispatched : (tidx : ℕ) (b : TcpBuffer) → is_next tidx b ≡ true → b.dispatched ≡ false
unfolding is_next
not_dispatched tidx b h = ground arith

-- What is taken passed the test; one buffer less waits, and the length is the same.
take_next-eq-some :
    (tidx : ℕ) (bs : List TcpBuffer) (b : TcpBuffer) (bs' : List TcpBuffer)
    → take_next tidx bs ≡ some (b, bs')
    → (is_next tidx b ≡ true) × (waiting bs ≡ 1 + waiting bs') × (length bs' ≡ length bs)
unfolding take_next waiting
take_next-eq-some tidx [] b bs' e = cc
take_next-eq-some tidx (c ∷ bs) b bs' e = elim (Bool-cases (is_next tidx c)) [
  | inl now ↦
      let found = rw now at e in
      let first : c ≡ b = cc in
      let rest : record c { dispatched = true } ∷ bs ≡ bs' = cc in
      let free : c.dispatched ≡ false = not_dispatched tidx c now in
      (rw (← first) now, rw (← rest, free) (omega arith), rw (← rest))
  | inr later ↦
      let further = rw later at e in
      elim (Option-cases (take_next tidx bs)) [
        | inl absent ↦ cc (rw absent at further)
        | inr ((d, ds), there) ↦
            let found = rw there at further in
            let (next, count, size) = take_next-eq-some tidx bs d ds there in
            let taken : d ≡ b = cc in
            let rest : c ∷ ds ≡ bs' = cc in
            (rw (← taken) next, rw (← rest) (omega arith), rw (← rest) (ap suc size))
      ]
]

-- Nothing is taken where no buffer waits.
take_next-eq-none : (tidx : ℕ) (bs : List TcpBuffer) → waiting bs ≡ 0 → take_next tidx bs ≡ none
unfolding waiting
take_next-eq-none tidx bs h = elim (Option-cases (take_next tidx bs)) [
  | inl absent ↦ absent
  | inr ((b, bs'), there) ↦
      let found = take_next-eq-some tidx bs b bs' there in absurd (omega (arith, found.1))
]

-- A connection where nothing can be sent.
abbrev pub IsSettled : Connection → Type 0
IsSettled c = take_next c.tidx c.packets ≡ none

dispatch_loop-IsSettled :
    (rounds : ℕ) (c : Connection)
    → waiting c.packets ≤ rounds
    → IsSettled (dispatch_loop rounds c)
      × (length (dispatch_loop rounds c).packets ≡ length c.packets)
unfolding dispatch_loop
dispatch_loop-IsSettled zero c h = (take_next-eq-none c.tidx c.packets (omega arith), refl)
dispatch_loop-IsSettled (suc rounds) c h = elim (Option-cases (take_next c.tidx c.packets)) [
  | inl absent ↦ rw (dispatch_loop, absent) (absent, refl)
  | inr ((b, bs), there) ↦
      let (next, count, size) = take_next-eq-some c.tidx c.packets b bs there in
      let c' : Connection = record {
        tidx = b.tidx;
        packets = bs;
        sent = c.sent ++ (b.tidx, b.buf) ∷ [];
      } in
      let (settled, same) = dispatch_loop-IsSettled rounds c' (omega arith) in
      rw (dispatch_loop, there) (settled, same ∙ size)
]

-- The buffers that a dispatch sends behind index `tidx`, with the indices that follow it.
pub record Follows (c c' : Connection) : Type 0 where
  pub new : List (ℕ × List ℕ)
  pub sent : c'.sent ≡ c.sent ++ new
  pub order : map (λ r. r.0) new ≡ upto (c.tidx + 1) (length new)
  pub last : c'.tidx ≡ c.tidx + length new

-- What was sent stays sent.
dispatch_loop-sent :
    (rounds : ℕ) (c : Connection)
    → (new : List (ℕ × List ℕ)) × ((dispatch_loop rounds c).sent ≡ c.sent ++ new)
unfolding dispatch_loop
dispatch_loop-sent zero c = ([], sym (append-nil c.sent))
dispatch_loop-sent (suc rounds) c = elim (Option-cases (take_next c.tidx c.packets)) [
  | inl absent ↦ rw (dispatch_loop, absent) ([], sym (append-nil c.sent))
  | inr ((b, bs), there) ↦
      let c' : Connection = record {
        tidx = b.tidx;
        packets = bs;
        sent = c.sent ++ (b.tidx, b.buf) ∷ [];
      } in
      let (new, e) = dispatch_loop-sent rounds c' in
      rw (dispatch_loop, there)
        ((b.tidx, b.buf) ∷ new, e ∙ append_assoc c.sent ((b.tidx, b.buf) ∷ []) new)
]

-- A buffer at the head of the queue that passes the test is the first to be sent.
dispatch_loop-head :
    (rounds : ℕ) (c : Connection) (b : TcpBuffer) (bs : List TcpBuffer)
    → c.packets ≡ b ∷ bs
    → is_next c.tidx b ≡ true
    → (later : List (ℕ × List ℕ)) × ((dispatch_loop (suc rounds) c).sent
        ≡ c.sent ++ (b.tidx, b.buf) ∷ later)
unfolding dispatch_loop take_next
dispatch_loop-head rounds c b bs e next =
    let marked = record b { dispatched = true } ∷ bs in
    let first : take_next c.tidx c.packets ≡ some (b, marked) = ap (take_next c.tidx) e ∙ rw next in
    let c' : Connection = record {
      tidx = b.tidx;
      packets = marked;
      sent = c.sent ++ (b.tidx, b.buf) ∷ [];
    } in
    let (later, sent) = dispatch_loop-sent rounds c' in
    rw (dispatch_loop, first) (later, sent ∙ append_assoc c.sent ((b.tidx, b.buf) ∷ []) later)

-- After `tcpsend` nothing that could be sent waits, and the queue has at most 100 buffers.
tcpsend-IsSettled :
    (c : Connection) (buf : List ℕ) (tidx : ℕ)
    → length c.packets ≤ queue_size
    → IsSettled (tcpsend c buf tidx) × (length (tcpsend c buf tidx).packets ≤ queue_size)
unfolding tcpsend tcpdispatch
tcpsend-IsSettled c buf tidx h =
    let b : TcpBuffer = record { buf = buf; tidx = tidx; dispatched = false } in
    let c' : Connection = record c { packets = queue_add c.packets b } in
    let (settled, same) =
      dispatch_loop-IsSettled (length c'.packets) c' (waiting-length c'.packets) in
    (settled, omega (arith, length-queue_add c.packets b h))

-- A buffer is sent at once if it is the next one, or if its connection has sent none, whatever its
-- index is then.
sent-tcpsend :
    (c : Connection) (buf : List ℕ) (tidx : ℕ)
    → (c.tidx ≡ 0) ⊎ (c.tidx + 1 ≡ tidx)
    → (later : List (ℕ × List ℕ)) × ((tcpsend c buf tidx).sent ≡ c.sent ++ (tidx, buf) ∷ later)
unfolding tcpsend tcpdispatch queue_add is_next
sent-tcpsend c buf tidx h =
    let b : TcpBuffer = record { buf = buf; tidx = tidx; dispatched = false } in
    let next : is_next c.tidx b ≡ true = ground arith in
    dispatch_loop-head _ (record c { packets = queue_add c.packets b }) b _ refl next
