-- ===== src/Packet/Queue.antt =====
-- The ordered queue of TCP buffers: `tcpsent`, `tcpdispatch` and `tcpsend` of src/packet.c, and
-- `queue_add` of src/tcp/src/list.c.
pub mod Laws
use eioie_client.Base.{
  ℕ, zero, suc, ◌+◌, List, [], ◌∷◌, ◌++◌, length, leb, ◌==◌, ◌&&◌, ◌||◌, not, Bool, true, false,
  Option, none, some, if◌then◌else◌,
}

-- `struct tcpbuffer_s`; its `len` is the length of `buf`.
pub record TcpBuffer : Type 0 where
  pub buf : List ℕ
  pub tidx : ℕ
  pub dispatched : Bool

-- `c->base.tcp` of a connection, and what was handed to `gc_gen_ev_send`, with the index of each
-- buffer. The indices stay below 2 ^ 31.
pub record Connection : Type 0 where
  pub tidx : ℕ
  pub packets : List TcpBuffer
  pub sent : List (ℕ × List ℕ)

abbrev pub queue_size : ℕ
queue_size = 100

-- `del_tail` of a list that is not empty.
unfoldable pub del_tail : {A : Type 0} → List A → List A
del_tail [] = []
del_tail (x ∷ []) = []
del_tail (x ∷ y ∷ xs) = x ∷ del_tail (y ∷ xs)

-- A full queue loses its tail, the oldest item; the new one is the head.
unfoldable pub queue_add : {A : Type 0} → List A → A → List A
unfolding del_tail
queue_add xs x = x ∷ (if leb queue_size (length xs) then del_tail xs else xs)

-- The test of `cb` in `tcpdispatch`.
unfoldable pub is_next : ℕ → TcpBuffer → Bool
is_next tidx b = not b.dispatched && (tidx == 0 || tidx + 1 == b.tidx)

-- The first buffer that passes the test, and the list in which it is marked.
unfoldable pub take_next : ℕ → List TcpBuffer → Option (TcpBuffer × List TcpBuffer)
take_next tidx [] = none
take_next tidx (b ∷ bs) =
    let rest = take_next tidx bs in
    if is_next tidx b
    then some (b, record b { dispatched = true } ∷ bs)
    else elim rest [ none ↦ none | some r ↦ some (r.0, b ∷ r.1) ]

-- `rounds` calls of `tcpdispatch`, each made by the one before it.
unfoldable pub dispatch_loop : ℕ → Connection → Connection
dispatch_loop zero c = c
dispatch_loop (suc rounds) c = elim (take_next c.tidx c.packets) [
  | none ↦ c
  | some r ↦
      dispatch_loop rounds
        (record { tidx = r.0.tidx; packets = r.1; sent = c.sent ++ (r.0.tidx, r.0.buf) ∷ [] })
]

-- Each call but the last marks a buffer.
unfoldable pub tcpdispatch : Connection → Connection
tcpdispatch c = dispatch_loop (length c.packets) c

unfoldable pub tcpsend : Connection → List ℕ → ℕ → Connection
tcpsend c buf tidx =
    let b : TcpBuffer = record { buf = buf; tidx = tidx; dispatched = false } in
    tcpdispatch (record c { packets = queue_add c.packets b })

-- `*sent` of `tcpsent`: a buffer of that index is in the queue.
unfoldable pub tcpsent : List TcpBuffer → ℕ → Bool
tcpsent [] tidx = false
tcpsent (b ∷ bs) tidx = b.tidx == tidx || tcpsent bs tidx
