-- ===== src/Relay/Repeat.antt =====
-- A packet of a tunnel that arrives again, at `request` of src/endpoint.c.
use eioie_client.Base.{
  ℕ, zero, suc, ◌≡◌, refl, ◌∙◌, List, [], ◌∷◌, ◌++◌, ==_refl, Bool-cases, true, false, Option-cases,
  none, some, inl, inr,
}
use eioie_client.Packet.{Address, Tcp}
use eioie_client.Packet.Queue.{
  TcpBuffer, Connection, is_next, take_next, dispatch_loop, tcpdispatch, queue_add, tcpsend,
  tcpsent,
}
use eioie_client.World.{same_address}
use eioie_client.Relay.{
  Endpoint, Gate, allowed, same_endpoint, find_endpoint, set_client, new_endpoint, request,
}

-- A buffer that is marked keeps its number.
tcpsent-take_next :
    (tidx n : ℕ) (bs : List TcpBuffer) (r : TcpBuffer × List TcpBuffer)
    → take_next n bs ≡ some r
    → tcpsent r.1 tidx ≡ tcpsent bs tidx
unfolding take_next tcpsent
tcpsent-take_next tidx n [] r e = cc
tcpsent-take_next tidx n (b ∷ bs) r e = elim (Bool-cases (is_next n b)) [
  | inl now ↦
      let same : (b, record b { dispatched = true } ∷ bs) ≡ r =
        let h = rw (take_next, now) at e in cc in
      rw (← same) refl
  | inr later ↦ elim (Option-cases (take_next n bs)) [
    | inl nowhere ↦ absurd (let h = rw (take_next, later, nowhere) at e in cc)
    | inr (q, found) ↦
        let same : (q.0, b ∷ q.1) ≡ r = let h = rw (take_next, later, found) at e in cc in
        rw (← same, tcpsent-take_next tidx n bs q found) refl
  ]
]

tcpsent-dispatch_loop :
    (tidx rounds : ℕ) (c : Connection)
    → tcpsent (dispatch_loop rounds c).packets tidx ≡ tcpsent c.packets tidx
unfolding dispatch_loop
tcpsent-dispatch_loop tidx zero c = refl
tcpsent-dispatch_loop tidx (suc rounds) c = elim (Option-cases (take_next c.tidx c.packets)) [
  | inl nothing ↦ rw (dispatch_loop, nothing) refl
  | inr (r, found) ↦
      rw (dispatch_loop, found)
        (tcpsent-dispatch_loop tidx rounds _ ∙ tcpsent-take_next tidx c.tidx c.packets r found)
]

-- What was put into the queue is in it.
tcpsent-tcpsend :
    (c : Connection) (buf : List ℕ) (tidx : ℕ) → tcpsent (tcpsend c buf tidx).packets tidx ≡ true
unfolding tcpsend tcpdispatch queue_add tcpsent
tcpsent-tcpsend c buf tidx = tcpsent-dispatch_loop tidx _ _ ∙ rw (==_refl tidx) refl

same_endpoint-client :
    (from : Address) (tcp : Tcp) (c : Connection) (ep : Endpoint)
    → same_endpoint from tcp (record ep { client = c }) ≡ same_endpoint from tcp ep
unfolding same_endpoint
same_endpoint-client from tcp c ep = refl

find-set_client :
    (from : Address) (tcp : Tcp) (c : Connection) (eps : List Endpoint) (ep : Endpoint)
    → find_endpoint from tcp eps ≡ some ep
    → find_endpoint from tcp (set_client from tcp c eps) ≡ some (record ep { client = c })
unfolding find_endpoint set_client
find-set_client from tcp c [] ep e = cc
find-set_client from tcp c (x ∷ eps) ep e = elim (Bool-cases (same_endpoint from tcp x)) [
  | inl here ↦
      let same : x ≡ ep = let h = rw here at e in cc in
      rw (here, same_endpoint-client from tcp c x, here, same) refl
  | inr other ↦ rw (other, other) (find-set_client from tcp c eps ep (rw other at e))
]

same_endpoint-new :
    (from : Address) (tcp : Tcp) (buf : List ℕ) (tidx : ℕ)
    → same_endpoint from tcp (new_endpoint from tcp buf tidx) ≡ true
unfolding same_endpoint same_address
same_endpoint-new from tcp buf tidx =
    rw (==_refl from.host, ==_refl from.port, ==_refl tcp.cidx, ==_refl tcp.src, ==_refl tcp.dst)
      refl

find-append :
    (from : Address) (tcp : Tcp) (eps : List Endpoint) (ep : Endpoint)
    → find_endpoint from tcp eps ≡ none
    → same_endpoint from tcp ep ≡ true
    → find_endpoint from tcp (eps ++ ep ∷ []) ≡ some ep
unfolding find_endpoint
find-append from tcp [] ep e same = rw same refl
find-append from tcp (x ∷ eps) ep e same = elim (Bool-cases (same_endpoint from tcp x)) [
  | inl here ↦ absurd (let h = rw here at e in cc)
  | inr other ↦ rw other (find-append from tcp eps ep (rw other at e) same)
]

-- A packet whose number is in the queue of its endpoint changes nothing.
request-known :
    (g : Gate) (from : Address) (tcp : Tcp) (tidx : ℕ) (buf : List ℕ) (eps : List Endpoint)
    (ep : Endpoint)
    → allowed tcp.dst g.ports ≡ true
    → find_endpoint from tcp eps ≡ some ep
    → tcpsent ep.client.packets tidx ≡ true
    → request g from tcp tidx buf eps ≡ record { endpoints = eps; sent = []; zero = true }
unfolding request
request-known g from tcp tidx buf eps ep open_ found sent = rw (request, open_, found, sent) refl

-- The first packet of a connection, and a new one.
request-fresh :
    (g : Gate) (from : Address) (tcp : Tcp) (tidx : ℕ) (buf : List ℕ) (eps : List Endpoint)
    → allowed tcp.dst g.ports ≡ true
    → g.connects tcp.dst ≡ true
    → find_endpoint from tcp eps ≡ none
    → request g from tcp tidx buf eps
      ≡ record { endpoints = eps ++ new_endpoint from tcp buf tidx ∷ []; sent = []; zero = true }
unfolding request
request-fresh g from tcp tidx buf eps open_ connects fresh =
    rw (request, open_, fresh, connects) refl

request-new :
    (g : Gate) (from : Address) (tcp : Tcp) (tidx : ℕ) (buf : List ℕ) (eps : List Endpoint)
    (ep : Endpoint)
    → allowed tcp.dst g.ports ≡ true
    → find_endpoint from tcp eps ≡ some ep
    → tcpsent ep.client.packets tidx ≡ false
    → request g from tcp tidx buf eps ≡ record {
      endpoints = set_client from tcp (tcpsend ep.client buf tidx) eps;
      sent = [];
      zero = true;
    }
unfolding request
request-new g from tcp tidx buf eps ep open_ found new = rw (request, open_, found, new) refl

-- If the port is allowed and the service can be reached, `request` returns 0, and a packet of that
-- connection with that number that arrives again, with whatever content, changes nothing then and
-- sends nothing.
pub request-request :
    (g : Gate) (from : Address) (tcp : Tcp) (tidx : ℕ) (buf again : List ℕ) (eps : List Endpoint)
    → allowed tcp.dst g.ports ≡ true
    → g.connects tcp.dst ≡ true
    → let r = request g from tcp tidx buf eps in
      (r.zero ≡ true)
      × (request g from tcp tidx again r.endpoints
          ≡ record { endpoints = r.endpoints; sent = []; zero = true })
request-request g from tcp tidx buf again eps open_ connects =
    elim (Option-cases (find_endpoint from tcp eps)) [
      | inl fresh ↦
          let ep = new_endpoint from tcp buf tidx in
          let found = find-append from tcp eps ep fresh (same_endpoint-new from tcp buf tidx) in
          rw (request-fresh g from tcp tidx buf eps open_ connects fresh) (
            refl,
            request-known g from tcp tidx again _ ep open_ found (tcpsent-tcpsend _ buf tidx),
          )
      | inr (ep, there) ↦ elim (Bool-cases (tcpsent ep.client.packets tidx)) [
        | inl sent ↦
            let known = request-known g from tcp tidx again eps ep open_ there sent in
            rw (request-known g from tcp tidx buf eps ep open_ there sent) (refl, known)
        | inr new ↦
            let c = tcpsend ep.client buf tidx in
            let found = find-set_client from tcp c eps ep there in
            rw (request-new g from tcp tidx buf eps ep open_ there new) (
              refl,
              request-known g from tcp tidx again _ (record ep { client = c }) open_ found
                  (tcpsent-tcpsend ep.client buf tidx),
            )
      ]
    ]
