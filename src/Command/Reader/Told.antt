-- ===== src/Command/Reader/Told.antt =====
-- What a peer puts into its send buffer is what the callback of the other one hears.
use eioie_client.Base.{
  ℕ, ◌%◌, ◌^◌, ◌<◌, ◌≡◌, refl, sym, subst, List, [], ◌++◌, arith, length, not, ◌==◌, ◌&&◌,
  Bool-cases, inl, inr, Option, none, some, Run, ok, length-append, append-nil,
}
use eioie_client.Bytes.Integer.{to_bytes, length-to_bytes}
use eioie_client.Bytes.Sn.{init_raw}
use eioie_client.Bytes.Sn.Read.{Left, init_raw-Left, read_integer-Reads}
use eioie_client.Packet.{Address, hash_size}
use eioie_client.Command.{Sender, Content, Data}
use eioie_client.Command.Table.{payload_init}
use eioie_client.Command.Counts.{full}
use eioie_client.Command.Prepared.{Kind, number, bytes_of, payload_init-full}
use eioie_client.Command.Reader.{
  Heard, Callback, calls, message_read, fileask_read, auth_read, authrpl_read, ping_read, pong_read,
  query_read, queryrpl_read,
}

-- The row of the table `cmds`, for the readers that only call a callback.
unfoldable pub reader_of : Kind → Option (Callback → Address → List ℕ → Run (Unit {0}))
reader_of Kind.message = some message_read
reader_of Kind.fileask = some fileask_read
reader_of Kind.auth = some auth_read
reader_of Kind.auth_reply = some authrpl_read
reader_of Kind.ping = some ping_read
reader_of Kind.pong = some pong_read
reader_of Kind.query = some query_read
reader_of Kind.query_reply = some queryrpl_read
reader_of k = none

-- What the send buffer says, if its numbers fit their types.
unfoldable pub told : Content → Option Heard
told (Content.message str) = some (Heard.message str)
told (Content.fileask name chunk) = some (Heard.fileask (name ++ chunk))
told (Content.auth str) = some (Heard.auth str)
told (Content.auth_reply str) = some (Heard.authrpl str)
told (Content.ping ts) = some (Heard.ping ts)
told (Content.pong ts) = some (Heard.pong ts)
told (Content.query a) = some (Heard.query a)
told (Content.query_reply a r) = some (Heard.query_reply a (not (r == 0)))
told c = none

-- The numbers of the send buffer fit their types.
unfoldable pub Fits : Content → Type 0
Fits (Content.ping ts) = ts < 2 ^ 64
Fits (Content.pong ts) = ts < 2 ^ 64
Fits (Content.query a) = (a.host < 2 ^ 32) × (a.port < 2 ^ 16)
Fits (Content.query_reply a r) = (a.host < 2 ^ 32) × (a.port < 2 ^ 16) × (r < 256)
Fits c = Unit

-- Whom the callback is told: a ping's port is its sender's host.
unfoldable pub teller : Kind → Address → Address
teller Kind.ping src = record { host = src.host; port = src.host % 2 ^ 16 }
teller k src = src

small_bytes :
    (w v : ℕ)
    → w < 100
    → Left (length (to_bytes w v)) (to_bytes w v ++ []) (init_raw (to_bytes w v))
small_bytes w v few =
    subst (λ b. Left (length (to_bytes w v)) b (init_raw (to_bytes w v)))
      (sym (append-nil (to_bytes w v)))
      (init_raw-Left (to_bytes w v) (omega (arith, length-to_bytes w v)))

module _ (cb : Callback) (src : Address) where
  message_lem : (str : List ℕ) → message_read cb src str ≡ calls cb src (Heard.message str)
  unfolding message_read
  message_lem str = refl

  fileask_lem : (str : List ℕ) → fileask_read cb src str ≡ calls cb src (Heard.fileask str)
  unfolding fileask_read
  fileask_lem str = refl

  auth_lem : (str : List ℕ) → auth_read cb src str ≡ calls cb src (Heard.auth str)
  unfolding auth_read
  auth_lem str = refl

  authrpl_lem : (str : List ℕ) → authrpl_read cb src str ≡ calls cb src (Heard.authrpl str)
  unfolding authrpl_read
  authrpl_lem str = refl

  ping_lem :
      (ts : ℕ)
      → ts < 2 ^ 64
      → ping_read cb src (to_bytes 8 ts) ≡ calls cb (teller Kind.ping src) (Heard.ping ts)
  unfolding ping_read teller
  ping_lem ts small =
      let (s1, e1, l1) = read_integer-Reads 8 ts [] _ small (small_bytes 8 ts (omega arith)) in
      rw e1

  pong_lem :
      (ts : ℕ) → ts < 2 ^ 64 → pong_read cb src (to_bytes 8 ts) ≡ calls cb src (Heard.pong ts)
  unfolding pong_read
  pong_lem ts small =
      let (s1, e1, l1) = read_integer-Reads 8 ts [] _ small (small_bytes 8 ts (omega arith)) in
      rw e1

  query_lem :
      (a : Address)
      → a.host < 2 ^ 32
      → a.port < 2 ^ 16
      → query_read cb src (to_bytes 4 a.host ++ to_bytes 2 a.port) ≡ calls cb src (Heard.query a)
  unfolding query_read
  query_lem a host port =
      let bytes = to_bytes 4 a.host ++ to_bytes 2 a.port in
      let size : length bytes ≡ 6 = simp (length-append, length-to_bytes) (omega arith) in
      let (s1, e1, l1) =
        read_integer-Reads 4 a.host (to_bytes 2 a.port) (init_raw bytes) host
          (init_raw-Left bytes (omega (arith, size))) in
      let (s2, e2, l2) =
        read_integer-Reads 2 a.port [] s1 port
          (subst (λ b. Left (length bytes) b s1) (sym (append-nil (to_bytes 2 a.port))) l1) in
      rw (e1, e2)

  queryrpl_lem :
      (a : Address) (r : ℕ)
      → a.host < 2 ^ 32
      → a.port < 2 ^ 16
      → r < 256
      → queryrpl_read cb src (to_bytes 4 a.host ++ (to_bytes 2 a.port ++ to_bytes 1 r))
        ≡ calls cb src (Heard.query_reply a (not (r == 0)))
  unfolding queryrpl_read
  queryrpl_lem a r host port flag =
      let bytes = to_bytes 4 a.host ++ (to_bytes 2 a.port ++ to_bytes 1 r) in
      let size : length bytes ≡ 7 = simp (length-append, length-to_bytes) (omega arith) in
      let (s1, e1, l1) =
        read_integer-Reads 4 a.host _ (init_raw bytes) host
          (init_raw-Left bytes (omega (arith, size))) in
      let (s2, e2, l2) = read_integer-Reads 2 a.port (to_bytes 1 r) s1 port l1 in
      let (s3, e3, l3) =
        read_integer-Reads 1 r [] s2 flag
          (subst (λ b. Left (length bytes) b s2) (sym (append-nil (to_bytes 1 r))) l2) in
      rw (e1, e2, e3)

-- The bytes are read as what was told.
reader-told :
    (k : Kind) (p : Sender) (c : Content) (bytes : List ℕ) (cb : Callback) (src : Address)
    (reader : Callback → Address → List ℕ → Run (Unit {0})) (h : Heard)
    → bytes_of k p c ≡ some bytes
    → reader_of k ≡ some reader
    → told c ≡ some h
    → Fits c
    → reader cb src bytes ≡ calls cb (teller k src) h
unfolding bytes_of reader_of told Fits teller
reader-told Kind.message p (Content.message str) bytes cb src reader h b r t fits =
    cc (b, r, t, message_lem cb src str)
reader-told Kind.auth p (Content.auth str) bytes cb src reader h b r t fits =
    cc (b, r, t, auth_lem cb src str)
reader-told Kind.auth_reply p (Content.auth_reply str) bytes cb src reader h b r t fits =
    cc (b, r, t, authrpl_lem cb src str)
reader-told Kind.fileask p (Content.fileask name chunk) bytes cb src reader h b r t fits =
    elim (Bool-cases (length name == hash_size && length chunk == hash_size)) [
      | inl sizes ↦ cc (r, t, rw sizes at b, fileask_lem cb src (name ++ chunk))
      | inr other ↦ cc (rw other at b)
    ]
reader-told Kind.ping p (Content.ping ts) bytes cb src reader h b r t fits =
    cc (b, r, t, ping_lem cb src ts fits)
reader-told Kind.pong p (Content.pong ts) bytes cb src reader h b r t fits =
    cc (b, r, t, pong_lem cb src ts fits)
reader-told Kind.query p (Content.query a) bytes cb src reader h b r t fits =
    cc (b, r, t, query_lem cb src a fits.0 fits.1)
reader-told Kind.query_reply p (Content.query_reply a flag) bytes cb src reader h b r t fits =
    cc (b, r, t, queryrpl_lem cb src a flag fits.0 fits.1 fits.2)
reader-told k p c bytes cb src reader h b r t fits = cc

-- If the send buffer is what a message, a file request, a challenge, its answer, a ping, a pong, a
-- query or a query's reply wants, its numbers fit their types, and the payload has less than 2 ^ 31
-- bytes, the payload that `payload_init` makes is read by the command's reader as a call of its
-- callback with what the send buffer says, where a ping's callback gets its sender's host as the port.
pub reader-payload_init :
    (fresh : ℕ → ℕ) (k : Kind) (p : Sender) (bytes : List ℕ) (cb : Callback) (src : Address)
    (reader : Callback → Address → List ℕ → Run (Unit {0})) (h : Heard)
    → bytes_of k p p.content ≡ some bytes
    → length bytes < 2 ^ 31
    → reader_of k ≡ some reader
    → told p.content ≡ some h
    → Fits p.content
    → (d : Data) × (payload_init fresh (number k) p ≡ ok d)
      × (reader cb src d.payload.s ≡ calls cb (teller k src) h)
reader-payload_init fresh k p bytes cb src reader h b small r t fits = (
  full (number k) bytes,
  payload_init-full fresh k p p.content bytes refl b small,
  reader-told k p p.content bytes cb src reader h b r t fits,
)
