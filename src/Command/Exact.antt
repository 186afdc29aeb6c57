-- ===== src/Command/Exact.antt =====
-- The size functions count what the writers write: a finished payload has no byte to spare.
use eioie_client.Base.{
  ℕ, zero, suc, ◌+◌, ◌^◌, ◌≤◌, ◌<◌, ◌≡◌, refl, ap, ◌∙◌, List, [], ◌∷◌, ◌++◌, arith, length, ltb,
  Run, ok, ◌>>=◌, length-append, ge→ltb, lt→ltb, ltb→lt, gt→leb, Bool-cases, inl, inr,
}
use eioie_client.Bytes.Memory.{memcpy}
use eioie_client.Bytes.Sn.{Sn, append}
use eioie_client.Payload.{fill}
use eioie_client.Command.{bytes_init_new, data_init}

memcpy-append :
    (ds : List ℕ) (o : ℕ) (xs ys : List ℕ)
    → memcpy ds o (xs ++ ys) ≡ memcpy (memcpy ds o xs) (o + length xs) ys
unfolding memcpy
memcpy-append [] o xs ys = refl
memcpy-append (d ∷ ds) zero [] ys = refl
memcpy-append (d ∷ ds) zero (x ∷ xs) ys =
    let e : suc (0 + length xs) ≡ 0 + suc (length xs) = omega arith in
    ap (λ l. x ∷ l) (memcpy-append ds 0 xs ys) ∙ ap (λ q. memcpy (x ∷ memcpy ds 0 xs) q ys) e
memcpy-append (d ∷ ds) (suc o) xs ys =
    let e : suc (o + length xs) ≡ suc o + length xs = omega arith in
    ap (λ l. d ∷ l) (memcpy-append ds o xs ys) ∙ ap (λ q. memcpy (d ∷ memcpy ds o xs) q ys) e

memcpy-nil : (ds : List ℕ) (o : ℕ) → memcpy ds o [] ≡ ds
unfolding memcpy
memcpy-nil [] o = refl
memcpy-nil (d ∷ ds) zero = refl
memcpy-nil (d ∷ ds) (suc o) = ap (λ l. d ∷ l) (memcpy-nil ds o)

memcpy-exact : (ds src : List ℕ) → length ds ≡ length src → memcpy ds 0 src ≡ src
unfolding memcpy
memcpy-exact [] [] e = refl
memcpy-exact [] (x ∷ src) e = absurd (omega arith)
memcpy-exact (d ∷ ds) [] e = absurd (omega arith)
memcpy-exact (d ∷ ds) (x ∷ src) e = ap (λ l. x ∷ l) (memcpy-exact ds src (omega arith))

-- What has been written lies in the region.
abbrev pub Within : Sn → Type 0
Within d = d.offset ≤ d.n

-- The writer appends `bytes`, whatever is there, or fails as the append does.
abbrev pub Appends : (Sn → Run Sn) → List ℕ → Type 0
Appends writer bytes = (d : Sn) → Within d → writer d ≡ append d bytes

-- Two appends that follow one another are one.
pub append_then :
    (xs ys : List ℕ) (d : Sn) (next : Sn → Run Sn)
    → Within d
    → Appends next ys
    → (append d xs >>= next) ≡ append d (xs ++ ys)
unfolding append
append_then xs ys d next h then_ = elim (Bool-cases (ltb d.n (length xs + d.offset))) [
  | inl over ↦ rw (
    over,
    lt→ltb d.n (length (xs ++ ys) + d.offset)
        (omega (arith, length-append {0} xs ys, ltb→lt d.n (length xs + d.offset) over)),
  )
  | inr fits ↦
      let d1 : Sn = record d { s = memcpy d.s d.offset xs; offset = d.offset + length xs } in
      let sum : length ys + (d.offset + length xs) ≡ length xs + length ys + d.offset =
        omega arith in
      let end : d.offset + length xs + length ys ≡ d.offset + (length xs + length ys) =
        omega arith in
      let first : next d1 ≡ append d1 ys = then_ d1 (ground arith) in
      rw (fits, first, append, memcpy-append d.s d.offset xs ys, length-append xs ys, sum, end)
]

zero_left : (n : ℕ) → 0 + n ≡ n
zero_left n = omega arith

zero_right : (n : ℕ) → n + 0 ≡ n
zero_right n = omega arith

pub append-nil_lem : Appends ok []
unfolding append
append-nil_lem d h =
    rw (ge→ltb d.n (0 + d.offset) (omega arith), memcpy-nil d.s d.offset, zero_right d.offset)

length-fill : (fresh : ℕ → ℕ) (k : ℕ) → length (fill fresh k) ≡ k
unfolding fill
length-fill fresh zero = refl
length-fill fresh (suc k) = ap suc (length-fill fresh k)

-- A callback that appends as many bytes as the size says fills the payload with them.
pub data_init-exact :
    (fresh : ℕ → ℕ) (cmd : ℕ) (callback : Sn → Run Sn) (bytes : List ℕ)
    → length bytes < 2 ^ 31
    → Appends callback bytes
    → data_init fresh cmd callback (ok (length bytes))
      ≡ ok (record {
        command = cmd;
        payload = record { s = bytes; n = length bytes; offset = length bytes };
      })
unfolding data_init append bytes_init_new
data_init-exact fresh cmd callback bytes small writes =
    let room : Sn = record { s = fill fresh (length bytes); n = length bytes; offset = 0 } in
    rw (
      gt→leb (2 ^ 31) (length bytes) small,
      writes room (omega arith),
      append,
      ge→ltb (length bytes) (length bytes + 0) (omega arith),
      memcpy-exact (fill fresh (length bytes)) bytes (length-fill fresh (length bytes)),
      zero_left (length bytes),
    )
