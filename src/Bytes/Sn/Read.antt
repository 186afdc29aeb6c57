-- ===== src/Bytes/Sn/Read.antt =====
-- What `read` takes from a region whose remaining bytes are known.
use eioie_client.Base.{
  Bool-cases, leb, ltb, ℕ, ◌+◌, ◌^◌, ◌≤◌, ◌<◌, ◌≡◌, refl, ap, ◌∙◌, List, ◌++◌, arith, length, take,
  drop, Run, ok, fail, fault, ◌>>=◌, length-append, ge→ltb, lt→ltb, take-append, drop-append,
  drop-add, gt→leb, ◌⊎◌, ◌≢◌, inl, inr,
}
use eioie_client.Bytes.Integer.{to_bytes, length-to_bytes, from_bytes-to_bytes}
use eioie_client.Bytes.Sn.{Sn, read, read_integer, init_raw}

-- `rest` is what is left to read of a region of `n` bytes, whose size is an `int`.
pub record Left (n : ℕ) (rest : List ℕ) (src : Sn) : Type 0 where
  pub bytes : drop src.offset src.s ≡ rest
  pub size : src.n ≡ src.offset + length rest
  pub whole : src.n ≡ n
  pub small : n < 2 ^ 31

pub init_raw-Left :
    (buffer : List ℕ) → length buffer < 2 ^ 31 → Left (length buffer) buffer (init_raw buffer)
unfolding init_raw
init_raw-Left buffer h = record { bytes = refl; size = omega arith; whole = refl; small = h }

pub read_lem :
    {n : ℕ} (room : ℕ) (xs rest : List ℕ) (src : Sn) {w : ℕ}
    → length xs ≡ w
    → Left n (xs ++ rest) src
    → w ≤ room
    → read room w src ≡ ok (xs, record src { offset = src.offset + w })
unfolding read
read_lem {n} room xs rest src {w} e h fits =
    let total = length-append {0} xs rest in
    let head : take w (drop src.offset src.s) ≡ xs =
      ap (take w) h.bytes ∙ take-append w xs rest e in
    rw (
      gt→leb (2 ^ 31) (src.offset + w) (omega arith),
      ge→ltb src.n (src.offset + w) (omega arith),
      ge→ltb room w fits,
      head,
    )

read-Left :
    {n : ℕ} (xs rest : List ℕ) (src : Sn) {w : ℕ}
    → length xs ≡ w
    → Left n (xs ++ rest) src
    → Left n rest (record src { offset = src.offset + w })
read-Left {n} xs rest src {w} e h = record {
  bytes = drop-add src.offset w src.s ∙ ap (drop w) h.bytes ∙ drop-append w xs rest e;
  size = omega (arith, length-append {0} xs rest);
  whole = h.whole;
  small = h.small;
}

-- The reader returns `a` and leaves `rest`.
abbrev pub Reads {ℓ} : {A : Type ℓ} → ℕ → Run (A × Sn) → A → List ℕ → Type ℓ
Reads n m a rest = (src' : Sn) × (m ≡ ok (a, src')) × Left n rest src'

pub Reads-bind {ℓ κ} :
    {n : ℕ} {A : Type ℓ} {B : Type κ} {m : Run (A × Sn)} (k : A × Sn → Run (B × Sn)) {a : A} {b : B}
    {rest rest' : List ℕ}
    → Reads n m a rest
    → ((src' : Sn) → Left n rest src' → Reads n (k (a, src')) b rest')
    → Reads n (m >>= k) b rest'
Reads-bind k (src1, e, left) next = let (src2, e2, left2) = next src1 left in (src2, rw e e2, left2)

pub read-Reads :
    {n : ℕ} (room : ℕ) (xs rest : List ℕ) (src : Sn) {w : ℕ}
    → length xs ≡ w
    → w ≤ room
    → Left n (xs ++ rest) src
    → Reads n (read room w src) xs rest
read-Reads room xs rest src e fits h =
    (_, read_lem room xs rest src e h fits, read-Left xs rest src e h)

pub read_integer-Reads :
    {n : ℕ} (w v : ℕ) (rest : List ℕ) (src : Sn)
    → v < 256 ^ w
    → Left n (to_bytes w v ++ rest) src
    → Reads n (read_integer w src) v rest
unfolding read_integer
read_integer-Reads {n} w v rest src small h =
    let e = length-to_bytes w v in
    (
      _,
      rw (read_lem w (to_bytes w v) rest src e h (omega arith), from_bytes-to_bytes w v small),
      read-Left (to_bytes w v) rest src e h,
    )

-- Too few bytes are left: -1.
pub read-eq-fail :
    {n : ℕ} (room w : ℕ) (rest : List ℕ) (src : Sn)
    → Left n rest src
    → src.offset + w < 2 ^ 31
    → length rest < w
    → read room w src ≡ fail
unfolding read
read-eq-fail room w rest src h small short =
    rw (gt→leb (2 ^ 31) (src.offset + w) (omega arith), lt→ltb src.n (src.offset + w) (omega arith))

-- An end that is no `int`, or a size that passes the destination, is undefined behaviour.
pub read-eq-fault :
    {n : ℕ} (room w : ℕ) (rest : List ℕ) (src : Sn)
    → Left n rest src
    → (2 ^ 31 ≤ src.offset + w) ⊎ ((room < w) × (w ≤ length rest))
    → read room w src ≡ fault
unfolding read
read-eq-fault room w rest src h (inl negative) = ground arith
read-eq-fault room w rest src h (inr (big, there)) = ground arith

pub read-fault :
    {n : ℕ} (room w : ℕ) (rest : List ℕ) (src : Sn)
    → Left n rest src
    → read room w src ≡ fault
    → (2 ^ 31 ≤ src.offset + w) ⊎ ((room < w) × (w ≤ length rest))
unfolding read
read-fault room w rest src h e = ground arith

pub read-ne-fault :
    (room w : ℕ) (src : Sn) → w ≤ room → src.offset + w < 2 ^ 31 → read room w src ≢ fault
unfolding read
read-ne-fault room w src fits small = ground arith

-- A read that succeeds ends in the region.
pub read-eq-ok :
    (room w : ℕ) (src : Sn) (xs : List ℕ) (src' : Sn)
    → read room w src ≡ ok (xs, src')
    → src'.offset ≤ src.n
unfolding read
read-eq-ok room w src xs src' e = elim (Bool-cases (leb (2 ^ 31) (src.offset + w))) [
  | inl wide ↦ cc (rw wide at e)
  | inr fine ↦
      let e1 = rw fine at e in
      elim (Bool-cases (ltb src.n (src.offset + w))) [
        | inl short ↦ cc (rw short at e1)
        | inr there ↦
            let e2 = rw there at e1 in
            elim (Bool-cases (ltb room w)) [
              | inl big ↦ cc (rw big at e2)
              | inr fits ↦
                  let e3 = rw fits at e2 in
                  let moved : record src { offset = src.offset + w } ≡ src' = cc in
                  let ends : src.offset + w ≡ src'.offset = ap (λ b. b.offset) moved in ground arith
            ]
      ]
]
