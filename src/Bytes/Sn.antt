-- ===== src/Bytes/Sn.antt =====
-- `sn` and `snb` of src/include/sn.h: a memory region, its size and the offset of what is written
-- or read so far.
pub mod Append
pub mod Read
use eioie_client.Base.{
  ℕ, ◌+◌, ◌^◌, List, [], ◌∷◌, length, ltb, leb, take, drop, Run, ok, fail, fault, ◌>>=◌,
  if◌then◌else◌, ◌||◌,
}
use eioie_client.Bytes.Memory.{memcpy, slice}
use eioie_client.Bytes.Integer.{to_bytes, from_bytes}

pub record Sn : Type 0 where
  pub s : List ℕ
  pub n : ℕ
  pub offset : ℕ

-- `sn_bytes_append_raw`, which `sn_bytes_append` and `snb_bytes_append` call. The sizes of the
-- sources are sizes of objects, so the `int` sum does not wrap.
unfoldable pub append : Sn → List ℕ → Run Sn
append d src =
    if ltb d.n (length src + d.offset)
    then fail
    else ok (record d { s = memcpy d.s d.offset src; offset = d.offset + length src })

-- A row of `if (append(...) != 0) return -1;`.
unfoldable pub append_all : Sn → List (List ℕ) → Run Sn
append_all d [] = ok d
append_all d (f ∷ fs) = append d f >>= λ d'. append_all d' fs

-- `sn_read(dst, ndst, src)` into an object of `room` bytes. `ndst` is an `int`, given by its bits:
-- a negative one passes the test and is a huge size for `memcpy`; a sum past the largest `int` and a
-- write past the object are undefined too.
unfoldable pub read : ℕ → ℕ → Sn → Run (List ℕ × Sn)
read room ndst src =
    if leb (2 ^ 31) (src.offset + ndst)
    then fault
    else if ltb src.n (src.offset + ndst)
    then fail
    else if ltb room ndst
    then fault
    else ok (slice src.s src.offset ndst, record src { offset = src.offset + ndst })

-- `sn_read(&x, sizeof(x), src)` of an integer of `w` bytes.
unfoldable pub read_integer : ℕ → Sn → Run (ℕ × Sn)
unfolding read
read_integer w src = read w w src >>= λ r. ok (from_bytes r.0, r.1)

-- `sn_initr`.
unfoldable pub init_raw : List ℕ → Sn
init_raw buffer = record { s = buffer; n = length buffer; offset = 0 }
