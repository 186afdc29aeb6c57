-- ===== src/Bytes/Sn/Append.antt =====
-- What `append` leaves in the region.
use eioie_client.Base.{
  ℕ, ◌+◌, ◌≤◌, ◌<◌, ◌≡◌, refl, ap, ◌∙◌, List, [], ◌∷◌, ◌++◌, arith, length, take, ltb, ok, fail,
  append_assoc, append-nil, length-append, ge→ltb, lt→ltb, Bool-cases, inl, inr, ltb→lt,
}
use eioie_client.Bytes.Memory.{memcpy, length-memcpy, take-memcpy}
use eioie_client.Bytes.Sn.{Sn, append, append_all}

abbrev pub concat : List (List ℕ) → List ℕ
concat [] = []
concat (x ∷ xs) = x ++ concat xs

-- The concatenation, followed by `rest`, bracketed to the right.
abbrev pub onto : List (List ℕ) → List ℕ → List ℕ
onto [] rest = rest
onto (x ∷ xs) rest = x ++ onto xs rest

pub concat-onto : (xs : List (List ℕ)) (rest : List ℕ) → concat xs ++ rest ≡ onto xs rest
concat-onto [] rest = refl
concat-onto (x ∷ xs) rest = append_assoc x (concat xs) rest ∙ ap (λ l. x ++ l) (concat-onto xs rest)

-- The region of `size` bytes holds `bytes` up to its offset.
pub record Holds (size : ℕ) (bytes : List ℕ) (d : Sn) : Type 0 where
  pub room : d.n ≡ size
  pub wide : length d.s ≡ size
  pub written : take d.offset d.s ≡ bytes
  pub count : d.offset ≡ length bytes

pub append-Holds :
    {size : ℕ} {bytes : List ℕ} (d : Sn) (src : List ℕ)
    → Holds size bytes d
    → length bytes + length src ≤ size
    → (d' : Sn) × (append d src ≡ ok d') × Holds size (bytes ++ src) d'
unfolding append
append-Holds {size} {bytes} d src h fits = (
  record d { s = memcpy d.s d.offset src; offset = d.offset + length src },
  rw (ge→ltb d.n (length src + d.offset) (omega arith)),
  record {
    room = h.room;
    wide = length-memcpy d.s d.offset src ∙ h.wide;
    written = take-memcpy d.s d.offset src (omega arith) ∙ ap (λ l. l ++ src) h.written;
    count = omega (arith, length-append {0} bytes src);
  },
)

-- A row of appends that fits leaves the concatenation.
pub append_all-Holds :
    {size : ℕ} {bytes : List ℕ} (d : Sn) (fs : List (List ℕ))
    → Holds size bytes d
    → length bytes + length (concat fs) ≤ size
    → (d' : Sn) × (append_all d fs ≡ ok d') × Holds size (bytes ++ concat fs) d'
unfolding append_all
append_all-Holds {size} {bytes} d [] h fits = (d, refl, rw (append-nil bytes) h)
append_all-Holds {size} {bytes} d (f ∷ fs) h fits =
    let size_of = length-append {0} f (concat fs) in
    let (d1, e1, h1) = append-Holds d f h (omega arith) in
    let (d2, e2, h2) = append_all-Holds d1 fs h1 (omega (arith, length-append {0} bytes f)) in
    (d2, rw e1 e2, rw (← append_assoc bytes f (concat fs)) h2)

append-eq-fail :
    {size : ℕ} {bytes : List ℕ} (d : Sn) (src : List ℕ)
    → Holds size bytes d
    → size < length bytes + length src
    → append d src ≡ fail
unfolding append
append-eq-fail d src h big = rw (lt→ltb d.n (length src + d.offset) (omega arith))

-- A row of appends that does not fit returns -1.
pub append_all-eq-fail :
    {size : ℕ} {bytes : List ℕ} (d : Sn) (fs : List (List ℕ))
    → Holds size bytes d
    → length bytes ≤ size
    → size < length bytes + length (concat fs)
    → append_all d fs ≡ fail
unfolding append_all
append_all-eq-fail d [] h small big = absurd (omega arith)
append_all-eq-fail {size} {bytes} d (f ∷ fs) h small big =
    let total = length-append {0} f (concat fs) in
    elim (Bool-cases (ltb size (length bytes + length f))) [
      | inl over ↦ rw (append-eq-fail d f h (ltb→lt _ _ over))
      | inr fits ↦
          let (d1, e1, h1) = append-Holds d f h (ground arith) in
          rw e1 (
            append_all-eq-fail d1 fs h1 (rw length-append (ground arith))
              (rw length-append (omega arith)))
    ]
