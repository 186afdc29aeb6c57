-- ===== src/Bytes/Memory.antt =====
-- `memcpy` into an array of bytes, and the slices it reads.
use eioie_client.Base.{
  ℕ, zero, suc, ◌+◌, ◌-◌, ◌≤◌, ◌<◌, ◌≡◌, refl, ap, ◌∙◌, List, [], ◌∷◌, ◌++◌, some, arith, length,
  get_elem?, take, drop, leb, ltb, ◌&&◌, if◌then◌else◌, length-take, length-drop, le→leb, lt→ltb,
  Bool-cases, inl, inr,
}

module _ {A : Type 0} where
  -- `memcpy(dst + o, src, length src)`; what would pass the end of the array is left out, and the
  -- callers guard against it.
  unfoldable pub memcpy : List A → ℕ → List A → List A
  memcpy [] o src = []
  memcpy (d ∷ ds) zero [] = d ∷ ds
  memcpy (d ∷ ds) zero (x ∷ src) = x ∷ memcpy ds zero src
  memcpy (d ∷ ds) (suc o) src = d ∷ memcpy ds o src

  -- The `len` elements at `xs + o`.
  abbrev pub slice : List A → ℕ → ℕ → List A
  slice xs o len = take len (drop o xs)

  pub length-memcpy : (ds : List A) (o : ℕ) (src : List A) → length (memcpy ds o src) ≡ length ds
  unfolding memcpy
  length-memcpy [] o src = refl
  length-memcpy (d ∷ ds) zero [] = refl
  length-memcpy (d ∷ ds) zero (x ∷ src) = ap suc (length-memcpy ds zero src)
  length-memcpy (d ∷ ds) (suc o) src = ap suc (length-memcpy ds o src)

  -- Appending at the end of what is written.
  pub take-memcpy :
      (ds : List A) (o : ℕ) (src : List A)
      → o + length src ≤ length ds
      → take (o + length src) (memcpy ds o src) ≡ take o ds ++ src
  unfolding memcpy
  take-memcpy [] zero [] h = refl
  take-memcpy [] zero (x ∷ src) h = absurd (omega arith)
  take-memcpy [] (suc o) src h = absurd (omega arith)
  take-memcpy (d ∷ ds) zero [] h = refl
  take-memcpy (d ∷ ds) zero (x ∷ src) h =
      let e : 0 + suc (length src) ≡ suc (0 + length src) = omega arith in
      ap (λ n. take n (x ∷ memcpy ds zero src)) e
      ∙ ap (λ l. x ∷ l) (take-memcpy ds zero src (omega arith))
  take-memcpy (d ∷ ds) (suc o) src h =
      let e : suc o + length src ≡ suc (o + length src) = omega arith in
      ap (λ n. take n (d ∷ memcpy ds o src)) e
      ∙ ap (λ l. d ∷ l) (take-memcpy ds o src (omega arith))

  pub get_elem?-memcpy :
      (ds : List A) (o : ℕ) (src : List A) (k : ℕ)
      → o + length src ≤ length ds
      → get_elem? (memcpy ds o src) k
        ≡ (if leb o k && ltb k (o + length src) then get_elem? src (k - o) else get_elem? ds k)
  unfolding memcpy
  get_elem?-memcpy [] zero [] k h = ground arith
  get_elem?-memcpy [] zero (x ∷ src) k h = absurd (omega arith)
  get_elem?-memcpy [] (suc o) src k h = absurd (omega arith)
  get_elem?-memcpy (d ∷ ds) zero [] k h = ground arith
  get_elem?-memcpy (d ∷ ds) zero (x ∷ src) zero h = ground arith
  get_elem?-memcpy (d ∷ ds) zero (x ∷ src) (suc k) h =
      get_elem?-memcpy ds zero src k (omega arith) ∙ ground arith
  get_elem?-memcpy (d ∷ ds) (suc o) src zero h = ground arith
  get_elem?-memcpy (d ∷ ds) (suc o) src (suc k) h =
      get_elem?-memcpy ds o src k (omega arith) ∙ ground arith

  pub get_elem?-take :
      (n : ℕ) (xs : List A) (k : ℕ) → k < n → get_elem? (take n xs) k ≡ get_elem? xs k
  get_elem?-take zero xs k h = absurd (omega arith)
  get_elem?-take (suc n) [] k h = refl
  get_elem?-take (suc n) (x ∷ xs) zero h = refl
  get_elem?-take (suc n) (x ∷ xs) (suc k) h = get_elem?-take n xs k (omega arith)

  pub get_elem?-drop :
      (n : ℕ) (xs : List A) (k : ℕ) → get_elem? (drop n xs) k ≡ get_elem? xs (n + k)
  get_elem?-drop zero xs k = ap (get_elem? xs) (omega arith)
  get_elem?-drop (suc n) [] k = refl
  get_elem?-drop (suc n) (x ∷ xs) k =
      let e : suc (n + k) ≡ suc n + k = omega arith in
      get_elem?-drop n xs k ∙ ap (get_elem? (x ∷ xs)) e

  pub get_elem?-append_left :
      (xs ys : List A) (k : ℕ) → k < length xs → get_elem? (xs ++ ys) k ≡ get_elem? xs k
  get_elem?-append_left [] ys k h = absurd (omega arith)
  get_elem?-append_left (x ∷ xs) ys zero h = refl
  get_elem?-append_left (x ∷ xs) ys (suc k) h = get_elem?-append_left xs ys k (omega arith)

  -- Lists of one length that agree at every index are equal.
  pub get_elem?_ext :
      (xs ys : List A)
      → length xs ≡ length ys
      → ((k : ℕ) → k < length ys → get_elem? xs k ≡ get_elem? ys k)
      → xs ≡ ys
  get_elem?_ext [] [] e h = refl
  get_elem?_ext [] (y ∷ ys) e h = absurd (omega arith)
  get_elem?_ext (x ∷ xs) [] e h = absurd (omega arith)
  get_elem?_ext (x ∷ xs) (y ∷ ys) e h =
      let first : some x ≡ some y = h 0 (omega arith) in
      let rest =
        get_elem?_ext xs ys (omega arith)
          (λ (k : ℕ) (p : k < length ys). h (suc k) (omega arith)) in
      cc

  pub length-slice : (xs : List A) (o n : ℕ) → o + n ≤ length xs → length (slice xs o n) ≡ n
  length-slice xs o n h = omega (arith, length-take {0} n (drop o xs), length-drop {0} o xs)

  -- A slice of `xs` that is copied to its own place brings the elements of `xs` there.
  pub get_elem?-memcpy-slice :
      (ds xs : List A) (o n k : ℕ)
      → o + n ≤ length ds
      → o + n ≤ length xs
      → o ≤ k
      → k < o + n
      → get_elem? (memcpy ds o (slice xs o n)) k ≡ get_elem? xs k
  get_elem?-memcpy-slice ds xs o n k room source lo hi =
      let size = length-slice xs o n source in
      let back : o + (k - o) ≡ k = omega arith in
      get_elem?-memcpy ds o (slice xs o n) k (omega arith)
      ∙ rw (size, le→leb o k lo, lt→ltb k (o + n) hi)
          (get_elem?-take n (drop o xs) (k - o) (omega arith)
            ∙ get_elem?-drop o xs (k - o)
            ∙ ap (get_elem? xs) back)

  -- It keeps what agrees with `xs` already.
  pub get_elem?-memcpy-slice_keeps :
      (ds xs : List A) (o n k : ℕ)
      → o + n ≤ length ds
      → o + n ≤ length xs
      → get_elem? ds k ≡ get_elem? xs k
      → get_elem? (memcpy ds o (slice xs o n)) k ≡ get_elem? xs k
  get_elem?-memcpy-slice_keeps ds xs o n k room source same =
      elim (Bool-cases (leb o k && ltb k (o + n))) [
        | inl inside ↦ get_elem?-memcpy-slice ds xs o n k room source (ground arith) (ground arith)
        | inr outside ↦
            let size = length-slice xs o n source in
            get_elem?-memcpy ds o (slice xs o n) k (omega arith) ∙ rw (size, outside) same
      ]
