-- ===== src/Net/Limit.antt =====
-- How much `update` of src/traffic.c lets through.
use eioie_client.Base.{
  ℕ, ◌+◌, ◌*◌, ◌%◌, ◌^◌, size_of_int, size_of_int_small, ◌≤◌, ◌<◌, ◌≡◌, refl, List, [], ◌∷◌, leb,
  ◌==◌, ◌||◌, Bool-cases, false, inl, inr, arith, if◌then◌else◌,
}
use eioie_client.Net.{Traffic, update}

-- The sizes of the packets that are let through, each with the beginning of its window.
unfoldable pub granted : (ℕ → ℕ) → ℕ → List ℕ → Traffic → List (ℕ × ℕ)
unfolding update
granted clock limit [] t = []
granted clock limit (b ∷ bs) t =
    let r = update clock limit b t in
    let rest = granted clock limit bs r.0 in if r.1 then rest else (r.0.start, b) ∷ rest

-- The bytes of the window that begins at `w`.
unfoldable pub in_window : ℕ → List (ℕ × ℕ) → ℕ
in_window w [] = 0
in_window w ((s, b) ∷ h) = (if s == w then b else 0) + in_window w h

abbrev pub Bounded : ℕ → List ℕ → Type 0
Bounded k [] = Unit
Bounded k (b ∷ bs) = (b ≤ k) × Bounded k bs

module _ (clock : ℕ → ℕ) (limit : ℕ)
    (runs : (i : ℕ) → (0 < clock i) × (clock i ≤ clock (i + 1))) where
  -- Nothing is let through in a window that is over.
  over :
      (bs : List ℕ) (w start bytes ticks : ℕ)
      → start ≤ clock ticks
      → w < start
      → in_window w
          (granted clock limit bs (record { start = start; bytes = bytes; ticks = ticks }))
        ≡ 0
  unfolding granted in_window update
  over [] w start bytes ticks v before = refl
  over (b ∷ bs) w start bytes ticks v before =
      let now = runs ticks in
      let later = runs (ticks + 1) in
      let next : ticks + 1 + 1 ≡ ticks + 2 = omega arith in
      elim (Bool-cases (start == 0 || leb (start + 1000) (clock ticks))) [
        | inl new ↦
            let rest =
              over bs w (clock (ticks + 1)) b (ticks + 2) (rw next at later.1) (ground arith) in
            let past : (clock (ticks + 1) == w) ≡ false = ground arith in
            rw (new, past) (omega (arith, rest))
        | inr same ↦
            elim (Bool-cases (leb (size_of_int (limit * 1024 % 2 ^ 32)) ((bytes + b) % 2 ^ 64))) [
              | inl full ↦ rw (same, full) (over bs w start bytes (ticks + 1) (omega arith) before)
              | inr free ↦
                  let past : (start == w) ≡ false = ground arith in
                  let rest =
                    over bs w start ((bytes + b) % 2 ^ 64) (ticks + 1) (omega arith) before in
                  rw (same, free, past) (omega (arith, rest))
            ]
      ]

  within :
      (k : ℕ) (bs : List ℕ) (w start bytes ticks : ℕ)
      → limit < 2 ^ 21
      → k < 2 ^ 63
      → limit * 1024 ≤ k
      → Bounded k bs
      → start ≤ clock ticks
      → bytes ≤ k
      → in_window w
            (granted clock limit bs (record { start = start; bytes = bytes; ticks = ticks }))
          + (if start == w then bytes else 0)
        ≤ k
  unfolding granted in_window update
  within k [] w start bytes ticks fits big wide small v few = ground arith
  within k (b ∷ bs) w start bytes ticks fits big wide small v few =
      let whole : limit * 1024 % 2 ^ 32 ≡ limit * 1024 = omega arith in
      let most = size_of_int_small (limit * 1024) (omega arith) in
      let total : (bytes + b) % 2 ^ 64 ≡ bytes + b = omega (arith, small.0) in
      let now = runs ticks in
      let later = runs (ticks + 1) in
      let next : ticks + 1 + 1 ≡ ticks + 2 = omega arith in
      elim (Bool-cases (start == 0 || leb (start + 1000) (clock ticks))) [
        | inl new ↦
            let next_start = rw next at later.1 in
            let rest =
              within k bs w (clock (ticks + 1)) b (ticks + 2) fits big wide small.1 next_start
                small.0 in
            elim (Bool-cases (start == w)) [
              | inl last ↦
                  let none_ =
                    over bs w (clock (ticks + 1)) b (ticks + 2) next_start (ground arith) in
                  let past : (clock (ticks + 1) == w) ≡ false = ground arith in
                  rw (new, last, past, none_) (omega arith)
              | inr other ↦ rw (new, other) (omega (arith, rest))
            ]
        | inr same ↦ elim (Bool-cases (leb (limit * 1024) (bytes + b))) [
          | inl full ↦
              rw (same, whole, most, total, full)
                (within k bs w start bytes (ticks + 1) fits big wide small.1 (omega arith) few)
          | inr free ↦
              let rest =
                within k bs w start (bytes + b) (ticks + 1) fits big wide small.1 (omega arith)
                  (ground arith) in
              rw (same, whole, most, total, free) (ground arith)
        ]
      ]

  -- If the clock is not 0 and does not go back, the limit is less than 2 ^ 21 and `k` less than 2 ^ 63,
  -- and neither the limit's 1,024 bytes each nor any packet is larger than `k`, then of any packets,
  -- from a fresh start, those that `update` lets through in one of its windows have at most `k` bytes
  -- together. A window begins with the first packet a second or more after the last one began.
  pub granted-within :
      (k : ℕ) (bs : List ℕ) (w : ℕ)
      → limit < 2 ^ 21
      → k < 2 ^ 63
      → limit * 1024 ≤ k
      → Bounded k bs
      → in_window w (granted clock limit bs (record { start = 0; bytes = 0; ticks = 0 })) ≤ k
  granted-within k bs w fits big wide small =
      let all = within k bs w 0 0 0 fits big wide small (omega arith) (omega arith) in omega arith
