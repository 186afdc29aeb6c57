-- ===== src/Config/Table.antt =====
-- A packet is sent at its first attempt, and at those whose number is a power of the factor.
use eioie_client.Base.{
  ℕ, zero, suc, ◌+◌, ◌-◌, ◌*◌, ◌^◌, ◌≤◌, ◌<◌, ◌≡◌, ◌⊎◌, ◌↔◌, inl, inr, refl, sym, ap, ◌∙◌, subst,
  List, [], ◌∷◌, arith, length, ltb, leb, ◌==◌, ◌||◌, Bool, true, false, Bool-cases, ok,
}
use native.Mathlib.Nat.{pow-le-pow_right, pow-suc, pow-zero, mul-le-mul_left, mul-le-mul_right}
use eioie_client.Config.{table_loop, send_table, sends}

-- A power of the factor that is not 1.
abbrev pub IsPower : ℕ → ℕ → Type 0
IsPower factor i = (k : ℕ) × (i ≡ factor ^ (k + 1))

pow_add_one : (factor k : ℕ) → factor ^ (k + 1) ≡ factor ^ k * factor
pow_add_one factor k =
    let e : k + 1 ≡ suc k = omega arith in ap (λ n. factor ^ n) e ∙ pow-suc factor k

pow_of_one : (factor : ℕ) → factor ^ 1 ≡ factor
pow_of_one factor = pow_add_one factor 0 ∙ rw (pow-zero factor) (omega arith)

-- No power lies between two that follow one another.
power_gap :
    (factor k m i : ℕ) → 2 ≤ factor → factor ^ k < i → i < factor ^ (k + 1) → ¬ (i ≡ factor ^ m)
power_gap factor k m i positive low high e = elim (Bool-cases (leb m k)) [
  | inl early ↦
      let le = pow-le-pow_right {n = factor} (omega arith) {i = m} {j = k} (ground arith) in
      omega (arith, le)
  | inr late ↦
      let le = pow-le-pow_right {n = factor} (omega arith) {i = k + 1} {j = m} (ground arith) in
      omega (arith, le)
]

module _ (factor : ℕ) (positive : 2 ≤ factor) where
  -- The powers behind `i` begin with `step`.
  record Next (i step : ℕ) : Type 0 where
    exponent : ℕ
    power : step ≡ factor ^ (exponent + 1)
    ahead : i ≤ step
    counted : 0 < i
    clear : (j : ℕ) → i ≤ j → j < step → ¬ (IsPower factor j)

  first : Next 1 factor
  first = record {
    exponent = 0;
    power = sym (pow_of_one factor);
    ahead = omega arith;
    counted = omega arith;
    clear = λ j some less p.
        let le = pow-le-pow_right {n = factor} (omega arith) {i = 1} {j = p.0 + 1} (omega arith) in
        let e = p.1 in omega (arith, le, e, pow_of_one factor);
  }

  advance_past : (i step : ℕ) → Next i step → i ≡ step → Next (i + 1) (step * factor)
  advance_past i step n here =
      let k = n.exponent in
      let e : step * factor ≡ factor ^ (k + 1 + 1) =
        ap (λ s. s * factor) n.power ∙ sym (pow_add_one factor (k + 1)) in
      let double : step * 2 ≤ step * factor = mul-le-mul_left step positive in
      record {
        exponent = k + 1;
        power = e;
        ahead = let a = n.ahead in let c = n.counted in omega arith;
        counted = omega arith;
        clear = λ j some less p.
            power_gap factor (k + 1) (p.0 + 1) j positive (let s = n.power in omega arith)
              (omega (arith, e)) p.1;
      }

  advance_by : (i step : ℕ) → Next i step → ¬ (i ≡ step) → Next (i + 1) step
  advance_by i step n other = record {
    exponent = n.exponent;
    power = n.power;
    ahead = let a = n.ahead in omega arith;
    counted = omega arith;
    clear = λ j some less. n.clear j (omega arith) less;
  }

  -- The entries from `i` on are those of the powers.
  abbrev pub Marks : ℕ → List Bool → Type 0
  Marks i t = (j : ℕ) → j < length t → (sends t j ≡ true) ↔ IsPower factor (i + j)

  Marks-cons :
      (i : ℕ) (b : Bool) (t : List Bool)
      → (b ≡ true) ↔ IsPower factor i
      → Marks (i + 1) t
      → Marks i (b ∷ t)
  Marks-cons i b t this marks zero less =
      let e : i ≡ i + 0 = omega arith in subst (λ n. (b ≡ true) ↔ IsPower factor n) e this
  Marks-cons i b t this marks (suc j) less =
      let e : i + 1 + j ≡ i + suc j = omega arith in
      subst (λ n. (sends t j ≡ true) ↔ IsPower factor n) e (marks j (omega arith))

  mark : (i step : ℕ) → Next i step → i ≡ step → (true ≡ true) ↔ IsPower factor i
  mark i step n e = (λ t. (n.exponent, e ∙ n.power), λ p. refl)

  no_mark : (i step : ℕ) → Next i step → ¬ (i ≡ step) → (false ≡ true) ↔ IsPower factor i
  no_mark i step n other =
      (λ t. cc, λ p. let a = n.ahead in absurd (n.clear i (omega arith) (omega arith) p))

  table_loop-Marks :
      (rounds i step : ℕ)
      → Next i step
      → (i + rounds) * factor < 2 ^ 31
      → (t : List Bool) × (table_loop factor rounds i step ≡ ok t) × (length t ≡ rounds) × Marks i t
  unfolding table_loop
  table_loop-Marks zero i step n fits = ([], refl, refl, λ j less. absurd (omega arith))
  table_loop-Marks (suc rounds) i step n fits = elim (Bool-cases (i == step)) [
    | inl here ↦
        let e : i ≡ step = ground arith in
        let (t, loop, size, marks) =
          table_loop-Marks rounds (i + 1) (step * factor) (advance_past i step n e) (grind arith) in
        let bound : i * factor ≤ (i + suc rounds) * factor =
          mul-le-mul_right factor (omega arith) in
        let product : i * factor ≡ step * factor = ap (λ s. s * factor) e in
        let small : leb (2 ^ 31) (step * factor) ≡ false = ground arith in
        (true ∷ t, rw (here, small, loop), ap suc size, Marks-cons i true t (mark i step n e) marks)
    | inr other ↦
        let differ : ¬ (i ≡ step) = ground arith in
        let (t, loop, size, marks) =
          table_loop-Marks rounds (i + 1) step (advance_by i step n differ) (grind arith) in
        (
          false ∷ t,
          rw (other, loop),
          ap suc size,
          Marks-cons i false t (no_mark i step n differ) marks,
        )
  ]

with_first :
    (factor : ℕ) (t : List Bool)
    → ((j : ℕ) → j < length t → (sends t j ≡ true) ↔ IsPower factor (1 + j))
    → (i : ℕ) → i < length (true ∷ t)
    → (sends (true ∷ t) i ≡ true) ↔ ((i ≡ 0) ⊎ IsPower factor i)
with_first factor t marks zero less = (λ e. inl refl, λ e. refl)
with_first factor t marks (suc j) less =
    let e : 1 + j ≡ suc j = omega arith in
    let (to, from) = subst (λ n. (sends t j ≡ true) ↔ IsPower factor n) e (marks j (omega arith)) in
    (
      λ sent. inr (to sent),
      λ either. elim either [ inl none_ ↦ absurd (omega arith) | inr power ↦ from power ],
    )

-- For at least two attempts and a factor of at least 2, whose product is below 2 ^ 31, `send_table`
-- gives a table with an entry for each attempt, which says to send at the first one and at exactly
-- those whose number is a power of the factor other than 1.
pub send_table_iff :
    (retry factor : ℕ)
    → 2 ≤ retry
    → 2 ≤ factor
    → retry * factor < 2 ^ 31
    → (t : List Bool) × (send_table retry factor ≡ ok t)
      × (length t ≡ retry)
      × ((i : ℕ) → i < retry → (sends t i ≡ true) ↔ ((i ≡ 0) ⊎ IsPower factor i))
unfolding send_table
send_table_iff retry factor some positive fits =
    let one_less : 1 + (retry - 1) ≡ retry = omega arith in
    let (t, loop, size, marks) =
      table_loop-Marks factor positive (retry - 1) 1 factor (first factor positive)
        (subst (λ n. n * factor < 2 ^ 31) (sym one_less) fits) in
    let guard : (ltb retry 2 || ltb factor 2) ≡ false = ground arith in
    let all : length (true ∷ t) ≡ retry = omega (arith, size) in
    (true ∷ t, rw (guard, loop), all, λ i less. with_first factor t marks i (omega (arith, all)))
