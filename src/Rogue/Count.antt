-- ===== src/Rogue/Count.antt =====
-- Every report is counted once.
use eioie_client.Base.{
  ℕ, ◌+◌, ◌^◌, ◌≤◌, ◌<◌, ◌≡◌, refl, sym, ap, ◌∙◌, subst, List, [], ◌∷◌, arith, length, leb, true,
  false, Bool-cases, inl, inr, Run, ok, ◌>>=◌, if◌then◌else◌,
}
use eioie_client.Rogue.{Reason, same_reason, Report, Rogue, same_report, rogue_add}

-- The count of the first entry for a report.
unfoldable pub count_of : List Rogue → Report → ℕ
count_of [] r = 0
count_of (e ∷ l) r = if same_report e.report r then e.count else count_of l r

-- How often a report is in a history, the latest first.
unfoldable pub times : List Report → Report → ℕ
times [] r = 0
times (s ∷ history) r = if same_report s r then times history r + 1 else times history r

-- The calls of `rogue_add` of a history.
unfoldable pub run : List Report → Run (List Rogue)
unfolding rogue_add
run [] = ok []
run (r ∷ history) = run history >>= λ l. rogue_add l r

-- No two entries are for one report.
abbrev pub Lacks : Report → List Rogue → Type 0
Lacks r [] = Unit
Lacks r (e ∷ l) = (same_report e.report r ≡ false) × Lacks r l

abbrev pub Distinct : List Rogue → Type 0
Distinct [] = Unit
Distinct (e ∷ l) = Lacks e.report l × Distinct l

same_reason-eq : (a b : Reason) → same_reason a b ≡ true → a ≡ b
same_reason-eq Reason.unwanted_file Reason.unwanted_file e = refl
same_reason-eq Reason.blockchain_toobig Reason.blockchain_toobig e = refl
same_reason-eq Reason.unwanted_file Reason.blockchain_toobig e = cc
same_reason-eq Reason.blockchain_toobig Reason.unwanted_file e = cc

same_reason_refl : (a : Reason) → same_reason a a ≡ true
same_reason_refl Reason.unwanted_file = refl
same_reason_refl Reason.blockchain_toobig = refl

same_report-eq : (r s : Report) → same_report r s ≡ true → r ≡ s
same_report-eq r s e =
    let host : r.host ≡ s.host = ground arith in
    let port : r.port ≡ s.port = ground arith in
    let flag : same_reason r.reason s.reason ≡ true = ground arith in
    let reason = same_reason-eq r.reason s.reason flag in cc (host, port, reason)

is_for_refl : (r : Report) → same_report r r ≡ true
is_for_refl r = let e = same_reason_refl r.reason in ground arith

-- What one call does.
record Counted (l : List Rogue) (r : Report) (l' : List Rogue) : Type 0 where
  distinct : Distinct l'
  keeps : (x : Report) → same_report r x ≡ false → Lacks x l → Lacks x l'
  counts :
      (s : Report) → count_of l' s ≡ (if same_report r s then count_of l s + 1 else count_of l s)

same_report-flip : (r s : Report) → same_report r s ≡ false → same_report s r ≡ false
same_report-flip r s e = elim (Bool-cases (same_report s r)) [
  | inl same ↦
      let eq = same_report-eq s r same in
      let here : same_report r s ≡ true =
        subst (λ x. same_report r x ≡ true) (sym eq) (is_for_refl r) in
      cc
  | inr other ↦ other
]

rogue_add-Counted :
    (l : List Rogue) (r : Report)
    → Distinct l
    → count_of l r + 1 < 2 ^ 31
    → (l' : List Rogue) × (rogue_add l r ≡ ok l') × Counted l r l'
unfolding rogue_add count_of
rogue_add-Counted [] r d few = (
  record { report = r; count = 1 } ∷ [],
  refl,
  record {
    distinct = (tt, tt);
    keeps = λ x h a. (h, tt);
    counts = λ s. elim (Bool-cases (same_report r s)) [
      | inl here ↦ rw here refl
      | inr other ↦ rw other refl
    ];
  },
)
rogue_add-Counted (e ∷ l) r d few = elim (Bool-cases (same_report e.report r)) [
  | inl here ↦
      let same = same_report-eq e.report r here in
      let bound : leb (2 ^ 31) (e.count + 1) ≡ false = let f = rw here at few in ground arith in
      (
        record e { count = e.count + 1 } ∷ l,
        rw (here, bound),
        record {
          distinct = d;
          keeps = λ x h a. a;
          counts = λ s.
              let agree : same_report e.report s ≡ same_report r s =
                ap (λ x. same_report x s) same in
              rw agree (elim (Bool-cases (same_report r s)) [
                | inl hit ↦ rw hit refl
                | inr miss ↦ rw miss refl
              ]);
        },
      )
  | inr other ↦
      let (l1, loop, c) = rogue_add-Counted l r d.1 (rw other at few) in
      (
        e ∷ l1,
        rw (other, loop),
        record {
          distinct = (c.keeps e.report (same_report-flip e.report r other) d.0, c.distinct);
          keeps = λ x h a. (a.0, c.keeps x h a.1);
          counts = λ s. elim (Bool-cases (same_report e.report s)) [
            | inl hit ↦
                let eq = same_report-eq e.report s hit in
                let miss : same_report r s ≡ false =
                  subst (λ x. same_report r x ≡ false) eq (same_report-flip e.report r other) in
                rw (hit, miss) refl
            | inr miss ↦ rw miss (c.counts s)
          ];
        },
      )
]

times_bound : (history : List Report) (r : Report) → times history r ≤ length history
unfolding times
times_bound [] r = omega arith
times_bound (s ∷ history) r = let b = times_bound history r in ground arith

-- After fewer than 2 ^ 31 - 1 calls of `rogue_add` on an empty list, each peer, port and reason has at most one
-- entry, whose count says how often it was reported, and is 0 where there is none.
pub run-times :
    (history : List Report)
    → length history + 1 < 2 ^ 31
    → (l : List Rogue) × (run history ≡ ok l)
      × Distinct l
      × ((r : Report) → count_of l r ≡ times history r)
unfolding run times count_of
run-times [] few = ([], refl, tt, λ r. refl)
run-times (r ∷ history) few =
    let (l, e, d, counts) = run-times history (omega arith) in
    let bound = times_bound history r in
    let (l', e', c) = rogue_add-Counted l r d (omega (arith, counts r)) in
    (l', rw e e', c.distinct, λ s. c.counts s ∙ rw (counts s) refl)
