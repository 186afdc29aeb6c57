-- ===== src/Tests/Reports.antt =====
-- Two peers that are reported.
use eioie_client.Base.{ℕ, ◌≡◌, List, [], ◌∷◌, arith, ok}
use eioie_client.Rogue.{Reason, Report, Rogue}
use eioie_client.Rogue.Count.{count_of, times, run, Distinct, run-times}

abbrev report : ℕ → Report
report host = record { host = host; port = 9000; reason = Reason.unwanted_file }

run-times_example :
    (l : List Rogue) × (run (report 1 ∷ report 2 ∷ report 1 ∷ []) ≡ ok l)
    × Distinct l
    × ((r : Report) → count_of l r ≡ times (report 1 ∷ report 2 ∷ report 1 ∷ []) r)
run-times_example = run-times (report 1 ∷ report 2 ∷ report 1 ∷ []) (omega arith)
