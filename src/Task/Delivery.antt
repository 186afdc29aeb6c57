-- ===== src/Task/Delivery.antt =====
-- A file is sent whole, part by part.
use eioie_client.Base.{ℕ, zero, suc, ◌+◌, ◌*◌, List, [], ◌∷◌, take, drop}
use eioie_client.Task.{Task}

module _ (m : ℕ) (content : List ℕ) where
  -- The part of a file at `i`.
  abbrev pub part : ℕ → List ℕ
  part i = take m (drop (i * m) content)

  -- The parts from `i` on, `k` of them, are what is left of the file, if they reach its end.
  unfoldable pub parts_from : ℕ → ℕ → List (List ℕ)
  parts_from i zero = []
  parts_from i (suc k) = part i ∷ parts_from (i + 1) k
