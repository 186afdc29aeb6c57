-- ===== src/Config.antt =====
-- `send_table` of src/config.c: the attempts of a packet at which it is sent.
pub mod Table
use eioie_client.Base.{
  ℕ, zero, suc, ◌+◌, ◌-◌, ◌*◌, ◌^◌, List, [], ◌∷◌, ltb, leb, ◌==◌, ◌||◌, Bool, true, false, Option,
  none, some, get_elem?, Run, ok, fail, fault, ◌>>=◌, if◌then◌else◌,
}

-- The rounds that are left of the loop from `i` on. The product is an `int`.
unfoldable pub table_loop : (factor rounds i step : ℕ) → Run (List Bool)
table_loop factor zero i step = ok []
table_loop factor (suc rounds) i step =
    let next = table_loop factor rounds (i + 1) (step * factor) in
    let same = table_loop factor rounds (i + 1) step in
    if i == step
    then (if leb (2 ^ 31) (step * factor) then fault else (next >>= λ t. ok (true ∷ t)))
    else (same >>= λ t. ok (false ∷ t))

-- `send_table` of `max.send_retry` and `sendfactor`: the table.
unfoldable pub send_table : (retry factor : ℕ) → Run (List Bool)
unfolding table_loop
send_table retry factor =
    if ltb retry 2 || ltb factor 2
    then fail
    else (table_loop factor (retry - 1) 1 factor >>= λ t. ok (true ∷ t))

-- `sendtable[i]`.
abbrev pub sends : List Bool → ℕ → Bool
sends t i = elim (get_elem? t i) [ none ↦ false | some b ↦ b ]
