-- ===== src/Rogue.antt =====
-- `add` and `find` of src/rogue.c: the peers that sent what nobody asked for.
pub mod Count
use eioie_client.Base.{
  ℕ, ◌+◌, ◌^◌, List, [], ◌∷◌, leb, ◌==◌, ◌&&◌, Bool, true, false, Run, ok, fault, ◌>>=◌,
  if◌then◌else◌,
}

-- `enum rogue_e`.
pub data Reason : Type 0 where
  unwanted_file blockchain_toobig : Reason

abbrev pub same_reason : Reason → Reason → Bool
same_reason Reason.unwanted_file Reason.unwanted_file = true
same_reason Reason.blockchain_toobig Reason.blockchain_toobig = true
same_reason r s = false

-- The first three fields of `struct ip_find_s`.
pub record Report : Type 0 where
  pub host : ℕ
  pub port : ℕ
  pub reason : Reason

-- `struct rogue_s`.
pub record Rogue : Type 0 where
  pub report : Report
  pub count : ℕ

-- The test of `find`.
abbrev pub same_report : Report → Report → Bool
same_report r s = r.host == s.host && (r.port == s.port && same_reason r.reason s.reason)

-- `add` of the source. The count is an `int`.
unfoldable pub rogue_add : List Rogue → Report → Run (List Rogue)
rogue_add [] r = ok (record { report = r; count = 1 } ∷ [])
rogue_add (e ∷ l) r =
    let rest = rogue_add l r in
    if same_report e.report r
    then (if leb (2 ^ 31) (e.count + 1) then fault else ok (record e { count = e.count + 1 } ∷ l))
    else (rest >>= λ l'. ok (e ∷ l'))
