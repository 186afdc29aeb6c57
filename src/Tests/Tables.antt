-- ===== src/Tests/Tables.antt =====
-- The hash table and the ordered queue.
use eioie_client.Base.{ℕ, ◌^◌, ◌<◌, ◌≡◌, List, [], ◌∷◌, arith, none, true, false}
use eioie_client.Hashtable.{Table, ht_init, ht_add, ht_get}
use eioie_client.Hashtable.Laws.{IsTable, ht_init-IsTable, ht_add-IsTable}
use eioie_client.Hashtable.Refinement.{Op, add, rem, run, replay, Every, run-ht_init}
use eioie_client.Hashtable.Keys.{IsIndexable}
use eioie_client.Packet.Queue.{Connection}

-- The keys "ab" and "ba" have one index.
abbrev ab : List ℕ
ab = b'a' ∷ b'b' ∷ []

abbrev ba : List ℕ
ba = b'b' ∷ b'a' ∷ []

abbrev table : Table ℕ
table = ht_add ht_init ab 1 true

table-IsTable : IsTable table
table-IsTable = ht_add-IsTable ht_init ab 1 true ht_init-IsTable

-- Two keys of one index, one of them removed.
abbrev calls : List (Op ℕ)
calls = add ab 1 true ∷ add ba 2 false ∷ rem ab ∷ []

run-ht_init_example :
    IsTable (run calls ht_init)
    × (ht_get (run calls ht_init) ba ≡ replay calls (λ _. none) ba)
    × ((run calls ht_init).items < 2 ^ 31)
    × Every IsIndexable calls
    × IsIndexable ba
run-ht_init_example =
    run-ht_init calls ba (omega arith) (omega arith, (omega arith, (omega arith, tt))) (omega arith)

-- A connection that has sent its first buffer, with the third one waiting.
abbrev connection : Connection
connection = record {
  tidx = 1;
  packets =
      record { buf = b'c' ∷ []; tidx = 3; dispatched = false }
      ∷ record { buf = b'a' ∷ []; tidx = 1; dispatched = true }
      ∷ [];
  sent = (1, b'a' ∷ []) ∷ [];
}
