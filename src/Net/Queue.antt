-- ===== src/Net/Queue.antt =====
-- The queue is a list of buffers, no two of which have the same packet and task number, and an
-- acknowledgement takes one out.
use eioie_client.Base.{ℕ, ◌≡◌, List, [], ◌∷◌, ◌++◌, arith, ok, length-append}
use eioie_client.Hashtable.Keys.{IsIndexable, IsShort-IsIndexable}
use eioie_client.Bytes.Integer.{to_bytes, length-to_bytes}
use eioie_client.Columns.{ColumnList, column_add}
use eioie_client.Columns.Index.{IsIndexed, Lacks, items, remove, without}
use eioie_client.Columns.Calls.{column_add-IsIndexed, column_del-IsIndexed, column_del-items}
use eioie_client.Net.{
  Nb, unique_together, together_loop, unique_key, pidx_tidx, map_columns, Feed, nb_clean, ack,
}

abbrev pub key_bytes : ℕ → ℕ → List ℕ
key_bytes pidx tidx = to_bytes 4 pidx ++ (to_bytes 4 tidx ++ [])

abbrev pub key_of : Nb → List ℕ
key_of nb = key_bytes nb.pidx nb.tidx

-- `ht_key` does not overflow on the keys of the queue.
key_bytes-IsIndexable : (pidx tidx : ℕ) → IsIndexable (key_bytes pidx tidx)
key_bytes-IsIndexable pidx tidx =
    let first = length-to_bytes 4 pidx in
    let second = length-to_bytes 4 tidx in
    let rest = length-append (to_bytes 4 tidx) [] in
    let all = length-append (to_bytes 4 pidx) (to_bytes 4 tidx ++ []) in
    IsShort-IsIndexable (key_bytes pidx tidx) (omega (arith, first, second, rest, all))

pub unique_key_lem : (pidx tidx : ℕ) → unique_key pidx tidx ≡ ok (key_bytes pidx tidx)
unfolding unique_key unique_together together_loop
unique_key_lem pidx tidx =
    let first = length-to_bytes 4 pidx in let second = length-to_bytes 4 tidx in rw (first, second)

abbrev pub IsQueue : ColumnList Nb → Type 0
IsQueue = IsIndexed pidx_tidx key_of

-- The buffers that wait, in their order.
abbrev pub waiting : ColumnList Nb → List Nb
waiting nbl = items pidx_tidx key_of nbl.cells

-- A buffer with numbers that no waiting one has goes to the end of the queue.
pub column_add-IsQueue :
    (nbl : ColumnList Nb) (nb : Nb)
    → IsQueue nbl
    → Lacks pidx_tidx key_of (key_of nb) (waiting nbl)
    → (nbl' : ColumnList Nb) × (column_add nbl nb map_columns ≡ ok nbl')
      × IsQueue nbl'
      × (waiting nbl' ≡ waiting nbl ++ nb ∷ [])
unfolding map_columns column_add
column_add-IsQueue nbl nb v new =
    let (nbl', e, v', w) = column_add-IsIndexed pidx_tidx key_of nbl nb v new in
    (nbl', rw (column_add, unique_key_lem nb.pidx nb.tidx) (unfold column_add in e), v', w)

nb_clean-eq-ok : (feed : Feed) → feed.tasks ≡ 0 → (nbl : ColumnList Nb) → nb_clean feed nbl ≡ ok nbl
unfolding nb_clean
nb_clean-eq-ok feed idle nbl = rw idle (ground arith)

-- If no file waits to be sent, `ack` takes out the buffer with these numbers, if there is one, and
-- leaves the others in order.
pub ack-IsQueue :
    (feed : Feed) (nbl : ColumnList Nb) (tidx pidx : ℕ)
    → feed.tasks ≡ 0
    → IsQueue nbl
    → (nbl' : ColumnList Nb) × (ack feed nbl tidx pidx ≡ ok nbl')
      × IsQueue nbl'
      × (waiting nbl' ≡ remove pidx_tidx key_of (key_bytes pidx tidx) (waiting nbl))
unfolding ack
ack-IsQueue feed nbl tidx pidx idle v =
    let (nbl', e, v', w) =
      column_del-items pidx_tidx key_of (nb_clean feed) nbl (key_bytes pidx tidx)
        (nb_clean-eq-ok feed idle) v in
    (nbl', rw (unique_key_lem pidx tidx) e, v', w)

-- The same, for the cells.
pub ack-without :
    (feed : Feed) (nbl : ColumnList Nb) (tidx pidx : ℕ)
    → feed.tasks ≡ 0
    → IsQueue nbl
    → (nbl' : ColumnList Nb) × (ack feed nbl tidx pidx ≡ ok nbl')
      × IsQueue nbl'
      × (nbl'.cells ≡ without pidx_tidx key_of (key_bytes pidx tidx) nbl.cells)
unfolding ack
ack-without feed nbl tidx pidx idle v =
    let (nbl', e, v', w) =
      column_del-IsIndexed pidx_tidx key_of (nb_clean feed) nbl (key_bytes pidx tidx)
        (nb_clean-eq-ok feed idle) v in
    (nbl', rw (unique_key_lem pidx tidx) e, v', w)
