-- ===== src/Task.antt =====
-- The tasks that send files: src/task.c, with `filepart` and `fileparts` of src/os.c.
pub mod Delivery
use eioie_client.Base.{
  ℕ, zero, suc, ◌+◌, ◌*◌, ◌/◌, ◌%◌, ◌^◌, List, [], ◌∷◌, ◌++◌, length, take, drop, ltb, leb, memeq,
  ◌==◌, ◌&&◌, not, Bool, true, false, Option, none, some, Run, ok, fail, ◌>>=◌, if◌then◌else◌,
}
use eioie_client.Packet.{Tcp}

-- The files on disk, by their paths.
abbrev pub Disk : Type 0
Disk = List ℕ → Option (List ℕ)

-- `enum task_e`.
pub data Action : Type 0 where
  keep delete : Action

-- `struct task_s`, without `file.parent`, which only `dump` reads.
pub record Task : Type 0 where
  pub idx : ℕ
  pub parts : ℕ
  pub size : ℕ
  pub iter : ℕ
  pub name : List ℕ
  pub fullpath : List ℕ
  pub host : ℕ
  pub port : ℕ
  pub action : Action
  pub tcp : Tcp

-- A call of `payload.send` with COMMAND_FILE, of the bytes in the send buffer.
pub record FileSent : Type 0 where
  pub host : ℕ
  pub port : ℕ
  pub tidx : ℕ
  pub parts : ℕ
  pub name : List ℕ
  pub tcp : Tcp
  pub bytes : List ℕ

-- `p->tasks`, the disk, and what was sent.
pub record Tasks : Type 0 where
  pub list : List Task
  pub idx : ℕ
  pub disk : Disk
  pub sent : List FileSent

-- `os.filepart`: at most `maxread` bytes from `offset` on, which must lie in the file.
unfoldable pub filepart : Disk → List ℕ → (offset maxread : ℕ) → Run (List ℕ)
filepart disk path offset maxread = elim (disk path) [
  | none ↦ fail
  | some content ↦
      if leb (length content) offset then fail else ok (take maxread (drop offset content))
]

-- `os.fileparts` of a file of `size` bytes.
unfoldable pub parts_of : (size maxread : ℕ) → ℕ
parts_of size maxread = if size % maxread == 0 then size / maxread else size / maxread + 1

-- `remove`, for a file that is there and may be removed.
unfoldable pub remove : Disk → List ℕ → Disk
remove disk path other = if memeq path other then none else disk other

-- `clean` of a task that `list.del` takes out.
unfoldable pub clean : Disk → Task → Disk
clean disk t = elim t.action [ keep ↦ disk | delete ↦ remove disk t.fullpath ]

abbrev pub file_sent : Task → List ℕ → FileSent
file_sent t bytes = record {
  host = t.host;
  port = t.port;
  tidx = t.idx;
  parts = t.parts;
  name = t.name;
  tcp = t.tcp;
  bytes = bytes;
}

-- `resume`, with `m` for `max.task_buffer`: one part of the first task. The callback returns 1, so
-- that `list.map` ends there.
unfoldable pub resume : ℕ → Tasks → Run Tasks
resume m s = elim s.list [
  | [] ↦ ok s
  | t ∷ ts ↦ filepart s.disk t.fullpath (t.iter * m) m >>= λ bytes.
      let sent = s.sent ++ file_sent t bytes ∷ [] in
      if leb t.size ((t.iter + 1) * m)
      then ok (record s { list = ts; disk = clean s.disk t; sent = sent })
      else ok (record s { list = record t { iter = t.iter + 1 } ∷ ts; sent = sent })
]

-- `update`, with `send_sz` buffers waiting to be sent and `max.send_queue` of `limit`.
unfoldable pub update : (m limit send_sz : ℕ) → Tasks → Run Tasks
update m limit send_sz s =
    if leb send_sz limit && not (length s.list == 0) then resume m s else ok s

unfoldable pub find : List Task → List ℕ → (host port : ℕ) → Option Task
find [] filename host port = none
find (t ∷ ts) filename host port =
    let rest = find ts filename host port in
    if t.host == host && (t.port == port && memeq filename t.name) then some t else rest

-- `add` of a file name of 64 bytes; `dir` is `blockdir` with its slash.
unfoldable pub add :
    (m limit send_sz : ℕ)
    → (dir filename : List ℕ) → (host port : ℕ) → Action
    → Tcp
    → Tasks
    → Run Tasks
add m limit send_sz dir filename host port action tcp s = elim (find s.list filename host port) [
  | some t ↦ ok s
  | none ↦
      let path = take 255 (dir ++ filename) in
      elim (s.disk path) [
        | none ↦ fail
        | some content ↦
            let t : Task = record {
              idx = s.idx + 1;
              parts = parts_of (length content) m;
              size = length content;
              iter = 0;
              name = filename;
              fullpath = path;
              host = host;
              port = port;
              action = action;
              tcp = tcp;
            } in
            update m limit send_sz (record s { list = s.list ++ t ∷ []; idx = s.idx + 1 })
      ]
]

-- `cancel`: the task of that number is taken out.
unfoldable pub cancel_loop : ℕ → Disk → List Task → Option (List Task × Disk)
cancel_loop idx disk [] = none
cancel_loop idx disk (t ∷ ts) =
    let rest = cancel_loop idx disk ts in
    if t.idx == idx
    then some (ts, clean disk t)
    else elim rest [ none ↦ none | some r ↦ some (t ∷ r.0, r.1) ]

unfoldable pub cancel : ℕ → Tasks → Tasks × Bool
cancel idx s = elim (cancel_loop idx s.disk s.list) [
  | none ↦ (s, false)
  | some r ↦ (record s { list = r.0; disk = r.1 }, true)
]

-- `k` calls of `resume`.
unfoldable pub resume_times : ℕ → ℕ → Tasks → Run Tasks
resume_times m zero s = ok s
resume_times m (suc k) s = resume m s >>= resume_times m k
