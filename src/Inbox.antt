-- ===== src/Inbox.antt =====
-- A file that has arrived: `dfile` of src/mpeer.c.
pub mod Jobs
use eioie_client.Base.{
  ℕ, ◌≡◌, refl, ◌∙◌, List, [], ◌∷◌, ◌++◌, length, ◌==◌, Bool, Bool-cases, true, false, Option,
  Option-cases, none, some, ◌⊎◌, inl, inr, Run, ok, fail, fault, ◌>>=◌, >>=-eq-ok, if◌then◌else◌,
}
use eioie_client.Utils.Hex.{Sha256}
use eioie_client.Packet.{Address, Tcp}
use eioie_client.Chain.Block.{Block}
use eioie_client.Chain.Root
use eioie_client.Chain.Root.{Root}
use eioie_client.Group.{Group, Member, find_root, set_root, roots_add}
use eioie_client.World.{Send}
use eioie_client.Task
use eioie_client.Job.Arrival.{Downloads, update_jobs}
use eioie_client.Relay.{Endpoint, Gate, Requested, request}
use eioie_client.Relay.Tunnels.{Tunnel, response}

-- What `dfile` changes of the peer: `blocks.remote`, the downloads, the ends of the tunnels, and what
-- is sent.
pub record Inbox : Type 0 where
  pub remote : Group
  pub downloads : Downloads
  pub endpoints : List Endpoint
  pub tunnels : List Tunnel
  pub sent : List Send

-- What `dfile` calls and reads: `filereadable`, `root.data.load.file` on a file's bytes, with the root
-- where it returns 0; `filemove` to the name of a block, and `root.data.save.file`, which say whether
-- they return 0; a block's way through JSON; the configuration; `cfg.dir.download` with its slash.
pub record Shelf : Type 0 where
  pub readable : List ℕ → Bool
  pub load : List ℕ → Option Root
  pub moves : List ℕ → Bool
  pub saves : Root → Bool
  pub transfer : Block → Run Block
  pub gate : Gate
  pub download : List ℕ

-- The data of a tunnel's packet, at `endpoint.request` or `tunnel.response`.
unfoldable pub relayed : Inbox → Requested → Run Inbox
relayed s r =
    if r.zero then ok (record s { endpoints = r.endpoints; sent = s.sent ++ r.sent }) else fail

unfoldable pub relay_file : Gate → Tcp → (tidx : ℕ) → Address → List ℕ → Inbox → Run Inbox
unfolding request relayed response
relay_file g tcp tidx from content s =
    if tcp.reqtype == 1
    then relayed s (request g from tcp tidx content s.endpoints)
    else if tcp.reqtype == 2
    then ok (record s { tunnels = response tcp tidx content s.tunnels })
    else ok s

-- `remove` of the file.
unfoldable pub drop_file : List ℕ → Inbox → Inbox
drop_file path s =
    let d : Downloads = s.downloads in
    record s { downloads = record d { disk = Task.remove d.disk path } }

-- `job.update`.
unfoldable pub want_file : Shelf → List ℕ → Address → Inbox → Run Inbox
unfolding update_jobs
want_file shelf filename from s =
    update_jobs shelf.download filename from s.downloads >>= λ d. ok (record s { downloads = d })

module _ (sha : Sha256) (print_double : ℕ → List ℕ) (stack : List ℕ) (nmt : ℕ) where
  -- The root of a peer whose root is known: it is merged, and written if that changed it.
  unfoldable pub merge_root : Shelf → List ℕ → Root → Root → Inbox → Run Inbox
  unfolding Root.merge set_root
  merge_root shelf hash dst src s =
      Root.merge sha print_double stack nmt shelf.transfer dst src >>= λ r.
      let next : Inbox = record s { remote = set_root hash r.0 s.remote } in
      if r.2 then (if shelf.saves r.0 then ok next else fail) else ok next

  -- The root of a peer.
  unfoldable pub take_root : Shelf → List ℕ → Root → Inbox → Run Inbox
  unfolding find_root merge_root roots_add
  take_root shelf hash src s = elim (find_root hash s.remote) [
    | some m ↦ merge_root shelf hash m.root src s
    | none ↦
        if shelf.moves hash then ok (record s { remote = roots_add s.remote src hash }) else fail
  ]

  -- A file that can be read, with the root that it holds.
  unfoldable pub root_or_file :
      Shelf → Address → (hash filename : List ℕ) → Option Root → Inbox → Run Inbox
  unfolding take_root want_file
  root_or_file shelf from hash filename (some src) s = take_root shelf hash src s
  root_or_file shelf from hash filename none s = want_file shelf filename from s

  -- `dfile` of a file at `fullpath` with `filename`, from the owner of the key whose digest is `hash`.
  unfoldable pub dfile :
      Shelf → Tcp → (tidx : ℕ) → Address → (hash fullpath filename : List ℕ) → Inbox → Run Inbox
  unfolding relay_file drop_file root_or_file want_file
  dfile shelf tcp tidx from hash fullpath filename s = elim (s.downloads.disk fullpath) [
    | none ↦ fail
    | some content ↦
        if tcp.reqtype == 0
        then (if shelf.readable content
            then root_or_file shelf from hash filename (shelf.load content) s
            else want_file shelf filename from s)
        else if length content == 0
        then fail
        else (relay_file shelf.gate tcp tidx from content s >>= λ next.
            ok (drop_file fullpath next))
  ]
