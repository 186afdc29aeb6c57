-- ===== src/Inbox/Jobs.antt =====
-- What a file that arrives does to the downloads.
use eioie_client.Base.{
  ℕ, ◌≡◌, refl, sym, ap, ◌∙◌, List, length, ◌==◌, Bool-cases, Option, Option-cases, none, some, ◌⊎◌,
  inl, inr, ok, ◌>>=◌, >>=-eq-ok,
}
use eioie_client.Utils.Hex.{Sha256}
use eioie_client.Packet.{Address, Tcp}
use eioie_client.Chain.Root
use eioie_client.Chain.Root.{Root}
use eioie_client.Group.{find_root}
use eioie_client.Job.Arrival.{update_jobs}
use eioie_client.Relay.{Gate, request}
use eioie_client.Inbox.{
  Inbox, Shelf, relayed, relay_file, drop_file, want_file, merge_root, take_root, root_or_file,
  dfile,
}

-- What `dfile` leaves of the jobs: what they were, or what `update` leaves.
abbrev pub IsJobStep : Shelf → List ℕ → Address → Inbox → Inbox → Type 0
IsJobStep shelf filename from s s' =
    (s'.downloads.jobs ≡ s.downloads.jobs)
    ⊎ (update_jobs shelf.download filename from s.downloads ≡ ok s'.downloads)

relay_file-downloads :
    (g : Gate) (tcp : Tcp) (tidx : ℕ) (from : Address) (content : List ℕ) (s s' : Inbox)
    → relay_file g tcp tidx from content s ≡ ok s'
    → s'.downloads ≡ s.downloads
unfolding relay_file relayed
relay_file-downloads g tcp tidx from content s s' e = elim (Bool-cases (tcp.reqtype == 1)) [
  | inl asks ↦ elim (Bool-cases (request g from tcp tidx content s.endpoints).zero) [
    | inl good ↦ let h = rw (asks, good) at e in cc
    | inr bad ↦ absurd (let h = rw (asks, bad) at e in cc)
  ]
  | inr other ↦ elim (Bool-cases (tcp.reqtype == 2)) [
    | inl answers ↦ let h = rw (other, answers) at e in cc
    | inr neither ↦ let h = rw (other, neither) at e in cc
  ]
]

want_file-IsJobStep :
    (shelf : Shelf) (filename : List ℕ) (from : Address) (s s' : Inbox)
    → want_file shelf filename from s ≡ ok s'
    → IsJobStep shelf filename from s s'
unfolding want_file
want_file-IsJobStep shelf filename from s s' e =
    let (d, ran, last) =
      >>=-eq-ok (update_jobs shelf.download filename from s.downloads)
        (λ d. ok (record s { downloads = d })) e in
    let same : d ≡ s'.downloads = cc in inr (ran ∙ rw same refl)

module _ (sha : Sha256) (print_double : ℕ → List ℕ) (stack : List ℕ) (nmt : ℕ) where
  merge_root-downloads :
      (shelf : Shelf) (hash : List ℕ) (dst src : Root) (s s' : Inbox)
      → merge_root sha print_double stack nmt shelf hash dst src s ≡ ok s'
      → s'.downloads ≡ s.downloads
  unfolding merge_root
  merge_root-downloads shelf hash dst src s s' e =
      let (r, ran, last) =
        >>=-eq-ok (Root.merge sha print_double stack nmt shelf.transfer dst src) _ e in
      elim (Bool-cases r.2) [
        | inr still ↦ let h = rw still at last in cc
        | inl merged ↦ elim (Bool-cases (shelf.saves r.0)) [
          | inl saved ↦ let h = rw (merged, saved) at last in cc
          | inr lost ↦ absurd (let h = rw (merged, lost) at last in cc)
        ]
      ]

  take_root-downloads :
      (shelf : Shelf) (hash : List ℕ) (src : Root) (s s' : Inbox)
      → take_root sha print_double stack nmt shelf hash src s ≡ ok s'
      → s'.downloads ≡ s.downloads
  unfolding take_root
  take_root-downloads shelf hash src s s' e = elim (Option-cases (find_root hash s.remote)) [
    | inr (m, known) ↦ merge_root-downloads shelf hash m.root src s s' (rw (take_root, known) at e)
    | inl unknown ↦ elim (Bool-cases (shelf.moves hash)) [
      | inl moved ↦ let h = rw (take_root, unknown, moved) at e in cc
      | inr lost ↦ absurd (let h = rw (take_root, unknown, lost) at e in cc)
    ]
  ]

  -- A root that arrived leaves the jobs.
  root_or_file-IsJobStep :
      (shelf : Shelf) (from : Address) (hash filename : List ℕ) (loaded : Option Root)
      (s s' : Inbox)
      → root_or_file sha print_double stack nmt shelf from hash filename loaded s ≡ ok s'
      → IsJobStep shelf filename from s s'
  unfolding root_or_file
  root_or_file-IsJobStep shelf from hash filename none s s' e =
      want_file-IsJobStep shelf filename from s s' e
  root_or_file-IsJobStep shelf from hash filename (some src) s s' e =
      inl (ap (λ d. d.jobs) (take_root-downloads shelf hash src s s' e))

  relayed-jobs :
      (shelf : Shelf) (tcp : Tcp) (tidx : ℕ) (from : Address) (path content : List ℕ) (s s' : Inbox)
      → (relay_file shelf.gate tcp tidx from content s >>= λ next. ok (drop_file path next)) ≡ ok s'
      → s'.downloads.jobs ≡ s.downloads.jobs
  unfolding drop_file
  relayed-jobs shelf tcp tidx from path content s s' e =
      let (next, ran, last) =
        >>=-eq-ok (relay_file shelf.gate tcp tidx from content s) (λ next. ok (drop_file path next))
          e in
      let kept =
        ap (λ d. d.jobs) (relay_file-downloads shelf.gate tcp tidx from content s next ran) in
      let same : next.downloads.jobs ≡ s'.downloads.jobs = cc in sym same ∙ kept

  -- `dfile` leaves the jobs, or does what `update` does.
  pub dfile-IsJobStep :
      (shelf : Shelf) (tcp : Tcp) (tidx : ℕ) (from : Address) (hash fullpath filename : List ℕ)
      (s s' : Inbox)
      → dfile sha print_double stack nmt shelf tcp tidx from hash fullpath filename s ≡ ok s'
      → IsJobStep shelf filename from s s'
  unfolding dfile
  dfile-IsJobStep shelf tcp tidx from hash fullpath filename s s' e =
      elim (Option-cases (s.downloads.disk fullpath)) [
        | inl absent ↦ absurd (let h = rw (dfile, absent) at e in cc)
        | inr (content, there) ↦ elim (Bool-cases (tcp.reqtype == 0)) [
          | inl plain ↦ elim (Bool-cases (shelf.readable content)) [
            | inl text ↦
                root_or_file-IsJobStep shelf from hash filename (shelf.load content) s s'
                  (rw (dfile, there, plain, text) at e)
            | inr binary ↦
                want_file-IsJobStep shelf filename from s s' (rw (dfile, there, plain, binary) at e)
          ]
          | inr tunnelled ↦ elim (Bool-cases (length content == 0)) [
            | inl empty_ ↦ absurd (let h = rw (dfile, there, tunnelled, empty_) at e in cc)
            | inr full ↦ inl (
                relayed-jobs shelf tcp tidx from fullpath content s s'
                  (rw (dfile, there, tunnelled, full) at e))
          ]
        ]
      ]
