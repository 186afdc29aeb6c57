-- ===== src/Chain/Transaction/Laws.antt =====
-- What a valid transaction is, and that `init` makes one.
use eioie_client.Base.{
  ℕ, ◌≡◌, refl, sym, ◌∙◌, List, [], ◌∷◌, ◌++◌, replicate, memeq, memeq_refl, memeq-eq, ◌==◌, ◌&&◌,
  Bool, true, false, ◌↔◌, ok, fail, ◌>>=◌, arith, if◌then◌else◌,
}
use eioie_client.Utils.Hex.{Sha256}
use eioie_client.Chain.Text.{cstr, print_signed, text_digest, hash_text_lem}
use eioie_client.Chain.Transaction.{
  FileChunk, File, Transaction, Source, tfile_add, chunk_text, chunk_hashes, hash_chunks, hash_meta,
  file_hash, validate_file, hash_calc, validate, init_file, init,
}

module _ (sha : Sha256) where
  unfoldable pub chunks_digest : List ℕ → List ℕ → List FileChunk → List ℕ
  chunks_digest dst prev [] = dst
  chunks_digest dst prev (c ∷ cs) =
      chunks_digest (text_digest sha 2048 (chunk_text prev c))
        (text_digest sha 2048 (chunk_text prev c)) cs

  abbrev pub meta_digest : File → List ℕ
  meta_digest f = text_digest sha 4096 (f.name ++ (print_signed 64 f.size ++ (f.enc ++ f.tags)))

  abbrev pub file_digest : (meta chunks pubkeyhash : List ℕ) → List ℕ
  file_digest meta chunks pubkeyhash =
      text_digest sha 1024 (cstr 64 meta ++ (cstr 64 chunks ++ cstr 64 pubkeyhash))

  chunk_hashes_lem :
      (dst prev : List ℕ) (cs : List FileChunk)
      → chunk_hashes sha dst prev cs ≡ ok (chunks_digest dst prev cs)
  unfolding chunk_hashes chunks_digest
  chunk_hashes_lem dst prev [] = refl
  chunk_hashes_lem dst prev (c ∷ cs) =
      let md = text_digest sha 2048 (chunk_text prev c) in
      rw hash_text_lem (chunk_hashes_lem md md cs)

  hash_chunks_lem :
      (dst : List ℕ) (cs : List FileChunk)
      → hash_chunks sha dst cs ≡ ok (chunks_digest dst (replicate 64 0) cs)
  unfolding hash_chunks
  hash_chunks_lem dst cs = chunk_hashes_lem dst (replicate 64 0) cs

  -- With a chunk, what was in the array before does not matter.
  chunks_digest_congr :
      (dst dst' prev : List ℕ) (c : FileChunk) (cs : List FileChunk)
      → chunks_digest dst prev (c ∷ cs) ≡ chunks_digest dst' prev (c ∷ cs)
  unfolding chunks_digest
  chunks_digest_congr dst dst' prev c cs = refl

  -- The hashes of a file are the digests of what it says; `stack` counts if it has no chunks.
  pub record IsFile (stack : List ℕ) (f : File) : Type 0 where
    pub meta_hash : f.meta_hash ≡ meta_digest f
    pub chunks_hash : f.chunks_hash ≡ chunks_digest stack (replicate 64 0) f.chunks
    pub hash : f.hash ≡ file_digest f.meta_hash f.chunks_hash f.pubkeyhash

  validate_file_lem :
      (stack : List ℕ) (f : File)
      → let whole =
          file_digest
            (meta_digest f)
            (chunks_digest stack (replicate 64 0) f.chunks)
            f.pubkeyhash in
        validate_file sha stack f
        ≡ ok (
          if memeq f.meta_hash (meta_digest f)
              then (if memeq f.chunks_hash (chunks_digest stack (replicate 64 0) f.chunks)
                  then memeq f.hash whole
                  else false)
              else false,
          whole,
        )
  unfolding validate_file hash_meta file_hash
  validate_file_lem stack f = rw (hash_text_lem, hash_chunks_lem, hash_text_lem)

  module _ (print_double : ℕ → List ℕ) where
    abbrev pub transaction_digest : Transaction → List ℕ → List ℕ
    transaction_digest t sub_hash = text_digest sha 2048 (
        print_signed 32 t.version
        ++ (print_double t.timestamp ++ (print_signed 32 t.kind ++ cstr 64 sub_hash)))

    -- The transaction adds a file whose hashes are right, and its hash is the digest of its fields.
    pub record IsTransaction (stack : List ℕ) (t : Transaction) : Type 0 where
      pub kind : t.kind ≡ tfile_add
      pub add : IsFile stack t.add
      pub hash : t.hash ≡ transaction_digest t t.add.hash

    hash_calc_lem :
        (t : Transaction) (sub_hash : List ℕ)
        → hash_calc sha print_double t sub_hash ≡ ok (transaction_digest t sub_hash)
    unfolding hash_calc
    hash_calc_lem t sub_hash = rw hash_text_lem

    -- The tests of `validate`, each a comparison of a field with a digest.
    abbrev tests : List ℕ → Transaction → Bool
    tests stack t =
        let chunks = chunks_digest stack (replicate 64 0) t.add.chunks in
        let whole = file_digest (meta_digest t.add) chunks t.add.pubkeyhash in
        memeq t.add.meta_hash (meta_digest t.add)
        && (memeq t.add.chunks_hash chunks
            && (memeq t.add.hash whole && memeq t.hash (transaction_digest t whole)))

    validate_lem :
        (stack : List ℕ) (t : Transaction)
        → validate sha print_double stack t
          ≡ (if t.kind == tfile_add then ok (tests stack t) else fail)
    unfolding validate
    validate_lem stack t = rw (validate_file_lem, hash_calc_lem) (ground arith)

    validate_complete :
        (stack : List ℕ) (t : Transaction)
        → IsTransaction stack t
        → validate sha print_double stack t ≡ ok true
    validate_complete stack t v =
        let f = v.add in
        validate_lem stack t
        ∙ rw (
          ← f.meta_hash,
          ← f.chunks_hash,
          ← f.hash,
          ← v.hash,
          v.kind,
          memeq_refl t.add.meta_hash,
          memeq_refl t.add.chunks_hash,
          memeq_refl t.add.hash,
          memeq_refl t.hash,
        )

    validate_sound :
        (stack : List ℕ) (t : Transaction)
        → validate sha print_double stack t ≡ ok true
        → IsTransaction stack t
    validate_sound stack t e =
        let chunks = chunks_digest stack (replicate 64 0) t.add.chunks in
        let whole = file_digest (meta_digest t.add) chunks t.add.pubkeyhash in
        let same = sym (validate_lem stack t) ∙ e in
        let kind : t.kind ≡ tfile_add = ground arith in
        let meta_same = memeq-eq t.add.meta_hash (meta_digest t.add) (ground arith) in
        let chunks_same = memeq-eq t.add.chunks_hash chunks (ground arith) in
        let whole_same = memeq-eq t.add.hash whole (ground arith) in
        let hash_same = memeq-eq t.hash (transaction_digest t whole) (ground arith) in
        record {
          kind = kind;
          add = record {
            meta_hash = meta_same;
            chunks_hash = chunks_same;
            hash = rw (meta_same, chunks_same) whole_same;
          };
          hash = rw whole_same hash_same;
        }

    -- `validate` accepts a transaction exactly when it adds a file, the file's hashes are the digests
    -- of its fields and chunks, and the transaction's hash is the digest of its own fields.
    pub validate_iff_IsTransaction :
        (stack : List ℕ) (t : Transaction)
        → (validate sha print_double stack t ≡ ok true) ↔ IsTransaction stack t
    validate_iff_IsTransaction stack t = (validate_sound stack t, validate_complete stack t)

    -- A transaction that `init` makes of a file with a chunk is accepted, whatever the stack holds.
    pub validate-init :
        (stack : List ℕ) (now : ℕ) (src : Source) (c : FileChunk) (cs : List FileChunk)
        → src.chunks ≡ c ∷ cs
        → (init sha print_double now tfile_add src >>= λ t. validate sha print_double stack t)
          ≡ ok true
    unfolding init init_file hash_meta file_hash
    validate-init stack now src c cs some_chunk =
        rw (hash_chunks_lem, hash_text_lem, hash_text_lem, hash_calc_lem)
          (validate_complete stack _ (record {
            kind = refl;
            add = record {
              meta_hash = refl;
              chunks_hash =
                  rw some_chunk (chunks_digest_congr (replicate 64 0) stack (replicate 64 0) c cs);
              hash = refl;
            };
            hash = refl;
          }))
