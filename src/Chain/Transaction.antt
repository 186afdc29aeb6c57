-- ===== src/Chain/Transaction.antt =====
-- A transaction that adds a file: `hash_chunks`, `hash_meta`, `hash`, `init`, `find` and `validate`
-- of src/transaction/file_add.c, and `process`, `hash_calc`, `init`, `find` and `validate` of
-- src/transaction.c.
pub mod Laws
use eioie_client.Base.{
  ℕ, ◌+◌, List, [], ◌∷◌, ◌++◌, take, replicate, memeq, ◌==◌, Bool, true, false, Option, none, some,
  Run, ok, fail, ◌>>=◌, if◌then◌else◌,
}
use eioie_client.Utils.Hex.{Sha256}
use eioie_client.Chain.Text.{cstr, print_signed, hash_text}

-- `struct file_chunk_s`. Here and below an array that holds a C string is the text before its NUL,
-- and a hash is an array of 64 bytes.
pub record FileChunk : Type 0 where
  pub size : ℕ
  pub part : ℕ
  pub tag : List ℕ
  pub timeiter : List ℕ
  pub content : List ℕ
  pub chunk : List ℕ

-- `struct file_s`, the part of it that is hashed.
pub record File : Type 0 where
  pub hash : List ℕ
  pub pubkeyhash : List ℕ
  pub name : List ℕ
  pub size : ℕ
  pub enc : List ℕ
  pub tags : List ℕ
  pub meta_hash : List ℕ
  pub chunks : List FileChunk
  pub chunks_hash : List ℕ

-- `struct transaction_s`; `kind` is its `type`, and `prev` and `current` are its `blockhash`.
pub record Transaction : Type 0 where
  pub version : ℕ
  pub timestamp : ℕ
  pub hash : List ℕ
  pub kind : ℕ
  pub prev : List ℕ
  pub current : List ℕ
  pub add : File

abbrev pub tfile_add : ℕ
tfile_add = 1

unfoldable pub chunk_text : List ℕ → FileChunk → List ℕ
chunk_text prev c =
    cstr 64 prev
    ++ (print_signed 64 c.size
        ++ (print_signed 32 c.part
            ++ (c.tag ++ (c.timeiter ++ (cstr 64 c.content ++ cstr 64 c.chunk)))))

module _ (sha : Sha256) where
  -- The loop of `hash_chunks`: each digest goes to `dst_hash` and is the next `prev`.
  unfoldable pub chunk_hashes : List ℕ → List ℕ → List FileChunk → Run (List ℕ)
  chunk_hashes dst prev [] = ok dst
  chunk_hashes dst prev (c ∷ cs) =
      hash_text sha 2048 (chunk_text prev c) >>= λ md. chunk_hashes md md cs

  -- `dst` is what `dst_hash` holds before; without chunks it stays.
  unfoldable pub hash_chunks : List ℕ → List FileChunk → Run (List ℕ)
  unfolding chunk_hashes
  hash_chunks dst cs = chunk_hashes dst (replicate 64 0) cs

  unfoldable pub hash_meta : File → Run (List ℕ)
  hash_meta f = hash_text sha 4096 (f.name ++ (print_signed 64 f.size ++ (f.enc ++ f.tags)))

  unfoldable pub file_hash : (meta chunks pubkeyhash : List ℕ) → Run (List ℕ)
  file_hash meta chunks pubkeyhash =
      hash_text sha 1024 (cstr 64 meta ++ (cstr 64 chunks ++ cstr 64 pubkeyhash))

  -- `validate` of a file: the flag and `dst_hash`. `stack` is what the array `hchunks` holds before
  -- it is written. On the early returns `dst_hash` is not written, and the caller does not read it.
  unfoldable pub validate_file : List ℕ → File → Run (Bool × List ℕ)
  validate_file stack f = do
    hmeta ← hash_meta f
    hchunks ← hash_chunks stack f.chunks
    dst ← file_hash hmeta hchunks f.pubkeyhash
    ok (
      if memeq f.meta_hash hmeta
          then (if memeq f.chunks_hash hchunks then memeq f.hash dst else false)
          else false,
      dst,
    )

  module _ (print_double : ℕ → List ℕ) where
    -- `hash_calc`; `print_double` is `%f`.
    unfoldable pub hash_calc : Transaction → List ℕ → Run (List ℕ)
    hash_calc t sub_hash = hash_text sha 2048 (
        print_signed 32 t.version
        ++ (print_double t.timestamp ++ (print_signed 32 t.kind ++ cstr 64 sub_hash)))

    -- `validate`; `process` returns -1 for every type but TFILE_ADD.
    unfoldable pub validate : List ℕ → Transaction → Run Bool
    validate stack t =
        if t.kind == tfile_add
        then (do
          (valid, action_hash) ← validate_file stack t.add
          md ← hash_calc t action_hash
          ok (if valid then memeq t.hash md else false))
        else fail

-- What `init` of a file reads: the size and the chunks of the file on disk, the description that
-- `encx` made, the tags, and the key's hash of the configuration.
pub record Source : Type 0 where
  pub size : ℕ
  pub chunks : List FileChunk
  pub encoded : List ℕ
  pub tags : List ℕ
  pub pubkeyhash : List ℕ

module _ (sha : Sha256) where
  -- `init` of a file: the array of the chunks' hash is zero before.
  unfoldable pub init_file : Source → Run File
  init_file src = do
    chunks_hash ← hash_chunks sha (replicate 64 0) src.chunks
    let f : File = record {
      hash = [];
      pubkeyhash = src.pubkeyhash;
      name = take 127 (cstr 64 chunks_hash);
      size = src.size;
      enc = take 1023 src.encoded;
      tags = take 1023 src.tags;
      meta_hash = [];
      chunks = src.chunks;
      chunks_hash = chunks_hash;
    }
    meta_hash ← hash_meta sha f
    whole ← file_hash sha meta_hash chunks_hash src.pubkeyhash
    ok (record f { hash = whole; meta_hash = meta_hash })

  -- `init` at the time `now`.
  unfoldable pub init : (ℕ → List ℕ) → ℕ → ℕ → Source → Run Transaction
  init print_double now kind src =
      if kind == tfile_add
      then (do
        f ← init_file src
        let t : Transaction = record {
          version = 1;
          timestamp = now;
          hash = [];
          kind = kind;
          prev = replicate 64 0;
          current = replicate 64 0;
          add = f;
        }
        md ← hash_calc sha print_double t f.hash
        ok (record t { hash = md }))
      else fail

-- `find` by the name of the file, which is the hash of its chunks.
unfoldable pub find : Transaction → List ℕ → Run (Option File)
find t h =
    if t.kind == tfile_add then ok (if memeq t.add.name h then some t.add else none) else fail
