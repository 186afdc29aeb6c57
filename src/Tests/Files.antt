-- ===== src/Tests/Files.antt =====
-- Sending a file.
use eioie_client.Base.{ℕ, List, [], ◌∷◌, some}
use eioie_client.Task.{Task, Tasks, keep}

abbrev content : List ℕ
content = 1 ∷ 2 ∷ 3 ∷ 4 ∷ 5 ∷ []

abbrev task : Task
task = record {
  idx = 1;
  parts = 3;
  size = 5;
  iter = 0;
  name = b'f' ∷ [];
  fullpath = b'f' ∷ [];
  host = 1;
  port = 9;
  action = keep;
  tcp = record { reqtype = 0; cidx = 0; src = 0; dst = 0 };
}

abbrev tasks : Tasks
tasks = record { list = task ∷ []; idx = 1; disk = λ path. some content; sent = [] }
