-- ===== src/Knowledge/Held.antt =====
-- What the statements of one ingestion (backend/repositories/task_repo.py and
-- backend/repositories/knowledge_repo.py) do to the task, the file and the chunks that it holds.
use dewflow.Base.{
  ℕ, ◌≡◌, refl, ap, ◌∙◌, Bool, true, false, not, Option, none, some, List, [], ◌∷◌, ◌++◌, ◌==◌,
  keep, All, find, find-key, update_where, returning, find-update_where, returning_found,
  update_where-none, update_where-Distinct, Distinct, arith,
}
use dewflow.Knowledge.Rows.{
  TaskStatus, processing, FileStatus, one_of_files, TaskJob, File, DocumentChunk, KnowledgeDb,
  task_key, file_key,
}
use dewflow.Knowledge.Jobs.{
  execute, get, attempt_guard, heartbeat_assign, try_heartbeat_kb_ingestion_task,
}
use dewflow.Knowledge.Files.{
  get_file, status_guard, status_assign, try_transition_file_status, delete_chunks_for_file,
  add_chunks,
}

-- A statement on the task of one id, where that task is there.
module _ (guard : TaskJob → Bool) (assign : TaskJob → TaskJob) (id : ℕ)
    (names : (t : TaskJob) → guard t ≡ true → t.id ≡ id)
    (keeps : (t : TaskJob) → (assign t).id ≡ t.id) (db : KnowledgeDb) (t : TaskJob)
    (d : Distinct task_key db.tasks) (here : get id db ≡ some t) where
  abbrev pub rewritten : KnowledgeDb
  rewritten = record db { tasks = update_where guard assign db.tasks }

  pub execute-hit : guard t ≡ true → execute guard assign db ≡ (some (assign t), rewritten)
  unfolding execute get
  execute-hit g =
      ap (λ (row : Option TaskJob). (row, rewritten))
        (returning_found task_key guard assign id names keeps t db.tasks d here ∙ rw g refl)

  pub get-hit : guard t ≡ true → get id rewritten ≡ some (assign t)
  unfolding get
  get-hit g = find-update_where task_key guard assign keeps id db.tasks t here ∙ rw g refl

  pub rewritten-Distinct : Distinct task_key rewritten.tasks
  rewritten-Distinct = update_where-Distinct task_key guard assign keeps db.tasks d

  -- nothing changes if the task does not meet the condition
  pub execute-miss : guard t ≡ false → execute guard assign db ≡ (none, db)
  unfolding execute get
  execute-miss g =
      let missed : returning guard assign db.tasks ≡ none =
        returning_found task_key guard assign id names keeps t db.tasks d here ∙ rw g refl in
      let same : update_where guard assign db.tasks ≡ db.tasks =
        update_where-none guard assign db.tasks missed in
      rw (missed, same) refl

-- A transition of a file that is there, in a state that it expects.
pub transition-hit :
    (clock id : ℕ) (expected : List FileStatus) (target : FileStatus) (db : KnowledgeDb)
    (file : File)
    → Distinct file_key db.files
    → get_file id db ≡ some file
    → one_of_files expected file.status ≡ true
    → (fs : List File) × (try_transition_file_status clock id expected target db
        ≡ (true, record db { files = fs }))
      × Distinct file_key fs
      × (find file_key id fs ≡ some (status_assign clock target file))
unfolding try_transition_file_status get_file
transition-hit clock id expected target db file d there from =
    let guard = status_guard id expected in
    let assign = status_assign clock target in
    let keeps : (f : File) → file_key (assign f) ≡ file_key f = λ f. unfold status_assign in refl in
    let named = find-key file_key id db.files file there in
    let g : guard file ≡ true = unfold status_guard in ground (arith, named, from) in
    let hit : returning guard assign db.files ≡ some (assign file) =
      returning_found file_key guard assign id (unfold status_guard in λ f e. ground (arith, e))
        keeps file db.files d there
      ∙ rw g refl in
    (
      update_where guard assign db.files,
      rw hit refl,
      update_where-Distinct file_key guard assign keeps db.files d,
      find-update_where file_key guard assign keeps id db.files file there ∙ rw g refl,
    )

-- the chunks that the index has of a file
abbrev pub own : ℕ → List DocumentChunk → List DocumentChunk
own file_id cs = keep (λ c. c.file_id == file_id) cs

pub own-delete :
    (id : ℕ) (cs : List DocumentChunk) → own id (keep (λ c. not (c.file_id == id)) cs) ≡ []
own-delete id [] = refl
own-delete id (c ∷ cs) = ground (arith, own-delete id cs)

own-append :
    (id : ℕ) (rs cs : List DocumentChunk)
    → All (λ c. c.file_id ≡ id) rs
    → own id cs ≡ []
    → own id (rs ++ cs) ≡ rs
own-append id [] cs h e = e
own-append id (r ∷ rs) cs h e = ground (arith, h.0, own-append id rs cs h.1 e)

-- A worker holds an attempt of the task, and the file in a state with its chunks.
abbrev pub Holds : ℕ → ℕ → ℕ → File → List DocumentChunk → KnowledgeDb → Type 0
Holds task_id file_id attempt file chunks db =
    Distinct task_key db.tasks
    × Distinct file_key db.files
    × ((t : TaskJob) × (get task_id db ≡ some t)
        × (attempt_guard processing task_id attempt t ≡ true))
    × (get_file file_id db ≡ some file)
    × (own file_id db.chunks ≡ chunks)

pub attempt_guard-names :
    (s : TaskStatus) (n id : ℕ) (t : TaskJob) → attempt_guard s id n t ≡ true → t.id ≡ id
unfolding attempt_guard
attempt_guard-names s n id t g = ground (arith, g)

module _ (task_id file_id n : ℕ) (file : File) (chunks : List DocumentChunk) (db : KnowledgeDb)
    (h : Holds task_id file_id n file chunks db) where
  pub try_heartbeat-Holds :
      (clock at expires : ℕ)
      → (after : KnowledgeDb) × (try_heartbeat_kb_ingestion_task clock task_id n at expires db
          ≡ (true, after))
        × Holds task_id file_id n file chunks after
  unfolding try_heartbeat_kb_ingestion_task get_file
  try_heartbeat-Holds clock at expires =
      let (t, here, g) = h.2 in
      let guard = attempt_guard processing task_id n in
      let assign = heartbeat_assign clock at expires in
      let keeps : (u : TaskJob) → (assign u).id ≡ u.id = λ u. unfold heartbeat_assign in refl in
      let hit =
        execute-hit guard assign task_id (attempt_guard-names processing n task_id) keeps db t h.0
          here g in
      (
        rewritten guard assign task_id (attempt_guard-names processing n task_id) keeps db t h.0
            here,
        rw hit refl,
        (
          rewritten-Distinct guard assign task_id (attempt_guard-names processing n task_id) keeps
              db t h.0 here,
          h.1,
          (
            assign t,
            get-hit guard assign task_id (attempt_guard-names processing n task_id) keeps db t h.0
                here g,
            unfold heartbeat_assign in unfold attempt_guard in unfold attempt_guard in g,
          ),
          h.3,
          h.4,
        ),
      )

  pub try_transition-Holds :
      (clock : ℕ) (expected : List FileStatus) (target : FileStatus)
      → one_of_files expected file.status ≡ true
      → (after : KnowledgeDb) × (try_transition_file_status clock file_id expected target db
          ≡ (true, after))
        × Holds task_id file_id n (status_assign clock target file) chunks after
  try_transition-Holds clock expected target from =
      let (fs, moved, d, there) =
        transition-hit clock file_id expected target db file h.1 h.3 from in
      (
        record db { files = fs },
        moved,
        (unfold get in h.0, d, unfold get in h.2, unfold get_file in there, h.4),
      )

  pub delete_chunks-Holds : Holds task_id file_id n file [] (delete_chunks_for_file file_id db)
  unfolding delete_chunks_for_file get_file get
  delete_chunks-Holds = (h.0, h.1, h.2, h.3, own-delete file_id db.chunks)

  pub replace-Holds :
      (rs : List DocumentChunk)
      → All (λ c. c.file_id ≡ file_id) rs
      → Holds task_id file_id n file rs (add_chunks rs (delete_chunks_for_file file_id db))
  unfolding delete_chunks_for_file add_chunks get_file get
  replace-Holds rs of = (
    h.0,
    h.1,
    h.2,
    h.3,
    own-append file_id rs (keep (λ c. not (c.file_id == file_id)) db.chunks) of
        (own-delete file_id db.chunks),
  )
