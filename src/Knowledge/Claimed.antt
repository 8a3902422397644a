-- ===== src/Knowledge/Claimed.antt =====
-- The claim, the completion and the failure of a task by a worker (backend/repositories/task_repo.py).
use dewflow.Base.{ℕ, ◌+◌, ◌≡◌, refl, String, true, some, List, [], ◌∷◌, Distinct, arith}
use dewflow.Knowledge.Rows.{
  TaskStatus, processing, completed, TaskJob, File, DocumentChunk, KnowledgeDb, task_key, file_key,
}
use dewflow.Knowledge.Jobs.{
  get, attempt_guard, claim_guard, claim_assign, try_claim_kb_ingestion_task, complete_assign,
  try_complete_kb_ingestion_task, fail_guard, fail_assign, try_fail_kb_ingestion_task,
}
use dewflow.Knowledge.Files.{get_file}
use dewflow.Knowledge.Held.{
  execute-hit, get-hit, rewritten, rewritten-Distinct, own, Holds, attempt_guard-names,
}

-- What a task and its file have come to.
abbrev pub Settled : ℕ → ℕ → TaskStatus → ℕ → File → List DocumentChunk → KnowledgeDb → Type 0
Settled task_id file_id status attempt file chunks db =
    ((t : TaskJob) × (get task_id db ≡ some t) × (t.status ≡ status) × (t.attempt_count ≡ attempt))
    × (get_file file_id db ≡ some file)
    × (own file_id db.chunks ≡ chunks)

claim_guard-names : (id file_id : ℕ) (t : TaskJob) → claim_guard id file_id t ≡ true → t.id ≡ id
unfolding claim_guard
claim_guard-names id file_id t g = ground (arith, g)

claim-attempt :
    (id file_id clock at expires : ℕ) (t : TaskJob)
    → claim_guard id file_id t ≡ true
    → attempt_guard processing id (t.attempt_count + 1) (claim_assign clock at expires t) ≡ true
unfolding claim_guard claim_assign attempt_guard
claim-attempt id file_id clock at expires t g = ground (arith, g)

module _ (task_id file_id : ℕ) (file : File) (chunks : List DocumentChunk) (db : KnowledgeDb) where
  pub try_claim-Holds :
      (t : TaskJob) (clock at expires : ℕ)
      → Distinct task_key db.tasks
      → Distinct file_key db.files
      → get task_id db ≡ some t
      → claim_guard task_id file_id t ≡ true
      → get_file file_id db ≡ some file
      → own file_id db.chunks ≡ chunks
      → (after : KnowledgeDb) × (try_claim_kb_ingestion_task clock task_id file_id at expires db
          ≡ (some (t.attempt_count + 1), after))
        × Holds task_id file_id (t.attempt_count + 1) file chunks after
  unfolding try_claim_kb_ingestion_task get_file
  try_claim-Holds t clock at expires dt df here g there mine =
      let guard = claim_guard task_id file_id in
      let assign = claim_assign clock at expires in
      let names = claim_guard-names task_id file_id in
      let keeps : (u : TaskJob) → (assign u).id ≡ u.id = λ u. unfold claim_assign in refl in
      let hit = execute-hit guard assign task_id names keeps db t dt here g in
      let counted : (assign t).attempt_count ≡ t.attempt_count + 1 = unfold claim_assign in refl in
      (
        rewritten guard assign task_id names keeps db t dt here,
        rw (hit, counted) refl,
        (
          rewritten-Distinct guard assign task_id names keeps db t dt here,
          df,
          (
            assign t,
            get-hit guard assign task_id names keeps db t dt here g,
            claim-attempt task_id file_id clock at expires t g,
          ),
          there,
          mine,
        ),
      )

  module _ (n : ℕ) (h : Holds task_id file_id n file chunks db) where
    pub try_complete-Settled :
        (clock at : ℕ)
        → (after : KnowledgeDb) × (try_complete_kb_ingestion_task clock task_id n at db
            ≡ (true, after))
          × Settled task_id file_id completed n file chunks after
    unfolding try_complete_kb_ingestion_task get_file
    try_complete-Settled clock at =
        let (t, here, g) = h.2 in
        let guard = attempt_guard processing task_id n in
        let assign = complete_assign clock at in
        let names = attempt_guard-names processing n task_id in
        let keeps : (u : TaskJob) → (assign u).id ≡ u.id = λ u. unfold complete_assign in refl in
        (
          rewritten guard assign task_id names keeps db t h.0 here,
          rw (execute-hit guard assign task_id names keeps db t h.0 here g) refl,
          (
            (
              assign t,
              get-hit guard assign task_id names keeps db t h.0 here g,
              unfold complete_assign in refl,
              unfold complete_assign in unfold attempt_guard in ground (arith, g),
            ),
            h.3,
            h.4,
          ),
        )

    pub try_fail-Settled :
        (clock at : ℕ) (error_log : String)
        → Settled task_id file_id TaskStatus.failed n file chunks
            (try_fail_kb_ingestion_task clock task_id (processing ∷ []) (some n) error_log at db).1
    unfolding try_fail_kb_ingestion_task get_file
    try_fail-Settled clock at error_log =
        let (t, here, g) = h.2 in
        let guard = fail_guard task_id (processing ∷ []) (some n) in
        let assign = fail_assign clock error_log at in
        let names : (u : TaskJob) → guard u ≡ true → u.id ≡ task_id =
          λ u e. unfold fail_guard in ground (arith, e) in
        let keeps : (u : TaskJob) → (assign u).id ≡ u.id = λ u. unfold fail_assign in refl in
        let met : guard t ≡ true = unfold fail_guard in unfold attempt_guard in ground (arith, g) in
        rw (execute-hit guard assign task_id names keeps db t h.0 here met) (
          (
            assign t,
            get-hit guard assign task_id names keeps db t h.0 here met,
            unfold fail_assign in refl,
            unfold fail_assign in unfold attempt_guard in ground (arith, g),
          ),
          h.3,
          h.4,
        )
