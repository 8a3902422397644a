-- ===== src/Knowledge/Present.antt =====
-- The tasks that a recovery (backend/services/knowledge_ingestion_recovery_service.py) has scanned stay in
-- the table as long as others delete none: no item of the recovery deletes a task.
use dewflow.Base.{ℕ, ◌≡◌, true, Option, is_some, List, [], ◌∷◌, All, All-imp, find, arith}
use dewflow.Outbox.Store.{ok, value_error}
use dewflow.Knowledge.Rows.{TaskJob, File, KnowledgeDb, task_key}
use dewflow.Knowledge.Recovery.{
  RecoveryService, RecoveryResult, Outcome, file_of, go_on, reconcile_processing_task,
  reconcile_pending_task, reconcile_processing_tasks,
}
use dewflow.Knowledge.Leaves.{HasTask, HasTask-Kept}
use dewflow.Knowledge.Recovered.{reconcile_processing_task-Kept, reconcile_pending_task-Kept}

-- Every task of the first tables is a task of the second.
abbrev pub KeepsTasks : KnowledgeDb → KnowledgeDb → Type 0
KeepsTasks before after = (k : ℕ) → HasTask k before → HasTask k after

abbrev pub Present : List TaskJob → KnowledgeDb → Type 0
Present ts db = All (λ t. HasTask t.id db) ts

pub Present-KeepsTasks :
    (ts : List TaskJob) (before after : KnowledgeDb)
    → KeepsTasks before after
    → Present ts before
    → Present ts after
Present-KeepsTasks ts before after keeps =
    All-imp (λ t. HasTask t.id before) (λ t. HasTask t.id after) (λ t h. keeps t.id h) ts

pub found-All : (ts : List TaskJob) → All (λ t. is_some (find task_key t.id ts) ≡ true) ts
unfolding find
found-All [] = tt
found-All (t ∷ ts) = (
  ground arith,
  All-imp (λ u. is_some (find task_key u.id ts) ≡ true)
      (λ u. is_some (find task_key u.id (t ∷ ts)) ≡ true) (λ u h. ground (arith, h)) ts
      (found-All ts),
)

module _ (self : RecoveryService) (others : TaskJob → KnowledgeDb → KnowledgeDb)
    (between : TaskJob → KnowledgeDb → KnowledgeDb) (before_file : File → KnowledgeDb → KnowledgeDb)
    (now : ℕ) where
  pub reconcile_processing_task-KeepsTasks :
      (file : Option File) (t : TaskJob) (c : RecoveryResult) (db : KnowledgeDb)
      → KeepsTasks db (reconcile_processing_task self file t now c db).1
  reconcile_processing_task-KeepsTasks file t c db k h =
      reconcile_processing_task-Kept (HasTask k) (HasTask-Kept k) self t now c db h file

  pub reconcile_pending_task-KeepsTasks :
      (file : Option File) (t : TaskJob) (c : RecoveryResult) (db : KnowledgeDb)
      → KeepsTasks db (reconcile_pending_task self file t now c db).1
  reconcile_pending_task-KeepsTasks file t c db k h =
      reconcile_pending_task-Kept (HasTask k) (HasTask-Kept k) self t now c db h file

  go_on-KeepsTasks :
      (before : KnowledgeDb) (out : Outcome) (rest : RecoveryResult → KnowledgeDb → Outcome)
      → KeepsTasks before out.1
      → ((d : RecoveryResult) (db : KnowledgeDb) → KeepsTasks db (rest d db).1)
      → KeepsTasks before (go_on self others between before_file out rest).1
  go_on-KeepsTasks before (ok c, db) rest h k j there = k c db j (h j there)
  go_on-KeepsTasks before (value_error, db) rest h k j there = h j there

  pub reconcile_processing_tasks-KeepsTasks :
      ((t : TaskJob) (db : KnowledgeDb) → KeepsTasks db (others t db))
      → ((t : TaskJob) (db : KnowledgeDb) → KeepsTasks db (between t db))
      → (ts : List TaskJob) (c : RecoveryResult) (db : KnowledgeDb)
      → KeepsTasks db (reconcile_processing_tasks self others between before_file ts now c db).1
  unfolding reconcile_processing_tasks
  reconcile_processing_tasks-KeepsTasks ho hb [] c db = λ k h. h
  reconcile_processing_tasks-KeepsTasks ho hb (t ∷ ts) c db =
      let there = others t db in
      go_on-KeepsTasks db
        (reconcile_processing_task self (file_of t.knowledge_file_id there) t now c
          (between t there))
        (λ d a. reconcile_processing_tasks self others between before_file ts now d a)
        (λ k h.
          reconcile_processing_task-KeepsTasks (file_of t.knowledge_file_id there) t c
            (between t there) k (hb t there k (ho t db k h)))
        (λ d a. reconcile_processing_tasks-KeepsTasks ho hb ts d a)
