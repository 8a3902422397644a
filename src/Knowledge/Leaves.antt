-- ===== src/Knowledge/Leaves.antt =====
-- What a block of a unit of work of the recovery
-- (backend/services/knowledge_ingestion_recovery_service.py) leaves if it is committed.
use dewflow.Base.{
  ℕ, ◌≡◌, refl, Bool, true, false, Option, some, List, [], ◌∷◌, Bool-cases, Option-cases, inl, inr,
  String, find, find-update_where, arith,
}
use dewflow.Outbox.Store.{clip, Rows, Result}
use dewflow.Outbox.Store
use dewflow.Knowledge.Rows.{
  one_of_tasks, TaskStatus, TaskJob, KnowledgeDb, FileStatus, ready, file_status_eq, one_of_files,
  task_key,
}
use dewflow.Knowledge.Files.{try_transition_file_status, delete_chunks_for_file}
use dewflow.Knowledge.Jobs.{
  execute, done, create, fail_assign, requeue_assign, attempt_guard, complete_assign,
  try_fail_kb_ingestion_task, try_reset_expired_kb_ingestion_task,
  try_fail_expired_kb_ingestion_task, try_reconcile_completed_kb_ingestion_task,
}
use dewflow.Knowledge.Recovery.{
  Work, conflict, raised, ◌>>=◌, must, must_replay, Tally, RecoveryResult, commit, if_changed,
  if_completed, has_task,
}
use dewflow.Knowledge.Recovery
use dewflow.Knowledge.Indexed.{IsIndexed}
use dewflow.Knowledge.Units.{withdrawn-IsIndexed, moved_aside-IsIndexed}

-- What a block leaves, if it is committed.
unfoldable pub Leaves {ℓ} : {A : Type 0} → (A → Type ℓ) → Work A → Type ℓ
Leaves P (Recovery.done a) = P a
Leaves P conflict = Unit
Leaves P raised = Unit

pub bind-Leaves {ℓ κ} :
    {A B : Type 0} (P : A → Type ℓ) (Q : B → Type κ) (w : Work A) (f : A → Work B)
    → Leaves P w
    → ((a : A) → P a → Leaves Q (f a))
    → Leaves Q (w >>= f)
unfolding Leaves
bind-Leaves P Q (Recovery.done a) f h k = k a h
bind-Leaves P Q conflict f h k = tt
bind-Leaves P Q raised f h k = tt

pub commit-Leaves {ℓ} :
    (P : KnowledgeDb → Type ℓ) (c : RecoveryResult) (before : KnowledgeDb)
    (w : Work (Tally × KnowledgeDb))
    → P before
    → Leaves (λ (out : Tally × KnowledgeDb). P out.1) w
    → P (commit c before w).1
unfolding Leaves
commit-Leaves P c before (Recovery.done (t, after)) h k = k
commit-Leaves P c before conflict h k = h
commit-Leaves P c before raised h k = h

pub must-Leaves {ℓ} :
    (P : KnowledgeDb → Type ℓ) (out : Bool × KnowledgeDb)
    → (out.0 ≡ true → P out.1)
    → Leaves P (must out)
unfolding Leaves
must-Leaves P (true, db) h = h refl
must-Leaves P (false, db) h = tt

pub if_changed-Leaves {ℓ} :
    (P : KnowledgeDb → Type ℓ) (t : Tally) (out : Bool × KnowledgeDb)
    → P out.1
    → Leaves (λ (r : Tally × KnowledgeDb). P r.1) (if_changed t out)
unfolding Leaves
if_changed-Leaves P t (true, db) h = h
if_changed-Leaves P t (false, db) h = h

pub must_replay-Leaves {ℓ} :
    (P : KnowledgeDb → Type ℓ) (db : KnowledgeDb) (out : Result Bool × Rows)
    → ((rows : Rows) → P (record db { outbox = rows }))
    → Leaves P (must_replay db out)
unfolding Leaves
must_replay-Leaves P db (Store.ok true, rows) h = h rows
must_replay-Leaves P db (Store.ok false, rows) h = tt
must_replay-Leaves P db (Store.value_error, rows) h = tt

-- What the statements of the recovery keep.
pub record Kept (P : KnowledgeDb → Type 0) : Type 0 where
  pub by_execute :
      (guard : TaskJob → Bool) (assign : TaskJob → TaskJob) (db : KnowledgeDb)
      → ((t : TaskJob) → (assign t).id ≡ t.id)
      → P db
      → P (done (execute guard assign db)).1
  pub by_create : (t : TaskJob) (db : KnowledgeDb) → P db → P (create t db)
  pub by_outbox : (rows : Rows) (db : KnowledgeDb) → P db → P (record db { outbox = rows })
  pub by_withdrawal :
      (clock id : ℕ) (expected : List FileStatus) (target : FileStatus) (db : KnowledgeDb)
      → P db
      → file_status_eq target ready ≡ false
      → (try_transition_file_status clock id expected target (delete_chunks_for_file id db)).0
        ≡ true
      → P (try_transition_file_status clock id expected target (delete_chunks_for_file id db)).1
  pub by_move :
      (clock id : ℕ) (expected : List FileStatus) (target : FileStatus) (db : KnowledgeDb)
      → P db
      → one_of_files expected ready ≡ false
      → file_status_eq target ready ≡ false
      → P (try_transition_file_status clock id expected target db).1

module _ (P : KnowledgeDb → Type 0) (kept : Kept P) where
  pub try_fail_kb_ingestion_task-Kept :
      (clock id : ℕ) (expected : List TaskStatus) (attempt : Option ℕ) (e : String) (now : ℕ)
      (db : KnowledgeDb)
      → P db
      → P (try_fail_kb_ingestion_task clock id expected attempt e now db).1
  unfolding try_fail_kb_ingestion_task
  try_fail_kb_ingestion_task-Kept clock id expected attempt e now db =
      kept.by_execute _ (fail_assign clock e now) db (λ t. unfold fail_assign in refl)

  pub try_fail_expired-Kept :
      (clock id attempt due old : ℕ) (e : String) (now : ℕ) (db : KnowledgeDb)
      → P db
      → P (try_fail_expired_kb_ingestion_task clock id attempt due old e now db).1
  unfolding try_fail_expired_kb_ingestion_task
  try_fail_expired-Kept clock id attempt due old e now db =
      kept.by_execute _ (fail_assign clock e now) db (λ t. unfold fail_assign in refl)

  pub try_reset_expired-Kept :
      (clock id attempt due old : ℕ) (e : String) (db : KnowledgeDb)
      → P db
      → P (try_reset_expired_kb_ingestion_task clock id attempt due old e db).1
  unfolding try_reset_expired_kb_ingestion_task
  try_reset_expired-Kept clock id attempt due old e db =
      kept.by_execute _ (requeue_assign clock (some (clip 5000 e))) db
        (λ t. unfold requeue_assign in refl)

  pub completed-Leaves :
      (clock id attempt now : ℕ) (expected : TaskStatus) (db : KnowledgeDb)
      → P db
      → Leaves
          (λ (r : Tally × KnowledgeDb). P r.1)
          (if_completed
            (try_reconcile_completed_kb_ingestion_task clock id expected attempt now db))
  unfolding try_reconcile_completed_kb_ingestion_task
  completed-Leaves clock id attempt now expected db h =
      elim (Bool-cases (one_of_tasks (TaskStatus.pending ∷ TaskStatus.processing ∷ []) expected)) [
        | inl e ↦ rw e (
            if_changed-Leaves P Tally.completed_task
              (done (execute (attempt_guard expected id attempt) (complete_assign clock now) db))
              (kept.by_execute _ (complete_assign clock now) db
                (λ t. unfold complete_assign in refl) h))
        | inr e ↦ rw e (unfold Leaves in tt)
      ]

-- A statement on tasks leaves files and chunks alone.
pub execute-IsIndexed :
    (guard : TaskJob → Bool) (assign : TaskJob → TaskJob) (db : KnowledgeDb)
    → IsIndexed db
    → IsIndexed (done (execute guard assign db)).1
unfolding execute
execute-IsIndexed guard assign db h = h

-- They keep the agreement of files and index,
pub IsIndexed-Kept : Kept IsIndexed
unfolding create
IsIndexed-Kept = record {
  by_execute = λ guard assign db keeps h. execute-IsIndexed guard assign db h;
  by_create = λ t db h. h;
  by_outbox = λ rows db h. h;
  by_withdrawal = λ clock id expected target db h to made.
      withdrawn-IsIndexed clock id expected target db h to made;
  by_move = λ clock id expected target db h from to.
      moved_aside-IsIndexed clock id expected target db h from to;
}

-- and every task.
abbrev pub HasTask : ℕ → KnowledgeDb → Type 0
HasTask task_id db = has_task task_id db ≡ true

module _ (k : ℕ) where
  execute-HasTask :
      (guard : TaskJob → Bool) (assign : TaskJob → TaskJob) (db : KnowledgeDb)
      → ((t : TaskJob) → (assign t).id ≡ t.id)
      → HasTask k db
      → HasTask k (done (execute guard assign db)).1
  unfolding execute
  execute-HasTask guard assign db keeps h = elim (Option-cases (find task_key k db.tasks)) [
    | inl e ↦ absurd (ground (arith, h, e))
    | inr (t, e) ↦ rw (find-update_where task_key guard assign keeps k db.tasks t e) refl
  ]

  pub HasTask-Kept : Kept (HasTask k)
  unfolding create try_transition_file_status delete_chunks_for_file find
  HasTask-Kept = record {
    by_execute = execute-HasTask;
    by_create = λ t db h. ground (arith, h);
    by_outbox = λ rows db h. h;
    by_withdrawal = λ clock id expected target db h to made. h;
    by_move = λ clock id expected target db h from to. h;
  }
