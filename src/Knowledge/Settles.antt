-- ===== src/Knowledge/Settles.antt =====
-- The blocks of the recovery (backend/services/knowledge_ingestion_recovery_service.py) that raise no
-- ValueError, and what they are counted as.
use dewflow.Base.{ℕ, ◌≡◌, refl, Bool, true, false, ◌||◌, [], ◌∷◌, is_some}
use dewflow.Outbox.Store
use dewflow.Outbox.Store.{
  Result, ok, value_error, TaskOutbox, Rows, try_prepare_replay, replay_rejects, execute,
  replay_guard, replay_assign, Status, published, dead,
}
use dewflow.Knowledge.Rows.{TaskStatus, pending, processing, one_of_tasks, KnowledgeDb}
use dewflow.Knowledge.Jobs
use dewflow.Knowledge.Jobs.{
  attempt_guard, complete_assign, try_reconcile_completed_kb_ingestion_task,
  try_fail_kb_ingestion_task, try_reset_expired_kb_ingestion_task,
  try_fail_expired_kb_ingestion_task, bad_limit, get_stale_kb_ingestion_tasks,
  get_pending_kb_tasks_without_active_outbox,
}
use dewflow.Knowledge.Leaves.{Leaves}
use dewflow.Knowledge.Recovery.{
  Work, done, conflict, raised, ◌>>=◌, must, must_replay, RecoveryResult, Tally, created_pair,
  completed_task, failed_file, conflicted, tally, commit, if_changed, if_completed,
}

-- what a task, and a file without a task, may be counted as
abbrev pub of_task : Tally → Bool
of_task created_pair = false
of_task failed_file = false
of_task _ = true

abbrev pub of_file : Tally → Bool
of_file created_pair = true
of_file failed_file = true
of_file conflicted = true
of_file _ = false

-- A block that raises no ValueError, and is counted as a tally of a kind.
unfoldable pub Settles : (Tally → Bool) → Work (Tally × KnowledgeDb) → Type 0
Settles q (done (t, db)) = q t ≡ true
Settles q conflict = q conflicted ≡ true
Settles q raised = ⊥

unfoldable pub Quiet : Work KnowledgeDb → Type 0
Quiet (done db) = Unit
Quiet conflict = Unit
Quiet raised = ⊥

pub bind-Settles :
    (q : Tally → Bool) (w : Work KnowledgeDb) (f : KnowledgeDb → Work (Tally × KnowledgeDb))
    → q conflicted ≡ true
    → Quiet w
    → ((db : KnowledgeDb) → Settles q (f db))
    → Settles q (w >>= f)
unfolding Settles Quiet
bind-Settles q (done db) f h quiet k = k db
bind-Settles q conflict f h quiet k = h
bind-Settles q raised f h quiet k = absurd quiet

-- The same, where what the block leaves matters to the next.
pub bind-Settles_left :
    (P : KnowledgeDb → Type 0) (q : Tally → Bool) (w : Work KnowledgeDb)
    (f : KnowledgeDb → Work (Tally × KnowledgeDb))
    → q conflicted ≡ true
    → Quiet w
    → Leaves P w
    → ((db : KnowledgeDb) → P db → Settles q (f db))
    → Settles q (w >>= f)
unfolding Settles Quiet Leaves
bind-Settles_left P q (done db) f h quiet left k = k db left
bind-Settles_left P q conflict f h quiet left k = h
bind-Settles_left P q raised f h quiet left k = absurd quiet

bind-Quiet :
    (w : Work KnowledgeDb) (f : KnowledgeDb → Work KnowledgeDb)
    → Quiet w
    → ((db : KnowledgeDb) → Quiet (f db))
    → Quiet (w >>= f)
unfolding Quiet
bind-Quiet (done db) f quiet k = k db
bind-Quiet conflict f quiet k = tt
bind-Quiet raised f quiet k = quiet

pub must-Quiet : (out : Bool × KnowledgeDb) → Quiet (must out)
unfolding Quiet
must-Quiet (true, db) = tt
must-Quiet (false, db) = tt

pub commit-Settles :
    (q : Tally → Bool) (c : RecoveryResult) (before : KnowledgeDb) (w : Work (Tally × KnowledgeDb))
    → Settles q w
    → (t : Tally) × (q t ≡ true) × ((commit c before w).0 ≡ ok (tally t c))
unfolding Settles
commit-Settles q c before (done (t, db)) h = (t, h, refl)
commit-Settles q c before conflict h = (conflicted, h, refl)
commit-Settles q c before raised h = absurd h

pub if_changed-Settles :
    (q : Tally → Bool) (t : Tally) (out : Bool × KnowledgeDb)
    → q conflicted ≡ true
    → q t ≡ true
    → Settles q (if_changed t out)
unfolding Settles
if_changed-Settles q t (true, db) h k = k
if_changed-Settles q t (false, db) h k = h

pub done-Settles :
    (q : Tally → Bool) (t : Tally) (db : KnowledgeDb) → q t ≡ true → Settles q (done (t, db))
unfolding Settles
done-Settles q t db h = h

must_replay-Quiet :
    (db : KnowledgeDb) (b : Bool) (rows : Rows) → Quiet (must_replay db (ok b, rows))
unfolding Quiet
must_replay-Quiet db true rows = tt
must_replay-Quiet db false rows = tt

-- The replay of an event that is published or dead is accepted.
pub replay-Quiet :
    (db : KnowledgeDb) (id : ℕ) (s : Status) (attempt now : ℕ) (reset : Bool) (rows : Rows)
    → (Store.status_eq s published || Store.status_eq s dead) ≡ true
    → Quiet (must_replay db (try_prepare_replay id s attempt now reset rows))
unfolding try_prepare_replay replay_rejects
replay-Quiet db id s attempt now reset rows settled = rw settled (
    must_replay-Quiet db
      (is_some (execute id (replay_guard s attempt) (replay_assign now reset) rows).0)
      (execute id (replay_guard s attempt) (replay_assign now reset) rows).1)

pub completed-Settles :
    (clock id attempt now : ℕ) (s : TaskStatus) (db : KnowledgeDb)
    → one_of_tasks (pending ∷ processing ∷ []) s ≡ true
    → Settles of_task
        (if_completed (try_reconcile_completed_kb_ingestion_task clock id s attempt now db))
unfolding try_reconcile_completed_kb_ingestion_task
completed-Settles clock id attempt now s db h = rw h (
    if_changed-Settles of_task completed_task
      (Jobs.done (Jobs.execute (attempt_guard s id attempt) (complete_assign clock now) db)) refl
      refl)
