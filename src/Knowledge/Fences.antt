-- ===== src/Knowledge/Fences.antt =====
-- The fence of an attempt (backend/repositories/task_repo.py): what the claim of a task refuses from then on.
use dewflow.Base.{
  ℕ, ◌+◌, ◌≤◌, ◌≡◌, refl, ap, String, Bool, true, false, none, some, List, [], ◌∷◌, ◌==◌, Distinct,
  arith,
}
use dewflow.Outbox.Store.{clip, ok}
use dewflow.Knowledge.Rows.{
  TaskStatus, one_of_tasks, pending, processing, TaskJob, KnowledgeDb, task_key,
}
use dewflow.Knowledge.Jobs.{
  execute, done, get, attempt_guard, claim_guard, claim_assign, try_claim_kb_ingestion_task,
  heartbeat_assign, try_heartbeat_kb_ingestion_task, complete_assign,
  try_complete_kb_ingestion_task, try_reconcile_completed_kb_ingestion_task, fail_guard,
  fail_assign, try_fail_kb_ingestion_task, expired_guard, requeue_assign,
  try_reset_expired_kb_ingestion_task, try_fail_expired_kb_ingestion_task,
}
use dewflow.Knowledge.Held.{
  execute-hit, execute-miss, get-hit, rewritten, rewritten-Distinct, attempt_guard-names,
}

-- The worker of attempt m of a task, and a recovery that saw this attempt, change nothing.
abbrev pub Refuses : ℕ → ℕ → KnowledgeDb → Type 0
Refuses task_id m db =
    (clock at until old : ℕ) (log : String)
    → (try_heartbeat_kb_ingestion_task clock task_id m at until db ≡ (false, db))
      × (try_complete_kb_ingestion_task clock task_id m at db ≡ (false, db))
      × ((expected : List TaskStatus)
          → try_fail_kb_ingestion_task clock task_id expected (some m) log at db ≡ (false, db))
      × ((expected : TaskStatus)
          → one_of_tasks (pending ∷ processing ∷ []) expected ≡ true
          → try_reconcile_completed_kb_ingestion_task clock task_id expected m at db
            ≡ (ok false, db))
      × (try_reset_expired_kb_ingestion_task clock task_id m at old log db ≡ (false, db))
      × (try_fail_expired_kb_ingestion_task clock task_id m at old log at db ≡ (false, db))

module _ (task_id : ℕ) (db : KnowledgeDb) (t : TaskJob) (d : Distinct task_key db.tasks)
    (here : get task_id db ≡ some t) where
  -- an UPDATE whose condition names the task and fails on it does nothing
  miss :
      (guard : TaskJob → Bool) (assign : TaskJob → TaskJob)
      → ((u : TaskJob) → guard u ≡ true → u.id ≡ task_id)
      → ((u : TaskJob) → (assign u).id ≡ u.id)
      → guard t ≡ false
      → done (execute guard assign db) ≡ (false, db)
  miss guard assign names keeps g =
      ap done (execute-miss guard assign task_id names keeps db t d here g)

  attempt-Refuses : (m : ℕ) → (t.attempt_count == m) ≡ false → Refuses task_id m db
  unfolding try_heartbeat_kb_ingestion_task try_complete_kb_ingestion_task
      try_fail_kb_ingestion_task try_reset_expired_kb_ingestion_task
      try_fail_expired_kb_ingestion_task try_reconcile_completed_kb_ingestion_task
  attempt-Refuses m other clock at until old log =
      let missed : (s : TaskStatus) → attempt_guard s task_id m t ≡ false =
        λ s. unfold attempt_guard in ground (arith, other) in
      let unfailed : (l : List TaskStatus) → fail_guard task_id l (some m) t ≡ false =
        λ l. unfold fail_guard in ground (arith, other) in
      let unexpired : expired_guard task_id m at old t ≡ false =
        unfold expired_guard in ground (arith, missed processing) in
      let names : (u : TaskJob) → expired_guard task_id m at old u ≡ true → u.id ≡ task_id = λ u e.
        unfold expired_guard in attempt_guard-names processing m task_id u (ground (arith, e)) in
      (
        miss (attempt_guard processing task_id m) (heartbeat_assign clock at until)
            (attempt_guard-names processing m task_id) (λ u. unfold heartbeat_assign in refl)
            (missed processing),
        miss (attempt_guard processing task_id m) (complete_assign clock at)
            (attempt_guard-names processing m task_id) (λ u. unfold complete_assign in refl)
            (missed processing),
        λ l.
            miss (fail_guard task_id l (some m)) (fail_assign clock log at)
              (λ u e. unfold fail_guard in ground (arith, e)) (λ u. unfold fail_assign in refl)
              (unfailed l),
        λ s listed.
            let untouched =
              miss (attempt_guard s task_id m) (complete_assign clock at)
                (attempt_guard-names s m task_id) (λ u. unfold complete_assign in refl)
                (missed s) in
            rw listed (ap (λ (r : Bool × KnowledgeDb). (ok r.0, r.1)) untouched),
        miss (expired_guard task_id m at old) (requeue_assign clock (some (clip 5000 log))) names
            (λ u. unfold requeue_assign in refl) unexpired,
        miss (expired_guard task_id m at old) (fail_assign clock log at) names
            (λ u. unfold fail_assign in refl) unexpired,
      )

claim_guard-names : (id file_id : ℕ) (u : TaskJob) → claim_guard id file_id u ≡ true → u.id ≡ id
unfolding claim_guard
claim_guard-names id file_id u g = ground (arith, g)

module _ (task_id file_id clock at expires : ℕ) (db : KnowledgeDb) (t : TaskJob) where
  -- The claim of a pending task of a file gives the number of a new attempt. After it the task cannot be
  -- claimed again, for this file or another, and whoever works with an earlier attempt is refused and
  -- changes nothing: a worker that renews, completes or fails it, and a recovery that fails it whatever
  -- statuses it expects, that completes it as pending or processing, or that saw it expired and requeues
  -- or fails it.
  pub claim_fences :
      Distinct task_key db.tasks
      → get task_id db ≡ some t
      → claim_guard task_id file_id t ≡ true
      → (after : KnowledgeDb) × (try_claim_kb_ingestion_task clock task_id file_id at expires db
          ≡ (some (t.attempt_count + 1), after))
        × ((c other a e : ℕ)
            → try_claim_kb_ingestion_task c task_id other a e after ≡ (none, after))
        × ((m : ℕ) → m ≤ t.attempt_count → Refuses task_id m after)
  unfolding try_claim_kb_ingestion_task
  claim_fences d here g =
      let guard = claim_guard task_id file_id in
      let assign = claim_assign clock at expires in
      let keeps : (u : TaskJob) → (assign u).id ≡ u.id = λ u. unfold claim_assign in refl in
      let names = claim_guard-names task_id file_id in
      let after = rewritten guard assign task_id names keeps db t d here in
      let d' = rewritten-Distinct guard assign task_id names keeps db t d here in
      let here' = get-hit guard assign task_id names keeps db t d here g in
      let counted : (assign t).attempt_count ≡ t.attempt_count + 1 = unfold claim_assign in refl in
      (
        after,
        rw (execute-hit guard assign task_id names keeps db t d here g, counted) refl,
        λ c other a e.
            rw
              (execute-miss (claim_guard task_id other) (claim_assign c a e) task_id
                (claim_guard-names task_id other) (λ u. unfold claim_assign in refl) after
                (assign t) d' here' (unfold claim_assign in unfold claim_guard in ground arith))
              refl,
        λ m le. attempt-Refuses task_id after (assign t) d' here' m (ground (arith, counted, le)),
      )
