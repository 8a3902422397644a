-- ===== src/Knowledge/Accounts.antt =====
-- The counters of a whole recovery (backend/services/knowledge_ingestion_recovery_service.py).
use dewflow.Knowledge.Counts.{handled}
use dewflow.Base.{ℕ, ◌+◌, ◌≤◌, ◌≡◌, false, List, length, All}
use dewflow.Outbox.Store.{Result, ok}
use dewflow.Knowledge.Rows.{TaskJob, KnowledgeDb}
use dewflow.Knowledge.Jobs.{bad_limit}
use dewflow.Knowledge.Recovery.{RecoveryResult, Outcome}
use dewflow.Knowledge.Leaves.{HasTask}
use dewflow.Knowledge.Present.{Present}

-- What a recovery with a batch size returns.
abbrev pub IsAccounted : ℕ → Outcome → Type 0
IsAccounted batch_size out =
    (c : RecoveryResult) × (out.0 ≡ ok c)
    × (c.scanned_task_count ≤ batch_size + batch_size)
    × (c.scanned_orphan_file_count ≤ batch_size)
    × (c.created_task_count ≤ c.scanned_orphan_file_count)
    × (c.created_task_count ≤ c.created_outbox_count)
    × ((together : ℕ) × (together ≤ c.failed_task_count)
        × (together ≤ c.failed_file_count)
        × (handled c + c.failed_file_count
            ≡ c.scanned_task_count + c.scanned_orphan_file_count + together))

-- A scan with an accepted limit gives no more rows than it, and each of them has a property.
abbrev Scanned : {A : Type 0} → (A → Type 0) → ℕ → Result (List A) → Type 0
Scanned {A = A} P limit r = (xs : List A) × (r ≡ ok xs) × (length xs ≤ limit) × All P xs

module _ (older limit : ℕ) (db : KnowledgeDb) (fits : bad_limit limit ≡ false) where
  abbrev InTable : TaskJob → Type 0
  InTable t = HasTask t.id db

-- what a loop returns, if all that it counts is related to what came before
abbrev Counted : (RecoveryResult → Type 0) → Outcome → Type 0
Counted P out = (d : RecoveryResult) × (out.0 ≡ ok d) × P d
