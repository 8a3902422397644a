-- ===== src/Generation/Scan.antt =====
-- The due requests (`get_due_generation_requests`, backend/repositories/chat_repo.py) and the loop of
-- `reconcile_due_requests` (backend/application/chat/generation_recovery.py) over them. Each item is
-- handled in a unit of work of its own, and before each the rest of the system may have changed the
-- tables: `meanwhile` is what it did.
use dewflow.Base.{
  ℕ, Bool, ◌&&◌, ◌||◌, List, [], ◌∷◌, ltb, if◌then◌else◌, due_by, length, take, keep, precedes_at,
  order_by,
}
use dewflow.Generation.Row.{GenerationRequest, ChatDb, is_nonterminal}
use dewflow.Generation.Args.{Result, ok, err, value_error}
use dewflow.Generation.Recovery.{RecoveryService, RecoveryResult, Outcome, reconcile_one}

abbrev pub is_due : ℕ → GenerationRequest → Bool
is_due due_at r = is_nonterminal r.status && due_by r.recovery_due_at due_at

-- the order by `recovery_due_at`, then `id`
abbrev pub precedes : GenerationRequest → GenerationRequest → Bool
precedes a b = precedes_at a.recovery_due_at b.recovery_due_at (ltb a.id b.id)

unfoldable pub get_due_generation_requests : ℕ → ℕ → ChatDb → Result (List GenerationRequest)
unfolding order_by
get_due_generation_requests due_at limit db =
    if ltb limit 1 || ltb 500 limit
    then err value_error
    else ok (take limit (order_by precedes (keep (is_due due_at) db.requests)))

-- `ChatGenerationRecoveryResult(scanned_count=n)`
abbrev pub scanned : ℕ → RecoveryResult
scanned n = record {
  scanned_count = n;
  prepared_dispatched_count = 0;
  queued_redispatched_count = 0;
  failed_count = 0;
  conflict_count = 0;
  dispatch_error_count = 0;
}

-- An exception ends the loop.
abbrev pub go_on : Outcome → (RecoveryResult → ChatDb → Outcome) → Outcome
go_on (ok c, db) rest = rest c db
go_on (err e, db) rest = (err e, db)

module _ (self : RecoveryService) (meanwhile : GenerationRequest → ChatDb → ChatDb) where
  unfoldable pub reconcile_all : List GenerationRequest → ℕ → RecoveryResult → ChatDb → Outcome
  reconcile_all [] now c db = (ok c, db)
  reconcile_all (r ∷ rs) now c db =
      go_on (reconcile_one self r now c (meanwhile r db))
        (λ c' after. reconcile_all rs now c' after)

  -- the scan that the query starts
  abbrev pub reconcile_from : ℕ → ChatDb → Result (List GenerationRequest) → Outcome
  reconcile_from now db (err e) = (err e, db)
  reconcile_from now db (ok due) = reconcile_all due now (scanned (length due)) db

  unfoldable pub reconcile_due_requests : ℕ → ChatDb → Outcome
  unfolding reconcile_all get_due_generation_requests
  reconcile_due_requests now db =
      reconcile_from now db (get_due_generation_requests now self.batch_size db)
