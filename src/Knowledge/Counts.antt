-- ===== src/Knowledge/Counts.antt =====
-- What the tallies of the recovery (backend/services/knowledge_ingestion_recovery_service.py) add to its
-- counters.
use dewflow.Base.{ℕ, suc, ◌+◌, ◌≤◌, ◌≡◌, refl, ◌∙◌, true, arith}
use dewflow.Knowledge.Recovery.{
  RecoveryResult, scanned, Tally, created_pair, created_outbox, replayed, retried, completed_task,
  failed_file, failed_task, failed_pair, conflicted, tally,
}
use dewflow.Knowledge.Settles.{of_task, of_file}

-- The counters that a task, or the creation of a task for a file, adds one to.
abbrev pub handled : RecoveryResult → ℕ
handled c =
    c.created_outbox_count + c.replayed_outbox_count + c.retried_task_count + c.completed_task_count
    + c.failed_task_count + c.conflict_count

-- n tasks were handled: files fail only with their tasks, and no task is created.
abbrev pub TaskCounts : ℕ → RecoveryResult → RecoveryResult → Type 0
TaskCounts n c d =
    (handled d ≡ handled c + n)
    × (d.failed_file_count + c.failed_task_count ≤ c.failed_file_count + d.failed_task_count)
    × (d.created_task_count ≡ c.created_task_count)
    × (d.scanned_task_count ≡ c.scanned_task_count)
    × (d.scanned_orphan_file_count ≡ c.scanned_orphan_file_count)

-- n files were handled: each fails or conflicts, or gets a task with its event.
abbrev pub FileCounts : ℕ → RecoveryResult → RecoveryResult → Type 0
FileCounts n c d =
    (handled d + d.failed_file_count ≡ handled c + c.failed_file_count + n)
    × (d.created_outbox_count + c.created_task_count
        ≡ c.created_outbox_count + d.created_task_count)
    × (d.created_task_count ≤ c.created_task_count + n)
    × (d.failed_task_count ≡ c.failed_task_count)
    × (c.failed_file_count ≤ d.failed_file_count)
    × (d.scanned_task_count ≡ c.scanned_task_count)
    × (d.scanned_orphan_file_count ≡ c.scanned_orphan_file_count)

pub tally-TaskCounts :
    (t : Tally) (c : RecoveryResult) → of_task t ≡ true → TaskCounts 1 c (tally t c)
tally-TaskCounts created_pair c h = cc
tally-TaskCounts failed_file c h = cc
tally-TaskCounts created_outbox c h = (omega arith, omega arith, refl, refl, refl)
tally-TaskCounts replayed c h = (omega arith, omega arith, refl, refl, refl)
tally-TaskCounts retried c h = (omega arith, omega arith, refl, refl, refl)
tally-TaskCounts completed_task c h = (omega arith, omega arith, refl, refl, refl)
tally-TaskCounts failed_task c h = (omega arith, omega arith, refl, refl, refl)
tally-TaskCounts failed_pair c h = (omega arith, omega arith, refl, refl, refl)
tally-TaskCounts conflicted c h = (omega arith, omega arith, refl, refl, refl)

pub tally-FileCounts :
    (t : Tally) (c : RecoveryResult) → of_file t ≡ true → FileCounts 1 c (tally t c)
tally-FileCounts created_pair c h =
    (omega arith, omega arith, omega arith, refl, omega arith, refl, refl)
tally-FileCounts failed_file c h =
    (omega arith, omega arith, omega arith, refl, omega arith, refl, refl)
tally-FileCounts conflicted c h =
    (omega arith, omega arith, omega arith, refl, omega arith, refl, refl)
tally-FileCounts created_outbox c h = cc
tally-FileCounts replayed c h = cc
tally-FileCounts retried c h = cc
tally-FileCounts completed_task c h = cc
tally-FileCounts failed_task c h = cc
tally-FileCounts failed_pair c h = cc

pub TaskCounts-add :
    (m n : ℕ) (a b c : RecoveryResult)
    → TaskCounts m a b
    → TaskCounts n b c
    → TaskCounts (m + n) a c
TaskCounts-add m n a b c h k =
    (omega (arith, h.0, k.0), omega (arith, h.1, k.1), k.2 ∙ h.2, k.3 ∙ h.3, k.4 ∙ h.4)

pub TaskCounts-suc :
    (n : ℕ) (a b c : RecoveryResult) → TaskCounts 1 a b → TaskCounts n b c → TaskCounts (suc n) a c
TaskCounts-suc n a b c h k =
    (omega (arith, h.0, k.0), omega (arith, h.1, k.1), k.2 ∙ h.2, k.3 ∙ h.3, k.4 ∙ h.4)

pub TaskCounts-none : (c : RecoveryResult) → TaskCounts 0 c c
TaskCounts-none c = (omega arith, omega arith, refl, refl, refl)

pub FileCounts-none : (c : RecoveryResult) → FileCounts 0 c c
FileCounts-none c = (omega arith, omega arith, omega arith, refl, omega arith, refl, refl)

pub FileCounts-suc :
    (n : ℕ) (a b c : RecoveryResult) → FileCounts 1 a b → FileCounts n b c → FileCounts (suc n) a c
FileCounts-suc n a b c h k = (
  omega (arith, h.0, k.0),
  omega (arith, h.1, k.1),
  omega (arith, h.2, k.2),
  k.3 ∙ h.3,
  omega (arith, h.4, k.4),
  k.5 ∙ h.5,
  k.6 ∙ h.6,
)

-- The accounts of a recovery that has seen `tasks` tasks and `files` files.
abbrev pub IsAccount : ℕ → ℕ → RecoveryResult → Type 0
IsAccount tasks files c =
    (c.scanned_task_count ≡ tasks)
    × (c.scanned_orphan_file_count ≡ files)
    × ((together : ℕ) × (together ≤ c.failed_task_count)
        × (together ≤ c.failed_file_count)
        × (handled c + c.failed_file_count
            ≡ c.scanned_task_count + c.scanned_orphan_file_count + together))
    × (c.created_task_count ≤ c.created_outbox_count)
    × (c.created_task_count ≤ c.scanned_orphan_file_count)

-- The two stages together.
pub account :
    (tasks files : ℕ) (c d : RecoveryResult)
    → TaskCounts tasks (scanned tasks files) c
    → FileCounts files c d
    → IsAccount tasks files d
account tasks files c d h k = (
  k.5 ∙ h.3,
  k.6 ∙ h.4,
  (c.failed_file_count, omega (arith, h.1, k.3), k.4, omega (arith, h.0, h.3, h.4, k.0, k.5, k.6)),
  omega (arith, h.2, k.1),
  omega (arith, h.2, h.4, k.2, k.6),
)
