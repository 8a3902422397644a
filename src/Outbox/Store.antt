-- ===== src/Outbox/Store.antt =====
-- The table `task_outbox` (backend/models/orm/task.py) and the statements of `TaskOutboxRepository`
-- (backend/repositories/task_outbox_repo.py): each is a condition, an assignment and the method.
-- A UUID is a number, a time a number of microseconds, a payload the text of its JSON document.
use dewflow.Base.{
  ℕ, ◌+◌, String, Bool, true, false, ◌&&◌, ◌||◌, not, Option, none, some, List, map, ltb, leb, ◌==◌,
  if◌then◌else◌, is_some, text_is, due_by, any, keep, take, is_blank, update_where, returning,
  precedes_at, order_by, zero, suc,
}

-- `TaskOutboxStatus`
pub data Status : Type 0 where
  pending publishing published dead : Status

abbrev pub status_eq : Status → Status → Bool
status_eq pending pending = true
status_eq publishing publishing = true
status_eq published published = true
status_eq dead dead = true
status_eq _ _ = false

-- `TaskOutbox`
pub record TaskOutbox : Type 0 where
  pub id : ℕ
  pub task_id : ℕ
  pub event_type : String
  pub payload : String
  pub status : Status
  pub attempt_count : ℕ
  pub next_attempt_at : Option ℕ
  pub lease_owner : Option String
  pub lease_expires_at : Option ℕ
  pub published_at : Option ℕ
  pub last_error : Option String

abbrev pub Rows : Type 0
Rows = List TaskOutbox

pub data Result (A : Type 0) : Type 0 where
  ok : A → Result A
  value_error : Result A

unfoldable pub new_event : ℕ → ℕ → String → String → ℕ → TaskOutbox
new_event id task_id event_type payload next_attempt_at = record {
  id = id;
  task_id = task_id;
  event_type = event_type;
  payload = payload;
  status = pending;
  attempt_count = 0;
  next_attempt_at = some next_attempt_at;
  lease_owner = none;
  lease_expires_at = none;
  published_at = none;
  last_error = none;
}

-- An event is due if it waits and its time has come, or if the lease of its publisher has run out.
unfoldable pub is_due : ℕ → TaskOutbox → Bool
is_due due_at r =
    (status_eq r.status pending && due_by r.next_attempt_at due_at)
    || (status_eq r.status publishing && due_by r.lease_expires_at due_at)

pub record ClaimArgs : Type 0 where
  pub due_at : ℕ
  pub lease_owner : String
  pub lease_expires_at : ℕ
  pub max_attempts : ℕ

unfoldable pub claim_guard : ClaimArgs → TaskOutbox → Bool
unfolding is_due
claim_guard a r = is_due a.due_at r && ltb r.attempt_count a.max_attempts

unfoldable pub claim_assign : ClaimArgs → TaskOutbox → TaskOutbox
claim_assign a r = record r {
  status = publishing;
  attempt_count = r.attempt_count + 1;
  lease_owner = some a.lease_owner;
  lease_expires_at = some a.lease_expires_at;
  next_attempt_at = some a.lease_expires_at;
}

-- `ORDER BY next_attempt_at, id`
abbrev pub precedes : TaskOutbox → TaskOutbox → Bool
precedes a b = precedes_at a.next_attempt_at b.next_attempt_at (ltb a.id b.id)

-- The rows of a batch. A row that another relay has locked is skipped (SKIP LOCKED).
unfoldable pub claimable : (TaskOutbox → Bool) → ClaimArgs → ℕ → Rows → Rows
unfolding order_by
claimable locked a limit rows =
    take limit (order_by precedes (keep (λ r. claim_guard a r && not (locked r)) rows))

-- `row.id in [s.id for s in batch]`
abbrev pub is_in : Rows → TaskOutbox → Bool
is_in batch r = any (λ s. s.id == r.id) batch

unfoldable pub claim_due_batch : (TaskOutbox → Bool) → ClaimArgs → ℕ → Rows → Result Rows × Rows
claim_due_batch locked a limit rows =
    if is_blank a.lease_owner || ltb a.max_attempts 1 || ltb limit 1 || ltb 500 limit
    then (value_error, rows)
    else (let batch = claimable locked a limit rows in
        (ok (map (claim_assign a) batch), update_where (is_in batch) (claim_assign a) rows))

-- One UPDATE on the primary key: the row that RETURNING gives, and the table after it.
abbrev pub by_id : ℕ → (TaskOutbox → Bool) → TaskOutbox → Bool
by_id outbox_id guard r = r.id == outbox_id && guard r

unfoldable pub execute :
    ℕ → (TaskOutbox → Bool) → (TaskOutbox → TaskOutbox) → Rows → Option TaskOutbox × Rows
execute outbox_id guard assign rows = (
  returning (by_id outbox_id guard) assign rows,
  update_where (by_id outbox_id guard) assign rows,
)

unfoldable pub try_claim : ℕ → ClaimArgs → Rows → Option TaskOutbox × Rows
try_claim outbox_id a rows = execute outbox_id (claim_guard a) (claim_assign a) rows

unfoldable pub exhausted_guard : ℕ → ℕ → TaskOutbox → Bool
unfolding is_due
exhausted_guard due_at max_attempts r = leb max_attempts r.attempt_count && is_due due_at r

unfoldable pub get_exhausted_due : ℕ → ℕ → ℕ → Rows → Result Rows
unfolding order_by
get_exhausted_due due_at max_attempts limit rows =
    if ltb max_attempts 1 || ltb limit 1 || ltb 500 limit
    then value_error
    else ok (take limit (order_by precedes (keep (exhausted_guard due_at max_attempts) rows)))

-- The fence of the relay that holds the lease.
unfoldable pub lease_guard : ℕ → String → TaskOutbox → Bool
lease_guard expected_attempt lease_owner r =
    status_eq r.status publishing
    && r.attempt_count == expected_attempt
    && text_is r.lease_owner lease_owner

unfoldable pub publish_assign : ℕ → TaskOutbox → TaskOutbox
publish_assign published_at r = record r {
  status = published;
  next_attempt_at = none;
  lease_owner = none;
  lease_expires_at = none;
  published_at = some published_at;
  last_error = none;
}

unfoldable pub try_mark_published : ℕ → ℕ → String → ℕ → Rows → Bool × Rows
try_mark_published outbox_id expected_attempt lease_owner published_at rows =
    let (row, rows') =
      execute outbox_id (lease_guard expected_attempt lease_owner) (publish_assign published_at)
        rows in
    (is_some row, rows')

-- `text[:n]`
pub clip : ℕ → String → String
clip zero s = ""
clip (suc n) String.[] = ""
clip (suc n) (String.◌∷◌ c s) = String.◌∷◌ c (clip n s)

unfoldable pub release_assign : ℕ → String → TaskOutbox → TaskOutbox
release_assign next_attempt_at last_error r = record r {
  status = pending;
  next_attempt_at = some next_attempt_at;
  lease_owner = none;
  lease_expires_at = none;
  last_error = some (clip 5000 last_error);
}

unfoldable pub try_release_for_retry : ℕ → ℕ → String → ℕ → String → Rows → Bool × Rows
try_release_for_retry outbox_id expected_attempt lease_owner next_attempt_at last_error rows =
    let (row, rows') =
      execute outbox_id (lease_guard expected_attempt lease_owner)
        (release_assign next_attempt_at last_error) rows in
    (is_some row, rows')

unfoldable pub dead_guard : ℕ → ℕ → TaskOutbox → Bool
dead_guard expected_attempt due_before r =
    (status_eq r.status pending || status_eq r.status publishing)
    && r.attempt_count == expected_attempt
    && (due_by r.next_attempt_at due_before || due_by r.lease_expires_at due_before)

unfoldable pub dead_assign : String → TaskOutbox → TaskOutbox
dead_assign last_error r = record r {
  status = dead;
  next_attempt_at = none;
  lease_owner = none;
  lease_expires_at = none;
  last_error = some (clip 5000 last_error);
}

unfoldable pub try_mark_dead : ℕ → ℕ → ℕ → String → Rows → Bool × Rows
try_mark_dead outbox_id expected_attempt due_before last_error rows =
    let (row, rows') =
      execute outbox_id (dead_guard expected_attempt due_before) (dead_assign last_error) rows in
    (is_some row, rows')

unfoldable pub replay_rejects : Status → Bool
replay_rejects expected_status =
    not (status_eq expected_status published || status_eq expected_status dead)

unfoldable pub replay_guard : Status → ℕ → TaskOutbox → Bool
replay_guard expected_status expected_attempt r =
    status_eq r.status expected_status && r.attempt_count == expected_attempt

unfoldable pub replay_assign : ℕ → Bool → TaskOutbox → TaskOutbox
replay_assign next_attempt_at reset_attempts r = record r {
  status = pending;
  attempt_count = if reset_attempts then 0 else r.attempt_count;
  next_attempt_at = some next_attempt_at;
  lease_owner = none;
  lease_expires_at = none;
  published_at = none;
  last_error = none;
}

unfoldable pub try_prepare_replay : ℕ → Status → ℕ → ℕ → Bool → Rows → Result Bool × Rows
try_prepare_replay outbox_id expected_status expected_attempt next_attempt_at reset_attempts rows =
    if replay_rejects expected_status
    then (value_error, rows)
    else (let (row, rows') =
          execute outbox_id (replay_guard expected_status expected_attempt)
            (replay_assign next_attempt_at reset_attempts) rows in
        (ok (is_some row), rows'))
