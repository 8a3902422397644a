-- ===== src/Outbox/Relay.antt =====
-- `KnowledgeOutboxRelayService` (backend/application/knowledge/outbox_relay.py): a batch of due events
-- is claimed, each is handed to the broker and confirmed, or released for a retry; events that have
-- used up their attempts are buried. Between two units of work others may change the table:
-- `meanwhile` is what they did.
use dewflow.Base.{
  ℕ, ◌+◌, ◌*◌, String, Bool, true, false, Option, none, some, [], ◌∷◌, if◌then◌else◌, length,
}
use dewflow.Outbox.Store.{
  TaskOutbox, Rows, Result, ok, value_error, claim_due_batch, try_claim, try_mark_published,
  try_release_for_retry, get_exhausted_due, try_mark_dead,
}

abbrev pub invalid_payload_error : String
invalid_payload_error = "KNOWLEDGE_OUTBOX_INVALID_PAYLOAD"

abbrev pub publish_exhausted_error : String
publish_exhausted_error = "KNOWLEDGE_OUTBOX_PUBLISH_EXHAUSTED"

-- The settings, and what the relay asks of code outside the repository: pydantic, which says whether
-- a payload is one, and the task broker, which takes the message of an event or raises an error of
-- some type.
pub record RelayService : Type 0 where
  pub retry_seconds : ℕ
  pub lease_seconds : ℕ
  pub max_attempts : ℕ
  pub batch_size : ℕ
  pub payload_is_valid : String → Bool
  pub refuses : TaskOutbox → Option String  -- the text of the error, if the broker raises

-- `KnowledgeOutboxRelayResult`
pub record RelayResult : Type 0 where
  pub claimed_count : ℕ
  pub published_count : ℕ
  pub retry_count : ℕ
  pub dead_count : ℕ
  pub conflict_count : ℕ

abbrev pub claimed : ℕ → RelayResult
claimed n = record {
  claimed_count = n;
  published_count = 0;
  retry_count = 0;
  dead_count = 0;
  conflict_count = 0;
}

abbrev pub count_conflict : RelayResult → RelayResult
count_conflict c = record c { conflict_count = c.conflict_count + 1 }

abbrev pub count_published : Bool → RelayResult → RelayResult
count_published true c = record c { published_count = c.published_count + 1 }
count_published false c = count_conflict c

abbrev pub count_retry : Bool → RelayResult → RelayResult
count_retry true c = record c { retry_count = c.retry_count + 1 }
count_retry false c = count_conflict c

abbrev pub count_dead : Bool → RelayResult → RelayResult
count_dead true c = record c { dead_count = c.dead_count + 1 }
count_dead false c = count_conflict c

module _ (self : RelayService) where
  abbrev pub microseconds : ℕ → ℕ
  microseconds s = s * 1000000

  unfoldable pub release :
      TaskOutbox → String → ℕ → String → RelayResult → Rows → RelayResult × Rows
  release outbox lease_owner now error c rows =
      let (released, rows') =
        try_release_for_retry outbox.id outbox.attempt_count lease_owner
          (now + microseconds self.retry_seconds) error rows in
      (count_retry released c, rows')

  unfoldable pub confirm : TaskOutbox → String → ℕ → RelayResult → Rows → RelayResult × Rows
  confirm outbox lease_owner now c rows =
      let (done, rows') = try_mark_published outbox.id outbox.attempt_count lease_owner now rows in
      (count_published done c, rows')

  -- by what the broker did
  abbrev pub after_enqueue :
      Option String → TaskOutbox → String → ℕ → RelayResult → Rows → RelayResult × Rows
  after_enqueue none outbox lease_owner now c rows = confirm outbox lease_owner now c rows
  after_enqueue (some error) outbox lease_owner now c rows =
      release outbox lease_owner now error c rows

  unfoldable pub publish_claimed : TaskOutbox → String → ℕ → RelayResult → Rows → RelayResult × Rows
  publish_claimed outbox lease_owner now c rows =
      if self.payload_is_valid outbox.payload
      then after_enqueue (self.refuses outbox) outbox lease_owner now c rows
      else release outbox lease_owner now invalid_payload_error c rows

  module _ (meanwhile : TaskOutbox → Rows → Rows) where
    unfoldable pub publish_all : Rows → String → ℕ → RelayResult → Rows → RelayResult × Rows
    publish_all [] lease_owner now c rows = (c, rows)
    publish_all (r ∷ rs) lease_owner now c rows =
        let (c', rows') = publish_claimed r lease_owner now c (meanwhile r rows) in
        publish_all rs lease_owner now c' rows'

    unfoldable pub bury_all : Rows → ℕ → RelayResult → Rows → RelayResult × Rows
    bury_all [] now c rows = (c, rows)
    bury_all (r ∷ rs) now c rows =
        let (marked, rows') =
          try_mark_dead r.id r.attempt_count now publish_exhausted_error (meanwhile r rows) in
        bury_all rs now (count_dead marked c) rows'

    abbrev pub bury : Result Rows → ℕ → RelayResult → Rows → Result RelayResult × Rows
    bury value_error now c rows = (value_error, rows)
    bury (ok exhausted) now c rows =
        let (c', rows') = bury_all exhausted now c rows in (ok c', rows')

    unfoldable pub mark_exhausted : ℕ → RelayResult → Rows → Result RelayResult × Rows
    mark_exhausted now c rows =
        bury (get_exhausted_due now self.max_attempts self.batch_size rows) now c rows

    abbrev pub relay_batch : String → ℕ → Result Rows × Rows → Result RelayResult × Rows
    relay_batch lease_owner now (value_error, rows) = (value_error, rows)
    relay_batch lease_owner now (ok batch, rows) =
        let (c, rows') = publish_all batch lease_owner now (claimed (length batch)) rows in
        mark_exhausted now c rows'

    -- `lease_owner` is drawn by `uuid4().hex`; `locked` are the rows that another relay holds.
    unfoldable pub relay_due : (TaskOutbox → Bool) → String → ℕ → Rows → Result RelayResult × Rows
    relay_due locked lease_owner now rows = relay_batch lease_owner now (
        claim_due_batch locked
          (record {
            due_at = now;
            lease_owner = lease_owner;
            lease_expires_at = now + microseconds self.lease_seconds;
            max_attempts = self.max_attempts;
          })
          self.batch_size rows)

  abbrev pub after_claim : String → ℕ → Option TaskOutbox × Rows → RelayResult × Rows
  after_claim lease_owner now (none, rows) = (count_conflict (claimed 0), rows)
  after_claim lease_owner now (some outbox, rows) =
      publish_claimed outbox lease_owner now (claimed 1) rows

  unfoldable pub publish_one : ℕ → String → ℕ → Rows → RelayResult × Rows
  publish_one outbox_id lease_owner now rows = after_claim lease_owner now (
      try_claim outbox_id
        (record {
          due_at = now;
          lease_owner = lease_owner;
          lease_expires_at = now + microseconds self.lease_seconds;
          max_attempts = self.max_attempts;
        })
        rows)
