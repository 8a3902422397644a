-- ===== src/Outbox/Tests.antt =====
-- One event through its delivery, and each theorem about the outbox at it.
use dewflow.Base.{
  refl, true, false, none, Bool, List, [], ◌∷◌, All, is_blank, find, update_where, returning, arith,
}
use dewflow.Outbox.Store.{
  TaskOutbox, published, ClaimArgs, new_event, claim_guard, claim_assign, claimable,
  claim_due_batch, exhausted_guard, try_mark_published, lease_guard, publish_assign, execute,
  get_exhausted_due, try_mark_dead, dead_guard,
}
use dewflow.Outbox.Checks.{Op, create, claim_batch, mark_published, replay, run}
use dewflow.Outbox.History.{IsValid, run-IsValid}
use dewflow.Outbox.Relay.{
  RelayService, claimed, count_published, count_dead, publish_claimed, relay_due, mark_exhausted,
  publish_all, confirm, bury_all,
}
use dewflow.Outbox.Delivery.{
  LeasedIn, claim_due_batch-LeasedIn, DeliveredAs, publish_claimed-DeliveredAs,
}
use dewflow.Outbox.Accounts.{Accounted, relay_accounts}

abbrev event : TaskOutbox
event = new_event 1 2 "knowledge.ingestion.requested" "{}" 10

abbrev claim : ClaimArgs
claim = record { due_at = 20; lease_owner = "w"; lease_expires_at = 60000020; max_attempts = 3 }

abbrev service : RelayService
service = record {
  retry_seconds = 60;
  lease_seconds = 60;
  max_attempts = 3;
  batch_size = 100;
  payload_is_valid = λ p. true;
  refuses = λ r. none;
}

abbrev nobody_locks : TaskOutbox → Bool
nobody_locks r = false

abbrev deliveries : List Op
deliveries =
    create 1 2 "knowledge.ingestion.requested" "{}" 10
    ∷ claim_batch nobody_locks claim 100
    ∷ mark_published 1 1 "w" 20
    ∷ replay 1 published 1 30 false
    ∷ []

run-IsValid_example : IsValid 3 (run deliveries [])
run-IsValid_example =
    run-IsValid 3 deliveries [] (unfold find in (refl, (tt, (tt, (tt, tt)))))
      (tt, (omega arith, (tt, (tt, tt)))) (tt, tt)

claim_due_batch-LeasedIn_example :
    All
      (LeasedIn claim (claim_due_batch nobody_locks claim 100 (event ∷ [])).1)
      (claim_assign claim event ∷ [])
unfolding claim_due_batch claimable claim_guard new_event is_blank find
claim_due_batch-LeasedIn_example =
    claim_due_batch-LeasedIn nobody_locks claim 100 (event ∷ []) (claim_assign claim event ∷ [])
      (refl, tt) refl

publish_claimed-DeliveredAs_example :
    DeliveredAs service 20 (claimed 1) (claim_assign claim event) true (
      publish_claimed service
        (claim_assign claim event)
        "w"
        20
        (claimed 1)
        (claim_assign claim event ∷ []))
unfolding find claim_assign new_event
publish_claimed-DeliveredAs_example =
    publish_claimed-DeliveredAs service "w" 20 (claimed 1) (claim_assign claim event ∷ [])
      (claim_assign claim event) (refl, tt) refl refl refl

abbrev old_event : TaskOutbox
old_event = record event { id = 2; attempt_count = 3 }

relay_accounts_example :
    Accounted service
      (λ r rows. rows)
      nobody_locks
      "w"
      20
      (event ∷ old_event ∷ [])
      (count_dead true (count_published true (claimed 1)))
unfolding relay_due claim_due_batch claimable claim_guard claim_assign new_event is_blank
    publish_all publish_claimed confirm try_mark_published lease_guard publish_assign execute
    mark_exhausted bury_all get_exhausted_due exhausted_guard update_where returning try_mark_dead
    dead_guard
relay_accounts_example =
    relay_accounts service (λ r rows. rows) nobody_locks "w" 20
      (count_dead true (count_published true (claimed 1))) (event ∷ old_event ∷ [])
      (relay_due service (λ r rows. rows) nobody_locks "w" 20 (event ∷ old_event ∷ [])).1 refl
