-- ===== src/Generation/FailDue.antt =====
-- `_fail_request` (backend/application/chat/generation_recovery.py) on a due request that nobody else
-- has touched since the scan: its statement is accepted, meets the row, and fails the message too.
use dewflow.Base.{
  ℕ, ◌≡◌, refl, ◌∙◌, String, true, false, Option, none, some, find, find-update_where,
  returning_found, is_some, is_blank, is_empty-is_blank_sql, text_is, eq_iff, arith,
}
use dewflow.Generation.Row.{GenerationRequest, ChatDb, Metadata}
use dewflow.Generation.Args.{ok, FailDueArgs}
use dewflow.Generation.Scope.{execute}
use dewflow.Generation.Dispatch.{
  fail_due_guard, fail_due_assign, fail_due_rejects, try_fail_due_generation_request, same_fence,
  is_empty_text,
}
use dewflow.Generation.Message.{
  message_key, update_as_failed, is_some-update_as_failed, requests-update_as_failed,
}
use dewflow.Generation.Recovery.{fail_args, fail_message, fail_request}
use dewflow.Generation.Checks.{IsSound, has_text}
use dewflow.Generation.History.{key}
use dewflow.Generation.Keys.{IsKeyed}
use dewflow.Generation.Due.{IsDue}

pub text_is_self : (t : String) → text_is (some t) t ≡ true
text_is_self t = (eq_iff t t).1 refl

same_fence_self : (o : Option String) → same_fence o o ≡ true
same_fence_self none = refl
same_fence_self (some t) = text_is_self t

has_text-is_empty : (o : Option String) → has_text o ≡ true → is_empty_text o ≡ false
has_text-is_empty none h = refl
has_text-is_empty (some t) h = is_empty-is_blank_sql t (ground arith)

-- The message that a request names is there (a foreign key), if it names one.
abbrev pub HasMessage : ChatDb → Option ℕ → Type 0
HasMessage db none = Unit
HasMessage db (some m) = is_some (find message_key m db.messages) ≡ true

fail_due_names :
    (a : FailDueArgs) (r : GenerationRequest) → fail_due_guard a r ≡ true → key r ≡ a.request_id
unfolding fail_due_guard
fail_due_names a r g = ground arith

module _ (now : ℕ) (r : GenerationRequest) (sound : IsSound r) (due : IsDue now r) where
  module _ (code message : String) (named : is_blank code ≡ false) where
    fail_accepted : fail_due_rejects (fail_args r now code message) ≡ false
    unfolding fail_due_rejects fail_args
    fail_accepted =
        ground (arith, has_text-is_empty r.task_id, has_text-is_empty r.lease_token, sound)

    fail_meets : fail_due_guard (fail_args r now code message) r ≡ true
    unfolding fail_due_guard fail_args
    fail_meets = ground (arith, same_fence_self r.task_id, same_fence_self r.lease_token, sound)

    fail_meets_key :
        (db : ChatDb)
        → IsKeyed db
        → find key r.id db.requests ≡ some r
        → let a = fail_args r now code message in
          let (row, after) = execute (fail_due_guard a) (fail_due_assign a) db in
          (is_some row ≡ true) × (find key r.id after.requests ≡ some (fail_due_assign a r))
    unfolding execute
    fail_meets_key db keyed e =
        let a = fail_args r now code message in
        (
          ground (
            arith,
            fail_meets,
            returning_found key (fail_due_guard a) (fail_due_assign a) r.id
                (unfold fail_args in fail_due_names a) (unfold fail_due_assign in λ x. refl) r
                db.requests keyed e,
          ),
          find-update_where key (fail_due_guard a) (fail_due_assign a)
                (unfold fail_due_assign in λ x. refl) r.id db.requests r e
              ∙ rw fail_meets,
        )

    fail_message_found :
        (before after : ChatDb) (o : Option ℕ)
        → HasMessage after o
        → (db' : ChatDb) × (fail_message o message before after ≡ (ok true, db'))
          × (db'.requests ≡ after.requests)
    unfolding fail_message
    fail_message_found before after none h = (after, refl, refl)
    fail_message_found before after (some m) h =
        let updated = update_as_failed m message Metadata.failed_outcome after in
        (
          updated.1,
          rw (is_some-update_as_failed m message Metadata.failed_outcome after ∙ h),
          requests-update_as_failed m message Metadata.failed_outcome after,
        )

    try_fail_current :
        (db : ChatDb)
        → IsKeyed db
        → find key r.id db.requests ≡ some r
        → let a = fail_args r now code message in
          try_fail_due_generation_request a db
          ≡ (ok true, (execute (fail_due_guard a) (fail_due_assign a) db).1)
    unfolding try_fail_due_generation_request
    try_fail_current db keyed e = rw (fail_accepted, (fail_meets_key db keyed e).0)

    pub fail_request_current :
        (db : ChatDb)
        → IsKeyed db
        → find key r.id db.requests ≡ some r
        → HasMessage db r.assistant_message_id
        → (db' : ChatDb) × (fail_request r now code message db ≡ (ok true, db'))
          × (find key r.id db'.requests ≡ some (fail_due_assign (fail_args r now code message) r))
    unfolding fail_request
    fail_request_current db keyed e there =
        let a = fail_args r now code message in
        let after = (execute (fail_due_guard a) (fail_due_assign a) db).1 in
        let found = (fail_meets_key db keyed e).1 in
        let (db', ran, same) =
          fail_message_found db after r.assistant_message_id (unfold execute in there) in
        (db', rw (try_fail_current db keyed e) ran, rw same found)
