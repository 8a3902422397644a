-- ===== src/Knowledge/Dispatched.antt =====
-- What the outbox of a task is prepared to (`_prepare_task_outbox` of
-- backend/services/knowledge_ingestion_recovery_service.py): it has an event to be dispatched.
use dewflow.Base.{
  ℕ, ◌≡◌, refl, subst, Bool, true, false, ◌&&◌, ◌||◌, some, [], ◌∷◌, ◌==◌, str_eq, any, is_some,
  update_where, returning, Bool-cases, Option-cases, inl, inr, if◌then◌else◌, arith,
}
use dewflow.Outbox.Store
use dewflow.Outbox.Store.{
  clip, Result, ok, TaskOutbox, Rows, new_event, by_id, execute, replay_guard, replay_assign,
  replay_rejects, try_prepare_replay, published, dead, status_eq,
}
use dewflow.Knowledge.Rows.{TaskJob, KnowledgeDb}
use dewflow.Knowledge.Jobs.{ingestion_event, is_active_event}
use dewflow.Knowledge.Recovery.{
  done, must_replay, RecoveryService, create_outbox, is_settled_event, prepare_task_outbox,
  lookup_event, get_for_task_event, has_task,
}

live_status :
    (s : Store.Status)
    → (status_eq s published || status_eq s dead) ≡ false
    → (status_eq s Store.pending || status_eq s Store.publishing) ≡ true
live_status Store.pending h = refl
live_status Store.publishing h = refl
live_status Store.published h = cc
live_status Store.dead h = cc

status_eq_same : (s : Store.Status) → status_eq s s ≡ true
status_eq_same Store.pending = refl
status_eq_same Store.publishing = refl
status_eq_same Store.published = refl
status_eq_same Store.dead = refl

or-right : (a b : Bool) → b ≡ true → (a || b) ≡ true
or-right a b h = ground (arith, h)

or-left : (a b : Bool) → a ≡ true → (a || b) ≡ true
or-left a b h = ground (arith, h)

-- The event that a lookup finds is there, and if it waits or is being published, it is active.
pub lookup-active :
    (k : ℕ) (os : Rows) (o : TaskOutbox)
    → lookup_event k os ≡ some o
    → (status_eq o.status published || status_eq o.status dead) ≡ false
    → any (is_active_event k) os ≡ true
lookup-active k [] o e live = cc
lookup-active k (x ∷ os) o e live =
    elim (Bool-cases (x.task_id == k && str_eq x.event_type ingestion_event)) [
      | inl g ↦
          let same : o ≡ x = cc (rw g at e) in
          let waits = live_status x.status (
            subst
              (λ (y : TaskOutbox).
                (status_eq y.status published || status_eq y.status dead) ≡ false)
              same live) in
          or-left (is_active_event k x) (any (is_active_event k) os) (ground (arith, g, waits))
      | inr g ↦
          or-right (is_active_event k x) (any (is_active_event k) os)
            (lookup-active k os o (rw g at e) live)
    ]

-- The replay of the event that a lookup finds is made, and the event is active then.
module _ (k now : ℕ) (reset : Bool) (o : TaskOutbox) where
  abbrev guard : TaskOutbox → Bool
  guard r = by_id o.id (replay_guard o.status o.attempt_count) r

  abbrev assign : TaskOutbox → TaskOutbox
  assign r = replay_assign now reset r

  guard_self : guard o ≡ true
  unfolding replay_guard
  guard_self = ground (arith, status_eq_same o.status)

  assign-active :
      (r : TaskOutbox)
      → (r.task_id == k && str_eq r.event_type ingestion_event) ≡ true
      → is_active_event k (assign r) ≡ true
  unfolding replay_assign
  assign-active r g = ground (arith, g)

  lookup-returned :
      (os : Rows) → lookup_event k os ≡ some o → is_some (returning guard assign os) ≡ true
  unfolding returning
  lookup-returned [] e = cc
  lookup-returned (x ∷ os) e = elim (Bool-cases (guard x)) [
    | inl met ↦ rw met refl
    | inr missed ↦ elim (Bool-cases (x.task_id == k && str_eq x.event_type ingestion_event)) [
      | inl g ↦
          let same : o ≡ x = cc (rw g at e) in
          let met : guard x ≡ true = subst (λ y. guard y ≡ true) same guard_self in
          ground (arith, met, missed)
      | inr g ↦ rw missed (lookup-returned os (rw g at e))
    ]
  ]

  lookup-replayed :
      (os : Rows)
      → lookup_event k os ≡ some o
      → any (is_active_event k) (update_where guard assign os) ≡ true
  unfolding update_where
  lookup-replayed [] e = cc
  lookup-replayed (x ∷ os) e =
      elim (Bool-cases (x.task_id == k && str_eq x.event_type ingestion_event)) [
        | inl g ↦
            let same : o ≡ x = cc (rw g at e) in
            let met : guard x ≡ true = subst (λ y. guard y ≡ true) same guard_self in
            rw met (
              or-left (is_active_event k (assign x))
                (any (is_active_event k) (update_where guard assign os)) (assign-active x g))
        | inr g ↦
            or-right (is_active_event k (if guard x then assign x else x))
              (any (is_active_event k) (update_where guard assign os))
              (lookup-replayed os (rw g at e))
      ]

must_replay-made :
    (db : KnowledgeDb) (o : TaskOutbox) (now : ℕ)
    → (status_eq o.status published || status_eq o.status dead) ≡ true
    → is_some (
        returning
          (by_id o.id (replay_guard o.status o.attempt_count))
          (replay_assign now true)
          db.outbox)
      ≡ true
    → must_replay db (try_prepare_replay o.id o.status o.attempt_count now true db.outbox)
      ≡ done (record db {
        outbox =
            update_where
              (by_id o.id (replay_guard o.status o.attempt_count))
              (replay_assign now true)
              db.outbox;
      })
unfolding try_prepare_replay replay_rejects execute
must_replay-made db o now settled made = rw (settled, made) refl

module _ (self : RecoveryService) (task : TaskJob) (file_id now : ℕ) (db : KnowledgeDb)
    (there : has_task task.id db ≡ true) where
  -- whatever event the task has, its outbox is prepared, and it has an active event then
  pub prepare_task_outbox-active :
      (rows : Rows) × (prepare_task_outbox self task file_id now true db
        ≡ done (record db { outbox = rows }))
      × (any (is_active_event task.id) rows ≡ true)
  unfolding prepare_task_outbox
  prepare_task_outbox-active = elim (Option-cases (lookup_event task.id db.outbox)) [
    | inl e ↦
        let event =
          new_event (self.fresh_outbox_id task.id) task.id ingestion_event
            (self.dispatch_payload file_id task.id) now in
        (
          event ∷ db.outbox,
          unfold get_for_task_event in rw e (unfold create_outbox in rw there refl),
          or-left (is_active_event task.id event) (any (is_active_event task.id) db.outbox)
              (unfold new_event in ground arith),
        )
    | inr (o, e) ↦ elim (Bool-cases (is_settled_event self o.status)) [
      | inr live ↦ (
        db.outbox,
        unfold get_for_task_event in rw (e, live) refl,
        lookup-active task.id db.outbox o e live,
      )
      | inl settled ↦ (
        update_where (guard task.id now true o) (assign task.id now true o) db.outbox,
        unfold get_for_task_event in
            rw (e, settled)
              (must_replay-made db o now settled (lookup-returned task.id now true o db.outbox e)),
        lookup-replayed task.id now true o db.outbox e,
      )
    ]
  ]
