-- ===== src/Knowledge/Ingested.antt =====
-- What the three units of work of an ingestion (backend/application/knowledge/ingestion_workflow.py)
-- leave: files and index agree as before.
use dewflow.Base.{
  ℕ, ◌≡◌, refl, String, Bool, true, false, Option, none, some, List, [], ◌∷◌, inl, inr, ◌⊎◌,
}
use dewflow.Knowledge.Rows.{uploaded, parsing, chunking, ready, File, KnowledgeDb, FileStatus}
use dewflow.Knowledge.Jobs.{execute, try_heartbeat_kb_ingestion_task}
use dewflow.Knowledge.Files.{
  get_file, try_transition_file_status, delete_chunks_for_file, add_chunks,
}
use dewflow.Knowledge.Index.{
  Result, ok, err, ◌>>=◌, IndexChunk, prepare_chunk_records, replace_file_chunks, Failure,
}
use dewflow.Knowledge.Ingestion.{
  Ticket, IngestionWorkflow, active_as, attempt_is_active, check, rolled_back, opened, not_opened,
  open_file, load_file, index_chunks, cleanup_failed_ingestion, clean,
}
use dewflow.Knowledge.Indexed.{IsIndexed}
use dewflow.Knowledge.Units.{moved_aside-IsIndexed, published-IsIndexed, withdrawn-IsIndexed_left}
use dewflow.Knowledge.Batches.{prepare_chunk_records-AreOf}

Result-cases : {A : Type 0} (r : Result A) → ((a : A) × (r ≡ ok a)) ⊎ ((e : Failure) × (r ≡ err e))
Result-cases (ok a) = inl (a, refl)
Result-cases (err e) = inr (e, refl)

-- What a block returns, if it returns.
unfoldable Returns {ℓ} : {A : Type 0} → (A → Type ℓ) → Result A → Type ℓ
Returns P (ok a) = P a
Returns P (err e) = Unit

bind-Returns {ℓ κ} :
    {A B : Type 0} (P : A → Type ℓ) (Q : B → Type κ) (r : Result A) (f : A → Result B)
    → Returns P r
    → ((a : A) → P a → Returns Q (f a))
    → Returns Q (r >>= f)
unfolding Returns
bind-Returns P Q (ok a) f h k = k a h
bind-Returns P Q (err e) f h k = tt

check-Returns {ℓ} :
    (P : KnowledgeDb → Type ℓ) (code : String) (out : Bool × KnowledgeDb)
    → (out.0 ≡ true → P out.1)
    → Returns P (check code out)
unfolding Returns
check-Returns P code (true, db) h = h refl
check-Returns P code (false, db) h = tt

module _ (self : IngestionWorkflow) (ticket : Ticket) (file_id : ℕ) where
  rolled_back-keeps {ℓ} :
      {A : Type 0} (P : KnowledgeDb → Type ℓ) (before : KnowledgeDb) (r : Result (A × KnowledgeDb))
      → P before
      → Returns (λ (out : A × KnowledgeDb). P out.1) r
      → P (rolled_back self ticket file_id before r).1
  unfolding Returns
  rolled_back-keeps P before (ok (a, after)) h k = k
  rolled_back-keeps P before (err e) h k = h

  active_as-IsIndexed :
      (task attempt : Option ℕ) (now : ℕ) (db : KnowledgeDb)
      → IsIndexed db
      → IsIndexed (active_as self task attempt now db).1
  unfolding try_heartbeat_kb_ingestion_task execute
  active_as-IsIndexed none none now db h = h
  active_as-IsIndexed none (some a) now db h = h
  active_as-IsIndexed (some t) none now db h = h
  active_as-IsIndexed (some t) (some a) now db h = h

  attempt_is_active-IsIndexed :
      (now : ℕ) (db : KnowledgeDb)
      → IsIndexed db
      → IsIndexed (attempt_is_active self ticket file_id now db).1
  unfolding attempt_is_active
  attempt_is_active-IsIndexed now db h =
      active_as-IsIndexed ticket.task_id ticket.expected_attempt now db h

  abbrev KeptBy : {A : Type 0} → Result (A × KnowledgeDb) → Type 0
  KeptBy {A = A} r = Returns (λ (out : A × KnowledgeDb). IsIndexed out.1) r

  opened-Returns :
      (f : Option File) (db : KnowledgeDb) → IsIndexed db → KeptBy (opened self ticket file_id f db)
  unfolding Returns
  opened-Returns none db h = tt
  opened-Returns (some f) db h = h

  not_opened-Returns : (f : Option File) → KeptBy (not_opened self ticket file_id f)
  unfolding Returns
  not_opened-Returns none = tt
  not_opened-Returns (some f) = tt

  open_file-Returns :
      (out : Bool × KnowledgeDb) → IsIndexed out.1 → KeptBy (open_file self ticket file_id out)
  open_file-Returns (true, db) h = opened-Returns (get_file file_id db) db h
  open_file-Returns (false, db) h = not_opened-Returns (get_file file_id db)

  pub load_file-IsIndexed :
      (now : ℕ) (db : KnowledgeDb)
      → IsIndexed db
      → IsIndexed (load_file self ticket file_id now db).1
  unfolding load_file
  load_file-IsIndexed now db h =
      let active = attempt_is_active self ticket file_id now db in
      let opening : KnowledgeDb → Result (File × KnowledgeDb) = λ a.
        open_file self ticket file_id
          (try_transition_file_status now file_id (uploaded ∷ []) parsing a) in
      rolled_back-keeps IsIndexed db (check "KNOWLEDGE_TASK_LEASE_LOST" active >>= opening) h (
        bind-Returns IsIndexed (λ (out : File × KnowledgeDb). IsIndexed out.1)
          (check "KNOWLEDGE_TASK_LEASE_LOST" active) opening
          (check-Returns IsIndexed "KNOWLEDGE_TASK_LEASE_LOST" active
            (λ made. attempt_is_active-IsIndexed now db h))
          (λ a k.
            open_file-Returns (try_transition_file_status now file_id (uploaded ∷ []) parsing a)
              (moved_aside-IsIndexed now file_id (uploaded ∷ []) parsing a k refl refl)))

  abbrev finished : KnowledgeDb → Result (Unit {0} × KnowledgeDb)
  finished d = ok (tt, d)

  abbrev publish : ℕ → KnowledgeDb → Result (Unit {0} × KnowledgeDb)
  publish now c =
      check "KNOWLEDGE_FILE_NOT_CHUNKING"
        (try_transition_file_status now file_id (chunking ∷ []) ready c)
      >>= finished

  -- the chunks go in and the file becomes READY, or nothing is committed
  publish-Returns :
      (now : ℕ) (c : IndexChunk) (cs : List IndexChunk) (db : KnowledgeDb)
      → IsIndexed db
      → KeptBy (replace_file_chunks self.index file_id (c ∷ cs) db >>= publish now)
  unfolding replace_file_chunks
  publish-Returns now c cs db h =
      elim (Result-cases (prepare_chunk_records self.index file_id (c ∷ cs))) [
        | inr (e, g) ↦ rw g (unfold Returns in tt)
        | inl (rs, g) ↦
            let full = add_chunks rs (delete_chunks_for_file file_id db) in
            let out = try_transition_file_status now file_id (chunking ∷ []) ready full in
            rw g (
              bind-Returns IsIndexed (λ (r : Unit {0} × KnowledgeDb). IsIndexed r.1)
                (check "KNOWLEDGE_FILE_NOT_CHUNKING" out) finished
                (check-Returns IsIndexed "KNOWLEDGE_FILE_NOT_CHUNKING" out (
                  published-IsIndexed now file_id (chunking ∷ []) rs db h
                    (prepare_chunk_records-AreOf self.index file_id c cs rs g)))
                (λ d k. unfold Returns in k))
      ]

  pub index_chunks-IsIndexed :
      (now : ℕ) (c : IndexChunk) (cs : List IndexChunk) (db : KnowledgeDb)
      → IsIndexed db
      → IsIndexed (index_chunks self ticket file_id now (c ∷ cs) db).1
  unfolding index_chunks
  index_chunks-IsIndexed now c cs db h =
      let active = attempt_is_active self ticket file_id now db in
      let moved : KnowledgeDb → Bool × KnowledgeDb =
        λ a. try_transition_file_status now file_id (parsing ∷ []) chunking a in
      let store : KnowledgeDb → Result (Unit {0} × KnowledgeDb) =
        λ b. replace_file_chunks self.index file_id (c ∷ cs) b >>= publish now in
      let move : KnowledgeDb → Result (Unit {0} × KnowledgeDb) =
        λ a. check "KNOWLEDGE_FILE_NOT_PARSING" (moved a) >>= store in
      rolled_back-keeps IsIndexed db (check "KNOWLEDGE_TASK_LEASE_LOST" active >>= move) h (
        bind-Returns IsIndexed (λ (r : Unit {0} × KnowledgeDb). IsIndexed r.1)
          (check "KNOWLEDGE_TASK_LEASE_LOST" active) move
          (check-Returns IsIndexed "KNOWLEDGE_TASK_LEASE_LOST" active
            (λ made. attempt_is_active-IsIndexed now db h))
          (λ a k.
            bind-Returns IsIndexed (λ (r : Unit {0} × KnowledgeDb). IsIndexed r.1)
              (check "KNOWLEDGE_FILE_NOT_PARSING" (moved a)) store
              (check-Returns IsIndexed "KNOWLEDGE_FILE_NOT_PARSING" (moved a)
                (λ made. moved_aside-IsIndexed now file_id (parsing ∷ []) chunking a k refl refl))
              (publish-Returns now c cs)))

  clean-IsIndexed :
      (now : ℕ) (active : Bool × KnowledgeDb)
      → IsIndexed active.1
      → IsIndexed (clean self ticket file_id now active)
  clean-IsIndexed now (true, db) h =
      withdrawn-IsIndexed_left now file_id (uploaded ∷ parsing ∷ chunking ∷ ready ∷ [])
        FileStatus.failed db h refl refl
  clean-IsIndexed now (false, db) h = h

  pub cleanup_failed_ingestion-IsIndexed :
      (now : ℕ) (db : KnowledgeDb)
      → IsIndexed db
      → IsIndexed (cleanup_failed_ingestion self ticket file_id now db)
  unfolding cleanup_failed_ingestion
  cleanup_failed_ingestion-IsIndexed now db h =
      clean-IsIndexed now (attempt_is_active self ticket file_id now db)
        (attempt_is_active-IsIndexed now db h)
