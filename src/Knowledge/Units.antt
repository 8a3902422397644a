-- ===== src/Knowledge/Units.antt =====
-- The units of work on Knowledge files keep the agreement of files and index: those of the ingestion
-- (backend/application/knowledge/ingestion_workflow.py), of the recovery
-- (backend/services/knowledge_ingestion_recovery_service.py) and of the replay
-- (backend/application/knowledge/outbox_relay.py).
use dewflow.Base.{
  ℕ, ◌≡◌, refl, ap, sym, ◌∙◌, subst, ◌≢◌, Bool, true, false, ◌||◌, not, none, List, [], ◌∷◌, ◌++◌,
  ◌==◌, if◌then◌else◌, any, keep, All, find, Distinct, Bool-cases, inl, inr, arith,
}
use dewflow.Knowledge.Rows.{
  FileStatus, ready, file_status_eq, one_of_files, File, DocumentChunk, KnowledgeDb, file_key,
}
use dewflow.Knowledge.Files.{
  create_file, delete_file_record, try_transition_file_status, delete_chunks_for_file, add_chunks,
}
use dewflow.Knowledge.Indexed.{
  any-keep, ready_file, has_chunks, is_ready, IsIndexed, has_chunks-delete, has_chunks-transition,
  is_ready-moved, is_ready-other, is_ready-aside, is_ready-left, transition-Distinct,
}

-- A file is moved out of READY together with its chunks.
module _ (clock id : ℕ) (expected : List FileStatus) (target : FileStatus) (db : KnowledgeDb)
    (h : IsIndexed db) (to : file_status_eq target ready ≡ false) where
  abbrev withdrawn : Bool × KnowledgeDb
  withdrawn = try_transition_file_status clock id expected target (delete_chunks_for_file id db)

  withdrawn-IsIndexed_if : is_ready id withdrawn.1 ≡ false → IsIndexed withdrawn.1
  withdrawn-IsIndexed_if left = (
    transition-Distinct clock id expected target (delete_chunks_for_file id db)
        (unfold delete_chunks_for_file in h.0),
    λ k.
        let emptied =
          has_chunks-transition clock id expected target (delete_chunks_for_file id db) k
          ∙ has_chunks-delete id k db in
        elim (Bool-cases (k == id)) [
          | inl e ↦
              let same : id ≡ k = ground (arith, e) in
              let gone : (if k == id then false else has_chunks k db) ≡ false = rw e refl in
              emptied ∙ gone ∙ sym (subst (λ j. is_ready j withdrawn.1 ≡ false) same left)
          | inr e ↦
              let kept : (if k == id then false else has_chunks k db) ≡ has_chunks k db =
                rw e refl in
              emptied
              ∙ kept
              ∙ h.1 k
              ∙ sym (
                  is_ready-other clock id expected target (delete_chunks_for_file id db) k
                    (λ s. absurd (ground (arith, e, s)))
                  ∙ unfold delete_chunks_for_file in refl)
        ],
  )

  -- if the transition is made
  pub withdrawn-IsIndexed : withdrawn.0 ≡ true → IsIndexed withdrawn.1
  withdrawn-IsIndexed made = withdrawn-IsIndexed_if (
      is_ready-moved clock id expected target (delete_chunks_for_file id db)
        (unfold delete_chunks_for_file in h.0) made
      ∙ to)

  -- or if READY is one of the states that it expects
  pub withdrawn-IsIndexed_left : one_of_files expected ready ≡ true → IsIndexed withdrawn.1
  withdrawn-IsIndexed_left from =
      withdrawn-IsIndexed_if
        (is_ready-left clock id expected target (delete_chunks_for_file id db) to from)

-- A move between states that are not READY needs no change of the index.
pub moved_aside-IsIndexed :
    (clock id : ℕ) (expected : List FileStatus) (target : FileStatus) (db : KnowledgeDb)
    → IsIndexed db
    → one_of_files expected ready ≡ false
    → file_status_eq target ready ≡ false
    → IsIndexed (try_transition_file_status clock id expected target db).1
moved_aside-IsIndexed clock id expected target db h from to = (
  transition-Distinct clock id expected target db h.0,
  λ k.
      has_chunks-transition clock id expected target db k
      ∙ h.1 k
      ∙ sym (is_ready-aside clock id expected target db k from to),
)

-- A file becomes READY with the chunks that the index gets for it.
abbrev pub AreOf : ℕ → List DocumentChunk → Type 0
AreOf id cs = (any (λ c. c.file_id == id) cs ≡ true) × All (λ c. c.file_id ≡ id) cs

pub any-append :
    (k : ℕ) (cs ds : List DocumentChunk)
    → any (λ c. c.file_id == k) (cs ++ ds)
      ≡ (any (λ c. c.file_id == k) cs || any (λ c. c.file_id == k) ds)
any-append k [] ds = refl
any-append k (c ∷ cs) ds = ground (arith, any-append k cs ds)

any-others :
    (k id : ℕ) (cs : List DocumentChunk)
    → All (λ c. c.file_id ≡ id) cs
    → k ≢ id
    → any (λ c. c.file_id == k) cs ≡ false
any-others k id [] h other = refl
any-others k id (c ∷ cs) h other = ground (arith, h.0, other, any-others k id cs h.1 other)

pub published-IsIndexed :
    (clock id : ℕ) (expected : List FileStatus) (records : List DocumentChunk) (db : KnowledgeDb)
    → IsIndexed db
    → AreOf id records
    → let out =
        try_transition_file_status clock id expected ready
          (add_chunks records (delete_chunks_for_file id db)) in
      out.0 ≡ true → IsIndexed out.1
unfolding add_chunks
published-IsIndexed clock id expected records db h of made =
    let full = add_chunks records (delete_chunks_for_file id db) in
    let distinct : Distinct file_key full.files = unfold delete_chunks_for_file in h.0 in
    (
      transition-Distinct clock id expected ready full distinct,
      λ k.
          let held =
            has_chunks-transition clock id expected ready full k
            ∙ any-append k records (delete_chunks_for_file id db).chunks in
          elim (Bool-cases (k == id)) [
            | inl e ↦
                let same : id ≡ k = ground (arith, e) in
                let filled : any (λ c. c.file_id == k) records ≡ true =
                  subst (λ j. any (λ c. c.file_id == j) records ≡ true) same of.0 in
                held
                ∙ rw filled refl
                ∙ sym (
                    subst
                      (λ j.
                        is_ready j (try_transition_file_status clock id expected ready full).1
                        ≡ true)
                      same (is_ready-moved clock id expected ready full distinct made))
            | inr e ↦
                let other : k ≢ id = λ s. absurd (ground (arith, e, s)) in
                let none_of : any (λ c. c.file_id == k) records ≡ false =
                  any-others k id records of.1 other in
                let stays : is_ready k full ≡ is_ready k db =
                  unfold delete_chunks_for_file in refl in
                let left : has_chunks k (delete_chunks_for_file id db) ≡ has_chunks k db =
                  has_chunks-delete id k db ∙ rw e refl in
                held
                ∙ rw none_of left
                ∙ h.1 k
                ∙ sym (is_ready-other clock id expected ready full k other ∙ stays)
          ],
    )

pub create_file-IsIndexed :
    (file : File) (db : KnowledgeDb)
    → IsIndexed db
    → find file_key file.id db.files ≡ none
    → IsIndexed (create_file file db)
unfolding create_file find
create_file-IsIndexed file db h new = (
  (new, h.0),
  λ k. elim (Bool-cases (file.id == k)) [
    | inl e ↦
        let same : file.id ≡ k = ground (arith, e) in
        rw e (h.1 k ∙ ap ready_file (subst (λ j. find file_key j db.files ≡ none) same new))
    | inr e ↦ rw e (h.1 k)
  ],
)

find-keep_same :
    (id : ℕ) (fs : List File) → find file_key id (keep (λ f. not (f.id == id)) fs) ≡ none
unfolding find
find-keep_same id [] = refl
find-keep_same id (f ∷ fs) = ground (arith, find-keep_same id fs)

find-keep_other :
    (id k : ℕ) (fs : List File)
    → k ≢ id
    → find file_key k (keep (λ f. not (f.id == id)) fs) ≡ find file_key k fs
unfolding find
find-keep_other id k [] other = refl
find-keep_other id k (f ∷ fs) other = ground (arith, find-keep_other id k fs other)

keep-Distinct :
    (id : ℕ) (fs : List File)
    → Distinct file_key fs
    → Distinct file_key (keep (λ f. not (f.id == id)) fs)
keep-Distinct id [] d = tt
keep-Distinct id (f ∷ fs) d = elim (Bool-cases (f.id == id)) [
  | inl e ↦ rw e (keep-Distinct id fs d.1)
  | inr e ↦ rw e (
    find-keep_other id f.id fs (λ s. absurd (ground (arith, e, s))) ∙ d.0,
    keep-Distinct id fs d.1,
  )
]

pub delete_file_record-IsIndexed :
    (file_id : ℕ) (db : KnowledgeDb) → IsIndexed db → IsIndexed (delete_file_record file_id db)
unfolding delete_file_record
delete_file_record-IsIndexed file_id db h = (
  keep-Distinct file_id db.files h.0,
  λ k. elim (Bool-cases (k == file_id)) [
    | inl e ↦
        let same : file_id ≡ k = ground (arith, e) in
        any-keep file_id k db.chunks
        ∙ rw e refl
        ∙ sym (
            ap ready_file (
              subst (λ j. find file_key j (keep (λ f. not (f.id == file_id)) db.files) ≡ none) same
                (find-keep_same file_id db.files)))
    | inr e ↦
        any-keep file_id k db.chunks
        ∙ rw e (h.1 k)
        ∙ sym (
            ap ready_file (find-keep_other file_id k db.files (λ s. absurd (ground (arith, e, s)))))
  ],
)
