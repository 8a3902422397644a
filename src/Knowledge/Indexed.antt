-- ===== src/Knowledge/Indexed.antt =====
-- What the statements on files and chunks (backend/repositories/knowledge_repo.py) do to the agreement of
-- the two tables: a file is READY exactly while chunks of it are in the index.
use dewflow.Base.{
  ℕ, ◌≡◌, refl, ap, sym, ◌∙◌, ◌≢◌, Bool, true, false, not, Option, none, some, List, [], ◌∷◌, ◌==◌,
  if◌then◌else◌, any, keep, returning_hit, find, find-update_where, find-update_where_absent,
  find-key, Distinct, update_where-Distinct, Bool-cases, Option-cases, inl, inr, arith,
}
use dewflow.Knowledge.Rows.{
  FileStatus, uploaded, parsing, chunking, ready, file_status_eq, one_of_files, File, DocumentChunk,
  KnowledgeDb, file_key,
}
use dewflow.Knowledge.Files.{
  status_guard, status_assign, try_transition_file_status, delete_chunks_for_file,
}

abbrev pub has_chunks : ℕ → KnowledgeDb → Bool
has_chunks k db = any (λ c. c.file_id == k) db.chunks

abbrev pub ready_file : Option File → Bool
ready_file none = false
ready_file (some f) = file_status_eq f.status ready

abbrev pub is_ready : ℕ → KnowledgeDb → Bool
is_ready k db = ready_file (find file_key k db.files)

abbrev pub IsIndexed : KnowledgeDb → Type 0
IsIndexed db = Distinct file_key db.files × ((k : ℕ) → has_chunks k db ≡ is_ready k db)

pub any-keep :
    (id k : ℕ) (cs : List DocumentChunk)
    → any (λ c. c.file_id == k) (keep (λ c. not (c.file_id == id)) cs)
      ≡ (if k == id then false else any (λ c. c.file_id == k) cs)
any-keep id k [] = ground arith
any-keep id k (c ∷ cs) = ground (arith, any-keep id k cs)

pub has_chunks-delete :
    (id k : ℕ) (db : KnowledgeDb)
    → has_chunks k (delete_chunks_for_file id db) ≡ (if k == id then false else has_chunks k db)
unfolding delete_chunks_for_file
has_chunks-delete id k db = any-keep id k db.chunks

-- what a transition makes of the file that it may find
abbrev moved : ℕ → ℕ → List FileStatus → FileStatus → Option File → Option File
moved clock id expected target none = none
moved clock id expected target (some f) =
    some (if status_guard id expected f then status_assign clock target f else f)

-- A status that a list has, or has not, where it has READY the other way, is not READY.
not_ready :
    (s : FileStatus) (expected : List FileStatus) (b : Bool)
    → one_of_files expected ready ≡ not b
    → one_of_files expected s ≡ b
    → file_status_eq s ready ≡ false
not_ready uploaded expected b h g = refl
not_ready parsing expected b h g = refl
not_ready chunking expected b h g = refl
not_ready ready expected true h g = cc
not_ready ready expected false h g = cc
not_ready FileStatus.failed expected b h g = refl

module _ (clock id : ℕ) (expected : List FileStatus) (target : FileStatus) (db : KnowledgeDb) where
  abbrev pub transition : Bool × KnowledgeDb
  transition = try_transition_file_status clock id expected target db

  find-transition :
      (k : ℕ)
      → find file_key k transition.1.files
        ≡ moved clock id expected target (find file_key k db.files)
  unfolding try_transition_file_status
  find-transition k = elim (Option-cases (find file_key k db.files)) [
    | inl e ↦ rw e (
        find-update_where_absent file_key (status_guard id expected) (status_assign clock target)
          (unfold status_assign in λ f. refl) k db.files e)
    | inr (f, e) ↦ rw e (
        find-update_where file_key (status_guard id expected) (status_assign clock target)
          (unfold status_assign in λ f. refl) k db.files f e)
  ]

  pub has_chunks-transition : (k : ℕ) → has_chunks k transition.1 ≡ has_chunks k db
  unfolding try_transition_file_status
  has_chunks-transition k = refl

  pub transition-Distinct : Distinct file_key db.files → Distinct file_key transition.1.files
  unfolding try_transition_file_status
  transition-Distinct d =
      update_where-Distinct file_key (status_guard id expected) (status_assign clock target)
        (unfold status_assign in λ f. refl) db.files d

  -- a transition that reports success has moved the file of its id
  pub is_ready-moved :
      Distinct file_key db.files
      → transition.0 ≡ true
      → is_ready id transition.1 ≡ file_status_eq target ready
  unfolding try_transition_file_status status_assign
  is_ready-moved d changed =
      let keeps : (f : File) → file_key (status_assign clock target f) ≡ file_key f = λ f. refl in
      let (f, e, g) =
        returning_hit file_key (status_guard id expected) (status_assign clock target) id
          (unfold status_guard in λ f h. ground arith) keeps db.files d changed in
      ap ready_file (
        find-update_where file_key (status_guard id expected) (status_assign clock target) keeps id
          db.files f e)
      ∙ rw g refl

  -- other files keep their state
  pub is_ready-other : (k : ℕ) → k ≢ id → is_ready k transition.1 ≡ is_ready k db
  is_ready-other k other = elim (Option-cases (find file_key k db.files)) [
    | inl e ↦ rw (find-transition k, e) refl
    | inr (f, e) ↦
        let named = find-key file_key k db.files f e in
        let missed : status_guard id expected f ≡ false =
          unfold status_guard in ground (arith, named, other) in
        rw (find-transition k, e, missed) refl
  ]

  -- a transition between states that are not READY, or to none of them
  pub is_ready-aside :
      (k : ℕ)
      → one_of_files expected ready ≡ false
      → file_status_eq target ready ≡ false
      → is_ready k transition.1 ≡ is_ready k db
  is_ready-aside k from to = elim (Option-cases (find file_key k db.files)) [
    | inl e ↦ rw (find-transition k, e) refl
    | inr (f, e) ↦ elim (Bool-cases (status_guard id expected f)) [
      | inl g ↦
          let was =
            not_ready f.status expected true from (unfold status_guard in ground (arith, g)) in
          rw (find-transition k, e, g) (unfold status_assign in to ∙ sym was)
      | inr g ↦ rw (find-transition k, e, g) refl
    ]
  ]

  -- no file is READY after a transition from every other state to one that is not
  pub is_ready-left :
      file_status_eq target ready ≡ false
      → one_of_files expected ready ≡ true
      → is_ready id transition.1 ≡ false
  is_ready-left to from = elim (Option-cases (find file_key id db.files)) [
    | inl e ↦ rw (find-transition id, e) refl
    | inr (f, e) ↦
        let named = find-key file_key id db.files f e in
        elim (Bool-cases (status_guard id expected f)) [
          | inl g ↦ rw (find-transition id, e, g) (unfold status_assign in to)
          | inr g ↦
              let out : one_of_files expected f.status ≡ false =
                unfold status_guard in ground (arith, g, named) in
              rw (find-transition id, e, g) (not_ready f.status expected false from out)
        ]
  ]
