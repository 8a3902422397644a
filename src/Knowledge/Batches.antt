-- ===== src/Knowledge/Batches.antt =====
-- The batches of `prepare_chunk_records` (backend/services/vector_index_service.py).
use dewflow.Base.{
  ℕ, zero, suc, ◌+◌, ◌≤◌, ◌≡◌, refl, ap, ◌==◌, String, true, List, [], ◌∷◌, ◌++◌, map, length, take,
  All, All-append, any, arith, subst,
}
use dewflow.Knowledge.Rows.{DocumentChunk}
use dewflow.Knowledge.Index.{
  Result, ok, err, ◌>>=◌, IndexChunk, IndexService, batch_size, drop, records_from, with_vectors,
  prepare_chunk_record_batch, prepare_batches, prepare_chunk_records,
}
use dewflow.Knowledge.Units.{AreOf, any-append}

records_from-All :
    (id start : ℕ) (cs : List IndexChunk) (vs : List ℕ)
    → All (λ c. c.file_id ≡ id) (records_from id start cs vs)
unfolding records_from
records_from-All id start [] vs = tt
records_from-All id start (c ∷ cs) [] = tt
records_from-All id start (c ∷ cs) (v ∷ vs) = (refl, records_from-All id (start + 1) cs vs)

some_record :
    (id n : ℕ) (c : IndexChunk) (cs : List IndexChunk) (vs : List ℕ)
    → 1 ≤ n
    → length vs ≡ length (take n (c ∷ cs))
    → any (λ x. x.file_id == id) (records_from id 0 (take n (c ∷ cs)) vs) ≡ true
unfolding records_from
some_record id zero c cs vs h e = absurd (omega arith)
some_record id (suc n) c cs [] h e = absurd (omega arith)
some_record id (suc n) c cs (v ∷ vs) h e = ground arith

module _ (self : IndexService) (id : ℕ) where
  batch_records :
      (start : ℕ) (cs : List IndexChunk) (rs : List DocumentChunk)
      → prepare_chunk_record_batch self id start cs ≡ ok rs
      → (vs : List ℕ) × (length vs ≡ length cs) × (rs ≡ records_from id start cs vs)
  unfolding prepare_chunk_record_batch
  batch_records start cs rs h =
      with_result (self.encode_documents (map (λ c. c.embedding_content) cs)) h
    where
      with_result :
          (out : Result (List ℕ))
          → (out >>= with_vectors self id start cs) ≡ ok rs
          → (vs : List ℕ) × (length vs ≡ length cs) × (rs ≡ records_from id start cs vs)
      with_result (err e) k = cc
      with_result (ok vs) k = (vs, ground arith, ground arith)

  batch-All :
      (start : ℕ) (cs : List IndexChunk) (rs : List DocumentChunk)
      → prepare_chunk_record_batch self id start cs ≡ ok rs
      → All (λ c. c.file_id ≡ id) rs
  batch-All start cs rs h =
      let (vs, same_length, made) = batch_records start cs rs h in
      rw made (records_from-All id start cs vs)

  -- The parts of a batch loop that succeeds.
  batches_parts :
      (fuel start : ℕ) (c : IndexChunk) (cs : List IndexChunk) (rs : List DocumentChunk)
      → prepare_batches self id (suc fuel) start (c ∷ cs) ≡ ok rs
      → (batch rest : List DocumentChunk) × (prepare_chunk_record_batch self id start
            (take (batch_size self) (c ∷ cs))
          ≡ ok batch)
        × (prepare_batches self id fuel (start + batch_size self) (drop (batch_size self) (c ∷ cs))
            ≡ ok rest)
        × (rs ≡ batch ++ rest)
  unfolding prepare_batches
  batches_parts fuel start c cs rs h =
      split (prepare_chunk_record_batch self id start (take (batch_size self) (c ∷ cs)))
        (prepare_batches self id fuel (start + batch_size self) (drop (batch_size self) (c ∷ cs)))
        refl refl h
    where
      split :
          (first second : Result (List DocumentChunk))
          → prepare_chunk_record_batch self id start (take (batch_size self) (c ∷ cs)) ≡ first
          → prepare_batches self id fuel (start + batch_size self) (drop (batch_size self) (c ∷ cs))
            ≡ second
          → (first >>= λ batch. second >>= λ rest. ok (batch ++ rest)) ≡ ok rs
          → (batch rest : List DocumentChunk) × (prepare_chunk_record_batch self id start
                (take (batch_size self) (c ∷ cs))
              ≡ ok batch)
            × (prepare_batches self id fuel
                  (start + batch_size self)
                  (drop (batch_size self) (c ∷ cs))
                ≡ ok rest)
            × (rs ≡ batch ++ rest)
      split (err e) second p q k = cc
      split (ok batch) (err e) p q k = cc
      split (ok batch) (ok rest) p q k = (batch, rest, p, q, ground arith)

  batches-All :
      (fuel start : ℕ) (cs : List IndexChunk) (rs : List DocumentChunk)
      → prepare_batches self id fuel start cs ≡ ok rs
      → All (λ c. c.file_id ≡ id) rs
  batches-All fuel start [] rs h =
      let same : [] ≡ rs = unfold prepare_batches in ground arith in
      subst (All (λ c. c.file_id ≡ id)) same tt
  batches-All zero start (c ∷ cs) rs h =
      let same : [] ≡ rs = unfold prepare_batches in ground arith in
      subst (All (λ c. c.file_id ≡ id)) same tt
  batches-All (suc fuel) start (c ∷ cs) rs h =
      let (batch, rest, first, second, made) = batches_parts fuel start c cs rs h in
      rw made (
        All-append (λ x. x.file_id ≡ id) batch rest
          (batch-All start (take (batch_size self) (c ∷ cs)) batch first)
          (batches-All fuel (start + batch_size self) (drop (batch_size self) (c ∷ cs)) rest
            second))

  -- The records of a text that has chunks are some, and all of its file.
  pub prepare_chunk_records-AreOf :
      (c : IndexChunk) (cs : List IndexChunk) (rs : List DocumentChunk)
      → prepare_chunk_records self id (c ∷ cs) ≡ ok rs
      → AreOf id rs
  unfolding prepare_chunk_records
  prepare_chunk_records-AreOf c cs rs h =
      let (batch, rest, first, second, made) = batches_parts (length cs) 0 c cs rs h in
      let (vs, same_length, of) = batch_records 0 (take (batch_size self) (c ∷ cs)) batch first in
      let filled = some_record id (batch_size self) c cs vs (omega arith) same_length in
      let here : any (λ x. x.file_id == id) batch ≡ true = rw of filled in
      (
        rw (made, any-append id batch rest, here) refl,
        batches-All (suc (length cs)) 0 (c ∷ cs) rs h,
      )

-- The records without batches: the chunks numbered from 0, each with its own vector.
unfoldable pub unbatched_records : ℕ → (String → ℕ) → List IndexChunk → List DocumentChunk
unbatched_records id vector cs = records_from id 0 cs (map (λ c. vector c.embedding_content) cs)

length-drop :
    (n : ℕ) (c : IndexChunk) (cs : List IndexChunk) → 1 ≤ n → length (drop n (c ∷ cs)) ≤ length cs
length-drop zero c cs h = absurd (omega arith)
length-drop (suc zero) c cs h = omega arith
length-drop (suc (suc n)) c [] h = omega arith
length-drop (suc (suc n)) c (d ∷ ds) h = omega (arith, length-drop (suc n) d ds (omega arith))

length-map : (f : IndexChunk → ℕ) (cs : List IndexChunk) → length (map f cs) ≡ length cs
length-map f [] = refl
length-map f (c ∷ cs) = ap suc (length-map f cs)

module _ (id : ℕ) (vector : String → ℕ) where
  abbrev vector_of : IndexChunk → ℕ
  vector_of c = vector c.embedding_content

  map_twice :
      (cs : List IndexChunk) → map vector (map (λ c. c.embedding_content) cs) ≡ map vector_of cs
  map_twice [] = refl
  map_twice (c ∷ cs) = ap (◌∷◌ (vector_of c)) (map_twice cs)

  records_from-take-drop :
      (n start : ℕ) (cs : List IndexChunk)
      → records_from id start (take n cs) (map vector_of (take n cs))
          ++ records_from id (start + n) (drop n cs) (map vector_of (drop n cs))
        ≡ records_from id start cs (map vector_of cs)
  unfolding records_from
  records_from-take-drop zero start cs = let same : start + 0 ≡ start = omega arith in rw same refl
  records_from-take-drop (suc n) start [] = refl
  records_from-take-drop (suc n) start (c ∷ cs) =
      let same : start + suc n ≡ start + 1 + n = omega arith in
      let first : DocumentChunk = record {
        file_id = id;
        chunk_index = start;
        content = c.content;
        embedding = vector_of c;
      } in
      rw same (ap (◌∷◌ first) (records_from-take-drop n (start + 1) cs))

  module _ (self : IndexService)
      (pointwise : (xs : List String) → self.encode_documents xs ≡ ok (map vector xs)) where
    batch-unbatched :
        (start : ℕ) (cs : List IndexChunk)
        → prepare_chunk_record_batch self id start cs
          ≡ ok (records_from id start cs (map vector_of cs))
    unfolding prepare_chunk_record_batch
    batch-unbatched start cs =
        let fits : (length (map vector_of cs) == length cs) ≡ true =
          ground (arith, length-map vector_of cs) in
        rw (pointwise (map (λ c. c.embedding_content) cs), map_twice cs, fits) refl

    prepare_batches-unbatched :
        (fuel start : ℕ) (cs : List IndexChunk)
        → length cs ≤ fuel
        → prepare_batches self id fuel start cs ≡ ok (records_from id start cs (map vector_of cs))
    unfolding prepare_batches
    prepare_batches-unbatched fuel start [] h = unfold records_from in refl
    prepare_batches-unbatched zero start (c ∷ cs) h = absurd (omega arith)
    prepare_batches-unbatched (suc fuel) start (c ∷ cs) h =
        let n = batch_size self in
        rw
          (
            batch-unbatched start (take n (c ∷ cs)),
            prepare_batches-unbatched fuel (start + n) (drop n (c ∷ cs))
                (omega (arith, length-drop n c cs)),
          )
          (ap (λ (rs : List DocumentChunk). ok rs) (records_from-take-drop n start (c ∷ cs)))

    -- If the embedder gives each text a vector of its own, whatever else it is asked for, the batch size
    -- does not matter: the records are the chunks in their order, numbered from 0, each with its vector.
    pub prepare_chunk_records-unbatched :
        (cs : List IndexChunk)
        → prepare_chunk_records self id cs ≡ ok (unbatched_records id vector cs)
    unfolding prepare_chunk_records unbatched_records
    prepare_chunk_records-unbatched cs = prepare_batches-unbatched (length cs) 0 cs (omega arith)
