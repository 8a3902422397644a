-- ===== src/Base/Table.antt =====
-- A database table as the list of its rows, and the statement `UPDATE … SET … WHERE … RETURNING`
-- on it: every row that meets the condition is rewritten.
use Prim.Native.Nat.{ℕ}
use mathlib.Core.Path.{◌≡◌, refl, ap, subst}
use mathlib.Core.Logic.{◌≢◌, inl, inr}
use mathlib.Core.Bool.{Bool, true, false, not, ◌&&◌}
use mathlib.Core.Option.{Option, none, some}
use mathlib.Core.List.{List, [], ◌∷◌}
use native.Mathlib.Omega.{arith}
use dewflow.Base.Tests.{◌==◌, if◌then◌else◌, Bool-cases, Option-cases, is_some}
use dewflow.Base.Lists.{All, All-imp}

module _ {ℓ} {A : Type ℓ} where
  unfoldable pub update_where : (A → Bool) → (A → A) → List A → List A
  update_where guard assign [] = []
  update_where guard assign (r ∷ rs) =
      (if guard r then assign r else r) ∷ update_where guard assign rs

  -- `scalar_one_or_none` of the rows returned; a condition on the primary key meets one at most
  unfoldable pub returning : (A → Bool) → (A → A) → List A → Option A
  returning guard assign [] = none
  returning guard assign (r ∷ rs) = if guard r then some (assign r) else returning guard assign rs

  -- The first row with a given key.
  unfoldable pub find : (A → ℕ) → ℕ → List A → Option A
  find key k [] = none
  find key k (r ∷ rs) = if key r == k then some r else find key k rs

  -- No key stands twice.
  abbrev pub Distinct : (A → ℕ) → List A → Type ℓ
  Distinct key [] = Unit
  Distinct key (r ∷ rs) = (find key (key r) rs ≡ none) × Distinct key rs

module _ {ℓ} {A : Type ℓ} (guard : A → Bool) (assign : A → A) where
  -- What the assignment keeps on the rows that it touches, the statement keeps on the table.
  pub All-update_where {κ} :
      (P : A → Type κ)
      → ((r : A) → P r → guard r ≡ true → P (assign r))
      → (rs : List A) → All P rs
      → All P (update_where guard assign rs)
  unfolding update_where
  All-update_where P keep [] h = h
  All-update_where P keep (r ∷ rs) h = elim (Bool-cases (guard r)) [
    | inl e ↦ (rw e (keep r h.0 e), All-update_where P keep rs h.1)
    | inr e ↦ (rw e h.0, All-update_where P keep rs h.1)
  ]

  -- A row that is returned is the assignment of one that met the condition.
  pub returning-some {κ} :
      (P : A → Type κ) (rs : List A) (u : A)
      → All P rs
      → returning guard assign rs ≡ some u
      → (r : A) × P r × (guard r ≡ true) × (u ≡ assign r)
  unfolding returning
  returning-some P [] u h e = cc
  returning-some P (r ∷ rs) u h e = elim (Bool-cases (guard r)) [
    | inl g ↦ (r, h.0, g, ground arith)
    | inr g ↦ returning-some P rs u h.1 (rw g at e)
  ]

  -- Where no row meets the condition nothing changes.
  pub update_where-none :
      (rs : List A) → returning guard assign rs ≡ none → update_where guard assign rs ≡ rs
  unfolding update_where returning
  update_where-none [] e = refl
  update_where-none (r ∷ rs) e = ground (arith, update_where-none rs)

module _ {ℓ} {A : Type ℓ} (key : A → ℕ) (guard : A → Bool) (assign : A → A) (k : ℕ)
    (names : (r : A) → guard r ≡ true → key r ≡ k) (keeps : (r : A) → key (assign r) ≡ key r) where
  -- Rows under other keys stay.
  pub find-update_where_ne :
      (j : ℕ) (rs : List A) → j ≢ k → find key j (update_where guard assign rs) ≡ find key j rs
  unfolding find update_where
  find-update_where_ne j [] ne = refl
  find-update_where_ne j (r ∷ rs) ne =
      ground (arith, find-update_where_ne j rs ne, names r, keeps r)

  returning_absent : (rs : List A) → find key k rs ≡ none → returning guard assign rs ≡ none
  unfolding find returning
  returning_absent [] e = refl
  returning_absent (r ∷ rs) e = ground (arith, returning_absent rs, names r)

  -- The statement returns the row of its key, rewritten, exactly if that row meets the condition.
  pub returning_found :
      (r : A) (rs : List A)
      → Distinct key rs
      → find key k rs ≡ some r
      → returning guard assign rs ≡ (if guard r then some (assign r) else none)
  unfolding find returning
  returning_found r [] d e = cc
  returning_found r (x ∷ rs) d e = elim (Bool-cases (key x == k)) [
    | inl here ↦ ground (arith, returning_absent rs)
    | inr there ↦ ground (arith, returning_found r rs d.1, names x)
  ]

  pub returning_hit :
      (rs : List A)
      → Distinct key rs
      → is_some (returning guard assign rs) ≡ true
      → (r : A) × (find key k rs ≡ some r) × (guard r ≡ true)
  returning_hit rs d h = elim (Option-cases (find key k rs)) [
    | inl absent ↦ absurd (cc (returning_absent rs absent))
    | inr (r, e) ↦ (r, e, ground (arith, returning_found r rs d e))
  ]

module _ {ℓ} {A : Type ℓ} (key : A → ℕ) (guard : A → Bool) (assign : A → A)
    (keeps : (r : A) → key (assign r) ≡ key r) where
  -- Under an assignment that keeps the key, the row of a key is the old row, rewritten or not.
  pub find-update_where :
      (k : ℕ) (rs : List A) (r : A)
      → find key k rs ≡ some r
      → find key k (update_where guard assign rs) ≡ some (if guard r then assign r else r)
  unfolding find update_where
  find-update_where k [] r e = cc
  find-update_where k (x ∷ rs) r e = ground (arith, find-update_where k rs r, keeps x)

  pub find-update_where_absent :
      (k : ℕ) (rs : List A)
      → find key k rs ≡ none
      → find key k (update_where guard assign rs) ≡ none
  unfolding find update_where
  find-update_where_absent k [] e = refl
  find-update_where_absent k (x ∷ rs) e = ground (arith, find-update_where_absent k rs, keeps x)

  pub update_where-Distinct :
      (rs : List A) → Distinct key rs → Distinct key (update_where guard assign rs)
  unfolding update_where
  update_where-Distinct [] d = tt
  update_where-Distinct (x ∷ rs) d = elim (Bool-cases (guard x)) [
    | inl e ↦
        (rw (e, keeps x) (find-update_where_absent (key x) rs d.0), update_where-Distinct rs d.1)
    | inr e ↦ (rw e (find-update_where_absent (key x) rs d.0), update_where-Distinct rs d.1)
  ]

-- A statement that is not sent where `b` holds is one whose condition fails on every row.
pub update_where_unless {ℓ} :
    {A : Type ℓ} (b : Bool) (guard : A → Bool) (assign : A → A) (rs : List A)
    → (if b then rs else update_where guard assign rs)
      ≡ update_where (λ r. not b && guard r) assign rs
unfolding update_where
update_where_unless true guard assign [] = refl
update_where_unless true guard assign (r ∷ rs) =
    ap (◌∷◌ r) (update_where_unless true guard assign rs)
update_where_unless false guard assign rs = refl

-- A property of every row holds of the row that is found.
pub All-find {ℓ κ} :
    {A : Type ℓ} (P : A → Type κ) (key : A → ℕ) (k : ℕ) (rs : List A) (r : A)
    → All P rs
    → find key k rs ≡ some r
    → P r
unfolding find
All-find P key k [] r h e = cc
All-find P key k (x ∷ rs) r h e = elim (Bool-cases (key x == k)) [
  | inl here ↦ let same : x ≡ r = ground arith in subst P same h.0
  | inr there ↦ All-find P key k rs r h.1 (rw there at e)
]

pub find-key {ℓ} :
    {A : Type ℓ} (key : A → ℕ) (k : ℕ) (rs : List A) (r : A) → find key k rs ≡ some r → key r ≡ k
unfolding find
find-key key k [] r e = cc
find-key key k (x ∷ rs) r e = ground (arith, find-key key k rs r)

-- In a table of distinct keys every row is the one that its key finds.
pub Distinct-found {ℓ} :
    {A : Type ℓ} (key : A → ℕ) (rs : List A)
    → Distinct key rs
    → All (λ r. find key (key r) rs ≡ some r) rs
unfolding find
Distinct-found key [] d = tt
Distinct-found key (x ∷ rs) d = (
  ground arith,
  All-imp (λ r. find key (key r) rs ≡ some r) (λ r. find key (key r) (x ∷ rs) ≡ some r)
      (λ r e. ground arith) rs (Distinct-found key rs d.1),
)

-- A statement on rows that are known to be in the table: what it makes of each is what counts.
pub All-update_where_if {ℓ κ} :
    {A : Type ℓ} (guard : A → Bool) (assign : A → A) (P Q : A → Type κ)
    → ((r : A) → P r → Q (if guard r then assign r else r))
    → (rs : List A) → All P rs
    → All Q (update_where guard assign rs)
unfolding update_where
All-update_where_if guard assign P Q step [] h = tt
All-update_where_if guard assign P Q step (r ∷ rs) h =
    (step r h.0, All-update_where_if guard assign P Q step rs h.1)
