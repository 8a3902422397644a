-- ===== src/Workspace/Owners.antt =====
-- Counting the owners of a workspace while a role is set, removed or added
-- (`AccessRepository` of backend/repositories/access_repo.py).
use dewflow.Base.{
  ℕ, ◌+◌, ◌≡◌, refl, sym, subst, ==_iff, Bool, true, false, not, none, some, List, [], ◌∷◌, keep,
  length, ◌==◌, find, Distinct, update_where, Bool-cases, inl, inr, arith,
}
use dewflow.Workspace.Rows.{WorkspaceRole, UserWorkspaceRole, role_key, with_role, owns}

abbrev pub one_if : Bool → ℕ
one_if true = 1
one_if false = 0

abbrev pub owners : ℕ → List UserWorkspaceRole → ℕ
owners workspace_id rs = length (keep (owns workspace_id) rs)

pub absent_set :
    (k : ℕ) (f : UserWorkspaceRole → UserWorkspaceRole) (rs : List UserWorkspaceRole)
    → find role_key k rs ≡ none
    → update_where (λ r. r.id == k) f rs ≡ rs
unfolding find update_where
absent_set k f [] e = refl
absent_set k f (x ∷ rs) e = ground (arith, absent_set k f rs)

pub absent_removed :
    (k : ℕ) (rs : List UserWorkspaceRole)
    → find role_key k rs ≡ none
    → keep (λ r. not (r.id == k)) rs ≡ rs
unfolding find
absent_removed k [] e = refl
absent_removed k (x ∷ rs) e = ground (arith, absent_removed k rs)

pub owners_cons :
    (ws : ℕ) (x : UserWorkspaceRole) (rs : List UserWorkspaceRole)
    → owners ws (x ∷ rs) ≡ one_if (owns ws x) + owners ws rs
owners_cons ws x rs = elim (Bool-cases (owns ws x)) [
  | inl e ↦ rw e (omega arith)
  | inr e ↦ rw e (omega arith)
]

-- One row is set to a role: the owners change by that row alone.
pub owners-set :
    (ws k : ℕ) (role : WorkspaceRole) (rs : List UserWorkspaceRole) (r : UserWorkspaceRole)
    → Distinct role_key rs
    → find role_key k rs ≡ some r
    → owners ws rs + one_if (owns ws (with_role role r))
      ≡ owners ws (update_where (λ x. x.id == k) (with_role role) rs) + one_if (owns ws r)
unfolding find update_where
owners-set ws k role [] r d e = cc
owners-set ws k role (x ∷ rs) r d e = elim (Bool-cases (x.id == k)) [
  | inl here ↦
      let same : x ≡ r = ground arith in
      let absent : find role_key k rs ≡ none =
        subst (λ j. find role_key j rs ≡ none) ((==_iff x.id k).0 here) d.0 in
      rw
        (
          sym same,
          here,
          absent_set k (with_role role) rs absent,
          owners_cons ws x rs,
          owners_cons ws (with_role role x) rs,
        )
        (omega arith)
  | inr there ↦
      rw
        (
          there,
          owners_cons ws x rs,
          owners_cons ws x (update_where (λ y. y.id == k) (with_role role) rs),
        )
        (omega (arith, owners-set ws k role rs r d.1 (rw there at e)))
]

pub owners-remove :
    (ws k : ℕ) (rs : List UserWorkspaceRole) (r : UserWorkspaceRole)
    → Distinct role_key rs
    → find role_key k rs ≡ some r
    → owners ws rs ≡ owners ws (keep (λ x. not (x.id == k)) rs) + one_if (owns ws r)
unfolding find
owners-remove ws k [] r d e = cc
owners-remove ws k (x ∷ rs) r d e = elim (Bool-cases (x.id == k)) [
  | inl here ↦
      let same : x ≡ r = ground arith in
      let absent : find role_key k rs ≡ none =
        subst (λ j. find role_key j rs ≡ none) ((==_iff x.id k).0 here) d.0 in
      rw (sym same, here, absent_removed k rs absent, owners_cons ws x rs) (omega arith)
  | inr there ↦
      rw (there, owners_cons ws x rs, owners_cons ws x (keep (λ y. not (y.id == k)) rs))
        (omega (arith, owners-remove ws k rs r d.1 (rw there at e)))
]

removed-absent :
    (j k : ℕ) (rs : List UserWorkspaceRole)
    → find role_key j rs ≡ none
    → find role_key j (keep (λ x. not (x.id == k)) rs) ≡ none
unfolding find
removed-absent j k [] e = refl
removed-absent j k (x ∷ rs) e = ground (arith, removed-absent j k rs)

pub removed-Distinct :
    (k : ℕ) (rs : List UserWorkspaceRole)
    → Distinct role_key rs
    → Distinct role_key (keep (λ x. not (x.id == k)) rs)
removed-Distinct k [] d = tt
removed-Distinct k (x ∷ rs) d = elim (Bool-cases (x.id == k)) [
  | inl here ↦ rw here (removed-Distinct k rs d.1)
  | inr there ↦ rw there (removed-absent x.id k rs d.0, removed-Distinct k rs d.1)
]
