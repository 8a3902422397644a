-- ===== src/Workspace/History.antt =====
-- Histories of the requests to `WorkspaceService` (backend/services/workspace_service.py), one after
-- the other, and what they keep: every workspace has an owner.
use dewflow.Base.{
  ℕ, ◌≤◌, ◌≡◌, refl, subst, String, Bool, true, some, List, [], ◌∷◌, Distinct, Bool-cases, inl, inr,
  arith, All,
}
use dewflow.Workspace.Rows.{
  WorkspaceRole, User, AccessDb, Result, done, raised, ◌>>=◌, role_key, first, WorkspaceUpdate,
}
use dewflow.Workspace.Permissions.{PermissionPolicy}
use dewflow.Workspace.Service.{NewIds, create_workspace, update_workspace, delete_workspace}
use dewflow.Workspace.Members.{
  WorkspaceMemberCreate, add_workspace_member, update_workspace_member, remove_workspace_member,
}
use dewflow.Workspace.Owners.{owners}

-- The requests that change something.
pub data Request : Type 0 where
  create : NewIds → User → String → String → Request
  update : User → ℕ → WorkspaceUpdate → Request
  delete : User → ℕ → ℕ → Request
  add_member : ℕ → User → ℕ → WorkspaceMemberCreate → Request
  update_member : User → ℕ → ℕ → WorkspaceRole → Request
  remove_member : User → ℕ → ℕ → Request

-- What is committed: the tables of the answer, or those before an exception.
unfoldable pub committed : {A : Type 0} → AccessDb → Result (A × AccessDb) → AccessDb
committed before (done (a, after)) = after
committed before (raised e) = before

unfoldable pub committed_only : AccessDb → Result AccessDb → AccessDb
committed_only before (done after) = after
committed_only before (raised e) = before

unfoldable pub serve : PermissionPolicy → Request → AccessDb → AccessDb
serve policy (create ids user name slug) db = committed db (create_workspace ids user name slug db)
serve policy (update user ws obj_in) db = committed db (update_workspace policy user ws obj_in db)
serve policy (delete user ws now) db = committed_only db (delete_workspace policy user ws now db)
serve policy (add_member id user ws member_in) db =
    committed db (add_workspace_member policy id user ws member_in db)
serve policy (update_member user ws member role) db =
    committed db (update_workspace_member policy user ws member role db)
serve policy (remove_member user ws member) db =
    committed_only db (remove_workspace_member policy user ws member db)

unfoldable pub run : PermissionPolicy → List Request → AccessDb → AccessDb
unfolding serve
run policy [] db = db
run policy (request ∷ requests) db = run policy requests (serve policy request db)

-- The answer of a call that returns.
unfoldable pub Returns {ℓ} : {A : Type 0} → (A → Type ℓ) → Result A → Type ℓ
Returns P (done a) = P a
Returns P (raised e) = Unit

pub bind-Returns {ℓ} :
    {A B : Type 0} (Q : B → Type ℓ) (w : Result A) (f : A → Result B)
    → ((a : A) → w ≡ done a → Returns Q (f a))
    → Returns Q (w >>= f)
unfolding Returns
bind-Returns Q (done a) f h = h a refl
bind-Returns Q (raised e) f h = tt

pub Returns-done {ℓ} :
    {A : Type 0} (P : A → Type ℓ) (w : Result A) (a : A) → Returns P w → w ≡ done a → P a
unfolding Returns
Returns-done P (done b) a h e = let same : b ≡ a = cc in subst P same h
Returns-done P (raised e) a h i = cc

pub done-Returns {ℓ} : {A : Type 0} (P : A → Type ℓ) (a : A) → P a → Returns P (done a)
unfolding Returns
done-Returns P a h = h

pub committed-keeps {ℓ} :
    {A : Type 0} (P : AccessDb → Type ℓ) (db : AccessDb) (w : Result (A × AccessDb))
    → P db
    → Returns (λ out. P (out.1)) w
    → P (committed db w)
unfolding Returns committed
committed-keeps P db (done (a, after)) before h = h
committed-keeps P db (raised e) before h = before

pub committed_only-keeps {ℓ} :
    (P : AccessDb → Type ℓ) (db : AccessDb) (w : Result AccessDb)
    → P db
    → Returns P w
    → P (committed_only db w)
unfolding Returns committed_only
committed_only-keeps P db (done after) before h = h
committed_only-keeps P db (raised e) before h = before

-- What the first row of a condition is.
pub first-All {ℓ κ} :
    {A : Type ℓ} (P : A → Type κ) (test : A → Bool) (xs : List A) (x : A)
    → All P xs
    → first test xs ≡ some x
    → P x × (test x ≡ true)
unfolding first
first-All P test [] x h e = cc
first-All P test (y ∷ ys) x h e = elim (Bool-cases (test y)) [
  | inl here ↦
      let same : y ≡ x = ground arith in subst (λ z. P z × (test z ≡ true)) same (h.0, here)
  | inr there ↦ first-All P test ys x h.1 (rw there at e)
]

-- Every workspace, a deleted one too, has an owner, and no two roles have one id.
unfoldable pub IsOwned : AccessDb → Type 0
IsOwned db = All (λ w. 1 ≤ owners w.id db.roles) db.workspaces × Distinct role_key db.roles
