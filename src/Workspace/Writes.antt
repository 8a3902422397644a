-- ===== src/Workspace/Writes.antt =====
-- What a write of `AccessRepository` (backend/repositories/access_repo.py) does to the owners of
-- every workspace, after the checks that `WorkspaceService` (backend/services/workspace_service.py) makes.
use dewflow.Base.{
  ℕ, ◌+◌, ◌≤◌, ◌≡◌, refl, sym, subst, String, Bool, true, false, not, Option, none, some, List, ◌∷◌,
  keep, ◌==◌, find, Distinct, Distinct-found, update_where, update_where-Distinct, Bool-cases,
  Option-cases, inl, inr, arith, All, All-imp, All-update_where,
}
use dewflow.Workspace.Rows.{
  WorkspaceRole, Workspace, UserWorkspaceRole, User, AccessDb, Result, done, raised, ◌>>=◌,
  is_owner, role_key, member_is, get_workspace_member, create_workspace_row, WorkspaceUpdate,
  updated, update_workspace_row, add_workspace_role, update_workspace_role, remove_role, owns,
  with_role, count_workspace_owners, integrity_error,
}
use dewflow.Workspace.Service.{
  NewIds, new_workspace, owner_role, is_owner_role, ensure_not_removing_last_owner,
  get_member_or_404, slug_error,
}
use dewflow.Workspace.Owners.{
  one_if, owners, owners_cons, owners-set, owners-remove, removed-Distinct,
}
use dewflow.Workspace.History.{first-All, IsOwned}

-- The member that is read is the row of its id, and one of the workspace.
pub member_found :
    (uid ws : ℕ) (db : AccessDb) (r : UserWorkspaceRole)
    → Distinct role_key db.roles
    → get_member_or_404 uid ws db ≡ done r
    → (find role_key r.id db.roles ≡ some r) × (member_is uid ws r ≡ true)
unfolding get_member_or_404 get_workspace_member
member_found uid ws db r d e =
    first-All (λ x. find role_key x.id db.roles ≡ some x) (member_is uid ws) db.roles r
      (Distinct-found role_key db.roles d) (ground arith)

two_left :
    (ws : ℕ) (role : WorkspaceRole) (next : Option WorkspaceRole) (db : AccessDb)
    → ensure_not_removing_last_owner ws role next db ≡ done tt
    → is_owner role ≡ true
    → is_owner_role next ≡ false
    → 2 ≤ owners ws db.roles
unfolding ensure_not_removing_last_owner count_workspace_owners
two_left ws role next db e o n = ground arith

-- The owners of one workspace when the role of another or the same one is set.
set_step :
    (ws w before after : ℕ) (uid : ℕ) (role : WorkspaceRole) (r : UserWorkspaceRole)
    → member_is uid ws r ≡ true
    → (is_owner r.role ≡ true → is_owner role ≡ false → w ≡ ws → 2 ≤ before)
    → before + one_if (owns w (with_role role r)) ≡ after + one_if (owns w r)
    → 1 ≤ before
    → 1 ≤ after
set_step ws w before after uid role r m two e one = elim (Bool-cases (is_owner r.role)) [
  | inl o ↦ elim (Bool-cases (is_owner role)) [ inl o2 ↦ ground arith | inr o2 ↦ ground arith ]
  | inr o ↦ ground arith
]

pub set-IsOwned :
    (uid ws : ℕ) (r : UserWorkspaceRole) (role : WorkspaceRole) (db : AccessDb)
    → get_member_or_404 uid ws db ≡ done r
    → ensure_not_removing_last_owner ws r.role (some role) db ≡ done tt
    → IsOwned db
    → IsOwned (update_workspace_role r role db)
unfolding IsOwned update_workspace_role
set-IsOwned uid ws r role db m g h =
    let here = member_found uid ws db r h.1 m in
    (
      All-imp (λ w. 1 ≤ owners w.id db.roles)
          (λ w. 1 ≤ owners w.id (update_where (λ x. x.id == r.id) (with_role role) db.roles))
          (λ w.
            set_step ws w.id (owners w.id db.roles)
              (owners w.id (update_where (λ x. x.id == r.id) (with_role role) db.roles)) uid role r
              here.1
              (λ o n e.
                subst (λ j. 2 ≤ owners j db.roles) (sym e)
                  (two_left ws r.role (some role) db g o n))
              (owners-set w.id r.id role db.roles r h.1 here.0))
          db.workspaces h.0,
      update_where-Distinct role_key (λ x. x.id == r.id) (with_role role) (λ x. refl) db.roles h.1,
    )

remove_step :
    (ws w before after : ℕ) (uid : ℕ) (r : UserWorkspaceRole)
    → member_is uid ws r ≡ true
    → (is_owner r.role ≡ true → w ≡ ws → 2 ≤ before)
    → before ≡ after + one_if (owns w r)
    → 1 ≤ before
    → 1 ≤ after
remove_step ws w before after uid r m two e one = elim (Bool-cases (is_owner r.role)) [
  | inl o ↦ ground arith
  | inr o ↦ ground arith
]

pub remove-IsOwned :
    (uid ws : ℕ) (r : UserWorkspaceRole) (db : AccessDb)
    → get_member_or_404 uid ws db ≡ done r
    → ensure_not_removing_last_owner ws r.role none db ≡ done tt
    → IsOwned db
    → IsOwned (remove_role r db)
unfolding IsOwned remove_role
remove-IsOwned uid ws r db m g h =
    let here = member_found uid ws db r h.1 m in
    (
      All-imp (λ w. 1 ≤ owners w.id db.roles)
          (λ w. 1 ≤ owners w.id (keep (λ x. not (x.id == r.id)) db.roles))
          (λ w.
            remove_step ws w.id (owners w.id db.roles)
              (owners w.id (keep (λ x. not (x.id == r.id)) db.roles)) uid r here.1
              (λ o e.
                subst (λ j. 2 ≤ owners j db.roles) (sym e) (two_left ws r.role none db g o refl))
              (owners-remove w.id r.id db.roles r h.1 here.0))
          db.workspaces h.0,
      removed-Distinct r.id db.roles h.1,
    )

-- One more role takes no owner away.
one_more :
    (new : UserWorkspaceRole) (roles : List UserWorkspaceRole) (workspaces : List Workspace)
    → All (λ w. 1 ≤ owners w.id roles) workspaces
    → All (λ w. 1 ≤ owners w.id (new ∷ roles)) workspaces
one_more new roles =
    All-imp (λ w. 1 ≤ owners w.id roles) (λ w. 1 ≤ owners w.id (new ∷ roles))
      (λ w h. omega (arith, owners_cons w.id new roles))

pub free_id :
    (new : UserWorkspaceRole) (db after : AccessDb)
    → add_workspace_role new db ≡ done after
    → (find role_key new.id db.roles ≡ none) × (after ≡ record db { roles = new ∷ db.roles })
unfolding add_workspace_role
free_id new db after e = elim (Option-cases (find role_key new.id db.roles)) [
  | inl free ↦ (free, ground arith)
  | inr (r, taken) ↦ ground arith
]

pub add-IsOwned :
    (new : UserWorkspaceRole) (db after : AccessDb)
    → add_workspace_role new db ≡ done after
    → IsOwned db
    → IsOwned after
unfolding IsOwned
add-IsOwned new db after e h =
    let f = free_id new db after e in
    subst IsOwned (sym f.1) (one_more new db.roles db.workspaces h.0, (f.0, h.1))

first_owner :
    (ids : NewIds) (user : User) (roles : List UserWorkspaceRole)
    → 1 ≤ owners ids.workspace_id (owner_role ids user ∷ roles)
first_owner ids user roles =
    let mine : owns ids.workspace_id (owner_role ids user) ≡ true = ground arith in
    rw (owners_cons ids.workspace_id (owner_role ids user) roles, mine) (omega arith)

pub create-IsOwned :
    (ids : NewIds) (user : User) (name slug : String) (db between after : AccessDb)
    → create_workspace_row (new_workspace ids user name slug) db ≡ done between
    → add_workspace_role (owner_role ids user) between ≡ done after
    → IsOwned db
    → IsOwned after
unfolding IsOwned create_workspace_row
create-IsOwned ids user name slug db between after c a h =
    let made : between
        ≡ record db { workspaces = new_workspace ids user name slug ∷ db.workspaces } =
      ground arith in
    let f = free_id (owner_role ids user) between after a in
    rw (f.1, made)
      (
        (first_owner ids user db.roles, one_more (owner_role ids user) db.roles db.workspaces h.0),
        (rw made at f.0, h.1),
      )

pub rewrite-IsOwned :
    (guard : Workspace → Bool) (assign : Workspace → Workspace) (db : AccessDb)
    → ((w : Workspace) → (assign w).id ≡ w.id)
    → IsOwned db
    → IsOwned (record db { workspaces = update_where guard assign db.workspaces })
unfolding IsOwned
rewrite-IsOwned guard assign db keeps h = (
  All-update_where guard assign (λ w. 1 ≤ owners w.id db.roles)
      (λ w one g. subst (λ j. 1 ≤ owners j db.roles) (sym (keeps w)) one) db.workspaces h.0,
  h.1,
)

pub slug_error-done : {A : Type 0} (w : Result A) (a : A) → slug_error w ≡ done a → w ≡ done a
slug_error-done (done b) a e = e
slug_error-done (raised integrity_error) a e = cc
slug_error-done (raised _) a e = cc

pub bind-done :
    {A B : Type 0} (w : Result A) (f : A → Result B) (b : B)
    → w >>= f ≡ done b
    → (a : A) × (w ≡ done a) × (f a ≡ done b)
bind-done (done a) f b h = (a, refl, h)
bind-done (raised e) f b h = cc

pub update_row-IsOwned :
    (w : Workspace) (obj_in : WorkspaceUpdate) (db after : AccessDb)
    → update_workspace_row w obj_in db ≡ done after
    → IsOwned db
    → IsOwned after
unfolding update_workspace_row
update_row-IsOwned w obj_in db after e h =
    let made : after ≡ record db {
      workspaces = update_where (λ x. x.id == w.id) (updated obj_in) db.workspaces;
    } =
      ground arith in
    subst IsOwned (sym made) (rewrite-IsOwned (λ x. x.id == w.id) (updated obj_in) db (λ x. refl) h)
