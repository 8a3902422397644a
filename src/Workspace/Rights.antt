-- ===== src/Workspace/Rights.antt =====
-- What `_ensure_owner_change_allowed` (backend/services/workspace_service.py) leaves to a user who does
-- not own a workspace, and the rows that such a change can touch.
use dewflow.Base.{
  ℕ, ◌≡◌, ◌≢◌, refl, subst, ap, ◌∙◌, String, Bool, true, false, not, ◌&&◌, Option, none, some, List,
  [], ◌∷◌, any, keep, ◌==◌, is_some, is_none, find, Distinct, update_where, Bool-cases, inl, inr,
  arith, All, ==_iff,
}
use dewflow.Workspace.Rows.{
  WorkspaceRole, Workspace, UserWorkspaceRole, User, AccessDb, done, is_owner, role_key, first,
  member_is, get_workspace_member, get_workspace_role, create_workspace_row, get_workspace,
  add_workspace_role, owns, with_role, clashes, role_of,
}
use dewflow.Workspace.Permissions.{PermissionPolicy, bypasses}
use dewflow.Workspace.Service.{
  NewIds, new_workspace, owner_role, is_owner_role, get_workspace_or_404,
  ensure_owner_change_allowed,
}
use dewflow.Workspace.Owners.{absent_set, absent_removed}
use dewflow.Workspace.History.{
  Request, create, update, delete, add_member, update_member, remove_member, first-All,
}
use dewflow.Workspace.Writes.{free_id}

all_units {ℓ} : {A : Type ℓ} (xs : List A) → All (λ _. Unit {0}) xs
all_units [] = tt
all_units (x ∷ xs) = (tt, all_units xs)

abbrev pub actor : Request → User
actor (create ids user name slug) = user
actor (update user ws obj_in) = user
actor (delete user ws now) = user
actor (add_member id user ws member_in) = user
actor (update_member user ws uid role) = user
actor (remove_member user ws uid) = user

-- The roles that own a workspace.
abbrev pub owner_roles : ℕ → AccessDb → List UserWorkspaceRole
owner_roles ws db = keep (owns ws) db.roles

-- A user who is not a bypassing superuser and holds none of those roles.
abbrev pub IsOutsider : PermissionPolicy → ℕ → AccessDb → User → Type 0
IsOutsider policy ws db user =
    (bypasses policy user ≡ false) × (any (λ r. r.user_id == user.id) (owner_roles ws db) ≡ false)

not_owner :
    (u ws : ℕ) (roles : List UserWorkspaceRole)
    → any (λ r. r.user_id == u) (keep (owns ws) roles) ≡ false
    → is_owner_role (role_of (first (member_is u ws) roles)) ≡ false
unfolding first
not_owner u ws [] h = refl
not_owner u ws (r ∷ rs) h = elim (Bool-cases (owns ws r)) [
  | inl o ↦ ground (arith, not_owner u ws rs)
  | inr o ↦ ground (arith, not_owner u ws rs)
]

pub keep-set :
    (ws k : ℕ) (role : WorkspaceRole) (rs : List UserWorkspaceRole) (r : UserWorkspaceRole)
    → find role_key k rs ≡ some r
    → Distinct role_key rs
    → owns ws r ≡ false
    → owns ws (with_role role r) ≡ false
    → keep (owns ws) (update_where (λ x. x.id == k) (with_role role) rs) ≡ keep (owns ws) rs
unfolding find update_where
keep-set ws k role [] r e d o n = refl
keep-set ws k role (x ∷ rs) r e d o n = elim (Bool-cases (x.id == k)) [
  | inl here ↦
      let same : x ≡ r = ground arith in
      let absent : find role_key k rs ≡ none =
        subst (λ j. find role_key j rs ≡ none) ((==_iff x.id k).0 here) d.0 in
      rw (here, same, o, n, absent_set k (with_role role) rs absent) refl
  | inr there ↦ rw (there, keep-set ws k role rs r (rw there at e) d.1 o n) refl
]

pub keep-remove :
    (ws k : ℕ) (rs : List UserWorkspaceRole) (r : UserWorkspaceRole)
    → find role_key k rs ≡ some r
    → Distinct role_key rs
    → owns ws r ≡ false
    → keep (owns ws) (keep (λ x. not (x.id == k)) rs) ≡ keep (owns ws) rs
unfolding find
keep-remove ws k [] r e d o = refl
keep-remove ws k (x ∷ rs) r e d o = elim (Bool-cases (x.id == k)) [
  | inl here ↦
      let same : x ≡ r = ground arith in
      let absent : find role_key k rs ≡ none =
        subst (λ j. find role_key j rs ≡ none) ((==_iff x.id k).0 here) d.0 in
      rw (here, same, o, absent_removed k rs absent) refl
  | inr there ↦ rw (there, keep-remove ws k rs r (rw there at e) d.1 o) refl
]

-- The owners of the workspace are as before, and it is there.
unfoldable pub IsKept : ℕ → AccessDb → AccessDb → Type 0
IsKept ws db after =
    (owner_roles ws after ≡ owner_roles ws db) × (is_some (get_workspace ws after) ≡ true)

pub IsKept-parts :
    (ws : ℕ) (db after : AccessDb)
    → IsKept ws db after
    → (owner_roles ws after ≡ owner_roles ws db) × (is_some (get_workspace ws after) ≡ true)
unfolding IsKept
IsKept-parts ws db after h = h

-- A rewriting of rows that leaves those of the workspace where they are.
pub still_there :
    (ws : ℕ) (guard : Workspace → Bool) (assign : Workspace → Workspace) (rows : List Workspace)
    → ((w : Workspace) → (assign w).id ≡ w.id)
    → ((w : Workspace) → guard w ≡ true → w.id ≡ ws → (assign w).deleted_at ≡ w.deleted_at)
    → is_some (first (λ w. w.id == ws && is_none w.deleted_at) rows) ≡ true
    → is_some (first (λ w. w.id == ws && is_none w.deleted_at) (update_where guard assign rows))
      ≡ true
unfolding first update_where
still_there ws guard assign [] keeps same h = h
still_there ws guard assign (w ∷ rows) keeps same h =
    ground (arith, still_there ws guard assign rows keeps same, keeps w, same w)

-- A change that an outsider may make is not about an owner of the workspace.
not_about_owner :
    (policy : PermissionPolicy) (ws : ℕ) (db : AccessDb) (user : User)
    (target existing : Option WorkspaceRole)
    → IsOutsider policy ws db user
    → ensure_owner_change_allowed policy user ws target existing db ≡ done tt
    → (is_owner_role target ≡ false) × (is_owner_role existing ≡ false)
unfolding ensure_owner_change_allowed get_workspace_role get_workspace_member
not_about_owner policy ws db user target existing out e =
    ground (arith, not_owner user.id ws db.roles out.1)

-- So the row of such a change, in whatever workspace, does not own this one, before or after.
pub owns_none :
    (policy : PermissionPolicy) (ws at : ℕ) (db : AccessDb) (user : User)
    (target existing : Option WorkspaceRole)
    → IsOutsider policy ws db user
    → ensure_owner_change_allowed policy user at target existing db ≡ done tt
    → ((at == ws) && is_owner_role target ≡ false) × ((at == ws) && is_owner_role existing ≡ false)
owns_none policy ws at db user target existing out e = elim (Bool-cases (at == ws)) [
  | inl same ↦
      let here = not_about_owner policy ws db user target existing out (
        subst (λ x. ensure_owner_change_allowed policy user x target existing db ≡ done tt)
          ((==_iff at ws).0 same) e) in
      (rw same here.0, rw same here.1)
  | inr other ↦ rw other (refl, refl)
]

pub at_member :
    (at ws uid : ℕ) (r : UserWorkspaceRole) (role : WorkspaceRole)
    → member_is uid at r ≡ true
    → (at == ws) && is_owner role ≡ false
    → owns ws (with_role role r) ≡ false
at_member at ws uid r role m e = ground arith

pub found_id :
    (at : ℕ) (db : AccessDb) (w : Workspace) → get_workspace_or_404 at db ≡ done w → w.id ≡ at
unfolding get_workspace_or_404 get_workspace
found_id at db w e =
    let live =
      first-All (λ _. Unit) (λ x. x.id == at && is_none x.deleted_at) db.workspaces w
        (all_units db.workspaces) (ground arith) in
    ground (arith, live.1)

pub not_mine :
    (policy : PermissionPolicy) (ws at : ℕ) (db : AccessDb) (user : User)
    → IsOutsider policy ws db user
    → is_owner_role (get_workspace_role user.id at db) ≡ true
    → at ≢ ws
unfolding get_workspace_role get_workspace_member
not_mine policy ws at db user out owned same = cc (
  not_owner user.id ws db.roles out.1,
  subst (λ x. is_owner_role (role_of (first (member_is user.id x) db.roles)) ≡ true) same owned,
)

pub other_id :
    (ws : ℕ) (new : Workspace) (rows : List Workspace)
    → any (clashes new) rows ≡ false
    → is_some (first (λ w. w.id == ws && is_none w.deleted_at) rows) ≡ true
    → new.id == ws ≡ false
unfolding first
other_id ws new [] c h = cc
other_id ws new (w ∷ rows) c h = ground (arith, other_id ws new rows)

pub created :
    (ids : NewIds) (user : User) (name slug : String) (db between after : AccessDb)
    → create_workspace_row (new_workspace ids user name slug) db ≡ done between
    → add_workspace_role (owner_role ids user) between ≡ done after
    → (any (clashes (new_workspace ids user name slug)) db.workspaces ≡ false)
      × (after ≡ record db {
        workspaces = new_workspace ids user name slug ∷ db.workspaces;
        roles = owner_role ids user ∷ db.roles;
      })
unfolding create_workspace_row
created ids user name slug db between after c a =
    elim (Bool-cases (any (clashes (new_workspace ids user name slug)) db.workspaces)) [
      | inl e ↦ absurd (cc (rw e at c))
      | inr e ↦
          let made : between
              ≡ record db { workspaces = new_workspace ids user name slug ∷ db.workspaces } =
            ground arith in
          (
            e,
            (free_id (owner_role ids user) between after a).1
                ∙ ap (λ (b : AccessDb). record b { roles = owner_role ids user ∷ b.roles }) made,
          )
    ]
