-- ===== src/Workspace/Members.antt =====
-- The members of a workspace: the methods of `WorkspaceService`
-- (backend/services/workspace_service.py) that change their roles. The checks of a change and
-- its write are definitions of their own, since other units of work may commit between them.
use dewflow.Base.{ℕ, none, some, is_some, if◌then◌else◌}
use dewflow.Workspace.Rows.{
  WorkspaceRole, UserWorkspaceRole, User, AccessDb, user_not_found, workspace_member_already_exists,
  Result, done, raised, ◌>>=◌, get_workspace_member, get_user, add_workspace_role,
  update_workspace_role, remove_role, with_role,
}
use dewflow.Workspace.Permissions.{PermissionPolicy}
use dewflow.Workspace.Service.{
  or_raise, get_workspace_or_404, get_member_or_404, require_role_manage,
  ensure_owner_change_allowed, ensure_not_removing_last_owner,
}

-- `WorkspaceMemberCreate`
pub record WorkspaceMemberCreate : Type 0 where
  pub user_id : ℕ
  pub role : WorkspaceRole

abbrev pub new_member : ℕ → ℕ → WorkspaceMemberCreate → UserWorkspaceRole
new_member role_id workspace_id member_in = record {
  id = role_id;
  user_id = member_in.user_id;
  workspace_id = workspace_id;
  role = member_in.role;
}

unfoldable pub add_workspace_member :
    PermissionPolicy
    → ℕ
    → User
    → ℕ
    → WorkspaceMemberCreate
    → AccessDb
    → Result ((UserWorkspaceRole × User) × AccessDb)
add_workspace_member policy role_id current_user workspace_id member_in db = do
  workspace ← get_workspace_or_404 workspace_id db
  managed ← require_role_manage policy current_user workspace_id db
  allowed ←
      ensure_owner_change_allowed policy current_user workspace_id (some member_in.role) none db
  user ← or_raise user_not_found (get_user member_in.user_id db)
  if is_some (get_workspace_member member_in.user_id workspace_id db)
      then raised workspace_member_already_exists
      else do
        after ← add_workspace_role (new_member role_id workspace_id member_in) db
        done ((new_member role_id workspace_id member_in, user), after)

unfoldable pub check_update :
    PermissionPolicy → User → ℕ → ℕ → WorkspaceRole → AccessDb → Result (UserWorkspaceRole × User)
check_update policy current_user workspace_id user_id new_role db = do
  workspace ← get_workspace_or_404 workspace_id db
  managed ← require_role_manage policy current_user workspace_id db
  user_role ← get_member_or_404 user_id workspace_id db
  allowed ←
      ensure_owner_change_allowed policy current_user workspace_id (some new_role)
        (some user_role.role) db
  kept ← ensure_not_removing_last_owner workspace_id user_role.role (some new_role) db
  user ← or_raise user_not_found (get_user user_id db)
  done (user_role, user)

unfoldable pub update_workspace_member :
    PermissionPolicy
    → User
    → ℕ
    → ℕ
    → WorkspaceRole
    → AccessDb
    → Result ((UserWorkspaceRole × User) × AccessDb)
update_workspace_member policy current_user workspace_id user_id new_role db = do
  (user_role, user) ← check_update policy current_user workspace_id user_id new_role db
  done ((with_role new_role user_role, user), update_workspace_role user_role new_role db)

unfoldable pub check_remove : PermissionPolicy → User → ℕ → ℕ → AccessDb → Result UserWorkspaceRole
check_remove policy current_user workspace_id user_id db = do
  workspace ← get_workspace_or_404 workspace_id db
  managed ← require_role_manage policy current_user workspace_id db
  user_role ← get_member_or_404 user_id workspace_id db
  allowed ←
      ensure_owner_change_allowed policy current_user workspace_id none (some user_role.role) db
  kept ← ensure_not_removing_last_owner workspace_id user_role.role none db
  done user_role

unfoldable pub remove_workspace_member :
    PermissionPolicy → User → ℕ → ℕ → AccessDb → Result AccessDb
remove_workspace_member policy current_user workspace_id user_id db = do
  user_role ← check_remove policy current_user workspace_id user_id db
  done (remove_role user_role db)
