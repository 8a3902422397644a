-- ===== src/Workspace/Service.antt =====
-- `WorkspaceService` (backend/services/workspace_service.py). A call is the unit of work of its request:
-- it ends in its answer with the tables that are committed, or in an exception and changes nothing.
-- The ids and times that the code draws are arguments.
use dewflow.Base.{
  ℕ, leb, String, Bool, true, false, ◌&&◌, ◌||◌, not, Option, none, some, ◌==◌, if◌then◌else◌,
  str_eq, is_empty,
}
use dewflow.Workspace.Rows.{
  WorkspaceRole, owner, Workspace, UserWorkspaceRole, User, AccessDb, AppError, workspace_not_found,
  workspace_member_not_found, workspace_owner_required, last_workspace_owner, workspace_slug_exists,
  integrity_error, Result, done, raised, ◌>>=◌, is_owner, get_workspace_member, get_workspace_role,
  get_workspace, get_workspace_by_slug, create_workspace_row, Field, value, WorkspaceUpdate,
  updated, update_workspace_row, soft_delete_workspace, add_workspace_role, count_workspace_owners,
}
use dewflow.Workspace.Permissions.{
  PermissionPolicy, workspace_read, workspace_manage, role_manage, bypasses, require_permission,
}

-- `role == WorkspaceRole.OWNER` of a role that may be missing
abbrev pub is_owner_role : Option WorkspaceRole → Bool
is_owner_role none = false
is_owner_role (some role) = is_owner role

abbrev pub or_raise : {A : Type 0} → AppError → Option A → Result A
or_raise e none = raised e
or_raise e (some a) = done a

unfoldable pub get_workspace_or_404 : ℕ → AccessDb → Result Workspace
get_workspace_or_404 workspace_id db = or_raise workspace_not_found (get_workspace workspace_id db)

unfoldable pub get_member_or_404 : ℕ → ℕ → AccessDb → Result UserWorkspaceRole
get_member_or_404 user_id workspace_id db =
    or_raise workspace_member_not_found (get_workspace_member user_id workspace_id db)

abbrev is_other : Option ℕ → ℕ → Bool
is_other none id = true
is_other (some excluded) id = not (id == excluded)

abbrev available : Option ℕ → Option Workspace → Result Unit
available exclude none = done tt
available exclude (some existing) =
    if is_other exclude existing.id then raised workspace_slug_exists else done tt

unfoldable pub ensure_slug_available : String → Option ℕ → AccessDb → Result Unit
ensure_slug_available slug exclude_workspace_id db =
    available exclude_workspace_id (get_workspace_by_slug slug db)

unfoldable pub require_role_manage : PermissionPolicy → User → ℕ → AccessDb → Result Unit
require_role_manage policy current_user workspace_id db =
    require_permission policy current_user (some workspace_id) role_manage db

unfoldable pub ensure_owner_change_allowed :
    PermissionPolicy
    → User
    → ℕ
    → Option WorkspaceRole
    → Option WorkspaceRole
    → AccessDb
    → Result Unit
ensure_owner_change_allowed policy current_user workspace_id target_role existing_role db =
    if bypasses policy current_user
    then done tt
    else if not (is_owner_role target_role) && not (is_owner_role existing_role)
    then done tt
    else if is_owner_role (get_workspace_role current_user.id workspace_id db)
    then done tt
    else raised workspace_owner_required

unfoldable pub ensure_not_removing_last_owner :
    ℕ → WorkspaceRole → Option WorkspaceRole → AccessDb → Result Unit
ensure_not_removing_last_owner workspace_id current_role next_role db =
    if not (is_owner current_role) || is_owner_role next_role
    then done tt
    else if leb (count_workspace_owners workspace_id db) 1
    then raised last_workspace_owner
    else done tt

-- `except IntegrityError`
abbrev pub slug_error : {A : Type 0} → Result A → Result A
slug_error (done a) = done a
slug_error (raised integrity_error) = raised workspace_slug_exists
slug_error (raised e) = raised e

-- The ids of the new rows.
pub record NewIds : Type 0 where
  pub workspace_id : ℕ
  pub role_id : ℕ

abbrev pub new_workspace : NewIds → User → String → String → Workspace
new_workspace ids current_user name slug = record {
  id = ids.workspace_id;
  name = name;
  slug = slug;
  owner_id = some current_user.id;
  deleted_at = none;
}

abbrev pub owner_role : NewIds → User → UserWorkspaceRole
owner_role ids current_user = record {
  id = ids.role_id;
  user_id = current_user.id;
  workspace_id = ids.workspace_id;
  role = owner;
}

unfoldable pub create_workspace :
    NewIds → User → String → String → AccessDb → Result (Workspace × AccessDb)
create_workspace ids current_user name slug db = do
  checked ← ensure_slug_available slug none db
  after ← slug_error (do
    with_workspace ← create_workspace_row (new_workspace ids current_user name slug) db
    add_workspace_role (owner_role ids current_user) with_workspace)
  done (new_workspace ids current_user name slug, after)

unfoldable pub read_workspace :
    PermissionPolicy → User → ℕ → AccessDb → Result (Workspace × Option WorkspaceRole)
read_workspace policy current_user workspace_id db = do
  workspace ← get_workspace_or_404 workspace_id db
  checked ← require_permission policy current_user (some workspace_id) workspace_read db
  done (workspace, get_workspace_role current_user.id workspace_id db)

-- `if slug and slug != workspace.slug`
abbrev pub check_slug : Field → Workspace → AccessDb → Result Unit
check_slug (value slug) workspace db =
    if not (is_empty slug) && not (str_eq slug workspace.slug)
    then ensure_slug_available slug (some workspace.id) db
    else done tt
check_slug _ workspace db = done tt

unfoldable pub update_workspace :
    PermissionPolicy
    → User
    → ℕ
    → WorkspaceUpdate
    → AccessDb
    → Result ((Workspace × Option WorkspaceRole) × AccessDb)
update_workspace policy current_user workspace_id workspace_in db = do
  workspace ← get_workspace_or_404 workspace_id db
  checked ← require_permission policy current_user (some workspace_id) workspace_manage db
  free ← check_slug workspace_in.slug workspace db
  after ← slug_error (update_workspace_row workspace workspace_in db)
  done ((updated workspace_in workspace, get_workspace_role current_user.id workspace_id db), after)

unfoldable pub delete_workspace : PermissionPolicy → User → ℕ → ℕ → AccessDb → Result AccessDb
delete_workspace policy current_user workspace_id now db = do
  workspace ← get_workspace_or_404 workspace_id db
  if bypasses policy current_user
      then done (soft_delete_workspace now workspace db)
      else if not (is_owner_role (get_workspace_role current_user.id workspace_id db))
      then raised workspace_owner_required
      else done (soft_delete_workspace now workspace db)
