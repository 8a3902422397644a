-- ===== src/Workspace/Permissions.antt =====
-- What a role permits: `PermissionPolicy` (backend/config/permissions.py) and `PermissionService`
-- (backend/services/permission_service.py). The configured values are the fields of the policy.
use dewflow.Base.{ℕ, Bool, true, false, ◌&&◌, Option, none, some, List, any, ◌==◌, if◌then◌else◌}
use dewflow.Workspace.Rows.{
  WorkspaceRole, User, AccessDb, forbidden, Result, done, raised, get_workspace_role, get_user,
}

pub data Permission : Type 0 where
  workspace_read workspace_manage role_manage file_read file_write file_delete : Permission
  chat_read chat_write audit_read : Permission

pub data Default : Type 0 where
  allow deny : Default

pub record PermissionPolicy : Type 0 where
  -- `role_permissions.get(role, frozenset())`
  pub permissions_of : WorkspaceRole → List Permission
  pub superuser_bypass : Bool
  pub missing_workspace : Default
  pub missing_role : Default

abbrev allows : Default → Bool
allows allow = true
allows deny = false

abbrev number : Permission → ℕ
number workspace_read = 0
number workspace_manage = 1
number role_manage = 2
number file_read = 3
number file_write = 4
number file_delete = 5
number chat_read = 6
number chat_write = 7
number audit_read = 8

unfoldable pub policy_role_has_permission :
    PermissionPolicy → Option WorkspaceRole → Permission → Bool
policy_role_has_permission policy none permission = allows policy.missing_role
policy_role_has_permission policy (some role) permission =
    any (λ p. number p == number permission) (policy.permissions_of role)

unfoldable pub allows_missing_workspace : PermissionPolicy → Bool
allows_missing_workspace policy = allows policy.missing_workspace

-- `user.is_superuser and self.policy.superuser_bypass`
abbrev pub bypasses : PermissionPolicy → User → Bool
bypasses policy user = user.is_superuser && policy.superuser_bypass

abbrev permits : PermissionPolicy → User → Option ℕ → Permission → AccessDb → Bool
permits policy user none permission db = allows_missing_workspace policy
permits policy user (some workspace_id) permission db =
    policy_role_has_permission policy (get_workspace_role user.id workspace_id db) permission

unfoldable pub has_permission : PermissionPolicy → User → Option ℕ → Permission → AccessDb → Bool
has_permission policy user workspace_id permission db =
    if bypasses policy user then true else permits policy user workspace_id permission db

abbrev known_has_permission :
    PermissionPolicy → Option User → Option ℕ → Permission → AccessDb → Bool
known_has_permission policy none workspace_id permission db = false
known_has_permission policy (some user) workspace_id permission db =
    has_permission policy user workspace_id permission db

unfoldable pub has_permission_for_user_id :
    PermissionPolicy → ℕ → Option ℕ → Permission → AccessDb → Bool
has_permission_for_user_id policy user_id workspace_id permission db =
    known_has_permission policy (get_user user_id db) workspace_id permission db

unfoldable pub require_permission :
    PermissionPolicy → User → Option ℕ → Permission → AccessDb → Result Unit
require_permission policy user workspace_id permission db =
    if has_permission policy user workspace_id permission db then done tt else raised forbidden

abbrev require_in : PermissionPolicy → User → Option ℕ → AccessDb → Result Unit
require_in policy user none db = raised forbidden
require_in policy user (some workspace_id) db =
    require_permission policy user (some workspace_id) audit_read db

unfoldable pub ensure_audit_access : PermissionPolicy → User → Option ℕ → AccessDb → Result Unit
ensure_audit_access policy user workspace_id db =
    if bypasses policy user then done tt else require_in policy user workspace_id db
