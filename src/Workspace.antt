-- ===== src/Workspace.antt =====
-- Workspaces, their members and what a role permits: `WorkspaceService`
-- (backend/services/workspace_service.py), `PermissionService`
-- (backend/services/permission_service.py) and `AccessRepository`
-- (backend/repositories/access_repo.py).
pub mod Rows
pub mod Permissions
pub mod Service
pub mod Members
pub mod Owners
pub mod History
pub mod Checked
pub mod Writes
pub mod Owned
pub mod Rights
pub mod Outsiders
pub mod Races
mod Tests
