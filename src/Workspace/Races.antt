-- ===== src/Workspace/Races.antt =====
-- Two removals of owners at the same time: `_ensure_not_removing_last_owner`
-- (backend/services/workspace_service.py) counts the owners without a lock, so both may have
-- counted before either deletes its row.
use dewflow.Base.{ℕ, ◌≡◌, ◌≢◌, true, not, some, List, [], ◌∷◌, keep, ◌==◌, find, Distinct, arith}
use dewflow.Workspace.Rows.{
  UserWorkspaceRole, User, AccessDb, done, is_owner, role_key, owns, remove_role,
  count_workspace_owners,
}
use dewflow.Workspace.Permissions.{PermissionPolicy}
use dewflow.Workspace.Service.{ensure_not_removing_last_owner}
use dewflow.Workspace.Members.{check_remove}
use dewflow.Workspace.Owners.{owners-remove, removed-Distinct}
use dewflow.Workspace.Checked.{check_remove-done}
use dewflow.Workspace.Writes.{member_found}

removed-find_ne :
    (j k : ℕ) (rs : List UserWorkspaceRole) (r : UserWorkspaceRole)
    → j ≢ k
    → find role_key j rs ≡ some r
    → find role_key j (keep (λ x. not (x.id == k)) rs) ≡ some r
unfolding find
removed-find_ne j k [] r ne e = cc
removed-find_ne j k (x ∷ rs) r ne e = ground (arith, removed-find_ne j k rs r)

-- The row of a checked removal stands in the table, and owns its workspace if its role is the owner's.
checked_row :
    (policy : PermissionPolicy) (user : User) (ws uid : ℕ) (db : AccessDb) (r : UserWorkspaceRole)
    → Distinct role_key db.roles
    → check_remove policy user ws uid db ≡ done r
    → is_owner r.role ≡ true
    → (find role_key r.id db.roles ≡ some r) × (owns ws r ≡ true)
checked_row policy user ws uid db r d e o =
    let here = member_found uid ws db r d (check_remove-done policy user ws uid db r e).member in
    (here.0, ground (arith, here.1))

-- A workspace with one owner: nobody's removal of an owner passes its check.
last_owner_kept :
    (policy : PermissionPolicy) (user : User) (ws uid : ℕ) (db : AccessDb) (s : UserWorkspaceRole)
    → is_owner s.role ≡ true
    → count_workspace_owners ws db ≡ 1
    → check_remove policy user ws uid db ≢ done s
unfolding ensure_not_removing_last_owner
last_owner_kept policy user ws uid db s o one passed =
    let kept = (check_remove-done policy user ws uid db s passed).kept in
    ground (arith, kept, o, one)

-- In a workspace with exactly two owners, two removals of one owner each, which both pass their checks
-- on the same table: if the first is written before the second is checked, the second does not pass
-- its check any more, and one owner is left; if both are checked before either is written, no owner is
-- left after both writes.
pub removals_race :
    (policy : PermissionPolicy) (user other : User) (ws uid vid : ℕ) (db : AccessDb)
    (r s : UserWorkspaceRole)
    → Distinct role_key db.roles
    → count_workspace_owners ws db ≡ 2
    → check_remove policy user ws uid db ≡ done r
    → check_remove policy other ws vid db ≡ done s
    → is_owner r.role ≡ true
    → is_owner s.role ≡ true
    → s.id ≢ r.id
    → (count_workspace_owners ws (remove_role r db) ≡ 1)
      × (check_remove policy other ws vid (remove_role r db) ≢ done s)
      × (count_workspace_owners ws (remove_role s (remove_role r db)) ≡ 0)
unfolding count_workspace_owners remove_role
removals_race policy user other ws uid vid db r s d two cr cs o p ne =
    let row = checked_row policy user ws uid db r d cr o in
    let row2 = checked_row policy other ws vid db s d cs p in
    let first_gone = owners-remove ws r.id db.roles r d row.0 in
    let both_gone =
      owners-remove ws s.id (keep (λ x. not (x.id == r.id)) db.roles) s
        (removed-Distinct r.id db.roles d) (removed-find_ne s.id r.id db.roles s ne row2.0) in
    let one_left : count_workspace_owners ws (remove_role r db) ≡ 1 =
      omega (arith, (rw row.1 at first_gone), two) in
    (
      one_left,
      last_owner_kept policy other ws vid (remove_role r db) s p one_left,
      omega (arith, (rw row.1 at first_gone), (rw row2.1 at both_gone), two),
    )
