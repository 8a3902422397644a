-- ===== src/Workspace/Tests.antt =====
-- A workspace with two owners and an admin, and each theorem about workspaces at it.
use dewflow.Base.{◌≢◌, ℕ, ◌≡◌, refl, true, false, none, some, List, [], ◌∷◌, is_some, find, arith}
use dewflow.Workspace.Rows.{
  owner, admin, UserWorkspaceRole, User, AccessDb, done, get_workspace, first, get_workspace_role,
  get_workspace_member, count_workspace_owners, remove_role,
}
use dewflow.Workspace.Permissions.{
  PermissionPolicy, role_manage, workspace_manage, deny, require_permission, has_permission,
  policy_role_has_permission,
}
use dewflow.Workspace.Service.{
  get_workspace_or_404, require_role_manage, get_member_or_404, ensure_owner_change_allowed,
  ensure_not_removing_last_owner,
}
use dewflow.Workspace.Members.{check_remove, remove_workspace_member}
use dewflow.Workspace.History.{
  Request, update_member, remove_member, delete, run, serve, committed_only, IsOwned,
}
use dewflow.Workspace.Owned.{run-IsOwned}
use dewflow.Workspace.Rights.{owner_roles}
use dewflow.Workspace.Outsiders.{run_outsiders}
use dewflow.Workspace.Races.{removals_race}

abbrev policy : PermissionPolicy
policy = record {
  permissions_of = λ role. role_manage ∷ workspace_manage ∷ [];
  superuser_bypass = true;
  missing_workspace = deny;
  missing_role = deny;
}

abbrev user : ℕ → User
user id = record { id = id; is_superuser = false }

abbrev db : AccessDb
db = record {
  workspaces =
      record { id = 7; name = "team"; slug = "team"; owner_id = some 1; deleted_at = none } ∷ [];
  roles =
      record { id = 100; user_id = 1; workspace_id = 7; role = owner }
      ∷ record { id = 101; user_id = 2; workspace_id = 7; role = owner }
      ∷ record { id = 102; user_id = 3; workspace_id = 7; role = admin }
      ∷ [];
  users = user 1 ∷ user 2 ∷ user 3 ∷ [];
}

db-IsOwned : IsOwned db
unfolding IsOwned find
db-IsOwned = ((omega arith, tt), (refl, (refl, (refl, tt))))

-- Both owners want to leave, and the second cannot.
abbrev leaving : List Request
leaving = remove_member (user 1) 7 1 ∷ remove_member (user 2) 7 2 ∷ []

one_stays : count_workspace_owners 7 (run policy leaving db) ≡ 1
unfolding run serve committed_only remove_workspace_member remove_role check_remove
    get_workspace_or_404 get_workspace first require_role_manage require_permission has_permission
    policy_role_has_permission get_workspace_role get_workspace_member get_member_or_404
    ensure_owner_change_allowed ensure_not_removing_last_owner count_workspace_owners
one_stays = refl

run-IsOwned_example : IsOwned (run policy leaving db)
run-IsOwned_example = run-IsOwned policy leaving db db-IsOwned

-- What an admin tries.
abbrev attacks : List Request
attacks = update_member (user 3) 7 3 owner ∷ remove_member (user 3) 7 1 ∷ delete (user 3) 7 50 ∷ []

there : is_some (get_workspace 7 db) ≡ true
unfolding get_workspace first
there = refl

run_outsiders_example :
    (owner_roles 7 (run policy attacks db) ≡ owner_roles 7 db)
    × (is_some (get_workspace 7 (run policy attacks db)) ≡ true)
run_outsiders_example =
    run_outsiders policy 7 attacks db db-IsOwned there
      ((refl, refl), ((refl, refl), ((refl, refl), tt)))

abbrev owner_row : ℕ → ℕ → UserWorkspaceRole
owner_row id user_id = record { id = id; user_id = user_id; workspace_id = 7; role = owner }

first_checked : check_remove policy (user 1) 7 1 db ≡ done (owner_row 100 1)
unfolding check_remove get_workspace_or_404 get_workspace first require_role_manage
    require_permission has_permission policy_role_has_permission get_workspace_role
    get_workspace_member get_member_or_404 ensure_owner_change_allowed
    ensure_not_removing_last_owner count_workspace_owners
first_checked = refl

second_checked : check_remove policy (user 2) 7 2 db ≡ done (owner_row 101 2)
unfolding check_remove get_workspace_or_404 get_workspace first require_role_manage
    require_permission has_permission policy_role_has_permission get_workspace_role
    get_workspace_member get_member_or_404 ensure_owner_change_allowed
    ensure_not_removing_last_owner count_workspace_owners
second_checked = refl

two_owners : count_workspace_owners 7 db ≡ 2
unfolding count_workspace_owners
two_owners = refl

removals_race_example :
    (count_workspace_owners 7 (remove_role (owner_row 100 1) db) ≡ 1)
    × (check_remove policy (user 2) 7 2 (remove_role (owner_row 100 1) db) ≢ done (owner_row 101 2))
    × (count_workspace_owners 7 (remove_role (owner_row 101 2) (remove_role (owner_row 100 1) db))
        ≡ 0)
unfolding IsOwned
removals_race_example =
    removals_race policy (user 1) (user 2) 7 1 2 db (owner_row 100 1) (owner_row 101 2) db-IsOwned.1
      two_owners first_checked second_checked refl refl (λ e. absurd (ground arith))
