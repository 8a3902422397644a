-- ===== src/Workspace/Checked.antt =====
-- What a member's change has passed when its write is reached
-- (`update_workspace_member` and `remove_workspace_member` of backend/services/workspace_service.py).
use dewflow.Base.{ℕ, ◌≡◌, Option, none, some}
use dewflow.Workspace.Rows.{
  WorkspaceRole, UserWorkspaceRole, User, AccessDb, done, get_user, user_not_found,
}
use dewflow.Workspace.Permissions.{PermissionPolicy}
use dewflow.Workspace.Service.{
  or_raise, get_workspace_or_404, get_member_or_404, require_role_manage,
  ensure_owner_change_allowed, ensure_not_removing_last_owner,
}
use dewflow.Workspace.Members.{check_update, check_remove}
use dewflow.Workspace.History.{bind-Returns, Returns-done, done-Returns}

-- `next` is the role that the member gets, if it stays one.
pub record IsChecked (policy : PermissionPolicy) (user : User) (ws uid : ℕ)
    (next : Option WorkspaceRole) (db : AccessDb) (r : UserWorkspaceRole) : Type 0 where
  pub managed : require_role_manage policy user ws db ≡ done tt
  pub member : get_member_or_404 uid ws db ≡ done r
  pub allowed : ensure_owner_change_allowed policy user ws next (some r.role) db ≡ done tt
  pub kept : ensure_not_removing_last_owner ws r.role next db ≡ done tt

module _ (policy : PermissionPolicy) (user : User) (ws uid : ℕ) where
  pub check_update-done :
      (role : WorkspaceRole) (db : AccessDb) (out : UserWorkspaceRole × User)
      → check_update policy user ws uid role db ≡ done out
      → IsChecked policy user ws uid (some role) db out.0
  unfolding check_update
  check_update-done role db out =
      Returns-done
        (λ (x : UserWorkspaceRole × User). IsChecked policy user ws uid (some role) db x.0)
        (check_update policy user ws uid role db) out
        (bind-Returns _ (get_workspace_or_404 ws db) _ (λ _ _.
          bind-Returns _ (require_role_manage policy user ws db) _ (λ _ m.
            bind-Returns _ (get_member_or_404 uid ws db) _ (λ r f.
              bind-Returns _
                (ensure_owner_change_allowed policy user ws (some role) (some r.role) db) _
                (λ _ a.
                  bind-Returns _ (ensure_not_removing_last_owner ws r.role (some role) db) _ (λ _ k.
                    bind-Returns _ (or_raise user_not_found (get_user uid db)) _ (λ _ _.
                      done-Returns _ _
                        (record { managed = m; member = f; allowed = a; kept = k }))))))))

  pub check_remove-done :
      (db : AccessDb) (r : UserWorkspaceRole)
      → check_remove policy user ws uid db ≡ done r
      → IsChecked policy user ws uid none db r
  unfolding check_remove
  check_remove-done db out =
      Returns-done (IsChecked policy user ws uid none db) (check_remove policy user ws uid db) out (
        bind-Returns _ (get_workspace_or_404 ws db) _ (λ _ _.
          bind-Returns _ (require_role_manage policy user ws db) _ (λ _ m.
            bind-Returns _ (get_member_or_404 uid ws db) _ (λ r f.
              bind-Returns _ (ensure_owner_change_allowed policy user ws none (some r.role) db) _
                (λ _ a. bind-Returns _ (ensure_not_removing_last_owner ws r.role none db) _ (λ _ k.
                  done-Returns _ _ (record { managed = m; member = f; allowed = a; kept = k })))))))
