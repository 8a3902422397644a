-- ===== src/Workspace/Owned.antt =====
-- Every workspace keeps an owner while requests to `WorkspaceService`
-- (backend/services/workspace_service.py) are served one after the other.
use dewflow.Base.{
  ℕ, refl, String, none, some, List, [], ◌∷◌, ◌==◌, is_some, Bool-cases, inl, inr, arith,
}
use dewflow.Workspace.Rows.{
  WorkspaceRole, User, AccessDb, ◌>>=◌, get_workspace_member, create_workspace_row, WorkspaceUpdate,
  update_workspace_row, soft_delete_workspace, add_workspace_role, user_not_found, get_user,
}
use dewflow.Workspace.Permissions.{PermissionPolicy, workspace_manage, require_permission}
use dewflow.Workspace.Service.{
  NewIds, new_workspace, owner_role, create_workspace, update_workspace, delete_workspace, or_raise,
  slug_error, get_workspace_or_404, ensure_slug_available, check_slug, require_role_manage,
  ensure_owner_change_allowed,
}
use dewflow.Workspace.Members.{
  WorkspaceMemberCreate, new_member, add_workspace_member, check_update, update_workspace_member,
  check_remove, remove_workspace_member,
}
use dewflow.Workspace.Checked.{check_update-done, check_remove-done}
use dewflow.Workspace.History.{
  Request, create, update, delete, add_member, update_member, remove_member, serve, run, Returns,
  bind-Returns, done-Returns, committed-keeps, committed_only-keeps, IsOwned,
}
use dewflow.Workspace.Writes.{
  bind-done, slug_error-done, set-IsOwned, remove-IsOwned, add-IsOwned, create-IsOwned,
  rewrite-IsOwned, update_row-IsOwned,
}

module _ (policy : PermissionPolicy) (db : AccessDb) (h : IsOwned db) where
  create_workspace-IsOwned :
      (ids : NewIds) (user : User) (name slug : String)
      → Returns (λ out. IsOwned out.1) (create_workspace ids user name slug db)
  unfolding create_workspace
  create_workspace-IsOwned ids user name slug =
      bind-Returns _ (ensure_slug_available slug none db) _ (λ checked _.
        bind-Returns _
          (slug_error (
            create_workspace_row (new_workspace ids user name slug) db >>= λ b.
            add_workspace_role (owner_role ids user) b))
          _
          (λ after made.
            let (between, c, a) =
              bind-done (create_workspace_row (new_workspace ids user name slug) db)
                (λ b. add_workspace_role (owner_role ids user) b) after
                (slug_error-done _ after made) in
            done-Returns _ _ (create-IsOwned ids user name slug db between after c a h)))

  update_workspace-IsOwned :
      (user : User) (ws : ℕ) (obj_in : WorkspaceUpdate)
      → Returns (λ out. IsOwned out.1) (update_workspace policy user ws obj_in db)
  unfolding update_workspace
  update_workspace-IsOwned user ws obj_in =
      bind-Returns _ (get_workspace_or_404 ws db) _ (λ workspace _.
        bind-Returns _ (require_permission policy user (some ws) workspace_manage db) _ (λ _ _.
          bind-Returns _ (check_slug obj_in.slug workspace db) _ (λ _ _.
            bind-Returns _ (slug_error (update_workspace_row workspace obj_in db)) _ (λ after made.
              done-Returns _ _
                (update_row-IsOwned workspace obj_in db after (slug_error-done _ after made) h)))))

  delete_workspace-IsOwned :
      (user : User) (ws now : ℕ) → Returns IsOwned (delete_workspace policy user ws now db)
  unfolding delete_workspace soft_delete_workspace
  delete_workspace-IsOwned user ws now =
      bind-Returns _ (get_workspace_or_404 ws db) _ (λ workspace _.
        let kept : IsOwned (soft_delete_workspace now workspace db) =
          rewrite-IsOwned (λ x. x.id == workspace.id) (λ x. record x { deleted_at = some now }) db
            (λ w. refl) h in
        unfold Returns in ground (arith, kept))

  add_workspace_member-IsOwned :
      (id : ℕ) (user : User) (ws : ℕ) (member_in : WorkspaceMemberCreate)
      → Returns (λ out. IsOwned out.1) (add_workspace_member policy id user ws member_in db)
  unfolding add_workspace_member
  add_workspace_member-IsOwned id user ws member_in =
      bind-Returns _ (get_workspace_or_404 ws db) _ (λ workspace _.
        bind-Returns _ (require_role_manage policy user ws db) _ (λ _ _.
          bind-Returns _ (ensure_owner_change_allowed policy user ws (some member_in.role) none db)
            _
            (λ _ _.
              bind-Returns _ (or_raise user_not_found (get_user member_in.user_id db)) _
                (λ member _.
                  elim (Bool-cases (is_some (get_workspace_member member_in.user_id ws db))) [
                    | inl e ↦ rw e (unfold Returns in tt)
                    | inr e ↦ rw e (
                        bind-Returns _ (add_workspace_role (new_member id ws member_in) db) _
                          (λ after made.
                            unfold Returns in
                            add-IsOwned (new_member id ws member_in) db after made h))
                  ]))))

  update_workspace_member-IsOwned :
      (user : User) (ws uid : ℕ) (role : WorkspaceRole)
      → Returns (λ out. IsOwned out.1) (update_workspace_member policy user ws uid role db)
  unfolding update_workspace_member
  update_workspace_member-IsOwned user ws uid role =
      bind-Returns _ (check_update policy user ws uid role db) _ (λ out e.
        unfold Returns in
        set-IsOwned uid ws out.0 role db (check_update-done policy user ws uid role db out e).member
          (check_update-done policy user ws uid role db out e).kept h)

  remove_workspace_member-IsOwned :
      (user : User) (ws uid : ℕ) → Returns IsOwned (remove_workspace_member policy user ws uid db)
  unfolding remove_workspace_member
  remove_workspace_member-IsOwned user ws uid =
      bind-Returns _ (check_remove policy user ws uid db) _ (λ r e.
        unfold Returns in
        remove-IsOwned uid ws r db (check_remove-done policy user ws uid db r e).member
          (check_remove-done policy user ws uid db r e).kept h)

  pub serve-IsOwned : (request : Request) → IsOwned (serve policy request db)
  unfolding serve
  serve-IsOwned (create ids user name slug) =
      committed-keeps IsOwned db _ h (create_workspace-IsOwned ids user name slug)
  serve-IsOwned (update user ws obj_in) =
      committed-keeps IsOwned db _ h (update_workspace-IsOwned user ws obj_in)
  serve-IsOwned (delete user ws now) =
      committed_only-keeps IsOwned db _ h (delete_workspace-IsOwned user ws now)
  serve-IsOwned (add_member id user ws member_in) =
      committed-keeps IsOwned db _ h (add_workspace_member-IsOwned id user ws member_in)
  serve-IsOwned (update_member user ws uid role) =
      committed-keeps IsOwned db _ h (update_workspace_member-IsOwned user ws uid role)
  serve-IsOwned (remove_member user ws uid) =
      committed_only-keeps IsOwned db _ h (remove_workspace_member-IsOwned user ws uid)

-- However many requests are served one after the other, whatever they ask for and whoever asks, every
-- workspace keeps at least one owner, if each had one and the ids of the roles were distinct.
pub run-IsOwned :
    (policy : PermissionPolicy) (requests : List Request) (db : AccessDb)
    → IsOwned db
    → IsOwned (run policy requests db)
unfolding run
run-IsOwned policy [] db h = h
run-IsOwned policy (request ∷ requests) db h =
    run-IsOwned policy requests (serve policy request db) (serve-IsOwned policy db h request)
