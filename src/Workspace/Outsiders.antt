-- ===== src/Workspace/Outsiders.antt =====
-- What requests of users who do not own a workspace can do to its owners
-- (backend/services/workspace_service.py).
use dewflow.Base.{
  ℕ, ◌≡◌, refl, sym, subst, ◌∙◌, String, Bool, true, false, not, none, some, List, [], ◌∷◌, keep,
  ◌==◌, is_some, update_where, Bool-cases, inl, inr, arith, All, All-imp, ==_iff,
}
use dewflow.Workspace.Rows.{
  WorkspaceRole, Workspace, UserWorkspaceRole, User, AccessDb, done, ◌>>=◌, first,
  get_workspace_member, get_workspace_role, create_workspace_row, get_workspace, WorkspaceUpdate,
  updated, update_workspace_row, soft_delete_workspace, add_workspace_role, update_workspace_role,
  remove_role, owns, with_role, user_not_found, get_user,
}
use dewflow.Workspace.Permissions.{PermissionPolicy, workspace_manage, require_permission}
use dewflow.Workspace.Service.{
  NewIds, new_workspace, owner_role, create_workspace, update_workspace, delete_workspace,
  is_owner_role, get_workspace_or_404, ensure_slug_available, check_slug, require_role_manage,
  ensure_owner_change_allowed, or_raise, slug_error,
}
use dewflow.Workspace.Members.{
  WorkspaceMemberCreate, new_member, add_workspace_member, check_update, update_workspace_member,
  check_remove, remove_workspace_member,
}
use dewflow.Workspace.Checked.{IsChecked, check_update-done, check_remove-done}
use dewflow.Workspace.History.{
  Request, create, update, delete, add_member, update_member, remove_member, serve, run, Returns,
  bind-Returns, done-Returns, committed-keeps, committed_only-keeps, IsOwned,
}
use dewflow.Workspace.Writes.{member_found, free_id, slug_error-done, bind-done}
use dewflow.Workspace.Owned.{serve-IsOwned}
use dewflow.Workspace.Rights.{
  actor, owner_roles, IsOutsider, IsKept, IsKept-parts, keep-set, keep-remove, still_there,
  found_id, not_mine, created, other_id, owns_none, at_member,
}

module _ (policy : PermissionPolicy) (ws : ℕ) (db : AccessDb) (h : IsOwned db)
    (there : is_some (get_workspace ws db) ≡ true) where
  roles-IsKept :
      (roles : List UserWorkspaceRole)
      → keep (owns ws) roles ≡ owner_roles ws db
      → IsKept ws db (record db { roles = roles })
  unfolding IsKept get_workspace
  roles-IsKept roles e = (e, there)

  same : IsKept ws db db
  unfolding IsKept
  same = (refl, there)

  set-IsKept :
      (user : User) (at uid : ℕ) (role : WorkspaceRole) (r : UserWorkspaceRole)
      → IsOutsider policy ws db user
      → IsChecked policy user at uid (some role) db r
      → IsKept ws db (update_workspace_role r role db)
  unfolding update_workspace_role IsOwned
  set-IsKept user at uid role r out c =
      let here = member_found uid at db r h.1 c.member in
      let none_here = owns_none policy ws at db user (some role) (some r.role) out c.allowed in
      roles-IsKept (update_where (λ x. x.id == r.id) (with_role role) db.roles) (
        keep-set ws r.id role db.roles r here.0 h.1
          (at_member at ws uid r r.role here.1 none_here.1)
          (at_member at ws uid r role here.1 none_here.0))

  remove-IsKept :
      (user : User) (at uid : ℕ) (r : UserWorkspaceRole)
      → IsOutsider policy ws db user
      → IsChecked policy user at uid none db r
      → IsKept ws db (remove_role r db)
  unfolding remove_role IsOwned
  remove-IsKept user at uid r out c =
      let here = member_found uid at db r h.1 c.member in
      roles-IsKept (keep (λ x. not (x.id == r.id)) db.roles) (
        keep-remove ws r.id db.roles r here.0 h.1 (
          at_member at ws uid r r.role here.1
            (owns_none policy ws at db user none (some r.role) out c.allowed).1))

  add-IsKept :
      (new : UserWorkspaceRole) (after : AccessDb)
      → add_workspace_role new db ≡ done after
      → owns ws new ≡ false
      → IsKept ws db after
  add-IsKept new after e o =
      subst (IsKept ws db) (sym (free_id new db after e).1)
        (roles-IsKept (new ∷ db.roles) (rw o refl))

  -- A new workspace has another id.
  create-IsKept :
      (ids : NewIds) (user : User) (name slug : String) (between after : AccessDb)
      → create_workspace_row (new_workspace ids user name slug) db ≡ done between
      → add_workspace_role (owner_role ids user) between ≡ done after
      → IsKept ws db after
  unfolding create_workspace_row IsKept get_workspace first
  create-IsKept ids user name slug between after c a =
      let (free, made) = created ids user name slug db between after c a in
      let other = other_id ws (new_workspace ids user name slug) db.workspaces free there in
      rw made (rw other refl, rw other there)

  rewrite-IsKept :
      (guard : Workspace → Bool) (assign : Workspace → Workspace)
      → ((w : Workspace) → (assign w).id ≡ w.id)
      → ((w : Workspace) → guard w ≡ true → w.id ≡ ws → (assign w).deleted_at ≡ w.deleted_at)
      → IsKept ws db (record db { workspaces = update_where guard assign db.workspaces })
  unfolding IsKept get_workspace
  rewrite-IsKept guard assign keeps same =
      (refl, still_there ws guard assign db.workspaces keeps same there)

  create_workspace-IsKept :
      (ids : NewIds) (user : User) (name slug : String)
      → Returns (λ out. IsKept ws db out.1) (create_workspace ids user name slug db)
  unfolding create_workspace
  create_workspace-IsKept ids user name slug =
      bind-Returns _ (ensure_slug_available slug none db) _ (λ checked _.
        bind-Returns _
          (slug_error (
            create_workspace_row (new_workspace ids user name slug) db >>= λ b.
            add_workspace_role (owner_role ids user) b))
          _
          (λ after made.
            let (between, c, a) =
              bind-done (create_workspace_row (new_workspace ids user name slug) db)
                (λ b. add_workspace_role (owner_role ids user) b) after
                (slug_error-done _ after made) in
            done-Returns _ _ (create-IsKept ids user name slug between after c a)))

  update_row-IsKept :
      (w : Workspace) (obj_in : WorkspaceUpdate) (after : AccessDb)
      → update_workspace_row w obj_in db ≡ done after
      → IsKept ws db after
  unfolding update_workspace_row
  update_row-IsKept w obj_in after e =
      let made : after ≡ record db {
        workspaces = update_where (λ x. x.id == w.id) (updated obj_in) db.workspaces;
      } =
        ground arith in
      subst (IsKept ws db) (sym made)
        (rewrite-IsKept (λ x. x.id == w.id) (updated obj_in) (λ x. refl) (λ x _ _. refl))

  update_workspace-IsKept :
      (user : User) (at : ℕ) (obj_in : WorkspaceUpdate)
      → Returns (λ out. IsKept ws db out.1) (update_workspace policy user at obj_in db)
  unfolding update_workspace
  update_workspace-IsKept user at obj_in =
      bind-Returns _ (get_workspace_or_404 at db) _ (λ workspace _.
        bind-Returns _ (require_permission policy user (some at) workspace_manage db) _ (λ _ _.
          bind-Returns _ (check_slug obj_in.slug workspace db) _ (λ _ _.
            bind-Returns _ (slug_error (update_workspace_row workspace obj_in db)) _ (λ after made.
              done-Returns _ _
                (update_row-IsKept workspace obj_in after (slug_error-done _ after made))))))

  delete-IsKept :
      (user : User) (at now : ℕ) (w : Workspace)
      → IsOutsider policy ws db user
      → get_workspace_or_404 at db ≡ done w
      → is_owner_role (get_workspace_role user.id at db) ≡ true
      → IsKept ws db (soft_delete_workspace now w db)
  unfolding soft_delete_workspace
  delete-IsKept user at now w out found owned =
      rewrite-IsKept (λ x. x.id == w.id) (λ x. record x { deleted_at = some now }) (λ x. refl)
        (λ x same e. absurd (
          not_mine policy ws at db user out owned
            (sym (found_id at db w found) ∙ sym ((==_iff x.id w.id).0 same) ∙ e)))

  delete_workspace-IsKept :
      (user : User) (at now : ℕ)
      → IsOutsider policy ws db user
      → Returns (IsKept ws db) (delete_workspace policy user at now db)
  unfolding delete_workspace
  delete_workspace-IsKept user at now out =
      bind-Returns _ (get_workspace_or_404 at db) _ (λ w found.
        elim (Bool-cases (is_owner_role (get_workspace_role user.id at db))) [
          | inl owned ↦
              rw (out.0, owned) (done-Returns _ _ (delete-IsKept user at now w out found owned))
          | inr other ↦ rw (out.0, other) (unfold Returns in tt)
        ])

  add_workspace_member-IsKept :
      (id : ℕ) (user : User) (at : ℕ) (member_in : WorkspaceMemberCreate)
      → IsOutsider policy ws db user
      → Returns (λ out. IsKept ws db out.1) (add_workspace_member policy id user at member_in db)
  unfolding add_workspace_member
  add_workspace_member-IsKept id user at member_in out =
      bind-Returns _ (get_workspace_or_404 at db) _ (λ workspace _.
        bind-Returns _ (require_role_manage policy user at db) _ (λ _ _.
          bind-Returns _ (ensure_owner_change_allowed policy user at (some member_in.role) none db)
            _
            (λ _ allowed.
              bind-Returns _ (or_raise user_not_found (get_user member_in.user_id db)) _
                (λ member _.
                  elim (Bool-cases (is_some (get_workspace_member member_in.user_id at db))) [
                    | inl e ↦ rw e (unfold Returns in tt)
                    | inr e ↦ rw e (
                        bind-Returns _ (add_workspace_role (new_member id at member_in) db) _
                          (λ after made. done-Returns _ _ (
                            add-IsKept (new_member id at member_in) after made
                              (owns_none policy ws at db user (some member_in.role) none out
                                allowed).0)))
                  ]))))

  serve-IsKept :
      (request : Request)
      → IsOutsider policy ws db (actor request)
      → IsKept ws db (serve policy request db)
  unfolding serve update_workspace_member remove_workspace_member
  serve-IsKept (create ids user name slug) out =
      committed-keeps (IsKept ws db) db _ same (create_workspace-IsKept ids user name slug)
  serve-IsKept (update user at obj_in) out =
      committed-keeps (IsKept ws db) db _ same (update_workspace-IsKept user at obj_in)
  serve-IsKept (delete user at now) out =
      committed_only-keeps (IsKept ws db) db _ same (delete_workspace-IsKept user at now out)
  serve-IsKept (add_member id user at member_in) out =
      committed-keeps (IsKept ws db) db _ same
        (add_workspace_member-IsKept id user at member_in out)
  serve-IsKept (update_member user at uid role) out = committed-keeps (IsKept ws db) db _ same (
      bind-Returns _ (check_update policy user at uid role db) _ (λ r e.
        done-Returns _ _
          (set-IsKept user at uid role r.0 out (check_update-done policy user at uid role db r e))))
  serve-IsKept (remove_member user at uid) out = committed_only-keeps (IsKept ws db) db _ same (
      bind-Returns _ (check_remove policy user at uid db) _ (λ r e.
        done-Returns _ _
          (remove-IsKept user at uid r out (check_remove-done policy user at uid db r e))))

-- Users who do not own a workspace, and are no superusers that the policy lets pass, cannot change who
-- owns it, nor delete it, however many requests they make, on this workspace and on others, if the
-- roles are as `IsOwned` says and the workspace is there.
pub run_outsiders :
    (policy : PermissionPolicy) (ws : ℕ) (requests : List Request) (db : AccessDb)
    → IsOwned db
    → is_some (get_workspace ws db) ≡ true
    → All (λ q. IsOutsider policy ws db (actor q)) requests
    → (owner_roles ws (run policy requests db) ≡ owner_roles ws db)
      × (is_some (get_workspace ws (run policy requests db)) ≡ true)
unfolding run
run_outsiders policy ws [] db h there out = (refl, there)
run_outsiders policy ws (q ∷ requests) db h there out =
    let kept = IsKept-parts ws db (serve policy q db) (serve-IsKept policy ws db h there q out.0) in
    let rest =
      run_outsiders policy ws requests (serve policy q db) (serve-IsOwned policy db h q) kept.1 (
        All-imp (λ p. IsOutsider policy ws db (actor p))
          (λ p. IsOutsider policy ws (serve policy q db) (actor p)) (λ p o. rw kept.0 o) requests
          out.1) in
    (rest.0 ∙ kept.0, rest.1)
