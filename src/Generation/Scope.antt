-- ===== src/Generation/Scope.antt =====
-- Who may act on a request: `_generation_request_actor_scope`
-- (backend/repositories/chat_repo.py), and the shape of the repository's UPDATE statements.
use dewflow.Base.{
  ℕ, Bool, false, ◌&&◌, ◌||◌, Option, none, some, ◌==◌, is_none, is_some, num_is, any, update_where,
  returning,
}
use dewflow.Generation.Row.{ChatDb, GenerationRequest}

-- `_generation_request_actor_scope`: its EXISTS over the roles joined with the workspaces
workspace_membership : ChatDb → ℕ → GenerationRequest → Bool
workspace_membership db user r =
    any
      (λ role.
        (role.user_id == user && num_is r.workspace_id role.workspace_id)
        && any (λ w. w.id == role.workspace_id && is_none w.deleted_at) db.workspaces)
      db.roles

-- `ChatSession.workspace_id == ChatGenerationRequest.workspace_id`, false where either is NULL
abbrev same_workspace : Option ℕ → Option ℕ → Bool
same_workspace none w = false
same_workspace (some v) w = num_is w v

-- the EXISTS over the sessions
live_session : ChatDb → ℕ → GenerationRequest → Bool
unfolding workspace_membership
live_session db user r =
    any
      (λ s.
        (s.id == r.session_id && is_none s.deleted_at)
        && ((is_none r.workspace_id && is_none s.workspace_id && s.user_id == user)
            || (is_some r.workspace_id
                && same_workspace s.workspace_id r.workspace_id
                && workspace_membership db user r)))
      db.sessions

unfoldable pub actor_scope : ChatDb → ℕ → GenerationRequest → Bool
unfolding live_session
actor_scope db user r = r.user_id == user && live_session db user r

-- One UPDATE: the row that RETURNING gives, and the tables after it.
unfoldable pub execute :
    (GenerationRequest → Bool)
    → (GenerationRequest → GenerationRequest)
    → ChatDb
    → Option GenerationRequest × ChatDb
execute guard assign db = (
  returning guard assign db.requests,
  record db { requests = update_where guard assign db.requests },
)
