-- ===== src/Workspaces/Switch.antt =====
-- Delivery_app_BK/services/commands/user/switch_user_workspace.py: the user asks for a workspace.
use next_mark_backend_v.Prelude.{
  ℕ, zero, suc, String, Bool, true, false, not, ◌&&◌, ◌||◌, Option, none, some, str_eq,
  if◌then◌else◌,
}
use next_mark_backend_v.Result.{
  Error, Result, ok, err, not_found, validation_failed, permission_denied, ◌>>=◌, ◌>>◌, guard,
}
use next_mark_backend_v.Workspaces.{
  WorkspaceKind, personal_workspace, team_workspace, AppScope, User, Directory, WorkspaceContext,
  admin_app, driver_app, parse_workspace_kind, resolve_app_workspace_context,
  ensure_app_workspace_state, set_app_current_workspace, has_team_workspace_available_for_app,
}

abbrev pub is_team : WorkspaceKind → Bool
is_team personal_workspace = false
is_team team_workspace = true

abbrev pub same_kind : WorkspaceKind → WorkspaceKind → Bool
same_kind personal_workspace personal_workspace = true
same_kind personal_workspace team_workspace = false
same_kind team_workspace personal_workspace = false
same_kind team_workspace team_workspace = true

-- The change of the user's row; `build_user_tokens` then ensures the workspace once more, and its
-- context is that of the tokens.
unfoldable pub switched : Directory → User → AppScope → WorkspaceKind → Result User
unfolding ensure_app_workspace_state
switched directory user app_scope personal_workspace =
    ok
      (ensure_app_workspace_state directory
        (set_app_current_workspace user app_scope personal_workspace) app_scope).1
switched directory user app_scope team_workspace =
    let next =
      ensure_app_workspace_state directory (set_app_current_workspace user app_scope team_workspace)
        app_scope in
    do
      guard (has_team_workspace_available_for_app user) validation_failed
      guard (is_team next.0.current_workspace) permission_denied
      ok next.1

-- The switch of a user that was found; the context is that of the tokens.
unfoldable pub switch_to :
    Directory → User → AppScope → WorkspaceKind → Result (WorkspaceContext × User)
unfolding switched
switch_to directory user app_scope target_workspace =
    let current = ensure_app_workspace_state directory user app_scope in
    let change = do
      next ← switched directory current.1 app_scope target_workspace
      ok (ensure_app_workspace_state directory next app_scope)
    in if same_kind current.0.current_workspace target_workspace
      then ok (ensure_app_workspace_state directory current.1 app_scope)
      else change

abbrev pub required {ℓ} : {A : Type ℓ} → Error → Option A → Result A
required raised none = err raised
required raised (some a) = ok a

-- `if not value`, of a nullable id.
abbrev pub given : Option ℕ → Option ℕ
given none = none
given (some zero) = none
given (some (suc i)) = some (suc i)

unfoldable pub switch_user_workspace :
    Directory
    → (ℕ → Option User)
    → Option ℕ
    → Option AppScope
    → Option String
    → Result (WorkspaceContext × User)
unfolding switch_to
switch_user_workspace directory users user_id app_scope target_workspace = do
  user_id ← required validation_failed (given user_id)
  app_scope ← required validation_failed app_scope
  target ← parse_workspace_kind directory target_workspace
  user ← required not_found (users user_id)
  switch_to directory user app_scope target

-- `base_role in ADMIN_APP_TEAM_ROLES`, of the context's role.
abbrev pub is_admin_name : Option String → Bool
is_admin_name none = false
is_admin_name (some name) = str_eq name "admin" || str_eq name "assistant"

abbrev pub is_admin_app : AppScope → Bool
is_admin_app admin_app = true
is_admin_app driver_app = false

unfoldable pub require_team_workspace_access : Directory → User → AppScope → Result WorkspaceContext
require_team_workspace_access directory user app_scope =
    let context = resolve_app_workspace_context directory user app_scope in
    do
      guard context.has_team_workspace validation_failed
      guard (not (is_admin_app app_scope && not (is_admin_name context.base_role)))
          permission_denied
      ok context
