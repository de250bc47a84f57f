-- ===== src/Auth/Tokens.antt =====
-- Delivery_app_BK/services/commands/auth/token_utils.py: the claims of a user's tokens.
use next_mark_backend_v.Prelude.{ℕ, String, Option, none, some}
use next_mark_backend_v.Prelude.Text.{text_or}
use next_mark_backend_v.Result.{Result, ok, ◌>>=◌}
use next_mark_backend_v.Workspaces
use next_mark_backend_v.Workspaces.{
  AppScope, Directory, WorkspaceContext, parse_app_scope, ensure_app_workspace_state,
}
use next_mark_backend_v.Auth.TrustedDevice.{
  TrustedDevice, AuthenticationMode, single_user, trusted_device, Identity,
}

-- A row of `User`: the columns that sign-in reads, and those of the workspaces.
pub record Account : Type 0 where
  pub id : ℕ
  pub client_id : String
  pub username : Option String
  pub email : String
  pub workspace : Workspaces.User

-- The claims that all tokens of a session carry; those of the workspace are its context.
pub record Claims : Type 0 where
  pub user_id : ℕ
  pub context : WorkspaceContext
  pub app_scope : AppScope
  pub session_scope_id : String
  pub time_zone : String
  pub authentication_mode : AuthenticationMode
  pub trusted_device_id : Option ℕ
  pub trusted_device_client_id : Option String

-- What a sign-in draws from its surroundings: the roles and teams, and the text of `uuid4`.
pub record Issuer : Type 0 where
  pub directory : Directory
  pub uuid : String

abbrev pub team_time_zone : Option Workspaces.Team → Option String
team_time_zone none = none
team_time_zone (some team) = team.time_zone

-- `time_zone or workspace_context["team_time_zone"] or "UTC"`
unfoldable pub effective_time_zone : Option String → WorkspaceContext → String
unfolding text_or
effective_time_zone time_zone context =
    text_or time_zone (text_or (team_time_zone context.active_team) "UTC")

abbrev pub with_device : Option TrustedDevice → Claims → Claims
with_device none claims = claims
with_device (some device) claims = record claims {
  authentication_mode = trusted_device;
  trusted_device_id = some device.id;
  trusted_device_client_id = some device.client_id;
}

-- The claims, and the row with the workspace stored.
unfoldable pub build_auth_claims :
    Issuer → Account → AppScope → String → Option String → Option TrustedDevice → Claims × Account
unfolding effective_time_zone ensure_app_workspace_state
build_auth_claims issuer account app_scope session_scope_id time_zone device =
    let (context, workspace) =
      ensure_app_workspace_state issuer.directory account.workspace app_scope in
    (
      with_device device (record {
        user_id = account.id;
        context = context;
        app_scope = app_scope;
        session_scope_id = session_scope_id;
        time_zone = effective_time_zone time_zone context;
        authentication_mode = single_user;
        trusted_device_id = none;
        trusted_device_client_id = none;
      }),
      record account { workspace = workspace },
    )

unfoldable pub build_user_tokens :
    Issuer
    → Account
    → Option String
    → Option String
    → Option String
    → Option TrustedDevice
    → Result (Claims × Account)
unfolding parse_app_scope build_auth_claims text_or
build_user_tokens issuer account app_scope session_scope_id time_zone device = do
  scope ← parse_app_scope issuer.directory app_scope
  ok (
      build_auth_claims issuer account scope (text_or session_scope_id issuer.uuid) time_zone
        device)

-- What a refresh reads of the claims.
abbrev pub identity_of : Claims → Identity
identity_of claims = record {
  user_id = some claims.user_id;
  authentication_mode = claims.authentication_mode;
  trusted_device_id = claims.trusted_device_id;
}
