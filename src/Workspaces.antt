-- ===== src/Workspaces.antt =====
-- Delivery_app_BK/services/domain/user/app_workspace.py: the workspace, personal or a team's, that a
-- user works in, for each of the two apps.
pub mod Switch
pub mod Access
pub mod Assignment
pub mod Entry
mod Tests
use mathlib.Core.Option
use next_mark_backend_v.Prelude.{
  ℕ, zero, suc, String, Bool, true, false, ◌&&◌, ◌||◌, not, Option, none, some, str_eq,
  if◌then◌else◌,
}
use next_mark_backend_v.Prelude.Rows.{is_some}
use next_mark_backend_v.Result.{Result, ok, err, validation_failed, permission_denied}
use next_mark_backend_v.Transitions.Ids.{same_id}

pub data WorkspaceKind : Type 0 where
  personal_workspace team_workspace : WorkspaceKind

pub data AppScope : Type 0 where
  admin_app driver_app : AppScope

-- The columns of `User` that are read or written here.
pub record User : Type 0 where
  pub id : ℕ
  pub team_id : Option ℕ
  pub user_role_id : Option ℕ
  pub primals_team_id : Option ℕ
  pub primals_role_id : Option ℕ
  pub team_workspace_team_id : Option ℕ
  pub team_workspace_role_id : Option ℕ
  pub admin_app_current_workspace : Option String
  pub driver_app_current_workspace : Option String

pub record BaseRole : Type 0 where
  pub id : ℕ
  pub role_name : Option String

pub record UserRole : Type 0 where
  pub id : ℕ
  pub base_role : Option BaseRole

pub record Team : Type 0 where
  pub name : Option String
  pub time_zone : Option String
  pub default_country_code : Option String
  pub default_city_key : Option String

-- The rows by id, and Python's `str.strip` and `str.lower`.
pub record Directory : Type 0 where
  pub roles : ℕ → Option UserRole
  pub teams : ℕ → Option Team
  pub strip : String → String
  pub lower : String → String

-- `none` stands for a value that is no text.
unfoldable pub parse_app_scope : Directory → Option String → Result AppScope
parse_app_scope directory none = err validation_failed
parse_app_scope directory (some value) =
    let normalized = directory.lower (directory.strip value) in
    if str_eq normalized "admin"
    then ok admin_app
    else if str_eq normalized "driver"
    then ok driver_app
    else err validation_failed

unfoldable pub parse_workspace_kind : Directory → Option String → Result WorkspaceKind
parse_workspace_kind directory none = err validation_failed
parse_workspace_kind directory (some value) =
    let normalized = directory.lower (directory.strip value) in
    if str_eq normalized "personal"
    then ok personal_workspace
    else if str_eq normalized "team"
    then ok team_workspace
    else err validation_failed

-- `first or second` for nullable ids: `None` and 0 are false.
abbrev pub or_id : Option ℕ → Option ℕ → Option ℕ
or_id none second = second
or_id (some zero) second = second
or_id (some (suc i)) second = some (suc i)

unfoldable pub get_personal_workspace_assignment : User → Option ℕ × Option ℕ
get_personal_workspace_assignment user =
    (or_id user.primals_team_id user.team_id, or_id user.primals_role_id user.user_role_id)

unfoldable pub get_team_workspace_assignment : User → Option ℕ × Option ℕ
unfolding get_personal_workspace_assignment
get_team_workspace_assignment user =
    let (personal_team_id, personal_role_id) = get_personal_workspace_assignment user in
    if is_some user.team_workspace_team_id && is_some user.team_workspace_role_id
    then (user.team_workspace_team_id, user.team_workspace_role_id)
    else if not (is_some user.team_id) || not (is_some user.user_role_id)
    then (none, none)
    else if same_id user.team_id personal_team_id && same_id user.user_role_id personal_role_id
    then (none, none)
    else (user.team_id, user.user_role_id)

unfoldable pub has_team_workspace_available_for_app : User → Bool
unfolding get_team_workspace_assignment
has_team_workspace_available_for_app user =
    let (team_id, role_id) = get_team_workspace_assignment user in
    is_some team_id && is_some role_id

abbrev pub workspace_name : WorkspaceKind → String
workspace_name personal_workspace = "personal"
workspace_name team_workspace = "team"

abbrev pub current_workspace_column : AppScope → User → Option String
current_workspace_column admin_app user = user.admin_app_current_workspace
current_workspace_column driver_app user = user.driver_app_current_workspace

abbrev pub workspace_of_text : Option String → Option WorkspaceKind
workspace_of_text none = none
workspace_of_text (some raw) =
    if str_eq raw "personal"
    then some personal_workspace
    else if str_eq raw "team"
    then some team_workspace
    else none

unfoldable pub get_stored_app_workspace : User → AppScope → Option WorkspaceKind
get_stored_app_workspace user app_scope =
    workspace_of_text (current_workspace_column app_scope user)

unfoldable pub get_default_app_workspace : User → AppScope → WorkspaceKind
unfolding has_team_workspace_available_for_app
get_default_app_workspace user admin_app = personal_workspace
get_default_app_workspace user driver_app =
    if has_team_workspace_available_for_app user then team_workspace else personal_workspace

unfoldable pub set_app_current_workspace : User → AppScope → WorkspaceKind → User
set_app_current_workspace user admin_app workspace = record user {
  admin_app_current_workspace = some (workspace_name workspace);
}
set_app_current_workspace user driver_app workspace = record user {
  driver_app_current_workspace = some (workspace_name workspace);
}

abbrev pub row_by_id {ℓ} : {A : Type ℓ} → (ℕ → Option A) → Option ℕ → Option A
row_by_id rows none = none
row_by_id rows (some i) = rows i

-- `value or ""` for a nullable text.
abbrev pub text : Option String → String
text none = ""
text (some s) = s

abbrev pub base_role_of : Option UserRole → Option BaseRole
base_role_of none = none
base_role_of (some role) = role.base_role

abbrev pub role_name_of : Option BaseRole → String
role_name_of none = ""
role_name_of (some base) = text base.role_name

-- `name.lower()` of the base role, and whether it is in `ADMIN_APP_TEAM_ROLES`.
unfoldable pub is_admin_team_role : Directory → Option UserRole → Bool
is_admin_team_role directory role =
    let name = directory.lower (role_name_of (base_role_of role)) in
    str_eq name "admin" || str_eq name "assistant"

pub record WorkspaceContext : Type 0 where
  pub app_scope : AppScope
  pub current_workspace : WorkspaceKind
  pub has_team_workspace : Bool
  pub active_team_id : Option ℕ
  pub active_role_id : Option ℕ
  pub active_role : Option UserRole
  pub base_role_id : Option ℕ
  pub base_role : Option String
  pub active_team : Option Team

-- `name.lower() or None`
abbrev pub lower_name : Directory → Option UserRole → Option String
lower_name directory role =
    let name = directory.lower (role_name_of (base_role_of role)) in
    if str_eq name "" then none else some name

-- Whether the app may work in the team's workspace.
unfoldable pub admits_team : Directory → User → AppScope → Bool
unfolding has_team_workspace_available_for_app is_admin_team_role get_team_workspace_assignment
admits_team directory user admin_app =
    has_team_workspace_available_for_app user
    && is_admin_team_role directory
        (row_by_id directory.roles (get_team_workspace_assignment user).1)
admits_team directory user driver_app = has_team_workspace_available_for_app user

abbrev pub stored_or : Option WorkspaceKind → WorkspaceKind → WorkspaceKind
stored_or none default = default
stored_or (some workspace) default = workspace

-- The workspace after the two guards.
unfoldable pub resolved_workspace : Directory → User → AppScope → WorkspaceKind
unfolding get_stored_app_workspace get_default_app_workspace admits_team
resolved_workspace directory user app_scope =
    elim (stored_or (get_stored_app_workspace user app_scope)
      (get_default_app_workspace user app_scope)) [
        | personal_workspace ↦ personal_workspace
        | team_workspace ↦
            if admits_team directory user app_scope then team_workspace else personal_workspace
      ]

abbrev pub assignment_of : User → WorkspaceKind → Option ℕ × Option ℕ
assignment_of user personal_workspace = get_personal_workspace_assignment user
assignment_of user team_workspace = get_team_workspace_assignment user

unfoldable pub context_of : Directory → User → AppScope → WorkspaceKind → WorkspaceContext
unfolding has_team_workspace_available_for_app
context_of directory user app_scope workspace =
    let active = assignment_of user workspace in
    let role = row_by_id directory.roles active.1 in
    record {
      app_scope = app_scope;
      current_workspace = workspace;
      has_team_workspace = has_team_workspace_available_for_app user;
      active_team_id = active.0;
      active_role_id = active.1;
      active_role = role;
      base_role_id = Option.map (λ base. base.id) (base_role_of role);
      base_role = lower_name directory role;
      active_team = row_by_id directory.teams active.0;
    }

unfoldable pub resolve_app_workspace_context : Directory → User → AppScope → WorkspaceContext
unfolding resolved_workspace context_of
resolve_app_workspace_context directory user app_scope =
    context_of directory user app_scope (resolved_workspace directory user app_scope)

-- The context, and the user with the workspace stored.
unfoldable pub ensure_app_workspace_state : Directory → User → AppScope → WorkspaceContext × User
unfolding resolve_app_workspace_context set_app_current_workspace
ensure_app_workspace_state directory user app_scope =
    let context = resolve_app_workspace_context directory user app_scope in
    (context, set_app_current_workspace user app_scope context.current_workspace)

-- First the admin app, then the driver app.
unfoldable pub sync_all_app_workspace_states : Directory → User → User
unfolding ensure_app_workspace_state
sync_all_app_workspace_states directory user =
    (ensure_app_workspace_state directory (ensure_app_workspace_state directory user admin_app).1
      driver_app).1
