-- ===== src/Workspaces/Tests.antt =====
-- The theorems on workspaces at a concrete user.
use next_mark_backend_v.Prelude.{◌≡◌, ◌↔◌, not, ◌||◌, none, some, ◌==◌, if◌then◌else◌}
use next_mark_backend_v.Result.{OnOk}
use next_mark_backend_v.Workspaces.{
  team_workspace, admin_app, driver_app, User, Directory, admits_team,
  resolve_app_workspace_context, ensure_app_workspace_state, sync_all_app_workspace_states,
}
use next_mark_backend_v.Workspaces.Switch.{is_team, switch_to}
use next_mark_backend_v.Workspaces.Entry.{AsksForTeam, HasEntry, resolve-team_iff}
use next_mark_backend_v.Workspaces.Access.{is_ok, ensure-sync_all, switch_to-target}

abbrev directory : Directory
directory = record {
  roles = λ i.
      if i == 4
      then some (record { id = 4; base_role = some (record { id = 1; role_name = some "admin" }) })
      else none;
  teams = λ i. none;
  strip = λ s. s;
  lower = λ s. s;
}

abbrev user : User
user = record {
  id = 1;
  team_id = some 3;
  user_role_id = some 4;
  primals_team_id = some 2;
  primals_role_id = some 5;
  team_workspace_team_id = none;
  team_workspace_role_id = none;
  admin_app_current_workspace = some "team";
  driver_app_current_workspace = none;
}

resolve-team_iff_example :
    ((resolve_app_workspace_context directory user admin_app).current_workspace ≡ team_workspace)
    ↔ (AsksForTeam admin_app user × HasEntry directory admin_app user)
resolve-team_iff_example = resolve-team_iff directory user admin_app

ensure-sync_all_example :
    let synced = sync_all_app_workspace_states directory user in
    ensure_app_workspace_state directory synced driver_app
    ≡ (resolve_app_workspace_context directory user driver_app, synced)
ensure-sync_all_example = ensure-sync_all directory user driver_app

switch_to-target_example :
    (is_ok (switch_to directory user admin_app team_workspace)
      ≡ (not (is_team team_workspace) || admits_team directory user admin_app))
    × OnOk
        (λ r. r.0.current_workspace ≡ team_workspace)
        (switch_to directory user admin_app team_workspace)
switch_to-target_example = switch_to-target directory user admin_app team_workspace
