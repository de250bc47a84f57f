-- ===== src/Workspaces/Access.antt =====
-- Which workspace the app of a user ends in.
use next_mark_backend_v.Prelude.{
  arith, ◌≡◌, refl, ap, ◌∙◌, sym, inl, inr, Bool, true, false, not, ◌||◌, Bool-cases, if◌then◌else◌,
}
use next_mark_backend_v.Result.{Result, ok, err, ◌>>=◌, OnOk}
use next_mark_backend_v.Workspaces.{
  WorkspaceKind, personal_workspace, team_workspace, AppScope, admin_app, driver_app, User,
  Directory, stored_or, get_stored_app_workspace, get_default_app_workspace,
  set_app_current_workspace, admits_team, resolved_workspace, context_of,
  resolve_app_workspace_context, ensure_app_workspace_state, sync_all_app_workspace_states,
  get_team_workspace_assignment, get_personal_workspace_assignment,
  has_team_workspace_available_for_app,
}
use next_mark_backend_v.Workspaces.Switch.{is_team, same_kind, switched, switch_to}

-- The workspace that a stored one leads to.
abbrev pub admitted : Bool → WorkspaceKind → WorkspaceKind
admitted allowed personal_workspace = personal_workspace
admitted allowed team_workspace = if allowed then team_workspace else personal_workspace

resolved-set :
    (directory : Directory) (user : User) (app_scope : AppScope) (w : WorkspaceKind)
    → resolved_workspace directory (set_app_current_workspace user app_scope w) app_scope
      ≡ admitted (admits_team directory user app_scope) w
unfolding resolved_workspace get_stored_app_workspace set_app_current_workspace admits_team
    has_team_workspace_available_for_app get_team_workspace_assignment
    get_personal_workspace_assignment
resolved-set directory user admin_app personal_workspace = refl
resolved-set directory user admin_app team_workspace = refl
resolved-set directory user driver_app personal_workspace = refl
resolved-set directory user driver_app team_workspace = refl

resolved-admitted :
    (directory : Directory) (user : User) (app_scope : AppScope)
    → admitted (admits_team directory user app_scope) (resolved_workspace directory user app_scope)
      ≡ resolved_workspace directory user app_scope
unfolding resolved_workspace
resolved-admitted directory user app_scope =
    elim (stored_or (get_stored_app_workspace user app_scope)
        (get_default_app_workspace user app_scope))
      as (λ w.
        admitted (admits_team directory user app_scope) (elim w [
          | personal_workspace ↦ personal_workspace
          | team_workspace ↦
              if admits_team directory user app_scope then team_workspace else personal_workspace
        ])
        ≡ elim w [
          | personal_workspace ↦ personal_workspace
          | team_workspace ↦
              if admits_team directory user app_scope then team_workspace else personal_workspace
        ]) [ personal_workspace ↦ refl | team_workspace ↦ ground arith ]

pub admits-team :
    (directory : Directory) (user : User) (app_scope : AppScope)
    → resolved_workspace directory user app_scope ≡ team_workspace
    → admits_team directory user app_scope ≡ true
admits-team directory user app_scope h = elim (Bool-cases (admits_team directory user app_scope)) [
  | inl allowed ↦ allowed
  | inr barred ↦
      let kept : admitted false team_workspace ≡ team_workspace =
        cc (resolved-admitted directory user app_scope, h, barred) in
      absurd (cc)
]

pub admits-has :
    (directory : Directory) (user : User) (app_scope : AppScope)
    → admits_team directory user app_scope ≡ true
    → has_team_workspace_available_for_app user ≡ true
unfolding admits_team
admits-has directory user admin_app h = ground arith
admits-has directory user driver_app h = h

resolved-synced :
    (directory : Directory) (user : User) (app_scope : AppScope)
    → resolved_workspace directory (sync_all_app_workspace_states directory user) app_scope
      ≡ resolved_workspace directory user app_scope
unfolding sync_all_app_workspace_states ensure_app_workspace_state resolve_app_workspace_context
    set_app_current_workspace resolved_workspace get_stored_app_workspace admits_team
    has_team_workspace_available_for_app get_team_workspace_assignment
    get_personal_workspace_assignment
resolved-synced directory user admin_app =
    resolved-set directory
      (set_app_current_workspace user driver_app (resolved_workspace directory user driver_app))
      admin_app (resolved_workspace directory user admin_app)
    ∙ resolved-admitted directory user admin_app
resolved-synced directory user driver_app =
    resolved-set directory
      (set_app_current_workspace user admin_app (resolved_workspace directory user admin_app))
      driver_app (resolved_workspace directory user driver_app)
    ∙ resolved-admitted directory user driver_app

-- Once both apps' workspaces are stored, to ensure one of them again changes nothing in the user's
-- row and returns the context of before.
pub ensure-sync_all :
    (directory : Directory) (user : User) (app_scope : AppScope)
    → let synced = sync_all_app_workspace_states directory user in
      ensure_app_workspace_state directory synced app_scope
      ≡ (resolve_app_workspace_context directory user app_scope, synced)
unfolding sync_all_app_workspace_states ensure_app_workspace_state resolve_app_workspace_context
    set_app_current_workspace context_of
ensure-sync_all directory user admin_app =
    let synced = sync_all_app_workspace_states directory user in
    ap (λ w. (context_of directory user admin_app w, set_app_current_workspace synced admin_app w))
      (resolved-synced directory user admin_app)
ensure-sync_all directory user driver_app =
    let synced = sync_all_app_workspace_states directory user in
    ap
      (λ w. (context_of directory user driver_app w, set_app_current_workspace synced driver_app w))
      (resolved-synced directory user driver_app)

abbrev pub is_ok {ℓ} : {A : Type ℓ} → Result A → Bool
is_ok (err _) = false
is_ok (ok _) = true

ensured :
    (directory : Directory) (user : User) (app_scope : AppScope) (w : WorkspaceKind)
    → (ensure_app_workspace_state directory
        (set_app_current_workspace user app_scope w)
        app_scope).0.current_workspace
      ≡ admitted (admits_team directory user app_scope) w
unfolding ensure_app_workspace_state resolve_app_workspace_context context_of
ensured directory user app_scope w = resolved-set directory user app_scope w

same_kind-eq : (v w : WorkspaceKind) → same_kind v w ≡ true → v ≡ w
same_kind-eq personal_workspace personal_workspace h = refl
same_kind-eq personal_workspace team_workspace h = cc
same_kind-eq team_workspace personal_workspace h = cc
same_kind-eq team_workspace team_workspace h = refl

admits-set :
    (directory : Directory) (user : User) (app_scope : AppScope) (w : WorkspaceKind)
    → (admits_team directory (set_app_current_workspace user app_scope w) app_scope
        ≡ admits_team directory user app_scope)
      × (has_team_workspace_available_for_app (set_app_current_workspace user app_scope w)
          ≡ has_team_workspace_available_for_app user)
unfolding set_app_current_workspace admits_team has_team_workspace_available_for_app
    get_team_workspace_assignment get_personal_workspace_assignment
admits-set directory user admin_app w = (refl, refl)
admits-set directory user driver_app w = (refl, refl)

-- The team's branch of a switch, in a user's row.
switched-target :
    (directory : Directory) (user : User) (app_scope : AppScope)
    → let call = do
      next ← switched directory user app_scope team_workspace
      ok (ensure_app_workspace_state directory next app_scope)
      in (is_ok call ≡ admits_team directory user app_scope)
        × OnOk (λ r. r.0.current_workspace ≡ team_workspace) call
unfolding switched
switched-target directory user app_scope =
    elim (Bool-cases (admits_team directory user app_scope)) [
      | inl allowed ↦
          let given = admits-has directory user app_scope allowed in
          let next =
            ensured directory user app_scope team_workspace
            ∙ ap (λ a. admitted a team_workspace) allowed in
          rw (given, next, allowed)
            (
              refl,
              ensured directory (set_app_current_workspace user app_scope team_workspace) app_scope
                    team_workspace
                  ∙ ap (λ a. admitted a team_workspace)
                      ((admits-set directory user app_scope team_workspace).0 ∙ allowed),
            )
      | inr barred ↦
          let next =
            ensured directory user app_scope team_workspace
            ∙ ap (λ a. admitted a team_workspace) barred in
          elim (Bool-cases (has_team_workspace_available_for_app user)) [
            | inl given ↦ rw (given, next, barred) (refl, tt)
            | inr missing ↦ rw (missing, barred) (refl, tt)
          ]
    ]

-- A switch to the personal workspace always succeeds, and one to the team's just where the app is
-- admitted to it; the tokens of a switch that succeeds are for the workspace asked for.
pub switch_to-target :
    (directory : Directory) (user : User) (app_scope : AppScope) (target : WorkspaceKind)
    → (is_ok (switch_to directory user app_scope target)
        ≡ (not (is_team target) || admits_team directory user app_scope))
      × OnOk (λ r. r.0.current_workspace ≡ target) (switch_to directory user app_scope target)
unfolding switch_to
switch_to-target directory user app_scope personal_workspace =
    let w = resolved_workspace directory user app_scope in
    elim (Bool-cases (same_kind w personal_workspace)) [
      | inl same ↦
          rw same
            (refl, ensured directory user app_scope w ∙ ap (admitted _) (same_kind-eq w _ same))
      | inr other ↦
          let u = set_app_current_workspace user app_scope w in
          rw other (
            refl,
            ensured directory (set_app_current_workspace u app_scope personal_workspace) app_scope _
                ∙ ap (admitted _) (ensured directory u app_scope personal_workspace),
          )
    ]
switch_to-target directory user app_scope team_workspace =
    let w = resolved_workspace directory user app_scope in
    elim (Bool-cases (same_kind w team_workspace)) [
      | inl same ↦
          let allowed = admits-team directory user app_scope (same_kind-eq w _ same) in
          rw same (
            sym allowed,
            ensured directory user app_scope w
                ∙ ap (admitted _) (same_kind-eq w _ same)
                ∙ ap (λ a. admitted a team_workspace) allowed,
          )
      | inr other ↦
          let call =
            switched-target directory (set_app_current_workspace user app_scope w) app_scope in
          rw other (call.0 ∙ (admits-set directory user app_scope w).0, call.1)
    ]
