-- ===== src/Workspaces/Entry.antt =====
-- When the app of a user works in the team's workspace.
use next_mark_backend_v.Prelude.{
  ℕ, String, arith, ◌≡◌, ◌≢◌, ◌↔◌, ◌⊎◌, refl, ap, inl, inr, true, false, ◌&&◌, ◌||◌, Option, none,
  some, str_eq, str_eq_iff, Bool-cases, if◌then◌else◌,
}
use next_mark_backend_v.Prelude.Rows.{is_some}
use next_mark_backend_v.Workspaces.{
  personal_workspace, team_workspace, AppScope, admin_app, driver_app, User, Directory, stored_or,
  get_stored_app_workspace, get_default_app_workspace, admits_team, resolved_workspace, context_of,
  resolve_app_workspace_context, get_team_workspace_assignment,
  has_team_workspace_available_for_app, is_admin_team_role, lower_name, role_name_of, base_role_of,
  workspace_of_text, row_by_id,
}
use next_mark_backend_v.Workspaces.Assignment.{TeamOf, get_team_workspace_assignment-TeamOf}
use next_mark_backend_v.Workspaces.Access.{admits-team, admits-has}

-- The name of a role is one of those that the admin app asks for.
abbrev pub MayEnter : Directory → AppScope → ℕ → Type 0
MayEnter directory admin_app role_id =
    (lower_name directory (directory.roles role_id) ≡ some "admin")
    ⊎ (lower_name directory (directory.roles role_id) ≡ some "assistant")
MayEnter directory driver_app role_id = Unit

-- The admin app asks for the team's workspace by its column, the driver app unless its column says
-- otherwise.
abbrev pub AsksForTeam : AppScope → User → Type 0
AsksForTeam admin_app user = user.admin_app_current_workspace ≡ some "team"
AsksForTeam driver_app user = user.driver_app_current_workspace ≢ some "personal"

-- The user has a team's workspace, with a role in it that may enter the app.
abbrev pub HasEntry : Directory → AppScope → User → Type 0
HasEntry directory app_scope user =
    (team_id : ℕ) × (role_id : ℕ) × TeamOf user team_id role_id
    × MayEnter directory app_scope role_id

some-inj : (s t : String) → some s ≡ some t → s ≡ t
some-inj s t e = cc

either_test :
    (name : String)
    → (name ≡ "admin") ⊎ (name ≡ "assistant")
    → (str_eq name "admin" || str_eq name "assistant") ≡ true
either_test name (inl e) = rw e refl
either_test name (inr e) = rw e refl

-- `name.lower() or None`, and whether the name is one of the two.
either_name :
    (name : String)
    → ((str_eq name "admin" || str_eq name "assistant") ≡ true) ↔ (
        ((if str_eq name "" then none else some name) ≡ some "admin")
        ⊎ ((if str_eq name "" then none else some name) ≡ some "assistant"))
either_name name = (
  λ e. elim (Bool-cases (str_eq name "admin")) [
    | inl admin ↦ let is : name ≡ "admin" = (str_eq_iff name "admin").0 admin in inl (rw is refl)
    | inr other ↦
        let is : name ≡ "assistant" = (str_eq_iff name "assistant").0 (rw other at e) in
        inr (rw is refl)
  ],
  λ h. elim (Bool-cases (str_eq name "")) [
    | inl empty ↦ absurd (unnamed empty h)
    | inr filled ↦ either_test name (named filled h)
  ],
)
  where
    unnamed :
        str_eq name "" ≡ true
        → ((if str_eq name "" then none else some name) ≡ some "admin")
          ⊎ ((if str_eq name "" then none else some name) ≡ some "assistant")
        → ⊥
    unnamed empty (inl e) = cc
    unnamed empty (inr e) = cc

    named :
        str_eq name "" ≡ false
        → ((if str_eq name "" then none else some name) ≡ some "admin")
          ⊎ ((if str_eq name "" then none else some name) ≡ some "assistant")
        → (name ≡ "admin") ⊎ (name ≡ "assistant")
    named filled (inl e) = inl (some-inj name "admin" (rw filled at e))
    named filled (inr e) = inr (some-inj name "assistant" (rw filled at e))

both_given :
    (pair : Option ℕ × Option ℕ)
    → (is_some pair.0 && is_some pair.1) ≡ true
    → (i : ℕ) × (j : ℕ) × (pair ≡ (some i, some j))
both_given (none, b) e = absurd (cc)
both_given (some i, none) e = absurd (cc)
both_given (some i, some j) e = (i, j, refl)

team_column :
    (column : Option String)
    → (stored_or (workspace_of_text column) personal_workspace ≡ team_workspace)
      ↔ (column ≡ some "team")
team_column none = (λ e. absurd (cc), λ e. absurd (cc))
team_column (some raw) = (
  λ e. elim (Bool-cases (str_eq raw "personal")) [
    | inl personal ↦ absurd (cc)
    | inr other ↦ elim (Bool-cases (str_eq raw "team")) [
      | inl team ↦ ap some ((str_eq_iff raw "team").0 team)
      | inr neither ↦ absurd (cc)
    ]
  ],
  λ e. let is : raw ≡ "team" = some-inj raw "team" e in rw is refl,
)

driver_column :
    (column : Option String)
    → (stored_or (workspace_of_text column) team_workspace ≡ team_workspace)
      ↔ (column ≢ some "personal")
driver_column none = (λ e. cc, λ e. refl)
driver_column (some raw) = (
  λ e personal.
      (let is : raw ≡ "personal" = some-inj raw "personal" personal in
        let same = (str_eq_iff raw "personal").1 is in cc),
  λ e. elim (Bool-cases (str_eq raw "personal")) [
    | inl personal ↦ absurd (e (ap some ((str_eq_iff raw "personal").0 personal)))
    | inr other ↦ elim (Bool-cases (str_eq raw "team")) [
      | inl team ↦ rw (other, team) refl
      | inr neither ↦ rw (other, neither) refl
    ]
  ],
)

asks :
    (app_scope : AppScope) (user : User)
    → has_team_workspace_available_for_app user ≡ true
    → (stored_or
          (get_stored_app_workspace user app_scope)
          (get_default_app_workspace user app_scope)
        ≡ team_workspace)
      ↔ AsksForTeam app_scope user
unfolding get_stored_app_workspace get_default_app_workspace
asks admin_app user h = team_column user.admin_app_current_workspace
asks driver_app user h = rw h (driver_column user.driver_app_current_workspace)

admits-admin :
    (directory : Directory) (user : User)
    → admits_team directory user admin_app ≡ (
        has_team_workspace_available_for_app user
        && is_admin_team_role directory
            (row_by_id directory.roles (get_team_workspace_assignment user).1))
unfolding admits_team
admits-admin directory user = refl

admin_role-enter :
    (directory : Directory) (role_id : ℕ)
    → (is_admin_team_role directory (directory.roles role_id) ≡ true)
      ↔ MayEnter directory admin_app role_id
unfolding is_admin_team_role
admin_role-enter directory role_id =
    either_name (directory.lower (role_name_of (base_role_of (directory.roles role_id))))

assigned :
    (user : User)
    → has_team_workspace_available_for_app user ≡ true
    → (i : ℕ) × (j : ℕ) × (get_team_workspace_assignment user ≡ (some i, some j))
unfolding has_team_workspace_available_for_app
assigned user h = both_given (get_team_workspace_assignment user) h

has-assigned :
    (user : User) (i j : ℕ)
    → get_team_workspace_assignment user ≡ (some i, some j)
    → has_team_workspace_available_for_app user ≡ true
unfolding has_team_workspace_available_for_app
has-assigned user i j e = rw e refl

-- The guard on the team's workspace, for an assignment that is known.
admits-assigned :
    (directory : Directory) (app_scope : AppScope) (user : User) (i j : ℕ)
    → get_team_workspace_assignment user ≡ (some i, some j)
    → (admits_team directory user app_scope ≡ true) ↔ MayEnter directory app_scope j
admits-assigned directory driver_app user i j given =
    (λ e. tt, λ h. unfold admits_team in has-assigned user i j given)
admits-assigned directory admin_app user i j given =
    rw (admits-admin directory user, has-assigned user i j given, given)
      (admin_role-enter directory j)

admits-entry :
    (directory : Directory) (app_scope : AppScope) (user : User)
    → (admits_team directory user app_scope ≡ true) ↔ HasEntry directory app_scope user
admits-entry directory app_scope user = (
  λ e.
      let (i, j, given) = assigned user (admits-has directory user app_scope e) in
      (
        i,
        j,
        (get_team_workspace_assignment-TeamOf user i j).0 given,
        (admits-assigned directory app_scope user i j given).0 e,
      ),
  λ h.
      let given = (get_team_workspace_assignment-TeamOf user h.0 h.1).1 h.2 in
      (admits-assigned directory app_scope user h.0 h.1 given).1 h.3,
)

preferred-team :
    (directory : Directory) (user : User) (app_scope : AppScope)
    → resolved_workspace directory user app_scope ≡ team_workspace
    → stored_or (get_stored_app_workspace user app_scope) (get_default_app_workspace user app_scope)
      ≡ team_workspace
unfolding resolved_workspace
preferred-team directory user app_scope h = ground arith

team-preferred :
    (directory : Directory) (user : User) (app_scope : AppScope)
    → stored_or (get_stored_app_workspace user app_scope) (get_default_app_workspace user app_scope)
      ≡ team_workspace
    → admits_team directory user app_scope ≡ true
    → resolved_workspace directory user app_scope ≡ team_workspace
unfolding resolved_workspace
team-preferred directory user app_scope asked allowed = rw (resolved_workspace, asked, allowed) refl

-- The app of a user works in the team's workspace exactly where three things hold. The user's
-- column asks for it: for the admin app it says "team", for the driver app it does not say
-- "personal". The user has a team and a role in it: those kept for the team's workspace where both
-- are set, and else the current ones where these are not the personal ones. And for the admin app,
-- the name of this role in lower case is "admin" or "assistant".
pub resolve-team_iff :
    (directory : Directory) (user : User) (app_scope : AppScope)
    → ((resolve_app_workspace_context directory user app_scope).current_workspace ≡ team_workspace)
      ↔ (AsksForTeam app_scope user × HasEntry directory app_scope user)
unfolding resolve_app_workspace_context context_of
resolve-team_iff directory user app_scope = (
  λ h.
      let allowed = admits-team directory user app_scope h in
      (
        (asks app_scope user (admits-has directory user app_scope allowed)).0
            (preferred-team directory user app_scope h),
        (admits-entry directory app_scope user).0 allowed,
      ),
  λ h.
      let allowed = (admits-entry directory app_scope user).1 h.1 in
      let asked = (asks app_scope user (admits-has directory user app_scope allowed)).1 h.0 in
      team-preferred directory user app_scope asked allowed,
)
