-- ===== src/Workspaces/Assignment.antt =====
-- The workspace of a team that a user has.
use next_mark_backend_v.Prelude.{
  ℕ, arith, ◌≡◌, ◌↔◌, ◌⊎◌, refl, sym, ap, ◌∙◌, inl, inr, true, ◌&&◌, ◌||◌, not, Option, none, some,
  Bool-cases, if◌then◌else◌,
}
use next_mark_backend_v.Prelude.Rows.{is_some}
use next_mark_backend_v.Transitions.Ids.{same_id}
use next_mark_backend_v.Workspaces.{
  User, get_personal_workspace_assignment, get_team_workspace_assignment,
}

-- Two columns are given, and they are not those of the personal workspace.
abbrev pub Current : Option ℕ → Option ℕ → Option ℕ → Option ℕ → ℕ → ℕ → Type 0
Current team role personal_team personal_role team_id role_id =
    (team ≡ some team_id)
    × (role ≡ some role_id)
    × (¬ ((personal_team ≡ some team_id) × (personal_role ≡ some role_id)))

-- The team and the role that the user has in a team's workspace: those of the columns kept for it
-- where both are set, and else those of the user now, unless these are the personal ones.
abbrev pub TeamOf : User → ℕ → ℕ → Type 0
TeamOf user team_id role_id =
    let personal = get_personal_workspace_assignment user in
    ((user.team_workspace_team_id ≡ some team_id) × (user.team_workspace_role_id ≡ some role_id))
    ⊎ (((user.team_workspace_team_id ≡ none) ⊎ (user.team_workspace_role_id ≡ none))
        × Current user.team_id user.user_role_id personal.0 personal.1 team_id role_id)

abbrev Pair : Type 0
Pair = Option ℕ × Option ℕ

abbrev nowhere : Pair
nowhere = (none, none)

abbrev current_pair : Option ℕ → Option ℕ → Option ℕ → Option ℕ → Pair
current_pair team role personal_team personal_role =
    if not (is_some team) || not (is_some role)
    then nowhere
    else if same_id team personal_team && same_id role personal_role
    then nowhere
    else (team, role)

same_id-eq : (i : ℕ) (o : Option ℕ) → (same_id (some i) o ≡ true) ↔ (o ≡ some i)
same_id-eq i none = (λ e. cc, λ e. cc)
same_id-eq i (some j) = (λ e. ground arith, λ e. ground arith)

both_same :
    (a b : ℕ) (p q : Option ℕ)
    → p ≡ some a
    → q ≡ some b
    → (same_id (some a) p && same_id (some b) q) ≡ true
both_same a b p q e f =
    let first = (same_id-eq a p).1 e in let second = (same_id-eq b q).1 f in ground arith

current_pair-Current :
    (team role p q : Option ℕ) (t r : ℕ)
    → (current_pair team role p q ≡ (some t, some r)) ↔ Current team role p q t r
current_pair-Current none role p q t r = (λ e. absurd (cc), λ h. absurd (cc))
current_pair-Current (some a) none p q t r = (λ e. absurd (cc), λ h. absurd (cc))
current_pair-Current (some a) (some b) p q t r =
    elim (Bool-cases (same_id (some a) p && same_id (some b) q)) [
      | inl same ↦ (
        λ e. absurd (cc),
        λ h.
            let first : same_id (some a) p ≡ true = ground arith in
            let second : same_id (some b) q ≡ true = ground arith in
            absurd (h.2 ((same_id-eq a p).0 first ∙ h.0, (same_id-eq b q).0 second ∙ h.1)),
      )
      | inr other ↦ (
        λ e.
            let pair : ◌≡◌ {A = Pair} (some a, some b) (some t, some r) = rw other at e in
            let team = ap (λ x. x.0) pair in
            let role = ap (λ x. x.1) pair in
            (
              team,
              role,
              λ h.
                  let both = both_same a b p q (h.0 ∙ sym team) (h.1 ∙ sym role) in
                  cc (both, other),
            ),
        λ h. rw other (λ i. (h.0 i, h.1 i)),
      )
    ]

-- The assignment is a team and a role exactly where the user has them in a team's workspace.
pub get_team_workspace_assignment-TeamOf :
    (user : User) (team_id role_id : ℕ)
    → (get_team_workspace_assignment user ≡ (some team_id, some role_id))
      ↔ TeamOf user team_id role_id
unfolding get_team_workspace_assignment
get_team_workspace_assignment-TeamOf user team_id role_id =
    kept_or_current user.team_workspace_team_id user.team_workspace_role_id
  where
    personal : Pair
    personal = get_personal_workspace_assignment user

    current :
        (current_pair user.team_id user.user_role_id personal.0 personal.1
          ≡ (some team_id, some role_id))
        ↔ Current user.team_id user.user_role_id personal.0 personal.1 team_id role_id
    current =
        current_pair-Current user.team_id user.user_role_id personal.0 personal.1 team_id role_id

    kept_or_current :
        (kept_team kept_role : Option ℕ)
        → ((if is_some kept_team && is_some kept_role
              then (kept_team, kept_role)
              else current_pair user.team_id user.user_role_id personal.0 personal.1)
            ≡ (some team_id, some role_id))
          ↔ (((kept_team ≡ some team_id) × (kept_role ≡ some role_id))
              ⊎ (((kept_team ≡ none) ⊎ (kept_role ≡ none))
                  × Current user.team_id user.user_role_id personal.0 personal.1 team_id role_id))
    kept_or_current none kept_role = (
      λ e. inr (inl refl, current.0 e),
      λ h. elim h [ inl k ↦ absurd (cc) | inr c ↦ current.1 c.1 ],
    )
    kept_or_current (some i) none = (
      λ e. inr (inr refl, current.0 e),
      λ h. elim h [ inl k ↦ absurd (cc) | inr c ↦ current.1 c.1 ],
    )
    kept_or_current (some i) (some j) = (
      λ e. inl (ap (λ x. x.0) e, ap (λ x. x.1) e),
      λ h. elim h [
        | inl k ↦ λ n. (k.0 n, k.1 n)
        | inr c ↦ absurd (elim c.0 [ inl e ↦ cc | inr e ↦ cc ])
      ],
    )
