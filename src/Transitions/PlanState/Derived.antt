-- ===== src/Transitions/PlanState/Derived.antt =====
-- What the derived plan state says of the plan's groups.
use next_mark_backend_v.Prelude.{
  ℕ, ◌≡◌, ◌≢◌, ◌↔◌, refl, sym, ◌∙◌, true, inl, inr, Option, none, some, List, [], ◌∷◌, arith,
  Bool-cases,
}
use next_mark_backend_v.Prelude.Sorting.{All}
use next_mark_backend_v.Transitions.Ids.{same_id}
use next_mark_backend_v.Transitions.Counts.{groups_of}
use next_mark_backend_v.Transitions.Model.{RouteGroup}
use next_mark_backend_v.Transitions.PlanState.{
  has_state, state_set, is_shared_state, sole_state, derive_plan_state_from_groups,
}

same_id_iff : (a b : Option ℕ) → (same_id a b ≡ true) ↔ (a ≡ b)
same_id_iff none none = (λ e. refl, λ e. refl)
same_id_iff none (some j) = (λ e. cc, λ e. cc)
same_id_iff (some i) none = (λ e. cc, λ e. cc)
same_id_iff (some i) (some j) = (λ e. ground arith, λ e. ground arith)

abbrev HasState : Option ℕ → RouteGroup → Type 0
HasState s g = g.state_id ≡ s

state_set-ne-nil : (g : RouteGroup) (gs : List RouteGroup) → state_set (g ∷ gs) ≢ []
unfolding state_set has_state
state_set-ne-nil g [] e = cc
state_set-ne-nil g (h ∷ gs) e = ground (arith, state_set-ne-nil h gs)

has_state-single : (a s : Option ℕ) → has_state a (s ∷ []) ≡ same_id a s
unfolding has_state
has_state-single a s = ground arith

-- The set is a single state exactly when all groups have that state.
state_set-single :
    (s : Option ℕ) (g : RouteGroup) (gs : List RouteGroup)
    → state_set (g ∷ gs) ≡ s ∷ []
    → All (HasState s) (g ∷ gs)
unfolding state_set
state_set-single s g [] e = (ground (arith, state_set-ne-nil g []), tt)
state_set-single s g (h ∷ gs) e = elim (Bool-cases (has_state g.state_id (state_set (h ∷ gs)))) [
  | inl seen ↦
      let rest : state_set (h ∷ gs) ≡ s ∷ [] = rw seen at e in
      (
        (same_id_iff g.state_id s).0 (sym (has_state-single g.state_id s) ∙ (rw rest at seen)),
        state_set-single s h gs rest,
      )
  | inr new ↦
      let e' : g.state_id ∷ state_set (h ∷ gs) ≡ s ∷ [] = rw new at e in
      absurd (state_set-ne-nil h gs (cc))
]

single-state_set :
    (s : Option ℕ) (g : RouteGroup) (gs : List RouteGroup)
    → All (HasState s) (g ∷ gs)
    → state_set (g ∷ gs) ≡ s ∷ []
unfolding state_set has_state
single-state_set s g [] h = ground arith
single-state_set s g (k ∷ gs) h =
    let rest = single-state_set s k gs h.1 in
    rw rest (rw (has_state-single g.state_id s) (rw ((same_id_iff g.state_id s).1 h.0)))

sole_state-cases :
    (ts : List (Option ℕ)) (s : ℕ) → is_shared_state s ≡ true → sole_state ts ≡ s → ts ≡ some s ∷ []
unfolding sole_state
sole_state-cases [] s h e = ground arith
sole_state-cases (none ∷ ts) s h e = ground arith
sole_state-cases (some t ∷ []) s h e = ground arith
sole_state-cases (some t ∷ u ∷ ts) s h e = ground arith

-- For Completed, Processing and Ready: a plan derives that state exactly when it has groups and
-- every one of them is in that state.
pub derive_plan_state_from_groups_iff :
    (plan_id s : ℕ) (groups : List RouteGroup)
    → is_shared_state s ≡ true
    → (derive_plan_state_from_groups plan_id groups ≡ s)
      ↔ ((groups_of plan_id groups ≢ []) × All (HasState (some s)) (groups_of plan_id groups))
unfolding derive_plan_state_from_groups sole_state
derive_plan_state_from_groups_iff plan_id s groups shared = go (groups_of plan_id groups)
  where
    go :
        (gs : List RouteGroup)
        → (sole_state (state_set gs) ≡ s) ↔ ((gs ≢ []) × All (HasState (some s)) gs)
    go [] = (λ e. ground arith, λ h. absurd (h.0 refl))
    go (g ∷ gs) = (
      λ e. (
        λ n. cc,
        state_set-single (some s) g gs (sole_state-cases (state_set (g ∷ gs)) s shared e),
      ),
      λ h. rw (single-state_set (some s) g gs h.1) (rw shared),
    )
