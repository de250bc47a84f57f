-- ===== src/Transitions/Cascade/Groups.antt =====
-- The route groups after the cascade: each affected one is in the state that it derives.
use next_mark_backend_v.Prelude.{
  ℕ, ◌≡◌, refl, sym, ◌∙◌, ap, subst, Bool, true, false, ◌⊎◌, inl, inr, Option, none, some, List, [],
  ◌∷◌, ◌==◌, arith, Bool-cases, Option-cases,
}
use next_mark_backend_v.Transitions.Counts.{
  update_group, with_counts, recompute_route_group_order_counts,
}
use next_mark_backend_v.Transitions.GroupState.{
  apply_route_group_state, derive_route_group_state, maybe_sync_route_group_state,
}
use next_mark_backend_v.Transitions.PlanState.{head, selected_or}
use next_mark_backend_v.Transitions.Model.{OrderRow, RouteGroup, Db, Names}
use next_mark_backend_v.Transitions.Cascade.{
  find_group, contains, sync_group, sync_found, sync_groups, sync_plan, sync_plans, affected_by,
  complete_plans, recompute_and_auto_complete_plans,
}

-- The state of a group is the one that its counters derive.
abbrev pub Derived : RouteGroup → Type 0
Derived g = g.state_id ≡ some (derive_route_group_state g [])

record AtGroup (i : ℕ) (gs : List RouteGroup) : Type 0 where
  at_group : (g : RouteGroup) → find_group i gs ≡ some g → Derived g

abbrev pub written : Bool → (RouteGroup → RouteGroup) → Option RouteGroup → Option RouteGroup
written b f none = none
written true f (some g) = some (f g)
written false f (some g) = some g

pub find_group-update_group :
    (i j : ℕ) (f : RouteGroup → RouteGroup)
    → ((g : RouteGroup) → (f g).id ≡ g.id)
    → (gs : List RouteGroup)
    → find_group i (update_group j f gs) ≡ written (j == i) f (find_group i gs)
unfolding find_group update_group
find_group-update_group i j f keeps [] = refl
find_group-update_group i j f keeps (g ∷ gs) =
    ground (arith, keeps g, find_group-update_group i j f keeps gs)

abbrev pub resync : RouteGroup → RouteGroup
resync g = (maybe_sync_route_group_state g []).0

pub resync-id : (g : RouteGroup) → (resync g).id ≡ g.id
unfolding maybe_sync_route_group_state apply_route_group_state
resync-id g = ground arith

-- Deriving does not read the state that is written.
pub resync-Derived : (g : RouteGroup) → Derived (resync g)
unfolding maybe_sync_route_group_state apply_route_group_state derive_route_group_state
resync-Derived g = ground arith

pub with_counts-id :
    (names : Names) (orders : List OrderRow) (g : RouteGroup)
    → (with_counts names orders g).id ≡ g.id
unfolding with_counts
with_counts-id names orders g = refl

-- Before the state is written, a group may be recounted: no other group changes.
record Counted (g : RouteGroup) (db after : Db) : Type 0 where
  groups : List RouteGroup
  is_written : after.groups ≡ update_group g.id resync groups
  others : (i : ℕ) → (g.id == i) ≡ false → find_group i groups ≡ find_group i db.groups

written-false : (f : RouteGroup → RouteGroup) (o : Option RouteGroup) → written false f o ≡ o
written-false f none = refl
written-false f (some g) = refl

sync_group-Counted :
    (names : Names) (g : RouteGroup) (db : Db) → Counted g db (sync_group names g db)
unfolding sync_group recompute_route_group_order_counts
sync_group-Counted names g db =
    elim (Option-cases (selected_or (head g.route_solutions) g.route_solutions)) [
      | inl e ↦ record { groups = db.groups; is_written = rw e refl; others = λ i ne. refl }
      | inr (rs, e) ↦ record {
        groups = update_group g.id (with_counts names db.orders) db.groups;
        is_written = rw e refl;
        others = λ i ne.
            find_group-update_group i g.id (with_counts names db.orders)
              (with_counts-id names db.orders) db.groups
            ∙ rw ne (written-false (with_counts names db.orders) (find_group i db.groups));
      }
    ]

written-Derived :
    (o : Option RouteGroup) (q : RouteGroup) → written true resync o ≡ some q → Derived q
written-Derived none q e = cc
written-Derived (some g) q e = let same : resync g ≡ q = cc in subst Derived same (resync-Derived g)

Counted-AtGroup :
    (i : ℕ) (g : RouteGroup) (db after : Db)
    → Counted g db after
    → (g.id ≡ i) ⊎ AtGroup i db.groups
    → AtGroup i after.groups
Counted-AtGroup i g db after c h = record {
  at_group = λ q e.
      let seen : written (g.id == i) resync (find_group i c.groups) ≡ some q =
        sym (find_group-update_group i g.id resync resync-id c.groups)
        ∙ ap (find_group i) (sym c.is_written)
        ∙ e in
      elim (Bool-cases (g.id == i)) [
        | inl here ↦ written-Derived (find_group i c.groups) q (rw here at seen)
        | inr away ↦
            let kept : find_group i db.groups ≡ some q =
              sym (c.others i away)
              ∙ sym (written-false resync (find_group i c.groups))
              ∙ (rw away at seen) in
            elim h [ inl same ↦ absurd (ground arith) | inr before ↦ before.at_group q kept ]
      ];
}

find_group-id :
    (i : ℕ) (gs : List RouteGroup) (g : RouteGroup) → find_group i gs ≡ some g → g.id ≡ i
unfolding find_group
find_group-id i [] g e = cc
find_group-id i (h ∷ gs) g e = ground (arith, find_group-id i gs g)

sync_found-AtGroup :
    (names : Names) (i j : ℕ) (db : Db) (found : Option RouteGroup)
    → find_group j db.groups ≡ found
    → (j ≡ i) ⊎ AtGroup i db.groups
    → AtGroup i (sync_found names db found).groups
unfolding sync_found
sync_found-AtGroup names i j db none e (inl same) = record {
  at_group = λ q e'. let missing : find_group i db.groups ≡ none = rw same at e in absurd (cc);
}
sync_found-AtGroup names i j db none e (inr before) = before
sync_found-AtGroup names i j db (some g) e (inl same) =
    Counted-AtGroup i g db (sync_group names g db) (sync_group-Counted names g db)
      (inl (find_group-id j db.groups g e ∙ same))
sync_found-AtGroup names i j db (some g) e (inr before) =
    Counted-AtGroup i g db (sync_group names g db) (sync_group-Counted names g db) (inr before)

sync_groups-keeps :
    (names : Names) (i : ℕ) (js : List ℕ) (db : Db)
    → AtGroup i db.groups
    → AtGroup i (sync_groups names js db).groups
unfolding sync_groups
sync_groups-keeps names i [] db h = h
sync_groups-keeps names i (j ∷ js) db h =
    sync_groups-keeps names i js (sync_found names db (find_group j db.groups))
      (sync_found-AtGroup names i j db (find_group j db.groups) refl (inr h))

sync_groups-AtGroup :
    (names : Names) (i : ℕ) (js : List ℕ) (db : Db)
    → contains i js ≡ true
    → AtGroup i (sync_groups names js db).groups
unfolding sync_groups contains
sync_groups-AtGroup names i [] db h = absurd (cc)
sync_groups-AtGroup names i (j ∷ js) db h = elim (Bool-cases (j == i)) [
  | inl same ↦
      sync_groups-keeps names i js (sync_found names db (find_group j db.groups))
        (sync_found-AtGroup names i j db (find_group j db.groups) refl (inl (ground arith)))
  | inr other ↦
      sync_groups-AtGroup names i js (sync_found names db (find_group j db.groups)) (rw other at h)
]

groups-sync_plans : (is : List ℕ) (db : Db) → (sync_plans is db).groups ≡ db.groups
unfolding sync_plans sync_plan
groups-sync_plans [] db = refl
groups-sync_plans (i ∷ is) db = groups-sync_plans is (sync_plan i db)

-- After the cascade an affected route group has exactly the state that its own counters, as the
-- cascade leaves them, derive for it; whatever state it was in before.
pub cascade-group :
    (names : Names) (changed : List OrderRow) (db : Db) (i : ℕ) (g : RouteGroup)
    → contains i (affected_by db changed).groups ≡ true
    → find_group i (recompute_and_auto_complete_plans names changed db).groups ≡ some g
    → g.state_id ≡ some (derive_route_group_state g [])
unfolding recompute_and_auto_complete_plans
cascade-group names changed db i g h e =
    let a = affected_by db changed in
    let counted = complete_plans names a.plans db in
    (sync_groups-AtGroup names i a.groups counted h).at_group g
      (ap (find_group i) (sym (groups-sync_plans a.plans (sync_groups names a.groups counted))) ∙ e)
