-- ===== src/Team.antt =====
-- Delivery_app_BK/services/utils/team_scopes.py: which rows a request may touch, with the part of
-- `ServiceContext` (Delivery_app_BK/services/context.py) that this reads.
use next_mark_backend_v.Prelude.{ℕ, Bool, Option, none, some}
use next_mark_backend_v.Result.{Result, ok, err, permission_denied, ◌>>=◌, guard}
use next_mark_backend_v.Transitions.Ids.{id_is}

pub record Context : Type 0 where
  pub team_id : Option ℕ
  pub check_team_id : Bool

unfoldable pub require_team_id : Context → Result ℕ
require_team_id ctx = elim ctx.team_id [ none ↦ err permission_denied | some t ↦ ok t ]

-- For a model with a `team_id` column.
unfoldable pub ensure_instance_in_team : Option ℕ → Context → Result (Unit {0})
unfolding require_team_id
ensure_instance_in_team instance_team ctx = do
  team_id ← require_team_id ctx
  guard (id_is instance_team team_id) permission_denied
