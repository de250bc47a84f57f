-- ===== src/Transitions/Ids.antt =====
-- Tests of nullable database ids.
use next_mark_backend_v.Prelude.{ℕ, Bool, false, true, Option, none, some, ◌==◌}

-- A nullable id against a constant: `None == k` is false.
abbrev pub id_is : Option ℕ → ℕ → Bool
id_is none k = false
id_is (some i) k = i == k

-- `==` of two nullable ids.
abbrev pub same_id : Option ℕ → Option ℕ → Bool
same_id none none = true
same_id none (some _) = false
same_id (some _) none = false
same_id (some i) (some j) = i == j
