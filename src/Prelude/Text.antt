-- ===== src/Prelude/Text.antt =====
-- Texts that the program formats: decimal numbers, and `value or default`.
use Prim.Native.String.{◌++◌}
use next_mark_backend_v.Prelude.{
  ℕ, zero, suc, ◌+◌, ◌/◌, ◌%◌, String, [], ◌∷◌, Option, none, some, ltb, if◌then◌else◌, get_or,
  str_eq,
}

digit : ℕ → String
digit d = get_or ("0" ∷ "1" ∷ "2" ∷ "3" ∷ "4" ∷ "5" ∷ "6" ∷ "7" ∷ "8" ∷ "9" ∷ []) d "?"

decimal_fuel : ℕ → ℕ → String
decimal_fuel zero n = ""
decimal_fuel (suc f) n =
    let rest = decimal_fuel f (n / 10) in if ltb n 10 then digit n else rest ++ digit (n % 10)

-- `str(n)`: a number has at most as many digits as its value, plus one.
unfoldable pub decimal : ℕ → String
unfolding digit decimal_fuel
decimal n = decimal_fuel (n + 1) n

-- `value or default` for a nullable text: the empty text is false.
unfoldable pub text_or : Option String → String → String
text_or none default = default
text_or (some s) default = if str_eq s "" then default else s
