-- ===== src/Prelude/Strings.antt =====
-- Template strings: joined strings, and numbers in decimal digits.
use Prim.Native.String.{String, ◌++◌, slice}
use Prim.Native.Nat.{ℕ, ◌+◌, zero, suc, ◌/◌, ◌%◌}
use strategy_builder_v.Prelude.Tests.{ltb, if◌then◌else◌}

-- `${s}${t}`
abbrev pub concat : String → String → String
concat s t = s ++ t

abbrev digit : ℕ → String
digit n = slice "0123456789" n (n + 1)

-- On fuel: one unit for each digit.
unfoldable pub decimal_on : ℕ → ℕ → String
decimal_on zero n = ""
decimal_on (suc fuel) n =
    let more = decimal_on fuel (n / 10) in if ltb n 10 then digit n else more ++ digit (n % 10)

-- `${n}`
unfoldable pub decimal : ℕ → String
unfolding decimal_on
decimal n = decimal_on (suc n) n
