-- ===== src/Shared/Digits.antt =====
-- Decimal texts and the numbers that they stand for: `BigInt(text)` and `n.toString()`.
pub mod Laws
use strategy_builder_v.Prelude.{
  ℕ, zero, suc, ◌+◌, ◌-◌, ◌*◌, ◌/◌, ◌%◌, List, [], ◌∷◌, ◌++◌, Bool, ◌&&◌, ltb, all, if◌then◌else◌,
}
use strategy_builder_v.Shared.Text.{Text, is_digit}

-- The number that a run of decimal digits stands for.
unfoldable pub read_from : ℕ → Text → ℕ
read_from acc [] = acc
read_from acc (c ∷ s) = read_from (acc * 10 + (c - 48)) s

unfoldable pub read : Text → ℕ
unfolding read_from
read s = read_from 0 s

-- The decimal digits of a number, on fuel: one unit for each digit.
unfoldable pub digits_of : ℕ → ℕ → Text
digits_of zero n = []
digits_of (suc fuel) n =
    let more = digits_of fuel (n / 10) ++ (n % 10 + 48) ∷ [] in
    if ltb n 10 then (n + 48) ∷ [] else more

unfoldable pub to_text : ℕ → Text
unfolding digits_of
to_text n = digits_of (suc n) n
