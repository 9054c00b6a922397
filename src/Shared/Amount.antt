-- ===== src/Shared/Amount.antt =====
-- packages/shared/src/amount.ts: a human amount such as "1.5" and the base units of its token. The
-- number of decimals is a natural number, so the check that it is one always passes.
pub mod Laws
use strategy_builder_v.Prelude.{
  ℕ, zero, suc, ◌+◌, ◌-◌, List, [], ◌∷◌, ◌++◌, Bool, true, false, ◌&&◌, ◌||◌, map, leb, ltb, length,
  ◌==◌, Option, some, none, all, take, drop, if◌then◌else◌,
}
use strategy_builder_v.Prelude.Result.{Result, ok, err, ◌>>=◌}
use strategy_builder_v.Shared.Text.{
  Text, is_digit, trim, strip_start, strip_end, pad_end, pad_start,
}
use strategy_builder_v.Shared.Digits.{read, to_text}

pub data AmountError : Type 0 where
  invalid_amount : Text → AmountError
  too_many_places : Text → ℕ → AmountError

-- The digits at the front, and what follows them.
unfoldable pub span_digits : Text → Text × Text
span_digits [] = ([], [])
span_digits (c ∷ s) =
    let (digits, rest) = span_digits s in if is_digit c then (c ∷ digits, rest) else ([], c ∷ s)

-- The fraction after the whole part: none, or a dot and digits to the end.
unfoldable pub fraction : Text → Option Text
fraction [] = some []
fraction (c ∷ []) = none
fraction (c ∷ d ∷ s) = if c == 46 && all is_digit (d ∷ s) then some (d ∷ s) else none

abbrev with_whole : Text → Option Text → Option (Text × Text)
with_whole [] frac = none
with_whole whole none = none
with_whole whole (some frac) = some (whole, frac)

-- `AMOUNT_RE.test(s)`, that is `/^\d+(\.\d+)?$/`, and then `s.split('.')`.
unfoldable pub amount_parts : Text → Option (Text × Text)
unfolding span_digits fraction
amount_parts s = let (whole, rest) = span_digits s in with_whole whole (fraction rest)

or_zero : Text → Text
or_zero [] = 48 ∷ []
or_zero (c ∷ s) = c ∷ s

abbrev pub is_zero_code : ℕ → Bool
is_zero_code c = c == 48

-- `BigInt(combined).toString()`, for the digits of `combined` without the zeros in front
base_units : Text → Text → ℕ → Text
unfolding or_zero strip_start
base_units whole frac decimals =
    to_text (read (or_zero (strip_start is_zero_code (whole ++ pad_end frac decimals 48))))

scaled : Text → ℕ → Option (Text × Text) → Result AmountError Text
scaled value decimals none = err (invalid_amount value)
scaled value decimals (some (whole, frac)) =
    if ltb decimals (length frac)
    then err (too_many_places value decimals)
    else ok (base_units whole frac decimals)

unfoldable pub to_base_units : Text → ℕ → Result AmountError Text
unfolding scaled base_units
to_base_units value decimals = scaled value decimals (amount_parts (trim value))

pub joined : Text → Text → Text
joined whole [] = whole
joined whole (c ∷ frac) = whole ++ 46 ∷ c ∷ frac

-- `fromBaseUnits`, of the number that `BigInt(base)` is.
unfoldable pub from_base_units : ℕ → ℕ → Text
unfolding joined
from_base_units n zero = to_text n
from_base_units n (suc d) =
    let decimals = suc d in
    let digits = pad_start (to_text n) (decimals + 1) 48 in
    let whole = take (length digits - decimals) digits in
    let frac = strip_end is_zero_code (drop (length digits - decimals) digits) in joined whole frac
