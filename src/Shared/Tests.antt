-- ===== src/Shared/Tests.antt =====
-- Runs of packages/shared/src.
use strategy_builder_v.Prelude.{◌≡◌, refl, arith, ◌*◌, ◌^◌}
use strategy_builder_v.Prelude.Result.{ok, err}
use strategy_builder_v.Shared.Text.{text}
use strategy_builder_v.Shared.Digits.{read, to_text}
use strategy_builder_v.Shared.Amount.{to_base_units, from_base_units, joined, too_many_places}
use strategy_builder_v.Shared.Amount.Laws.{
  to_base_units-value, to_base_units-too_many, to_base_units-from_base_units,
}

-- "1.5" of a token with six decimals.
to_base_units-value_example :
    to_base_units (joined (text "1") (text "5")) 6 ≡ ok (to_text (15 * 10 ^ 5))
unfolding read
to_base_units-value_example =
    to_base_units-value (text "1") (text "5") 6 (omega arith) (refl, tt) (refl, tt) (omega arith)

to_base_units-too_many_example :
    to_base_units (joined (text "0") (text "125")) 2
    ≡ err (too_many_places (joined (text "0") (text "125")) 2)
to_base_units-too_many_example =
    to_base_units-too_many (text "0") (text "125") 2 (omega arith) (refl, tt)
      (refl, (refl, (refl, tt))) (omega arith)

to_base_units-from_base_units_example :
    to_base_units (from_base_units 1050000 6) 6 ≡ ok (to_text 1050000)
to_base_units-from_base_units_example = to_base_units-from_base_units 1050000 6
