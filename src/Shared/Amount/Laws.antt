-- ===== src/Shared/Amount/Laws.antt =====
-- The value of an amount in base units, and the way back.
use strategy_builder_v.Prelude.{
  ◌==◌, ℕ, zero, suc, ◌+◌, ◌-◌, ◌*◌, ◌^◌, ◌<◌, ◌≤◌, [], ◌∷◌, ◌++◌, ◌≡◌, refl, arith, length, all,
  true, false, ltb, if◌then◌else◌, Bool-cases, inl, inr, ap, ◌∙◌, sym, All, All-append, some,
  length-append, take-append-drop, length-drop, take, drop, ◌&&◌, Bool, All-map, append_assoc,
  All-take, append-nil, All-drop,
}
use strategy_builder_v.Prelude.Result.{ok, err}
use strategy_builder_v.Shared.Text.{
  Text, is_digit, is_space, trim, trim_start, strip_start, strip_end, repeat, pad_end, is_empty,
}
use strategy_builder_v.Shared.Digits.{read, read_from, to_text}
use strategy_builder_v.Shared.Digits.Laws.{
  read-append, read-repeat_zero, read-zeros, read-to_text, AllDigits, to_text-AllDigits,
  length-to_text, length-repeat,
}
use strategy_builder_v.Shared.Amount.{
  too_many_places, span_digits, amount_parts, or_zero, is_zero_code, base_units, to_base_units,
  joined, from_base_units,
}

strip_end-none : (p : ℕ → Bool) (s : Text) → All (λ c. p c ≡ false) s → strip_end p s ≡ s
unfolding strip_end
strip_end-none p [] h = refl
strip_end-none p (c ∷ s) h = rw (strip_end-none p s h.1) (ground (arith, h.0))

trim-none : (s : Text) → All (λ c. is_space c ≡ false) s → trim s ≡ s
unfolding trim trim_start
trim-none [] h = refl
trim-none (c ∷ s) h = rw h.0 (strip_end-none is_space (c ∷ s) h)

is_space_of_digit : (c : ℕ) → is_digit c ≡ true → is_space c ≡ false
is_space_of_digit c h = ground arith

digits-NoSpace : (s : Text) → AllDigits s → All (λ c. is_space c ≡ false) s
digits-NoSpace s h = All-map _ _ is_space_of_digit s h

trim-joined :
    (whole frac : Text)
    → AllDigits whole
    → AllDigits frac
    → trim (joined whole frac) ≡ joined whole frac
unfolding joined
trim-joined whole [] h k = trim-none whole (digits-NoSpace whole h)
trim-joined whole (c ∷ frac) h k = trim-none (whole ++ 46 ∷ c ∷ frac) (
    All-append _ whole (46 ∷ c ∷ frac) (digits-NoSpace whole h) (refl, digits-NoSpace (c ∷ frac) k))

all-digits : (s : Text) → AllDigits s → all is_digit s ≡ true
all-digits [] h = refl
all-digits (c ∷ s) h = rw (h.0, all-digits s h.1)

span_digits-all : (s : Text) → AllDigits s → span_digits s ≡ (s, [])
unfolding span_digits
span_digits-all [] h = refl
span_digits-all (c ∷ s) h = rw (span_digits-all s h.1, h.0)

span_digits-dot : (s t : Text) → AllDigits s → span_digits (s ++ 46 ∷ t) ≡ (s, 46 ∷ t)
unfolding span_digits
span_digits-dot [] t h = refl
span_digits-dot (c ∷ s) t h = rw (span_digits-dot s t h.1, h.0)

amount_parts-joined :
    (c : ℕ) (whole frac : Text)
    → AllDigits (c ∷ whole)
    → AllDigits frac
    → amount_parts (joined (c ∷ whole) frac) ≡ some (c ∷ whole, frac)
unfolding amount_parts joined
amount_parts-joined c whole [] h k = rw (span_digits-all (c ∷ whole) h)
amount_parts-joined c whole (d ∷ frac) h k =
    rw (span_digits-dot (c ∷ whole) (d ∷ frac) h, k.0, all-digits frac k.1)

read-strip_start : (s : Text) → read (or_zero (strip_start is_zero_code s)) ≡ read s
unfolding or_zero strip_start read read_from
read-strip_start [] = refl
read-strip_start (c ∷ s) = elim (Bool-cases (c == 48)) [
  | inl z ↦
      let e : c ≡ 48 = ground arith in
      rw z (read-strip_start s ∙ sym (ap (λ (x : ℕ). read_from (0 * 10 + (x - 48)) s) e))
  | inr n ↦ rw n
]

-- `base_units` is the number that the padded digits stand for.
base_units-eq :
    (whole frac : Text) (d : ℕ)
    → base_units whole frac d ≡ to_text (read (whole ++ pad_end frac d 48))
unfolding base_units
base_units-eq whole frac d = ap to_text (read-strip_start (whole ++ pad_end frac d 48))

to_base_units-joined :
    (whole frac : Text) (d : ℕ)
    → 0 < length whole
    → AllDigits whole
    → AllDigits frac
    → length frac ≤ d
    → to_base_units (joined whole frac) d ≡ ok (to_text (read (whole ++ pad_end frac d 48)))
unfolding to_base_units
to_base_units-joined [] frac d pos h k fits = absurd (omega arith)
to_base_units-joined (c ∷ whole) frac d pos h k fits =
    let fits' : ltb d (length frac) ≡ false = ground arith in
    rw (trim-joined (c ∷ whole) frac h k, amount_parts-joined c whole frac h k, fits')
      (ap ok (base_units-eq (c ∷ whole) frac d))

-- The zeros that are taken off the end are the padding.
strip_end-repeat_step :
    (c : ℕ) (s r : Text)
    → pad_end r (length s) 48 ≡ s
    → pad_end (if is_empty r && c == 48 then [] else c ∷ r) (suc (length s)) 48 ≡ c ∷ s
strip_end-repeat_step c s [] ih = elim (Bool-cases (c == 48)) [
  | inl z ↦
      let c_zero : c ≡ 48 = ground arith in
      let all_left : suc (length s) - 0 ≡ suc (length s - 0) = omega arith in
      rw (z, all_left) (ap (λ l. 48 ∷ l) ih ∙ ap (λ x. x ∷ s) (sym c_zero))
  | inr n ↦
      let one_less : suc (length s) - 1 ≡ length s - 0 = omega arith in
      rw (n, one_less) (ap (λ l. c ∷ l) ih)
]
strip_end-repeat_step c s (x ∷ r) ih =
    let same : suc (length s) - suc (suc (length r)) ≡ length s - suc (length r) = omega arith in
    rw same (ap (λ l. c ∷ l) ih)

strip_end-repeat : (s : Text) → pad_end (strip_end is_zero_code s) (length s) 48 ≡ s
unfolding strip_end
strip_end-repeat [] = refl
strip_end-repeat (c ∷ s) = strip_end-repeat_step c s (strip_end is_zero_code s) (strip_end-repeat s)

-- An amount of `whole` and `frac` digits, with no more places than the token has decimals, is
-- converted to exactly `whole.frac * 10 ^ decimals` base units, printed without leading zeros.
pub to_base_units-value :
    (whole frac : Text) (d : ℕ)
    → 0 < length whole
    → AllDigits whole
    → AllDigits frac
    → length frac ≤ d
    → to_base_units (joined whole frac) d
      ≡ ok (to_text (read (whole ++ frac) * 10 ^ (d - length frac)))
to_base_units-value whole frac d pos h k fits =
    to_base_units-joined whole frac d pos h k fits
    ∙ ap (λ n. ok (to_text n))
        (ap read (sym (append_assoc whole frac _))
          ∙ read-append (whole ++ frac) (repeat (d - length frac) 48)
          ∙ rw (read-repeat_zero, length-repeat) (omega arith))

-- An amount with more places than the token has decimals is refused.
pub to_base_units-too_many :
    (whole frac : Text) (d : ℕ)
    → 0 < length whole
    → AllDigits whole
    → AllDigits frac
    → d < length frac
    → to_base_units (joined whole frac) d ≡ err (too_many_places (joined whole frac) d)
unfolding to_base_units
to_base_units-too_many [] frac d pos h k over = absurd (omega arith)
to_base_units-too_many (c ∷ whole) frac d pos h k over =
    let over' : ltb d (length frac) ≡ true = ground arith in
    rw (trim-joined (c ∷ whole) frac h k, amount_parts-joined c whole frac h k, over')

strip_end-AllDigits : (p : ℕ → Bool) (s : Text) → AllDigits s → AllDigits (strip_end p s)
unfolding strip_end
strip_end-AllDigits p [] h = tt
strip_end-AllDigits p (c ∷ s) h = ground (arith, strip_end-AllDigits p s h.1)

repeat-AllDigits : (n : ℕ) → AllDigits (repeat n 48)
repeat-AllDigits zero = tt
repeat-AllDigits (suc n) = (refl, repeat-AllDigits n)

-- Digits that are cut `d` places before their end are read back whole.
to_base_units_of_cut :
    (digits : Text) (d : ℕ)
    → AllDigits digits
    → d < length digits
    → to_base_units
        (joined
          (take (length digits - d) digits)
          (strip_end is_zero_code (drop (length digits - d) digits)))
        d
      ≡ ok (to_text (read digits))
to_base_units_of_cut digits d h long =
    let cut : ℕ = length digits - d in
    let places : length (drop cut digits) ≡ d = omega (arith, length-drop cut digits) in
    let whole : 0 < length (take cut digits) = omega (
      arith,
      length-append (take cut digits) (drop cut digits),
      ap length (take-append-drop cut digits),
    ) in
    let padded : pad_end (strip_end is_zero_code (drop cut digits)) d 48 ≡ drop cut digits =
      ap (λ n. pad_end (strip_end is_zero_code (drop cut digits)) n 48) (sym places)
      ∙ strip_end-repeat (drop cut digits) in
    let fits : length (strip_end is_zero_code (drop cut digits)) ≤ d = omega (
      arith,
      length-append (strip_end is_zero_code (drop cut digits))
          (repeat (d - length (strip_end is_zero_code (drop cut digits))) 48),
      ap length padded,
    ) in
    to_base_units-joined (take cut digits) _ d whole (All-take _ cut digits h)
      (strip_end-AllDigits is_zero_code (drop cut digits) (All-drop _ cut digits h)) fits
    ∙ ap (λ t. ok (to_text (read (take cut digits ++ t)))) padded
    ∙ ap (λ t. ok (to_text (read t))) (take-append-drop cut digits)

-- Base units that are shown as an amount are read back as the same base units.
pub to_base_units-from_base_units :
    (n d : ℕ) → to_base_units (from_base_units n d) d ≡ ok (to_text n)
unfolding from_base_units joined
to_base_units-from_base_units n zero =
    to_base_units-joined (to_text n) [] 0 (length-to_text n) (to_text-AllDigits n) tt (omega arith)
    ∙ ap (λ t. ok (to_text (read t))) (append-nil (to_text n))
    ∙ ap (λ k. ok (to_text k)) (read-to_text n)
to_base_units-from_base_units n (suc d) =
    let zeros : ℕ = suc d + 1 - length (to_text n) in
    to_base_units_of_cut (repeat zeros 48 ++ to_text n) (suc d)
      (All-append _ (repeat zeros 48) (to_text n) (repeat-AllDigits zeros) (to_text-AllDigits n))
      (omega (arith, length-append (repeat zeros 48) (to_text n), length-repeat zeros 48))
    ∙ ap (λ k. ok (to_text k)) (read-zeros zeros (to_text n) ∙ read-to_text n)
