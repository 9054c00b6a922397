-- ===== src/Shared/Digits/Laws.antt =====
-- Reading what was printed, and reading joined digits.
use strategy_builder_v.Prelude.{
  ℕ, zero, suc, ◌+◌, ◌-◌, ◌*◌, ◌/◌, ◌%◌, ◌^◌, ◌<◌, [], ◌∷◌, ◌++◌, ◌≡◌, refl, arith, length, true,
  ltb, Bool-cases, inl, inr, ap, ◌∙◌, All, All-append, length-append,
}
use native.Mathlib.Nat.{pow-suc}
use strategy_builder_v.Shared.Text.{Text, is_digit, repeat}
use strategy_builder_v.Shared.Digits.{read_from, read, digits_of, to_text}

read_from-eq : (acc : ℕ) (s : Text) → read_from acc s ≡ acc * 10 ^ length s + read_from 0 s
unfolding read_from
read_from-eq acc [] = omega arith
read_from-eq acc (c ∷ s) = omega (
  arith,
  read_from-eq (acc * 10 + (c - 48)) s,
  read_from-eq (0 + (c - 48)) s,
  ap (λ (t : ℕ). acc * t) (pow-suc 10 (length s)),
)

read_from-append : (acc : ℕ) (s t : Text) → read_from acc (s ++ t) ≡ read_from (read_from acc s) t
unfolding read_from
read_from-append acc [] t = refl
read_from-append acc (c ∷ s) t = read_from-append (acc * 10 + (c - 48)) s t

pub read-append : (s t : Text) → read (s ++ t) ≡ read s * 10 ^ length t + read t
unfolding read
read-append s t = read_from-append 0 s t ∙ read_from-eq (read_from 0 s) t

pub read-repeat_zero : (n : ℕ) → read (repeat n 48) ≡ 0
unfolding read read_from
read-repeat_zero zero = refl
read-repeat_zero (suc n) = read-repeat_zero n

pub length-repeat : (n c : ℕ) → length (repeat n c) ≡ n
length-repeat zero c = refl
length-repeat (suc n) c = ap suc (length-repeat n c)

-- Zeros in front change nothing.
pub read-zeros : (n : ℕ) (s : Text) → read (repeat n 48 ++ s) ≡ read s
read-zeros n s = rw (read-append, read-repeat_zero) (omega arith)

read-digits_of : (fuel n : ℕ) → n < fuel → read (digits_of fuel n) ≡ n
unfolding digits_of
read-digits_of zero n h = elim h [ ]
read-digits_of (suc fuel) n h = elim (Bool-cases (ltb n 10)) [
  | inl small ↦ rw small (unfold read read_from in omega arith)
  | inr big ↦
      let ih = read-digits_of fuel (n / 10) (ground arith) in
      rw (big, read-append, ih) (unfold read read_from in omega arith)
]

-- Reading a printed number gives it back.
pub read-to_text : (n : ℕ) → read (to_text n) ≡ n
unfolding to_text
read-to_text n = read-digits_of (suc n) n (omega arith)

abbrev pub AllDigits : Text → Type 0
AllDigits = All (λ c. is_digit c ≡ true)

digits_of-AllDigits : (fuel n : ℕ) → AllDigits (digits_of fuel n)
unfolding digits_of
digits_of-AllDigits zero n = tt
digits_of-AllDigits (suc fuel) n = elim (Bool-cases (ltb n 10)) [
  | inl small ↦ rw small (ground arith, tt)
  | inr big ↦ rw big (
      All-append (λ c. is_digit c ≡ true) (digits_of fuel (n / 10)) ((n % 10 + 48) ∷ [])
        (digits_of-AllDigits fuel (n / 10)) (ground arith, tt))
]

pub to_text-AllDigits : (n : ℕ) → AllDigits (to_text n)
unfolding to_text
to_text-AllDigits n = digits_of-AllDigits (suc n) n

length-digits_of : (fuel n : ℕ) → 0 < fuel → 0 < length (digits_of fuel n)
unfolding digits_of
length-digits_of zero n h = elim h [ ]
length-digits_of (suc fuel) n h = elim (Bool-cases (ltb n 10)) [
  | inl small ↦ rw small (omega arith)
  | inr big ↦ rw (big, length-append) (omega arith)
]

pub length-to_text : (n : ℕ) → 0 < length (to_text n)
unfolding to_text
length-to_text n = length-digits_of (suc n) n (omega arith)
