-- ===== src/Shared/Text.antt =====
-- JavaScript strings that the code takes apart, as lists of code units, with the methods of
-- `String.prototype` that packages/shared/src uses.
use Prim.Native.Char.{code}
use Prim.Native.String.{String}
use strategy_builder_v.Prelude.{
  ℕ, zero, suc, ◌+◌, ◌-◌, List, [], ◌∷◌, ◌++◌, Bool, true, false, ◌&&◌, ◌||◌, map, leb, length,
  ◌==◌, if◌then◌else◌, ◌≡◌, arith, refl,
}

abbrev pub Text : Type 0
Text = List ℕ

-- `a === b`
abbrev pub same_text : Text → Text → Bool
same_text [] [] = true
same_text (a ∷ s) (b ∷ t) = a == b && same_text s t
same_text _ _ = false

pub same_text→eq : (s t : Text) → same_text s t ≡ true → s ≡ t
same_text→eq [] [] h = refl
same_text→eq [] (b ∷ t) h = cc
same_text→eq (a ∷ s) [] h = cc
same_text→eq (a ∷ s) (b ∷ t) h = ground (arith, same_text→eq s t)

pub same_text_refl : (s : Text) → same_text s s ≡ true
same_text_refl [] = refl
same_text_refl (a ∷ s) = ground (arith, same_text_refl s)

-- `toLowerCase` on ASCII letters; the texts that the code lowers are hexadecimal addresses.
abbrev pub lower_code : ℕ → ℕ
lower_code c = if leb 65 c && leb c 90 then c + 32 else c

abbrev pub to_lower : Text → Text
to_lower = map lower_code

-- `\d`
abbrev pub is_digit : ℕ → Bool
is_digit c = leb 48 c && leb c 57

-- What `trim` takes off: white space and line ends.
abbrev pub is_space : ℕ → Bool
is_space c =
    (leb 9 c && leb c 13)
    || c == 32
    || c == 160
    || c == 0x1680
    || (leb 0x2000 c && leb c 0x200a)
    || c == 0x2028
    || c == 0x2029
    || c == 0x202f
    || c == 0x205f
    || c == 0x3000
    || c == 0xfeff

unfoldable pub trim_start : Text → Text
trim_start [] = []
trim_start (c ∷ s) = if is_space c then trim_start s else c ∷ s

abbrev pub is_empty : Text → Bool
is_empty [] = true
is_empty (c ∷ s) = false

-- What is left of a text when the characters at its end that pass a test are taken off.
unfoldable pub strip_end : (ℕ → Bool) → Text → Text
strip_end p [] = []
strip_end p (c ∷ s) = let rest = strip_end p s in if is_empty rest && p c then [] else c ∷ rest

-- `s.replace(/^0+/, '')`
unfoldable pub strip_start : (ℕ → Bool) → Text → Text
strip_start p [] = []
strip_start p (c ∷ s) = if p c then strip_start p s else c ∷ s

unfoldable pub trim : Text → Text
unfolding trim_start strip_end
trim s = strip_end is_space (trim_start s)

abbrev pub repeat : ℕ → ℕ → Text
repeat zero c = []
repeat (suc n) c = c ∷ repeat n c

-- `s.padEnd(n, c)` and `s.padStart(n, c)`
abbrev pub pad_end : Text → ℕ → ℕ → Text
pad_end s n c = s ++ repeat (n - length s) c

abbrev pub pad_start : Text → ℕ → ℕ → Text
pad_start s n c = repeat (n - length s) c ++ s

-- The code units of a literal.
abbrev pub text : String → Text
text String.[] = []
text (String.◌∷◌ c s) = code c ∷ text s
