-- ===== src/Graph/Validate/Cycle/Colours.antt =====
-- How the colours change during the depth-first search.
use strategy_builder_v.Prelude.{
  ℕ, suc, ◌+◌, ◌≤◌, String, none, some, List, [], ◌∷◌, ◌≡◌, ◌⊎◌, refl, arith, length, inl, inr,
  Bool-cases, sym, ◌∙◌, ap, if◌then◌else◌,
}
use strategy_builder_v.Prelude.Names.{mem, get_key, set_key, get_key-set_key}
use strategy_builder_v.Graph.Validate.Cycle.{Colour, white, gray, black, Colours, all_white}
use text.Mathlib.Text.{◌==◌}

abbrev pub one_if_white : Colour → ℕ
one_if_white white = 1
one_if_white gray = 0
one_if_white black = 0

-- The number of white nodes.
abbrev pub whites : Colours → ℕ
whites [] = 0
whites ((id, colour) ∷ colours) = one_if_white colour + whites colours

pub whites-set_key :
    (id : String) (old new : Colour) (colours : Colours)
    → get_key id colours ≡ some old
    → whites (set_key id new colours) + one_if_white old ≡ whites colours + one_if_white new
whites-set_key id old new [] h = absurd (cc)
whites-set_key id old new ((k, v) ∷ colours) h = elim (Bool-cases (k == id)) [
  | inl same ↦
      let now : some v ≡ some old = (rw same at h) in
      let eq : one_if_white v ≡ one_if_white old = ap one_if_white (cc (now)) in
      rw same (omega (arith, eq))
  | inr differ ↦
      let rest = whites-set_key id old new colours (rw differ at h) in
      rw differ (omega (arith, rest))
]

whites-set_key_le :
    (id : String) (colours : Colours) → whites (set_key id white colours) ≤ suc (whites colours)
whites-set_key_le id [] = omega arith
whites-set_key_le id ((k, v) ∷ colours) = elim (Bool-cases (k == id)) [
  | inl same ↦ rw same (omega arith)
  | inr differ ↦ rw differ (omega (arith, whites-set_key_le id colours))
]

pub whites-all_white :
    (ids : List String) (colours : Colours)
    → whites (all_white ids colours) ≤ length ids + whites colours
unfolding all_white
whites-all_white [] colours = omega arith
whites-all_white (id ∷ ids) colours =
    omega (arith, whites-all_white ids (set_key id white colours), whites-set_key_le id colours)

pub get_key-all_white :
    (ids : List String) (x : String) (colours : Colours)
    → get_key x (all_white ids colours) ≡ (if mem x ids then some white else get_key x colours)
unfolding all_white
get_key-all_white [] x colours = refl
get_key-all_white (id ∷ ids) x colours =
    ground (
      arith,
      get_key-all_white ids x (set_key id white colours),
      get_key-set_key id x white colours,
    )

-- The colour of a node stays, or it turns from white to black.
abbrev pub IsMoved : Colours → Colours → String → Type 0
IsMoved c d x =
    (get_key x d ≡ get_key x c) ⊎ ((get_key x c ≡ some white) × (get_key x d ≡ some black))

pub IsMoved-trans : (c d e : Colours) (x : String) → IsMoved c d x → IsMoved d e x → IsMoved c e x
IsMoved-trans c d e x h k = elim h [
  | inl a ↦ elim k [ inl b ↦ inl (b ∙ a) | inr (b, b') ↦ inr (sym a ∙ b, b') ]
  | inr (a, a') ↦ elim k [ inl b ↦ inr (a, b ∙ a') | inr (b, b') ↦ absurd (cc) ]
]

pub IsMoved-black :
    (c d : Colours) (x : String)
    → IsMoved c d x
    → get_key x c ≡ some black
    → get_key x d ≡ some black
IsMoved-black c d x h e = elim h [ inl a ↦ a ∙ e | inr (a, a') ↦ a' ]

pub IsMoved-none :
    (c d : Colours) (x : String) → IsMoved c d x → get_key x c ≡ none → get_key x d ≡ none
IsMoved-none c d x h e = elim h [ inl a ↦ a ∙ e | inr (a, a') ↦ absurd (cc) ]

pub IsMoved-gray :
    (c d : Colours) (x : String) → IsMoved c d x → get_key x c ≡ some gray → get_key x d ≡ some gray
IsMoved-gray c d x h e = elim h [ inl a ↦ a ∙ e | inr (a, a') ↦ absurd (cc) ]

pub IsMoved-gray_back :
    (c d : Colours) (x : String) → IsMoved c d x → get_key x d ≡ some gray → get_key x c ≡ some gray
IsMoved-gray_back c d x h e = elim h [ inl a ↦ sym a ∙ e | inr (a, a') ↦ absurd (cc) ]
