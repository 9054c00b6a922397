-- ===== src/Mcp/Confirmation/Page/Host.antt =====
-- Which hosts the page of packages/mcp/src/confirmation.ts answers.
use strategy_builder_v.Prelude.{
  ℕ, Option, none, some, [], ◌∷◌, ◌++◌, Bool, true, false, ◌&&◌, ◌||◌, ◌==◌, all, ◌≡◌, ◌⊎◌, inl,
  inr, refl, ap, sym, subst, arith, Bool-cases,
}
use strategy_builder_v.Shared.Text.{Text, text, is_digit, same_text→eq}
use strategy_builder_v.Mcp.Confirmation.Page.{non_empty_digits, without_port, host_allowed}

-- The end of a host that names a port, or nothing.
pub data IsPort : Text → Type 0 where
  no_port : IsPort []
  port : (c : ℕ) (digits : Text) → all is_digit (c ∷ digits) ≡ true → IsPort (58 ∷ c ∷ digits)

-- A `Host` header of this machine: 127.0.0.1 or localhost, with or without a port.
pub record IsLoopback (host : Text) : Type 0 where
  pub name : Text
  pub end : Text
  pub split : host ≡ name ++ end
  pub local : (name ≡ text "127.0.0.1") ⊎ (name ≡ text "localhost")
  pub port : IsPort end

-- What the `Host` header may be: absent, or one of this machine.
abbrev pub IsLocal : Option Text → Type 0
IsLocal none = Unit
IsLocal (some host) = IsLoopback host

colon-IsPort : (c : ℕ) (s : Text) → (c == 58 && non_empty_digits s) ≡ true → IsPort (c ∷ s)
colon-IsPort c [] h = absurd (ground (arith, h))
colon-IsPort c (d ∷ s) h =
    let colon : c ≡ 58 = ground (arith, h) in
    let digits : all is_digit (d ∷ s) ≡ true = ground (arith, h) in
    subst (λ x. IsPort (x ∷ d ∷ s)) (sym colon) (port d s digits)

without_port-split : (s : Text) → (end : Text) × (s ≡ without_port s ++ end) × IsPort end
unfolding without_port
without_port-split [] = ([], refl, no_port)
without_port-split (c ∷ s) = elim (Bool-cases (c == 58 && non_empty_digits s)) [
  | inl found ↦ rw found (c ∷ s, refl, colon-IsPort c s found)
  | inr kept ↦
      let (end, split, is_port) = without_port-split s in
      rw kept (end, ap (λ x. c ∷ x) split, is_port)
]

or-cases : (a b : Bool) → (a || b) ≡ true → (a ≡ true) ⊎ (b ≡ true)
or-cases true b h = inl refl
or-cases false b h = inr h

pub host_allowed-IsLocal : (host : Option Text) → host_allowed host ≡ true → IsLocal host
unfolding host_allowed
host_allowed-IsLocal none h = tt
host_allowed-IsLocal (some host) h =
    let (end, split, is_port) = without_port-split host in
    record {
      name = without_port host;
      end = end;
      split = split;
      local = elim (or-cases _ _ h) [
        | inl ip ↦ inl (same_text→eq (without_port host) (text "127.0.0.1") ip)
        | inr named ↦ inr (same_text→eq (without_port host) (text "localhost") named)
      ];
      port = is_port;
    }
