-- ===== src/Mcp/Confirmation/Laws.antt =====
-- Where an approval of the provider in packages/mcp/src/index.ts comes from.
use strategy_builder_v.Prelude.{
  Option, none, some, List, [], ◌∷◌, ◌++◌, Bool, true, false, ◌≡◌, ◌⊎◌, inl, inr, arith, ◌&&◌,
  if◌then◌else◌, ap, refl, ◌∙◌, any, Bool-cases,
}
use strategy_builder_v.Prelude.Names.{get_key}
use strategy_builder_v.Prelude.Result.{ok, err}
use strategy_builder_v.Prelude.Exec.{Exec, raise, pure, recover-ok, bind-ok, bind-pure, not_ok}
use strategy_builder_v.Shared.Text.{Text, text, to_lower}
use strategy_builder_v.Mcp.Gate.{Fault, message}
use strategy_builder_v.Mcp.Confirmation.{
  ElicitResult, accept, FieldValue, boolean, other_value, accepted, is_true, confirmed, elicited,
  composite, String,
}
use strategy_builder_v.Mcp.Confirmation.Server.{
  starts_with, contains, unsupported_phrases, is_elicitation_unsupported, server_approval,
}

-- The part stands somewhere in the text.
pub record IsIn (part s : Text) : Type 0 where
  pub before : Text
  pub after : Text
  pub split : s ≡ before ++ part ++ after

starts_with-split :
    (part s : Text) → starts_with part s ≡ true → (after : Text) × (s ≡ part ++ after)
unfolding starts_with
starts_with-split [] s h = (s, refl)
starts_with-split (p ∷ ps) [] h = absurd (cc)
starts_with-split (p ∷ ps) (c ∷ s) h =
    let (after, e) = starts_with-split ps s (ground (arith, h)) in
    let first : c ≡ p = ground (arith, h) in (after, rw first (ap (λ x. p ∷ x) e))

contains-IsIn : (part s : Text) → contains part s ≡ true → IsIn part s
unfolding contains
contains-IsIn part [] h =
    let (after, e) = starts_with-split part [] h in record { before = []; after = after; split = e }
contains-IsIn part (c ∷ s) h = elim (Bool-cases (starts_with part (c ∷ s))) [
  | inl here ↦
      let (after, e) = starts_with-split part (c ∷ s) here in
      record { before = []; after = after; split = e }
  | inr later ↦
      let found = contains-IsIn part s (ground (arith, h, later)) in
      record { before = c ∷ found.before; after = found.after; split = ap (λ x. c ∷ x) found.split }
]

-- One of the phrases stands in the text.
abbrev pub SaysOne : List Text → Text → Type 0
SaysOne [] s = ⊥
SaysOne (phrase ∷ phrases) s = IsIn phrase s ⊎ SaysOne phrases s

any-SaysOne :
    (phrases : List Text) (s : Text)
    → any (λ phrase. contains phrase s) phrases ≡ true
    → SaysOne phrases s
any-SaysOne [] s h = cc
any-SaysOne (phrase ∷ phrases) s h = elim (Bool-cases (contains phrase s)) [
  | inl found ↦ inl (contains-IsIn phrase s found)
  | inr missing ↦ inr (any-SaysOne phrases s (ground (arith, h, missing)))
]

-- The error's message says that elicitation is not supported: one of the phrases in any case, or the code of the
-- protocol for a method that is not found.
abbrev pub SaysUnsupported : Fault → Type 0
SaysUnsupported fault =
    SaysOne unsupported_phrases (to_lower (message fault)) ⊎ IsIn (text "-32601") (message fault)

is_elicitation_unsupported-SaysUnsupported :
    (fault : Fault) → is_elicitation_unsupported fault ≡ true → SaysUnsupported fault
unfolding is_elicitation_unsupported
is_elicitation_unsupported-SaysUnsupported fault h =
    elim (Bool-cases
      (any (λ phrase. contains phrase (to_lower (message fault))) unsupported_phrases)) [
        | inl found ↦ inl (any-SaysOne unsupported_phrases (to_lower (message fault)) found)
        | inr missing ↦
            inr (contains-IsIn (text "-32601") (message fault) (ground (arith, h, missing)))
      ]

-- The user accepted the form, with the Boolean `true` as its field `confirm`.
pub record IsAgreed (r : ElicitResult) : Type 0 where
  pub accepts : r.action ≡ accept
  pub content : List (String × FieldValue)
  pub given : r.content ≡ some content
  pub agrees : get_key "confirm" content ≡ some (boolean true)

is_true-eq : (value : Option FieldValue) → is_true value ≡ true → value ≡ some (boolean true)
unfolding is_true
is_true-eq none h = cc
is_true-eq (some other_value) h = cc
is_true-eq (some (boolean b)) h = ap (λ x. some (boolean x)) h

agreed :
    (r : ElicitResult) (content : Option (List (String × FieldValue)))
    → r.content ≡ content
    → (accepted r.action && confirmed content) ≡ true
    → IsAgreed r
unfolding accepted confirmed
agreed r none e h = absurd (ground (arith, h))
agreed r (some content) e h = record {
  accepts = ground (arith, h);
  content = content;
  given = e;
  agrees = is_true-eq (get_key "confirm" content) (ground (arith, h));
}

module _ {W R : Type 0} (elicit_input : R → Exec W Fault ElicitResult)
    (ask_page : R → Exec W Fault Bool) where
  -- Where an approval comes from: from the client's form, or from the page, after the client has thrown an error
  -- that says that it does not support forms.
  abbrev pub IsGiven : R → W → W → Type 0
  IsGiven req w w' =
      ((r : ElicitResult) × (elicit_input req w ≡ (ok r, w')) × IsAgreed r)
      ⊎ ((e : Fault) × (m : W) × (elicit_input req w ≡ (err e, m))
          × SaysUnsupported e
          × (ask_page req m ≡ (ok true, w')))

  elicited-IsAgreed :
      (req : R) (w w' : W)
      → elicited elicit_input req w ≡ (ok true, w')
      → (r : ElicitResult) × (elicit_input req w ≡ (ok r, w')) × IsAgreed r
  unfolding elicited
  elicited-IsAgreed req w w' h =
      let (r, m, asked, h₁) =
        bind-ok (elicit_input req) (λ r. pure (accepted r.action && confirmed r.content)) w h in
      let said : (accepted r.action && confirmed r.content) ≡ true =
        let e = ap (λ p. p.0) h₁ in cc in
      (r, asked ∙ ap (λ x. (ok r, x)) (ap (λ p. p.1) h₁), agreed r r.content refl said)

  elicited-err :
      (req : R) (e : Fault) (w m : W)
      → elicited elicit_input req w ≡ (err e, m)
      → elicit_input req w ≡ (err e, m)
  unfolding elicited
  elicited-err req e w m h =
      bind-pure (elicit_input req) (λ r. accepted r.action && confirmed r.content) w h

  fallen_back :
      (e : Fault) (req : R) (m w' : W) (unsupported : Bool)
      → is_elicitation_unsupported e ≡ unsupported
      → (if unsupported then ask_page req else raise e) m ≡ (ok true, w')
      → SaysUnsupported e × (ask_page req m ≡ (ok true, w'))
  fallen_back e req m w' true s h = (is_elicitation_unsupported-SaysUnsupported e s, h)
  fallen_back e req m w' false s h = absurd (not_ok h)

  -- An approval that the server gets was given in the client's form, accepted and with the Boolean `true` as
  -- `confirm`; or it was given on the local page, after the client threw an error whose message says that it
  -- does not support elicitation or does not find the method. After another error there is no approval.
  pub server_approval-IsGiven :
      (req : R) (w w' : W)
      → server_approval elicit_input ask_page req w ≡ (ok true, w')
      → IsGiven req w w'
  unfolding server_approval composite
  server_approval-IsGiven req w w' h =
      elim (recover-ok (elicited elicit_input req)
        (λ e. if is_elicitation_unsupported e then ask_page req else raise e) w h) [
          | inl said ↦ inl (elicited-IsAgreed req w w' said)
          | inr (e, m, threw, h₁) ↦
              let (says, asked) = fallen_back e req m w' (is_elicitation_unsupported e) refl h₁ in
              inr (e, m, elicited-err req e w m threw, says, asked)
        ]
