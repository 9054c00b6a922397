-- ===== src/Mcp/Intent/Agreed.antt =====
-- What an intent that passes the check agrees with.
use strategy_builder_v.Prelude.{
  ℕ, ◌+◌, Option, none, some, List, [], ◌∷◌, ◌++◌, Bool, true, false, length, ◌==◌, ◌≡◌, refl,
  arith, ap, Bool-cases, inl, inr, sym, ◌∙◌,
}
use strategy_builder_v.Shared.Text.{Text, text, same_text, same_text→eq, to_lower}
use strategy_builder_v.Mcp.Deploy.{DecodedStep, DecodedSummary}
use strategy_builder_v.Mcp.Intent.{
  IntentAction, FlatIntent, same_execution, execution_diffs, field_diffs, unchanged, action_diffs,
  each_action, graph_actions, actions_diffs, trigger_diffs, none_left, all_diffs,
  cross_check_intent,
}

-- Where both sides give a text, the texts are the same up to `f`.
abbrev pub Same : (Text → Text) → Option Text → Option Text → Type 0
Same f want step = (a b : Text) → want ≡ some a → step ≡ some b → f a ≡ f b

pub record IsAction (want : IntentAction) (step : DecodedStep) : Type 0 where
  pub token : Same to_lower want.token step.token
  pub amount : Same (λ s. s) want.amount step.amount
  pub direction : Same (λ s. s) want.direction step.direction

-- The two lists agree, action by action.
abbrev pub AllActions : List IntentAction → List DecodedStep → Type 0
AllActions [] [] = Unit
AllActions [] (step ∷ steps) = ⊥
AllActions (want ∷ wants) [] = ⊥
AllActions (want ∷ wants) (step ∷ steps) = IsAction want step × AllActions wants steps

both_nil : (xs ys : List Text) → xs ++ ys ≡ [] → (xs ≡ []) × (ys ≡ [])
both_nil [] ys h = (refl, h)
both_nil (x ∷ xs) ys h = absurd (cc)

field_diffs-Same :
    (f : Text → Text) (label : Text) (n : ℕ) (want step : Option Text)
    → field_diffs f label n want step ≡ []
    → Same f want step
unfolding field_diffs
field_diffs-Same f label n none step h a b wanted given = absurd (cc)
field_diffs-Same f label n (some want) none h a b wanted given = absurd (cc)
field_diffs-Same f label n (some want) (some step) h a b wanted given =
    elim (Bool-cases (same_text (f want) (f step))) [
      | inl same ↦
          let a_eq : want ≡ a = cc in
          let b_eq : step ≡ b = cc in
          sym (ap f a_eq) ∙ same_text→eq (f want) (f step) same ∙ ap f b_eq
      | inr differ ↦ absurd (let k = rw differ at h in cc)
    ]

action_diffs-IsAction :
    (n : ℕ) (want : IntentAction) (step : DecodedStep)
    → action_diffs n want step ≡ []
    → IsAction want step
unfolding action_diffs unchanged
action_diffs-IsAction n want step h =
    let amounts = field_diffs unchanged (text " Betrag") n want.amount step.amount in
    let directions = field_diffs unchanged (text " Richtung") n want.direction step.direction in
    let (token, rest) =
      both_nil (field_diffs to_lower (text " Token") n want.token step.token)
        (amounts ++ directions) h in
    let (amount, direction) = both_nil amounts directions rest in
    record {
      token = field_diffs-Same to_lower (text " Token") n want.token step.token token;
      amount = field_diffs-Same unchanged (text " Betrag") n want.amount step.amount amount;
      direction =
          field_diffs-Same unchanged (text " Richtung") n want.direction step.direction direction;
    }

each_action-AllActions :
    (n : ℕ) (wants : List IntentAction) (steps : List DecodedStep)
    → length steps ≡ length wants
    → each_action n wants steps ≡ []
    → AllActions wants steps
unfolding each_action
each_action-AllActions n [] [] same h = tt
each_action-AllActions n [] (step ∷ steps) same h = absurd (omega (arith, same))
each_action-AllActions n (want ∷ wants) [] same h = absurd (omega (arith, same))
each_action-AllActions n (want ∷ wants) (step ∷ steps) same h =
    let (first, rest) = both_nil (action_diffs n want step) (each_action (n + 1) wants steps) h in
    (
      action_diffs-IsAction n want step first,
      each_action-AllActions (n + 1) wants steps (omega arith) rest,
    )

actions_diffs-AllActions :
    (wants : List IntentAction) (steps : List DecodedStep)
    → actions_diffs wants steps ≡ []
    → AllActions wants steps
unfolding actions_diffs
actions_diffs-AllActions wants steps h = elim (Bool-cases (length steps == length wants)) [
  | inl same ↦ each_action-AllActions 1 wants steps (ground arith) (rw same at h)
  | inr differ ↦ absurd (let k = rw differ at h in cc)
]

execution_diffs-eq :
    (declared owner_only : Bool) → execution_diffs declared owner_only ≡ [] → declared ≡ owner_only
unfolding execution_diffs same_execution
execution_diffs-eq true true h = refl
execution_diffs-eq true false h = absurd (cc)
execution_diffs-eq false true h = absurd (cc)
execution_diffs-eq false false h = refl

trigger_diffs-eq :
    (period seconds : Option ℕ) (p s : ℕ)
    → trigger_diffs period seconds ≡ []
    → period ≡ some p
    → seconds ≡ some s
    → p ≡ s
unfolding trigger_diffs
trigger_diffs-eq none seconds p s h a b = absurd (cc)
trigger_diffs-eq (some period) none p s h a b = absurd (cc)
trigger_diffs-eq (some period) (some seconds) p s h a b = elim (Bool-cases (period == seconds)) [
  | inl same ↦ let p_eq : period ≡ p = cc in let s_eq : seconds ≡ s = cc in ground arith
  | inr differ ↦ absurd (let k = rw differ at h in cc)
]

-- The intent agrees with the graph that was decoded.
pub record IsAgreed (intent : FlatIntent) (decoded : DecodedSummary) (owner_only : Bool)
    (trigger_seconds : Option ℕ) : Type 0 where
  pub execution : intent.for_owner ≡ owner_only
  pub actions : AllActions intent.actions (graph_actions decoded)
  pub trigger : (p s : ℕ) → intent.period_seconds ≡ some p → trigger_seconds ≡ some s → p ≡ s

none_left-nil : (diffs : List Text) → none_left diffs ≡ true → diffs ≡ []
unfolding none_left
none_left-nil [] h = refl
none_left-nil (d ∷ diffs) h = absurd (cc)

-- An intent that passes the check has the execution that follows from the graph, as many actions as the
-- graph, in the same order and each with the token (up to case), the amount and the direction of its
-- step where both give one, and the trigger's period where both give one.
pub cross_check_intent-IsAgreed :
    (intent : FlatIntent) (decoded : DecodedSummary) (owner_only : Bool)
    (trigger_seconds : Option ℕ) (branched : Bool)
    → (cross_check_intent intent decoded owner_only trigger_seconds branched).ok ≡ true
    → IsAgreed intent decoded owner_only trigger_seconds
unfolding cross_check_intent all_diffs
cross_check_intent-IsAgreed intent decoded owner_only trigger_seconds branched h =
    let clean = none_left-nil (all_diffs intent decoded owner_only trigger_seconds) h in
    let of_actions = actions_diffs intent.actions (graph_actions decoded) in
    let of_trigger = trigger_diffs intent.period_seconds trigger_seconds in
    let (execution, rest) =
      both_nil (execution_diffs intent.for_owner owner_only) (of_actions ++ of_trigger) clean in
    let (actions, trigger) = both_nil of_actions of_trigger rest in
    record {
      execution = execution_diffs-eq intent.for_owner owner_only execution;
      actions = actions_diffs-AllActions intent.actions (graph_actions decoded) actions;
      trigger = λ p s. trigger_diffs-eq intent.period_seconds trigger_seconds p s trigger;
    }
