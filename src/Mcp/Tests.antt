-- ===== src/Mcp/Tests.antt =====
-- Runs of packages/mcp/src.
use strategy_builder_v.Prelude.{
  ℕ, Option, some, List, [], ◌∷◌, ◌++◌, Bool, true, false, ◌≡◌, refl, inr,
}
use strategy_builder_v.Prelude.Result.{ok}
use strategy_builder_v.Prelude.Exec.{Exec}
use strategy_builder_v.Shared.Text.{Text, text}
use strategy_builder_v.Mcp.Gate.{
  GuardedAction, ConfirmationRequest, AuditEntry, AuditOutcome, Fault, requested, approved, success,
  guard,
}
use strategy_builder_v.Mcp.Gate.Approval.{
  Approved, Cleared, Performed, guard-Cleared, guard_unapproved,
}

-- The gate: the world is the list of the outcomes that were noted.
noted : AuditEntry Unit → Exec (List AuditOutcome) Fault Unit
noted e log = (ok tt, log ++ e.outcome ∷ [])

says : Bool → ConfirmationRequest Unit → Exec (List AuditOutcome) Fault Bool
says answer req log = (ok answer, log)

abbrev deploy : GuardedAction Unit
deploy = record {
  tool = "deploy_automation";
  sensitive = true;
  summary = text "deploy";
  details = tt;
}

signs : ℕ → Exec (List AuditOutcome) Fault (ℕ × Option Text)
signs n log = (ok (n, some (text "0xabc")), log)

guard_runs :
    guard false noted (says true) deploy (signs 7) [] ≡ (ok 7, requested ∷ approved ∷ success ∷ [])
unfolding guard noted says signs
guard_runs = refl

guard-Cleared_example :
    (false ≡ false)
    × ((m : List AuditOutcome) × Cleared noted (says true) true deploy [] m
        × Performed noted (says true) deploy (signs 7) m 7 (requested ∷ approved ∷ success ∷ []))
guard-Cleared_example =
    guard-Cleared noted (says true) false deploy (signs 7) [] (requested ∷ approved ∷ success ∷ [])
      7 guard_runs

not-Approved_here : (m : List AuditOutcome) → ¬ Approved noted (says false) deploy [] m
unfolding says
not-Approved_here m (w₁, w₂, _, said, _) = cc

guard_unapproved_example :
    guard false noted (says false) deploy (signs 7) []
    ≡ guard false noted (says false) deploy (signs 8) []
guard_unapproved_example =
    guard_unapproved noted (says false) false deploy (signs 7) (signs 8) []
      (inr (refl, not-Approved_here))
