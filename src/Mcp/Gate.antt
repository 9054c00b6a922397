-- ===== src/Mcp/Gate.antt =====
-- packages/mcp/src/policy-gate.ts: the one place that every signing action passes through.
pub mod Approval
use strategy_builder_v.Shared.Text.{Text, text}
use strategy_builder_v.Prelude.{String, Option, none, some, Bool, true, false, if◌then◌else◌}
use strategy_builder_v.Prelude.Result.{Result, ok, err}
use strategy_builder_v.Prelude.Exec.{Exec, pure, raise, recover, ◌>>=◌, ◌>>◌}

pub record GuardedAction (D : Type 0) : Type 0 where
  pub tool : String
  pub sensitive : Bool
  pub summary : Text
  pub details : D

pub record ConfirmationRequest (D : Type 0) : Type 0 where
  pub tool : String
  pub summary : Text
  pub details : D

-- `AuditOutcome` of packages/mcp/src/audit-log.ts; `failed` is the source's `error`.
pub data AuditOutcome : Type 0 where
  requested approved denied timeout rejected success failed : AuditOutcome

pub record AuditEntry (D : Type 0) : Type 0 where
  pub tool : String
  pub params : D
  pub summary : Text
  pub outcome : AuditOutcome
  pub tx_hash : Option Text
  pub detail : Option Text

-- What is thrown: the gate's own `PolicyError`s, and what other code throws, with its message.
pub data Fault : Type 0 where
  read_only_mode not_confirmed not_approved : Fault
  thrown : Text → Fault

-- `err.message`
abbrev pub message : Fault → Text
message read_only_mode = text "Read-only-Modus aktiv: schreibende Aktionen sind deaktiviert."
message not_confirmed =
    text "Keine Bestätigung erhalten (Timeout/keine Möglichkeit) — es wurde nicht signiert."
message not_approved = text "Aktion abgelehnt — es wurde nicht signiert."
message (thrown reason) = reason

-- `{ ...base, outcome }`
abbrev pub entry : {D : Type 0} → GuardedAction D → AuditOutcome → AuditEntry D
entry action outcome = record {
  tool = action.tool;
  params = action.details;
  summary = action.summary;
  outcome = outcome;
  tx_hash = none;
  detail = none;
}

abbrev pub detailed : {D : Type 0} → GuardedAction D → AuditOutcome → Text → AuditEntry D
detailed action outcome reason = record (entry action outcome) { detail = some reason }

abbrev pub succeeded : {D : Type 0} → GuardedAction D → Option Text → AuditEntry D
succeeded action hash = record (entry action success) { tx_hash = hash }

-- The gate's collaborators: `audit.record` writes to a file, `requestApproval` asks the user, and
-- each acts on a world `W` and may throw. `read_only` is `config.readOnly`.
module _ {W D : Type 0} (read_only : Bool) (audit : AuditEntry D → Exec W Fault Unit)
    (request_approval : ConfirmationRequest D → Exec W Fault Bool) where
  abbrev pub request : GuardedAction D → ConfirmationRequest D
  request action = record { tool = action.tool; summary = action.summary; details = action.details }

  decided : GuardedAction D → Bool → Exec W Fault Unit
  decided action true = audit (entry action approved)
  decided action false = do audit (entry action denied); raise not_approved

  -- Whatever `requestApproval` throws is taken for a timeout.
  ask : GuardedAction D → Exec W Fault Bool
  ask action = recover (request_approval (request action)) λ _. do
    audit (detailed action timeout (text "no confirmation / timeout"))
    raise not_confirmed

  -- The part for sensitive actions.
  confirm : GuardedAction D → Exec W Fault Unit
  unfolding decided ask
  confirm action = do audit (entry action requested); answer ← ask action; decided action answer

  -- The part that signs. A throw of `audit.record` after it is caught too.
  perform : {T : Type 0} → GuardedAction D → Exec W Fault (T × Option Text) → Exec W Fault T
  perform action execute =
      recover (do done ← execute; audit (succeeded action done.1); pure done.0)
        λ fault. do audit (detailed action failed (message fault)); raise fault

  unfoldable pub guard :
      {T : Type 0} → GuardedAction D → Exec W Fault (T × Option Text) → Exec W Fault T
  unfolding confirm perform
  guard action execute =
      if read_only
      then (do audit (detailed action rejected (text "read-only mode")); raise read_only_mode)
      else (do if action.sensitive then confirm action else pure tt; perform action execute)
