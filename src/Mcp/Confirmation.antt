-- ===== src/Mcp/Confirmation.antt =====
-- packages/mcp/src/confirmation.ts: how the user's approval is obtained.
pub mod Page
pub mod Server
pub mod Laws
use strategy_builder_v.Prelude.{
  String, Option, none, some, List, [], ◌∷◌, ◌++◌, Bool, true, false, ◌&&◌, ◌||◌, not,
  if◌then◌else◌,
}
use strategy_builder_v.Prelude.Result.{Result, ok, err}
use strategy_builder_v.Prelude.Exec.{Exec, pure, raise, recover, ◌>>=◌}
use strategy_builder_v.Prelude.Names.{get_key}
use strategy_builder_v.Mcp.Gate.{Fault}

-- A value of the form: a Boolean, or a value of another type.
pub data FieldValue : Type 0 where
  boolean : Bool → FieldValue
  other_value : FieldValue

pub data ElicitAction : Type 0 where
  accept decline cancel : ElicitAction

pub record ElicitResult : Type 0 where
  pub action : ElicitAction
  pub content : Option (List (String × FieldValue))

accepted : ElicitAction → Bool
accepted accept = true
accepted decline = false
accepted cancel = false

-- `value === true`
is_true : Option FieldValue → Bool
is_true none = false
is_true (some (boolean b)) = b
is_true (some other_value) = false

-- `content?.confirm === true`
confirmed : Option (List (String × FieldValue)) → Bool
unfolding is_true
confirmed none = false
confirmed (some content) = is_true (get_key "confirm" content)

-- `ElicitationConfirmationProvider.requestApproval`, over the client's `elicitInput`.
module _ {W R : Type 0} (elicit_input : R → Exec W Fault ElicitResult) where
  unfoldable pub elicited : R → Exec W Fault Bool
  unfolding accepted confirmed
  elicited req = do
    result ← elicit_input req
    pure (accepted result.action && confirmed result.content)

-- `CompositeConfirmationProvider.requestApproval`
module _ {W R : Type 0} (primary : R → Exec W Fault Bool) (fallback : R → Exec W Fault Bool)
    (is_unsupported : Fault → Bool) where
  unfoldable pub composite : R → Exec W Fault Bool
  composite req =
      recover (primary req) λ fault. if is_unsupported fault then fallback req else raise fault
