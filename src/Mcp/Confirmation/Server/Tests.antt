-- ===== src/Mcp/Confirmation/Server/Tests.antt =====
-- Runs of the server's confirmation provider. The world counts the calls.
use strategy_builder_v.Prelude.{ℕ, ◌+◌, some, [], ◌∷◌, Bool, true, ◌≡◌, refl}
use strategy_builder_v.Prelude.Result.{ok, err}
use strategy_builder_v.Prelude.Exec.{Exec}
use strategy_builder_v.Shared.Text.{text}
use strategy_builder_v.Mcp.Gate.{Fault, thrown}
use strategy_builder_v.Mcp.Confirmation.{ElicitResult, accept, other_value, false}
use strategy_builder_v.Mcp.Confirmation.Server.{server_approval}
use strategy_builder_v.Mcp.Confirmation.Laws.{IsGiven, server_approval-IsGiven}

-- A client without a form, one where time runs out, and one that fills `confirm` with something else.
no_form : ℕ → Exec ℕ Fault ElicitResult
no_form req calls = (err (thrown (text "Client does not support form elicitation.")), calls + 1)

late_form : ℕ → Exec ℕ Fault ElicitResult
late_form req calls = (err (thrown (text "MCP error -32001: Request timed out")), calls + 1)

truthy_form : ℕ → Exec ℕ Fault ElicitResult
truthy_form req calls =
    (ok (record { action = accept; content = some (("confirm", other_value) ∷ []) }), calls + 1)

yes_page : ℕ → Exec ℕ Fault Bool
yes_page req calls = (ok true, calls + 1)

page_runs : server_approval no_form yes_page 5 0 ≡ (ok true, 2)
unfolding server_approval no_form yes_page
page_runs = refl

late_runs :
    server_approval late_form yes_page 5 0
    ≡ (err (thrown (text "MCP error -32001: Request timed out")), 1)
unfolding server_approval late_form yes_page
late_runs = refl

truthy_runs : server_approval truthy_form yes_page 5 0 ≡ (ok false, 1)
unfolding server_approval truthy_form yes_page
truthy_runs = refl

server_approval-IsGiven_example : IsGiven no_form yes_page 5 0 2
server_approval-IsGiven_example = server_approval-IsGiven no_form yes_page 5 0 2 page_runs
