-- ===== src/Mcp/Confirmation/Page/Tests.antt =====
-- Runs of the confirmation page.
use strategy_builder_v.Prelude.{some, [], ◌∷◌, ◌++◌, Bool, true, ◌≡◌, ◌≢◌, refl, ◌⊎◌, ap, inl}
use strategy_builder_v.Shared.Text.{Text, text, same_text}
use strategy_builder_v.Mcp.Confirmation.Page.{Page, HttpRequest, handle_request}
use strategy_builder_v.Mcp.Confirmation.Page.Host.{port}
use strategy_builder_v.Mcp.Confirmation.Page.Once.{
  Redeems, created, requested, timed_out, run, decisions, handle_request_safe, redeemed_once,
}

-- Two tokens of 64 digits.
abbrev ones : Text
ones = text "1111111111111111111111111111111111111111111111111111111111111111"

abbrev twos : Text
twos = text "2222222222222222222222222222222222222222222222222222222222222222"

abbrev page : Page
page = record { pending = ones ∷ []; summaries = []; resolved = [] }

abbrev approval : HttpRequest
approval = record {
  host = some (text "127.0.0.1:8123");
  url = some (text "/confirm/" ++ ones ++ text "/approve");
  method = some (text "POST");
}

approval-Redeems : Redeems approval page ones true (handle_request approval page).1
unfolding handle_request
approval-Redeems = record {
  loopback = record {
    name = text "127.0.0.1";
    end = text ":8123";
    split = refl;
    local = inl refl;
    port = port 56 (text "123") refl;
  };
  post = refl;
  address = refl;
  known = refl;
  pending = refl;
  resolved = refl;
}

handle_request_safe_example :
    ((handle_request approval page).1 ≡ page)
    ⊎ ((token : Text) × (approve : Bool) × Redeems approval page token approve
          (handle_request approval page).1)
handle_request_safe_example = handle_request_safe approval page

twos_is_not_ones : twos ≢ ones
twos_is_not_ones p =
    let e : same_text twos ones ≡ same_text ones ones = ap (λ t. same_text t ones) p in cc

redeemed_once_example :
    decisions ones
      (run
        (requested approval ∷ created twos ∷ timed_out ones ∷ [])
        (handle_request approval page).1).resolved
    ≡ (ones, true) ∷ []
redeemed_once_example =
    redeemed_once approval ones true (requested approval ∷ created twos ∷ timed_out ones ∷ []) page
      approval-Redeems (twos_is_not_ones, tt)
