-- ===== src/Mcp/Confirmation/Page.antt =====
-- The local confirmation page of packages/mcp/src/confirmation.ts: `PendingApprovals`, and
-- `#handleRequest` of `LocalhostConfirmationProvider`.
pub mod Host
pub mod Once
mod Tests
use strategy_builder_v.Prelude.{
  ℕ, String, Option, none, some, List, [], ◌∷◌, ◌++◌, Bool, true, false, ◌&&◌, ◌||◌, not,
  if◌then◌else◌, ◌==◌, leb, length, take, drop, all,
}
use strategy_builder_v.Shared.Text.{Text, text, same_text, is_digit}

-- `pending` holds the tokens of `#pending`, `resolved` the calls of their `resolve` functions, and
-- `summaries` is `#summaries`.
pub record Page : Type 0 where
  pub pending : List Text
  pub summaries : List (Text × String)
  pub resolved : List (Text × Bool)

abbrev pub has : Text → List Text → Bool
has token [] = false
has token (t ∷ ts) = same_text t token || has token ts

unfoldable pub delete : Text → List Text → List Text
delete token [] = []
delete token (t ∷ ts) = let rest = delete token ts in if same_text t token then rest else t ∷ rest

-- `PendingApprovals.create`, with the random token as an argument.
abbrev pub create : Text → Page → Page
create token s = record s { pending = token ∷ delete token s.pending }

-- `redeem`: a token that is unknown or used gives false.
unfoldable pub redeem : Text → Bool → Page → Bool × Page
unfolding delete
redeem token approved s =
    if has token s.pending
    then (
      true,
      record s {
        pending = delete token s.pending;
        resolved = s.resolved ++ (token, approved) ∷ [];
      },
    )
    else (false, s)

unfoldable pub cancel : Text → Page → Page
unfolding delete
cancel token s = record s { pending = delete token s.pending }

pub record HttpRequest : Type 0 where
  pub host : Option Text
  pub url : Option Text
  pub method : Option Text

pub data Response : Type 0 where
  forbidden not_found method_not_allowed : Response
  answered : (ok approve : Bool) → Response
  shown : (summary : String) → Response

abbrev pub non_empty_digits : Text → Bool
non_empty_digits [] = false
non_empty_digits (c ∷ s) = all is_digit (c ∷ s)

-- `host.replace(/:\d+$/, '')`
unfoldable pub without_port : Text → Text
without_port [] = []
without_port (c ∷ s) = if c == 58 && non_empty_digits s then [] else c ∷ without_port s

unfoldable pub host_allowed : Option Text → Bool
unfolding without_port
host_allowed none = true
host_allowed (some host) =
    same_text (without_port host) (text "127.0.0.1")
    || same_text (without_port host) (text "localhost")

unfoldable pub after_prefix : Text → Text → Option Text
after_prefix [] s = some s
after_prefix (p ∷ ps) [] = none
after_prefix (p ∷ ps) (c ∷ s) = if p == c then after_prefix ps s else none

is_hex : ℕ → Bool
is_hex c = is_digit c || (leb 97 c && leb c 102)

-- The part of the address after the token.
decision_of : Text → Option (Option Bool)
decision_of rest =
    if same_text rest []
    then some none
    else if same_text rest (text "/approve")
    then some (some true)
    else if same_text rest (text "/deny")
    then some (some false)
    else none

token_of : Option Text → Option (Text × Option Bool)
unfolding is_hex decision_of
token_of none = none
token_of (some s) =
    if length (take 64 s) == 64 && all is_hex (take 64 s)
    then elim (decision_of (drop 64 s)) [ none ↦ none | some d ↦ some (take 64 s, d) ]
    else none

-- `/^\/confirm\/([0-9a-f]{64})(?:\/(approve|deny))?$/.exec(url ?? '')`; the decision is whether it
-- is `approve`.
unfoldable pub parse_url : Option Text → Option (Text × Option Bool)
unfolding token_of after_prefix
parse_url none = none
parse_url (some url) = token_of (after_prefix (text "/confirm/") url)

is_post : Option Text → Bool
is_post none = false
is_post (some method) = same_text method (text "POST")

summary_of : Text → List (Text × String) → String
summary_of token [] = "(keine Zusammenfassung)"
summary_of token ((t, summary) ∷ rest) =
    if same_text t token then summary else summary_of token rest

decide : Text → Bool → Page → Response × Page
unfolding redeem
decide token approve s = let (ok, s') = redeem token approve s in (answered ok approve, s')

respond : HttpRequest → Option (Text × Option Bool) → Page → Response × Page
unfolding is_post decide summary_of
respond req none s = (not_found, s)
respond req (some (token, some approve)) s =
    if is_post req.method then decide token approve s else (method_not_allowed, s)
respond req (some (token, none)) s = (shown (summary_of token s.summaries), s)

unfoldable pub handle_request : HttpRequest → Page → Response × Page
unfolding respond host_allowed parse_url
handle_request req s =
    if host_allowed req.host then respond req (parse_url req.url) s else (forbidden, s)
