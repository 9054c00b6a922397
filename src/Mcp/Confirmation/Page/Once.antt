-- ===== src/Mcp/Confirmation/Page/Once.antt =====
-- When the page resolves an approval, and how often.
use strategy_builder_v.Prelude.{
  Option, none, some, List, [], ◌∷◌, ◌++◌, Bool, true, false, if◌then◌else◌, ◌≡◌, ◌≢◌, ◌⊎◌, inl,
  inr, refl, arith, Bool-cases, ap, sym, ◌∙◌, append-nil,
}
use strategy_builder_v.Shared.Text.{Text, text, same_text, same_text→eq, same_text_refl}
use strategy_builder_v.Mcp.Confirmation.Page.{
  Page, has, delete, create, cancel, HttpRequest, host_allowed, parse_url, is_post, respond,
  handle_request,
}
use strategy_builder_v.Mcp.Confirmation.Page.Host.{IsLocal, host_allowed-IsLocal}

-- The request redeems the token: its `Host` is absent or of this machine, it is a POST to the token's
-- approve or deny address, and the token is pending.
pub record Redeems (req : HttpRequest) (s : Page) (token : Text) (approve : Bool) (t : Page)
    : Type 0 where
  pub loopback : IsLocal req.host
  pub post : req.method ≡ some (text "POST")
  pub address : parse_url req.url ≡ some (token, some approve)
  pub known : has token s.pending ≡ true
  pub pending : t.pending ≡ delete token s.pending
  pub resolved : t.resolved ≡ s.resolved ++ (token, approve) ∷ []

is_post-eq : (m : Option Text) → is_post m ≡ true → m ≡ some (text "POST")
unfolding is_post
is_post-eq none h = cc
is_post-eq (some m) h = ap some (same_text→eq m (text "POST") h)

respond_safe :
    (req : HttpRequest) (found : Option (Text × Option Bool)) (s : Page)
    → IsLocal req.host
    → parse_url req.url ≡ found
    → ((respond req found s).1 ≡ s)
      ⊎ ((token : Text) × (approve : Bool) × Redeems req s token approve (respond req found s).1)
unfolding respond
respond_safe req none s l e = inl refl
respond_safe req (some (token, none)) s l e = inl refl
respond_safe req (some (token, some approve)) s l e = elim (Bool-cases (is_post req.method)) [
  | inr other ↦ rw other (inl refl)
  | inl post ↦ rw post (elim (Bool-cases (has token s.pending)) [
    | inr unknown ↦ rw unknown (inl refl)
    | inl known ↦ rw known (
        inr (
          token,
          approve,
          record {
            loopback = l;
            post = is_post-eq req.method post;
            address = e;
            known = known;
            pending = refl;
            resolved = refl;
          },
        ))
  ])
]

-- A request to the page leaves everything as it was, or it redeems a pending token: then its `Host` is
-- absent, or it is 127.0.0.1 or localhost with or without a port; it is a POST to that token's approve
-- or deny address, exactly that token stops being pending, and exactly that decision is recorded.
pub handle_request_safe :
    (req : HttpRequest) (s : Page)
    → ((handle_request req s).1 ≡ s)
      ⊎ ((token : Text) × (approve : Bool) × Redeems req s token approve (handle_request req s).1)
unfolding handle_request
handle_request_safe req s = elim (Bool-cases (host_allowed req.host)) [
  | inl l ↦ rw l (respond_safe req (parse_url req.url) s (host_allowed-IsLocal req.host l) refl)
  | inr foreign ↦ rw foreign (inl refl)
]

-- What happens to the page: new approvals, requests from the network, and timeouts.
pub data Event : Type 0 where
  created : Text → Event
  requested : HttpRequest → Event
  timed_out : Text → Event

abbrev pub step : Event → Page → Page
step (created token) s = create token s
step (requested req) s = (handle_request req s).1
step (timed_out token) s = cancel token s

abbrev pub run : List Event → Page → Page
run [] s = s
run (e ∷ es) s = run es (step e s)

-- The token is not created again.
abbrev pub Uncreated : Text → List Event → Type 0
Uncreated token [] = Unit
Uncreated token (created t ∷ es) = (t ≢ token) × Uncreated token es
Uncreated token (_ ∷ es) = Uncreated token es

-- The decisions that were recorded for a token.
abbrev pub decisions : Text → List (Text × Bool) → List (Text × Bool)
decisions token [] = []
decisions token ((t, a) ∷ rest) =
    let more = decisions token rest in if same_text t token then (t, a) ∷ more else more

decisions-append :
    (token : Text) (xs ys : List (Text × Bool))
    → decisions token (xs ++ ys) ≡ decisions token xs ++ decisions token ys
decisions-append token [] ys = refl
decisions-append token ((t, a) ∷ xs) ys = ground (arith, decisions-append token xs ys)

same_text-ne : (s t : Text) → s ≢ t → same_text s t ≡ false
same_text-ne s t ne = elim (Bool-cases (same_text s t)) [
  | inl e ↦ absurd (ne (same_text→eq s t e))
  | inr e ↦ e
]

has-delete_ne :
    (token t : Text) (ts : List Text) → has token ts ≡ false → has token (delete t ts) ≡ false
unfolding delete
has-delete_ne token t [] h = refl
has-delete_ne token t (x ∷ ts) h = ground (arith, has-delete_ne token t ts)

has-delete_self : (token : Text) (ts : List Text) → has token (delete token ts) ≡ false
unfolding delete
has-delete_self token [] = refl
has-delete_self token (x ∷ ts) = ground (arith, has-delete_self token ts)

-- A token that is not pending: it stays so, and no decision is recorded for it.
abbrev IsSpent : Text → Page → Page → Type 0
IsSpent token s t =
    (has token t.pending ≡ false) × (decisions token t.resolved ≡ decisions token s.resolved)

Redeems-other :
    (req : HttpRequest) (token other : Text) (approve : Bool) (s t : Page)
    → has token s.pending ≡ false
    → Redeems req s other approve t
    → IsSpent token s t
Redeems-other req token other approve s t gone r = elim (Bool-cases (same_text other token)) [
  | inl same ↦
      let e = same_text→eq other token same in
      absurd
        (let k : has token s.pending ≡ true = ap (λ x. has x s.pending) (sym e) ∙ r.known in cc)
  | inr ne ↦ (
    rw r.pending (has-delete_ne token other s.pending gone),
    rw (r.resolved, decisions-append, ne) (append-nil (decisions token s.resolved)),
  )
]

step-IsSpent :
    (token : Text) (e : Event) (s : Page)
    → Uncreated token (e ∷ [])
    → has token s.pending ≡ false
    → IsSpent token s (step e s)
unfolding cancel
step-IsSpent token (created t) s u gone =
    (rw (same_text-ne t token u.0, has-delete_ne token t s.pending gone) refl, refl)
step-IsSpent token (timed_out t) s u gone = (has-delete_ne token t s.pending gone, refl)
step-IsSpent token (requested req) s u gone = elim (handle_request_safe req s) [
  | inl same ↦ rw same (gone, refl)
  | inr (other, approve, r) ↦
      Redeems-other req token other approve s (handle_request req s).1 gone r
]

run-decisions :
    (token : Text) (es : List Event) (s : Page)
    → Uncreated token es
    → has token s.pending ≡ false
    → decisions token (run es s).resolved ≡ decisions token s.resolved
run-decisions token [] s u gone = refl
run-decisions token (created t ∷ es) s u gone =
    let (still, same) = step-IsSpent token (created t) s (u.0, tt) gone in
    run-decisions token es (step (created t) s) u.1 still ∙ same
run-decisions token (requested req ∷ es) s u gone =
    let (still, same) = step-IsSpent token (requested req) s tt gone in
    run-decisions token es (step (requested req) s) u still ∙ same
run-decisions token (timed_out t ∷ es) s u gone =
    let (still, same) = step-IsSpent token (timed_out t) s tt gone in
    run-decisions token es (step (timed_out t) s) u still ∙ same

-- Once a request has redeemed a token, no decision is recorded for that token any more, whatever
-- requests, timeouts and new approvals follow, as long as the random source does not repeat the token.
pub redeemed_once :
    (req : HttpRequest) (token : Text) (approve : Bool) (events : List Event) (s : Page)
    → Redeems req s token approve (handle_request req s).1
    → Uncreated token events
    → decisions token (run events (handle_request req s).1).resolved
      ≡ decisions token s.resolved ++ (token, approve) ∷ []
redeemed_once req token approve events s r u =
    let t : Page = (handle_request req s).1 in
    let gone : has token t.pending ≡ false = rw r.pending (has-delete_self token s.pending) in
    run-decisions token events t u gone
    ∙ ap (decisions token) r.resolved
    ∙ decisions-append token s.resolved ((token, approve) ∷ [])
    ∙ rw (same_text_refl token) refl
