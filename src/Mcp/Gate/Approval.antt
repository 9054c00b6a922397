-- ===== src/Mcp/Gate/Approval.antt =====
-- A sensitive action is not carried out without the user's approval.
use strategy_builder_v.Prelude.{
  Option, Bool, true, false, if◌then◌else◌, ◌≡◌, refl, ◌⊎◌, inl, inr, ap, ◌∙◌, ◌≢◌,
}
use strategy_builder_v.Prelude.Result.{Result, ok, err}
use strategy_builder_v.Prelude.Exec.{Exec, pure, raise, proceed, ◌>>=◌, bind-ok, recover-ok, not_ok}
use strategy_builder_v.Shared.Text.{Text, text}
use strategy_builder_v.Mcp.Gate.{
  GuardedAction, ConfirmationRequest, AuditEntry, Fault, entry, detailed, succeeded, confirm,
  decided, perform, guard, requested, approved, denied, not_approved, not_confirmed, ask, timeout,
  failed, rejected, message, read_only_mode,
}

module _ {W D : Type 0} (audit : AuditEntry D → Exec W Fault Unit)
    (request_approval : ConfirmationRequest D → Exec W Fault Bool) where
  -- The user was asked in the world `w`, and said yes.
  abbrev pub Approved : GuardedAction D → W → W → Type 0
  Approved action w w' =
      (w₁ : W) × (w₂ : W) × (audit (entry action requested) w ≡ (ok tt, w₁))
      × (request_approval
            (record { tool = action.tool; summary = action.summary; details = action.details }) w₁
          ≡ (ok true, w₂))
      × (audit (entry action approved) w₂ ≡ (ok tt, w'))

  decided_inv :
      (read_only : Bool) (action : GuardedAction D) (answer : Bool) (w w' : W)
      → decided read_only audit request_approval action answer w ≡ (ok tt, w')
      → (answer ≡ true) × (audit (entry action approved) w ≡ (ok tt, w'))
  unfolding decided
  decided_inv read_only action true w w' h = (refl, h)
  decided_inv read_only action false w w' h =
      let (_, m, _, h') =
        bind-ok (audit (entry action denied)) (λ _. raise {A = Unit} not_approved) w h in
      absurd (not_ok h')

  ask_inv :
      (read_only : Bool) (action : GuardedAction D) (answer : Bool) (w w' : W)
      → ask read_only audit request_approval action w ≡ (ok answer, w')
      → request_approval
          (record { tool = action.tool; summary = action.summary; details = action.details })
          w
        ≡ (ok answer, w')
  unfolding ask
  ask_inv read_only action answer w w' h = elim (recover-ok (request_approval _) _ w h) [
    | inl said ↦ said
    | inr (e, m, threw, h₁) ↦
        let (_, m', _, h₂) =
          bind-ok (audit (detailed action timeout (text "no confirmation / timeout")))
            (λ _. raise {A = Bool} not_confirmed) m h₁ in
        absurd (not_ok h₂)
  ]

  confirm_inv :
      (read_only : Bool) (action : GuardedAction D) (w w' : W)
      → confirm read_only audit request_approval action w ≡ (ok tt, w')
      → Approved action w w'
  unfolding confirm
  confirm_inv read_only action w w' h =
      let ask' = ask read_only audit request_approval action in
      let decided' = decided read_only audit request_approval action in
      let (_, w₁, asked, h₁) =
        bind-ok (audit (entry action requested)) (λ _. ask' >>= decided') w h in
      let (answer, w₂, came, h₂) = bind-ok ask' decided' w₁ h₁ in
      let (agreed, noted) = decided_inv read_only action answer w₂ w' h₂ in
      (
        w₁,
        w₂,
        asked,
        ask_inv read_only action answer w₁ w₂ came ∙ ap (λ a. (ok a, w₂)) agreed,
        noted,
      )

  -- `execute` ran from the world `w`, and its success was noted.
  abbrev pub Performed :
      {T : Type 0} → GuardedAction D → Exec W Fault (T × Option Text) → W → T → W → Type 0
  Performed {T} action execute w result w' =
      (hash : Option Text) × (m : W) × (execute w ≡ (ok (result, hash), m))
      × (audit (succeeded action hash) m ≡ (ok tt, w'))

  perform_inv :
      {T : Type 0} (read_only : Bool) (action : GuardedAction D)
      (execute : Exec W Fault (T × Option Text)) (w w' : W) (result : T)
      → perform read_only audit request_approval action execute w ≡ (ok result, w')
      → Performed action execute w result w'
  unfolding perform
  perform_inv {T} read_only action execute w w' result h =
      let noted : T × Option Text → Exec W Fault T =
        λ done. audit (succeeded action done.1) >>= λ _. pure done.0 in
      elim (recover-ok (execute >>= noted) _ w h) [
        | inl done ↦
            let ((value, hash), m, ran, h₁) = bind-ok execute noted w done in
            let (_, m', kept, h₂) =
              bind-ok (audit (succeeded action hash)) (λ _. pure value) m h₁ in
            let same : value ≡ result = let e = ap (λ p. p.0) h₂ in cc in
            let left : m' ≡ w' = ap (λ p. p.1) h₂ in
            (hash, m, ran ∙ ap (λ v. (ok (v, hash), m)) same, kept ∙ ap (λ v. (ok tt, v)) left)
        | inr (e, m, threw, h₁) ↦
            let (_, m', _, h₂) =
              bind-ok (audit (detailed action failed (message e))) (λ _. raise {A = T} e) m h₁ in
            absurd (not_ok h₂)
      ]

  -- What has happened between the worlds `w` and `m` when the signing part begins.
  abbrev pub Cleared : Bool → GuardedAction D → W → W → Type 0
  Cleared true action w m = Approved action w m
  Cleared false action w m = w ≡ m

  Cleared-inv :
      (sensitive read_only : Bool) (action : GuardedAction D) (w m : W)
      → (if sensitive then confirm read_only audit request_approval action else pure tt) w
        ≡ (ok tt, m)
      → Cleared sensitive action w m
  Cleared-inv true read_only action w m h = confirm_inv read_only action w m h
  Cleared-inv false read_only action w m h = ap (λ p. p.1) h

  -- When the gate returns a result, it is not in read-only mode; if the action is sensitive, the
  -- request was noted in the audit log, the user was asked and said yes, and that was noted too;
  -- only then `execute` ran, gave that result, and its success was noted with its hash.
  pub guard-Cleared :
      {T : Type 0} (read_only : Bool) (action : GuardedAction D)
      (execute : Exec W Fault (T × Option Text)) (w w' : W) (result : T)
      → guard read_only audit request_approval action execute w ≡ (ok result, w')
      → (read_only ≡ false)
        × ((m : W) × Cleared action.sensitive action w m × Performed action execute m result w')
  unfolding guard
  guard-Cleared {T} true action execute w w' result h =
      let (_, m, _, h₁) =
        bind-ok (audit (detailed action rejected (text "read-only mode")))
          (λ _. raise {A = T} read_only_mode) w h in
      absurd (not_ok h₁)
  guard-Cleared false action execute w w' result h =
      let first : Exec W Fault Unit =
        if action.sensitive then confirm false audit request_approval action else pure tt in
      let (_, m, cleared, h₁) =
        bind-ok first (λ _. perform false audit request_approval action execute) w h in
      (
        refl,
        (
          m,
          Cleared-inv action.sensitive false action w m cleared,
          perform_inv false action execute m w' result h₁,
        ),
      )

  proceed_same :
      {T : Type 0} (p q : Exec W Fault T) (came : Result Fault Unit) (m : W)
      → came ≢ ok tt
      → proceed (λ _. p) came m ≡ proceed (λ _. q) came m
  proceed_same p q (ok tt) m ne = absurd (ne refl)
  proceed_same p q (err e) m ne = refl

  sensitive_same :
      {T : Type 0} (sensitive : Bool) (action : GuardedAction D) (p q : Exec W Fault T) (w : W)
      → sensitive ≡ true
      → ((m : W) → ¬ Approved action w m)
      → ((if sensitive then confirm false audit request_approval action else pure tt) >>= λ _. p) w
        ≡ ((if sensitive then confirm false audit request_approval action else pure tt) >>= λ _. q)
            w
  sensitive_same false action p q w s never = cc
  sensitive_same true action p q w s never =
      let c = confirm false audit request_approval action w in
      proceed_same p q c.0 c.1 (λ e. never c.1 (confirm_inv false action w c.1 (λ i. (e i, c.1))))

  -- In read-only mode, and for a sensitive action that the user does not approve, what `execute`
  -- would do has no effect at all: two gates that differ only in it return the same and leave the
  -- same world.
  pub guard_unapproved :
      {T : Type 0} (read_only : Bool) (action : GuardedAction D)
      (p q : Exec W Fault (T × Option Text)) (w : W)
      → (read_only ≡ true) ⊎ ((action.sensitive ≡ true) × ((m : W) → ¬ Approved action w m))
      → guard read_only audit request_approval action p w
        ≡ guard read_only audit request_approval action q w
  unfolding guard
  guard_unapproved true action p q w h = refl
  guard_unapproved false action p q w (inl e) = cc
  guard_unapproved false action p q w (inr (s, never)) =
      sensitive_same action.sensitive action (perform false audit request_approval action p)
        (perform false audit request_approval action q) w s never
