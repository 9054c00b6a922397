-- ===== src/Mcp/Money/Safe.antt =====
-- What a deposit or a withdrawal that came back has passed through.
use strategy_builder_v.Prelude.{
  Option, some, List, Bool, true, false, ◌≡◌, refl, ap, ◌∙◌, sym, subst, ◌⊎◌, inl, inr,
}
use strategy_builder_v.Prelude.Result.{Result, ok}
use strategy_builder_v.Prelude.Exec.{
  Exec, lift, pure, ◌>>=◌, bind-ok, lift-ok, recover-ok, bind-pure,
}
use strategy_builder_v.Shared.Text.{Text}
use strategy_builder_v.Mcp.Gate.{
  GuardedAction, ConfirmationRequest, AuditEntry, Fault, guard, succeeded,
}
use strategy_builder_v.Mcp.Gate.Approval.{Approved, guard-Cleared, Cleared}
use strategy_builder_v.Mcp.Tokens.{owned, owns}
use strategy_builder_v.Mcp.Tokens.Laws.{owned-ok}
use strategy_builder_v.Mcp.Limits.{Config, allowed, deposit_base, withdraw_base}
use strategy_builder_v.Mcp.Limits.Laws.{IsPriced, deposit_base-IsPriced, withdraw_base-IsPriced}
use strategy_builder_v.Mcp.Money.{
  Details, Fees, Deposit, Withdrawal, depositing, withdrawing, assert_vault, deposit_guarded,
  withdraw_guarded, fee_line, deposit_action, withdraw_action, sent, deposit, withdraw, ℕ, Kind,
  fee_text, bps_of, err, text,
}

module _ {W : Type 0} (audit : AuditEntry Details → Exec W Fault Unit)
    (request_approval : ConfirmationRequest Details → Exec W Fault Bool)
    (list_vaults : Exec W Fault (List Text)) (get_fees : Exec W Fault Fees) where
  -- The backend lists the vault as one of the owner's.
  pub record IsOwned (vault : Text) (w left : W) : Type 0 where
    pub vaults : List Text
    pub listed : list_vaults w ≡ (ok vaults, left)
    pub owner : owns vaults vault ≡ true

  -- The user was asked for this action and approved it, and after that it was sent and logged.
  pub record IsSent (action : GuardedAction Details) (send : Exec W Fault Text) (w : W)
      (hash : Text) (w' : W) : Type 0 where
    pub told : W
    pub approved : Approved audit request_approval action w told
    pub signed : W
    pub ran : send told ≡ (ok hash, signed)
    pub noted : audit (succeeded action (some hash)) signed ≡ (ok tt, w')

  assert_vault-IsOwned :
      (vault : Text) (w left : W)
      → assert_vault audit request_approval list_vaults get_fees vault w ≡ (ok tt, left)
      → IsOwned vault w left
  unfolding assert_vault
  assert_vault-IsOwned vault w left h =
      let (vaults, m, listed, h₁) =
        bind-ok list_vaults (λ (vaults : List Text). lift {S = W} (owned vault vaults)) w h in
      record {
        vaults = vaults;
        listed = listed ∙ ap (λ x. (ok vaults, x)) (ap (λ p. p.1) h₁);
        owner = owned-ok vault vaults (ap (λ p. p.0) h₁);
      }

  guard-IsSent :
      (read_only : Bool) (action : GuardedAction Details) (send : Exec W Fault Text) (w w' : W)
      (hash : Text)
      → action.sensitive ≡ true
      → guard read_only audit request_approval action
          (sent audit request_approval list_vaults get_fees send)
          w
        ≡ (ok hash, w')
      → (read_only ≡ false) × IsSent action send w hash w'
  unfolding sent
  guard-IsSent read_only action send w w' hash sensitive h =
      let (writable, (m, cleared, (noted_hash, signed, ran, noted))) =
        guard-Cleared audit request_approval read_only action
          (sent audit request_approval list_vaults get_fees send) w w' hash h in
      let (came, left, went, h₁) =
        bind-ok send (λ (x : Text). pure {S = W} {E = Fault} (x, some x)) m ran in
      let e : ◌≡◌ {A = Result Fault (Text × Option Text) × W} (ok (came, some came), left)
          (ok (hash, noted_hash), signed) =
        h₁ in
      let pair : ◌≡◌ {A = Result Fault (Text × Option Text)} (ok (came, some came))
          (ok (hash, noted_hash)) =
        ap (λ p. p.0) e in
      let one : came ≡ hash = cc in
      let two : some came ≡ noted_hash = cc in
      (
        writable,
        record {
          told = m;
          approved = subst (λ b. Cleared audit request_approval b action w m) sensitive cleared;
          signed = signed;
          ran = went ∙ ap (λ x. (ok came, x)) (ap (λ p. p.1) e) ∙ ap (λ x. (ok x, signed)) one;
          noted = ap (λ x. audit (succeeded action x) signed) (ap some (sym one) ∙ two) ∙ noted;
        },
      )

  -- What the user is told of the fee: the basis points that the backend gives for this kind, or that the fee
  -- is not known, where it could not be asked.
  abbrev pub IsFeeOf : (Fees → ℕ) → W → Text → W → Type 0
  IsFeeOf bps w fee w' =
      ((fees : Fees) × (get_fees w ≡ (ok fees, w')) × (fee ≡ fee_text (bps fees)))
      ⊎ ((e : Fault) × (get_fees w ≡ (err e, w')) × (fee ≡ text "Gebühr unbekannt"))

  fee_line-IsFeeOf :
      (kind : Kind) (w w' : W) (fee : Text)
      → fee_line audit request_approval list_vaults get_fees kind w ≡ (ok fee, w')
      → IsFeeOf (bps_of kind) w fee w'
  unfolding fee_line
  fee_line-IsFeeOf kind w w' fee h =
      elim (recover-ok (get_fees >>= λ fees. pure (fee_text (bps_of kind fees)))
        (λ _. pure (text "Gebühr unbekannt")) w h) [
          | inl asked ↦
              let (fees, m, gave, h₁) =
                bind-ok get_fees (λ fees. pure (fee_text (bps_of kind fees))) w asked in
              inl (
                fees,
                gave ∙ ap (λ x. (ok fees, x)) (ap (λ p. p.1) h₁),
                let e = ap (λ p. p.0) h₁ in cc,
              )
          | inr (e, m, threw, h₁) ↦ inr (
            e,
            bind-pure get_fees (λ fees. fee_text (bps_of kind fees)) w threw
                ∙ ap (λ x. (err e, x)) (ap (λ p. p.1) h₁),
            let e = ap (λ p. p.0) h₁ in cc,
          )
        ]

  -- A deposit that came back with a hash: the vault is one that the backend lists for the owner, the
  -- token is known and the amount is within its limit; the server was not in read-only mode; the
  -- user was asked about exactly this deposit, with the fee for deposits that the backend gave, or with
  -- an unknown fee where the backend gave none, and approved it; then exactly that vault, token and amount in
  -- base units were sent, with that hash, and it was logged.
  pub deposit-IsSent :
      (deposit_on_chain : Deposit → Exec W Fault Text) (config : Config) (vault token amount : Text)
      (w w' : W) (hash : Text)
      → deposit audit request_approval list_vaults get_fees deposit_on_chain config vault token
          amount w
        ≡ (ok hash, w')
      → (config.read_only ≡ false)
        × ((left : W) × IsOwned vault w left
            × ((base : Text) × IsPriced config token amount base
                × ((fee : Text) × (priced_at : W) × IsFeeOf
                      (λ fees. fees.deposit_fee_bps)
                      left
                      fee
                      priced_at
                    × IsSent
                        (deposit_action audit request_approval list_vaults get_fees vault token
                          amount fee)
                        (deposit_on_chain
                          (record { vault = vault; token = token; amount_base = base }))
                        priced_at
                        hash
                        w')))
  unfolding deposit
  deposit-IsSent deposit_on_chain config vault token amount w w' hash h =
      let guarded : Text → Text → Exec W Fault Text =
        deposit_guarded audit request_approval list_vaults get_fees deposit_on_chain config vault
          token amount in
      let fee_line' : Exec W Fault Text =
        fee_line audit request_approval list_vaults get_fees depositing in
      let (_, left, own, h₁) =
        bind-ok (assert_vault audit request_approval list_vaults get_fees vault)
          (λ _.
            lift {S = W} (deposit_base config token amount) >>= λ base. fee_line' >>= guarded base)
          w h in
      let (base, priced, h₂) =
        lift-ok (deposit_base config token amount) (λ base. fee_line' >>= guarded base) left h₁ in
      let (fee, at, told, h₃) = bind-ok fee_line' (guarded base) left h₂ in
      let (writable, is_sent) =
        guard-IsSent config.read_only
          (deposit_action audit request_approval list_vaults get_fees vault token amount fee)
          (deposit_on_chain (record { vault = vault; token = token; amount_base = base })) at w'
          hash refl h₃ in
      (
        writable,
        (
          left,
          assert_vault-IsOwned vault w left own,
          (
            base,
            deposit_base-IsPriced config token amount base priced,
            (fee, at, fee_line-IsFeeOf depositing left at fee told, is_sent),
          ),
        ),
      )

  -- A withdrawal that came back with a hash has passed through the same as a deposit, and its
  -- recipient, in lower case, is on the allowlist: the user approved exactly this withdrawal to exactly
  -- this recipient, with the fee for withdrawals in the same way, and exactly it was sent.
  pub withdraw-IsSent :
      (withdraw_on_chain : Withdrawal → Exec W Fault Text) (config : Config)
      (vault token amount recipient : Text) (w w' : W) (hash : Text)
      → withdraw audit request_approval list_vaults get_fees withdraw_on_chain config vault token
          amount recipient w
        ≡ (ok hash, w')
      → (config.read_only ≡ false)
        × (allowed config.address_allowlist recipient ≡ true)
        × ((left : W) × IsOwned vault w left
            × ((base : Text) × IsPriced config token amount base
                × ((fee : Text) × (priced_at : W) × IsFeeOf
                      (λ fees. fees.withdraw_fee_bps)
                      left
                      fee
                      priced_at
                    × IsSent
                        (withdraw_action audit request_approval list_vaults get_fees vault token
                          amount recipient fee)
                        (withdraw_on_chain (record {
                          vault = vault;
                          token = token;
                          amount_base = base;
                          recipient = recipient;
                        }))
                        priced_at
                        hash
                        w')))
  unfolding withdraw
  withdraw-IsSent withdraw_on_chain config vault token amount recipient w w' hash h =
      let guarded : Text → Text → Exec W Fault Text =
        withdraw_guarded audit request_approval list_vaults get_fees withdraw_on_chain config vault
          token amount recipient in
      let fee_line' : Exec W Fault Text =
        fee_line audit request_approval list_vaults get_fees withdrawing in
      let base' : Result Fault Text = withdraw_base config token amount recipient in
      let (_, left, own, h₁) =
        bind-ok (assert_vault audit request_approval list_vaults get_fees vault)
          (λ _. lift {S = W} base' >>= λ base. fee_line' >>= guarded base) w h in
      let (base, priced, h₂) = lift-ok base' (λ base. fee_line' >>= guarded base) left h₁ in
      let (fee, at, told, h₃) = bind-ok fee_line' (guarded base) left h₂ in
      let (writable, is_sent) =
        guard-IsSent config.read_only
          (withdraw_action audit request_approval list_vaults get_fees vault token amount recipient
            fee)
          (withdraw_on_chain
            (record { vault = vault; token = token; amount_base = base; recipient = recipient }))
          at w' hash refl h₃ in
      let (is_priced, free) = withdraw_base-IsPriced config token amount recipient base priced in
      (
        writable,
        free,
        (
          left,
          assert_vault-IsOwned vault w left own,
          (base, is_priced, (fee, at, fee_line-IsFeeOf withdrawing left at fee told, is_sent)),
        ),
      )
