-- ===== src/Prelude/Exec.antt =====
-- Methods that act on a state and may throw. What was done before a throw stays done, so the state
-- comes back beside the error too.
use mathlib.Core.Path.{◌≡◌, refl, ap}
use mathlib.Core.Logic.{◌⊎◌, inl, inr}
use strategy_builder_v.Prelude.Result.{Result, ok, err}

abbrev pub Exec {ℓ κ} : Type ℓ → Type κ → Type ℓ → Type (ℓ ⊔ κ)
Exec S E A = S → Result E A × S

module _ {ℓ κ} {S A : Type ℓ} {E : Type κ} where
  abbrev pub pure : A → Exec S E A
  pure a s = (ok a, s)

  abbrev pub raise : E → Exec S E A
  raise e s = (err e, s)

  -- Code that does not act on the state.
  abbrev pub lift : Result E A → Exec S E A
  lift r s = (r, s)

module _ {ℓ κ} {S A B : Type ℓ} {E : Type κ} where
  -- What follows a call that has come back, in the state that it left.
  abbrev pub proceed : (A → Exec S E B) → Result E A → S → Result E B × S
  proceed next (err thrown) left = (err thrown, left)
  proceed next (ok value) left = next value left

  infixl 5 ◌>>=◌ ◌>>◌
  abbrev pub ◌>>=◌ : Exec S E A → (A → Exec S E B) → Exec S E B
  ◌>>=◌ call next before = let (came, left) = call before in proceed next came left

  abbrev pub ◌>>◌ : Exec S E A → Exec S E B → Exec S E B
  call >> after = call >>= λ _. after

module _ {ℓ κ κ'} {S A : Type ℓ} {E : Type κ} {F : Type κ'} where
  abbrev pub caught : Result E A → (E → Exec S F A) → Exec S F A
  caught (ok a) f s = (ok a, s)
  caught (err e) f s = f e s

  -- `try { m } catch (e) { f(e) }`
  abbrev pub recover : Exec S E A → (E → Exec S F A) → Exec S F A
  recover m f s = let (r, s') = m s in caught r f s'

-- Inversion: what a call that came back without a throw has passed through.
pub not_ok {ℓ κ} :
    {S A : Type ℓ} {E : Type κ} {e : E} {a : A} {s t : S}
    → ◌≡◌ {A = Result E A × S} (err e, s) (ok a, t)
    → ⊥
not_ok h = let h' = ap (λ p. p.0) h in cc

proceed-ok {ℓ κ} :
    {S A B : Type ℓ} {E : Type κ} (next : A → Exec S E B) (came : Result E A) (left : S) {b : B}
    {t : S}
    → proceed next came left ≡ (ok b, t)
    → (a : A) × (came ≡ ok a) × (next a left ≡ (ok b, t))
proceed-ok next (err e) left h = absurd (not_ok h)
proceed-ok next (ok a) left h = (a, refl, h)

pub bind-ok {ℓ κ} :
    {S A B : Type ℓ} {E : Type κ} (call : Exec S E A) (next : A → Exec S E B) (s : S) {b : B}
    {t : S}
    → (call >>= next) s ≡ (ok b, t)
    → (a : A) × (m : S) × (call s ≡ (ok a, m)) × (next a m ≡ (ok b, t))
bind-ok call next s h =
    let (a, e, h') = proceed-ok next (call s).0 (call s).1 h in
    (a, (call s).1, (λ i. (e i, (call s).1)), h')

proceed-pure {ℓ κ} :
    {S A B : Type ℓ} {E : Type κ} (f : A → B) (came : Result E A) (left : S) {e : E} {t : S}
    → proceed (λ a. pure (f a)) came left ≡ (err e, t)
    → (came ≡ err e) × (left ≡ t)
proceed-pure f (ok a) left h = let h' = ap (λ p. p.0) h in absurd (cc)
proceed-pure f (err e) left h = let h' = ap (λ p. p.0) h in (cc, ap (λ p. p.1) h)

-- What follows does not throw, so the call has.
pub bind-pure {ℓ κ} :
    {S A B : Type ℓ} {E : Type κ} (call : Exec S E A) (f : A → B) (s : S) {e : E} {t : S}
    → (call >>= λ a. pure (f a)) s ≡ (err e, t)
    → call s ≡ (err e, t)
bind-pure call f s h = let (p, q) = proceed-pure f (call s).0 (call s).1 h in (λ i. (p i, q i))

pub lift-ok {ℓ κ} :
    {S A B : Type ℓ} {E : Type κ} (r : Result E A) (next : A → Exec S E B) (s : S) {b : B} {t : S}
    → (lift r >>= next) s ≡ (ok b, t)
    → (a : A) × (r ≡ ok a) × (next a s ≡ (ok b, t))
lift-ok r next s h = proceed-ok next r s h

caught-ok {ℓ κ κ'} :
    {S A : Type ℓ} {E : Type κ} {F : Type κ'} (handler : E → Exec S F A) (came : Result E A)
    (left : S) {a : A} {t : S}
    → caught came handler left ≡ (ok a, t)
    → ((came ≡ ok a) × (left ≡ t)) ⊎ ((e : E) × (came ≡ err e) × (handler e left ≡ (ok a, t)))
caught-ok handler (ok x) left h = let h₀ = ap (λ p. p.0) h in inl (cc, ap (λ p. p.1) h)
caught-ok handler (err e) left h = inr (e, refl, h)

pub recover-ok {ℓ κ κ'} :
    {S A : Type ℓ} {E : Type κ} {F : Type κ'} (call : Exec S E A) (handler : E → Exec S F A) (s : S)
    {a : A} {t : S}
    → recover call handler s ≡ (ok a, t)
    → (call s ≡ (ok a, t)) ⊎ ((e : E) × (m : S) × (call s ≡ (err e, m)) × (handler e m ≡ (ok a, t)))
recover-ok call handler s h = elim (caught-ok handler (call s).0 (call s).1 h) [
  | inl (e, f) ↦ inl (λ i. (e i, f i))
  | inr (e, p, q) ↦ inr (e, (call s).1, (λ i. (p i, (call s).1)), q)
]
