-- ===== src/Prelude/Result.antt =====
-- Results of code that may throw, and the chain of such steps.
use Prim.Native.Nat.{ℕ, zero, suc}
use mathlib.Core.List.{List, [], ◌∷◌}
use mathlib.Core.Option.{some}
use strategy_builder_v.Prelude.Lists.{length, get_elem?, All}
use mathlib.Core.Path.{ap, ◌≡◌, refl}
use strategy_builder_v.Prelude.{List, ◌∷◌, ℕ, get_elem?, some}

pub data Result {ℓ κ} (E : Type κ) (A : Type ℓ) : Type (ℓ ⊔ κ) where
  ok : A → Result E A
  err : E → Result E A

infixl 5 ◌>>=◌
abbrev pub ◌>>=◌ {ℓ ℓ' κ} :
    {E : Type κ} {A : Type ℓ} {B : Type ℓ'} → Result E A → (A → Result E B) → Result E B
err thrown >>= next = err thrown
ok value >>= next = next value

-- A chain that returned has returned at each of its two parts.
pub chain-ok {ℓ ℓ' κ} :
    {E : Type κ} {A : Type ℓ} {B : Type ℓ'} (next : A → Result E B) (first : Result E A) {last : B}
    → (first >>= next) ≡ ok last
    → (value : A) × (next value ≡ ok last) × (first ≡ ok value)
chain-ok next (err thrown) returned = cc
chain-ok next (ok value) returned = (value, returned, refl)

-- `list.map(f)` where `f` may throw: the first throw ends it.
abbrev pub map_result {ℓ ℓ' κ} :
    {E : Type κ} {A : Type ℓ} {B : Type ℓ'} → (A → Result E B) → List A → Result E (List B)
map_result f [] = ok []
map_result f (x ∷ xs) = f x >>= λ y. map_result f xs >>= λ ys. ok (y ∷ ys)

pub map_result-cons {ℓ ℓ' κ} :
    {E : Type κ} {A : Type ℓ} {B : Type ℓ'} (f : A → Result E B) (x : A) (xs : List A) (zs : List B)
    → map_result f (x ∷ xs) ≡ ok zs
    → (y : B) × (ys : List B) × (f x ≡ ok y) × (map_result f xs ≡ ok ys) × (zs ≡ y ∷ ys)
map_result-cons f x xs zs h =
    let (y, h', hy) = chain-ok (λ y. map_result f xs >>= λ ys. ok (y ∷ ys)) (f x) h in
    let (ys, e, hys) = chain-ok (λ ys. ok (y ∷ ys)) (map_result f xs) h' in (y, ys, hy, hys, cc)

-- Each result stands where its argument stood.
pub get_elem?-map_result {ℓ ℓ' κ} :
    {E : Type κ} {A : Type ℓ} {B : Type ℓ'} (f : A → Result E B) (xs : List A) (zs : List B) (i : ℕ)
    (x : A)
    → map_result f xs ≡ ok zs
    → get_elem? xs i ≡ some x
    → (y : B) × (get_elem? zs i ≡ some y) × (f x ≡ ok y)
get_elem?-map_result f [] zs i x h k = absurd (cc)
get_elem?-map_result f (a ∷ xs) zs zero x h k =
    let (y, ys, hy, hys, e) = map_result-cons f a xs zs h in
    (y, rw e refl, let same : a ≡ x = cc in rw (← same) hy)
get_elem?-map_result f (a ∷ xs) zs (suc i) x h k =
    let (y, ys, hy, hys, e) = map_result-cons f a xs zs h in
    let (z, at, hz) = get_elem?-map_result f xs ys i x hys k in (z, rw e at, hz)

pub length-map_result {ℓ ℓ' κ} :
    {E : Type κ} {A : Type ℓ} {B : Type ℓ'} (f : A → Result E B) (xs : List A) (zs : List B)
    → map_result f xs ≡ ok zs
    → length zs ≡ length xs
length-map_result f [] zs h = cc
length-map_result f (x ∷ xs) zs h =
    let (y, ys, hy, hys, e) = map_result-cons f x xs zs h in
    rw e (ap suc (length-map_result f xs ys hys))

-- Where no call throws, there is a result.
pub map_result-total {ℓ ℓ' κ} :
    {E : Type κ} {A : Type ℓ} {B : Type ℓ'} (f : A → Result E B) (xs : List A)
    → All (λ x. (y : B) × (f x ≡ ok y)) xs
    → (ys : List B) × (map_result f xs ≡ ok ys)
map_result-total f [] h = ([], refl)
map_result-total f (x ∷ xs) ((y, hy), h) =
    let (ys, hys) = map_result-total f xs h in (y ∷ ys, rw (hy, hys) refl)
