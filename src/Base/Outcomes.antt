-- ===== src/Base/Outcomes.antt =====
-- How a piece of the program ends. The code has no error values of its own for the last two.
use mathlib.Core.Path.{◌≡◌, refl, ap, subst}

-- `fault`: an access outside the object that the pointer points into, or through a pointer that
-- points to nothing. `spin`: the fuel of a loop ran out, so the loop has not ended within it.
pub data Run {ℓ} (A : Type ℓ) : Type ℓ where
  done : A → Run A
  fault : Run A
  spin : Run A

infixl 5 ◌>>=◌
abbrev pub ◌>>=◌ {ℓ κ} : {A : Type ℓ} {B : Type κ} → Run A → (A → Run B) → Run B
done a >>= f = f a
fault >>= f = fault
spin >>= f = spin

-- Inversion of a bind that gives a result.
pub >>=-eq-done {ℓ κ} :
    {A : Type ℓ} {B : Type κ} (m : Run A) (f : A → Run B) {b : B}
    → (m >>= f) ≡ done b
    → (a : A) × (m ≡ done a) × (f a ≡ done b)
>>=-eq-done (done a) f h = (a, refl, h)
>>=-eq-done fault f h = cc
>>=-eq-done spin f h = cc

pub done-injective {ℓ} : {A : Type ℓ} {a b : A} → done a ≡ done b → a ≡ b
done-injective h = cc

pub bind_done {ℓ κ} :
    {A : Type ℓ} {B : Type κ} {m : Run A} {a : A} (f : A → Run B) → m ≡ done a → (m >>= f) ≡ f a
bind_done f e = ap (λ x. x >>= f) e

pub bind_fault {ℓ κ} :
    {A : Type ℓ} {B : Type κ} {m : Run A} (f : A → Run B) → m ≡ fault → (m >>= f) ≡ fault
bind_fault f e = ap (λ x. x >>= f) e

-- What holds of a result, if there is one.
abbrev pub Post {ℓ} : {A : Type ℓ} → (A → Type 0) → Run A → Type 0
Post Q (done a) = Q a
Post Q fault = Unit
Post Q spin = Unit

pub Post-bind {ℓ} :
    {A : Type ℓ} {B : Type ℓ} (Q : A → Type 0) (R : B → Type 0) (m : Run A) (f : A → Run B)
    → Post Q m
    → ((a : A) → Q a → Post R (f a))
    → Post R (m >>= f)
Post-bind Q R (done a) f q on = on a q
Post-bind Q R fault f q on = tt
Post-bind Q R spin f q on = tt

pub Post-intro {ℓ} :
    {A : Type ℓ} {Q : A → Type 0} (m : Run A) → ((a : A) → m ≡ done a → Q a) → Post Q m
Post-intro (done a) on = on a refl
Post-intro fault on = tt
Post-intro spin on = tt

pub Post-done {ℓ} : {A : Type ℓ} (Q : A → Type 0) {m : Run A} {a : A} → m ≡ done a → Post Q m → Q a
Post-done Q e q = subst (λ r. Post Q r) e q
