-- ===== src/Common/Results.antt =====
-- What a call of a Go function comes to: a value, an error value, or a run-time panic.
-- `stuck` is no outcome of the Go code: a loop of the model ran out of fuel.
use mathlib.Core.Path.{◌≡◌, refl}
use mathlib.Core.Logic.{◌≢◌}

pub data Outcome {ℓ} (E : Type 0) (A : Type ℓ) : Type ℓ where
  ok : A → Outcome E A
  err : E → Outcome E A
  panic : Outcome E A
  stuck : Outcome E A

infixl 5 ◌>>=◌
abbrev pub ◌>>=◌ {ℓ κ} :
    {B : Type κ} {A : Type ℓ} {E : Type 0} → Outcome E A → (A → Outcome E B) → Outcome E B
panic >>= k = panic
stuck >>= k = stuck
err x >>= k = err x
ok v >>= k = k v

-- A chain that returns a value has a first part that does, and goes on from there.
pub >>=-returns {ℓ κ} :
    {A : Type ℓ} {B : Type κ} {E : Type 0} (o : Outcome E A) (k : A → Outcome E B) {r : B}
    → (o >>= k) ≡ ok r
    → (v : A) × (k v ≡ ok r) × (o ≡ ok v)
>>=-returns panic k e = cc
>>=-returns stuck k e = cc
>>=-returns (err x) k e = cc
>>=-returns (ok v) k e = (v, e, refl)

pub >>=-ne-stuck {ℓ κ} :
    {E : Type 0} {A : Type ℓ} {B : Type κ} (m : Outcome E A) (f : A → Outcome E B)
    → m ≢ stuck
    → ((a : A) → m ≡ ok a → f a ≢ stuck)
    → (m >>= f) ≢ stuck
>>=-ne-stuck (ok a) f hm hf = hf a refl
>>=-ne-stuck (err e) f hm hf = λ p. cc
>>=-ne-stuck panic f hm hf = λ p. cc
>>=-ne-stuck stuck f hm hf = λ p. hm refl
