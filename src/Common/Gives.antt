-- ===== src/Common/Gives.antt =====
-- Calls that end: an outcome that is not `stuck`, with a property of what is returned.
use mathlib.Core.Path.{◌≡◌, refl}
use mathlib.Core.Logic.{◌≢◌, ◌⊎◌, inl, inr}
use mathlib.Core.Bool.{Bool, true, false}
use heplify.Common.Results.{Outcome, ok, err, panic, stuck, ◌>>=◌}
use heplify.Common.Tests.{if◌then◌else◌}

-- The call ends, and what it returns has the property.
pub data Gives {ℓ} {E : Type 0} {A : Type ℓ} (P : A → Type 0) : Outcome E A → Type ℓ where
  returns : {v : A} → P v → Gives P (ok v)
  fails : {e : E} → Gives P (err e)
  panics : Gives P panic

module _ {ℓ} {E : Type 0} {A : Type ℓ} where
  pub Gives-bind {κ} :
      {B : Type κ} {Q : A → Type 0} {P : B → Type 0} {o : Outcome E A} {k : A → Outcome E B}
      → Gives Q o
      → ((v : A) → Q v → Gives P (k v))
      → Gives P (o >>= k)
  Gives-bind (returns {v = v} q) f = f v q
  Gives-bind fails f = fails
  Gives-bind panics f = panics

  pub Gives-if :
      {P : A → Type 0} (b : Bool) {x y : Outcome E A}
      → ((b ≡ true) → Gives P x)
      → ((b ≡ false) → Gives P y)
      → Gives P (if b then x else y)
  Gives-if true f g = f refl
  Gives-if false f g = g refl

  pub Gives-weaker :
      {P Q : A → Type 0} {o : Outcome E A} → Gives P o → ((v : A) → P v → Q v) → Gives Q o
  Gives-weaker (returns {v = v} p) f = returns (f v p)
  Gives-weaker fails f = fails
  Gives-weaker panics f = panics

  pub Gives-ne-stuck : {P : A → Type 0} {o : Outcome E A} → Gives P o → o ≢ stuck
  Gives-ne-stuck (returns p) = λ e. cc
  Gives-ne-stuck fails = λ e. cc
  Gives-ne-stuck panics = λ e. cc

  pub Gives-of-ne_stuck : (o : Outcome E A) → o ≢ stuck → Gives (λ v. Unit) o
  Gives-of-ne_stuck (ok v) h = returns tt
  Gives-of-ne_stuck (err e) h = fails
  Gives-of-ne_stuck panic h = panics
  Gives-of-ne_stuck stuck h = absurd (h refl)

  pub Gives-cases :
      {P : A → Type 0} {o : Outcome E A}
      → Gives P o
      → ((v : A) × (o ≡ ok v) × P v) ⊎ (((e : E) × (o ≡ err e)) ⊎ (o ≡ panic))
  Gives-cases (returns {v = v} p) = inl (v, refl, p)
  Gives-cases (fails {e = e}) = inr (inl (e, refl))
  Gives-cases panics = inr (inr refl)

-- The call ends.
abbrev pub Ends {ℓ} : {E : Type 0} {A : Type ℓ} → Outcome E A → Type ℓ
Ends o = Gives (λ v. Unit) o

pub Ends-bind {ℓ κ} :
    {E : Type 0} {A : Type ℓ} {B : Type κ} {o : Outcome E A} {k : A → Outcome E B}
    → Ends o
    → ((v : A) → Ends (k v))
    → Ends (o >>= k)
Ends-bind h f = Gives-bind h (λ v u. f v)
