-- ===== src/Prelude/Results.antt =====
-- A computation that returns a value or throws an error, as an asynchronous function of the source
-- does, with what a returned value says of each of its steps.
use mathlib.Core.Path.{◌≡◌, refl, ap}
use mathlib.Core.Bool.{Bool, true, false, false≢true}
use mathlib.Core.Option.{Option, none, some}

pub data Result {ℓ} (E : Type 0) (A : Type ℓ) : Type ℓ where
  ok : A → Result E A
  err : E → Result E A

infixl 10 ◌>>=◌ ◌>>◌
abbrev pub ◌>>=◌ {ℓ κ} :
    {E : Type 0} {A : Type ℓ} {B : Type κ} → Result E A → (A → Result E B) → Result E B
ok a >>= f = f a
err e >>= f = err e

abbrev pub ◌>>◌ {ℓ κ} :
    {E : Type 0} {A : Type ℓ} {B : Type κ} → Result E A → Result E B → Result E B
m >> k = m >>= λ _. k

-- A step that only checks.
abbrev pub Check : Type 0 → Type 0
Check E = Result {0} E Unit

-- `if (condition) { throw e; }` and `if (value === null) { throw e; }`
abbrev pub throw_if : {E : Type 0} → Bool → E → Check E
throw_if true e = err e
throw_if false e = ok tt

abbrev pub or_throw {ℓ} : {E : Type 0} {A : Type ℓ} → Option A → E → Result E A
or_throw none e = err e
or_throw (some a) e = ok a

module _ {ℓ} {E : Type 0} {A : Type ℓ} where
  abbrev pub is_ok : Result E A → Bool
  is_ok (ok a) = true
  is_ok (err e) = false

  abbrev value_or : A → Result E A → A
  value_or d (ok a) = a
  value_or d (err e) = d

  pub err≢ok : {e : E} {a : A} → ◌≡◌ {A = Result E A} (err e) (ok a) → ⊥
  err≢ok h = false≢true (ap is_ok h)

  pub ok-inj : (a b : A) → ◌≡◌ {A = Result E A} (ok a) (ok b) → a ≡ b
  ok-inj a b h = ap (value_or a) h

  pub throw_if-ok :
      (c : Bool) (e : E) (k : Result E A) (a : A)
      → (throw_if c e >> k) ≡ ok a
      → (c ≡ false) × (k ≡ ok a)
  throw_if-ok true e k a h = absurd (err≢ok h)
  throw_if-ok false e k a h = (refl, h)

module _ {ℓ κ} {E : Type 0} {A : Type ℓ} {B : Type κ} where
  pub bind-ok :
      (m : Result E A) (f : A → Result E B) (b : B)
      → (m >>= f) ≡ ok b
      → (a : A) × (m ≡ ok a) × (f a ≡ ok b)
  bind-ok (ok a) f b h = (a, refl, h)
  bind-ok (err e) f b h = absurd (err≢ok h)

  pub or_throw-ok :
      (o : Option A) (e : E) (f : A → Result E B) (b : B)
      → (or_throw o e >>= f) ≡ ok b
      → (a : A) × (o ≡ some a) × (f a ≡ ok b)
  or_throw-ok none e f b h = absurd (err≢ok h)
  or_throw-ok (some a) e f b h = (a, refl, h)
