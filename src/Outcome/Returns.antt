-- ===== src/Outcome/Returns.antt =====
-- Code that returns a result with a property.
use linux_dev_env.Base.{◌≡◌, refl, Bool, true, false, if◌then◌else◌}
use linux_dev_env.Outcome.{Result, ok, Error, throw_if, ◌>>=◌}

pub data Returns {A : Type 0} (P : A → Type 0) : Result A → Type 0 where
  returns : {a : A} → P a → Returns P (ok a)

module _ {A : Type 0} {P : A → Type 0} where
  pub Returns-of : {r : Result A} {a : A} → r ≡ ok a → P a → Returns P r
  Returns-of {r} h p = rw h (returns p)

  pub Returns-ok : {r : Result A} → Returns P r → (a : A) × (r ≡ ok a) × P a
  Returns-ok (returns {a} p) = (a, refl, p)

  pub Returns-imp :
      {Q : A → Type 0} {r : Result A} → Returns P r → ((a : A) → P a → Q a) → Returns Q r
  Returns-imp (returns {a} p) f = returns (f a p)

  pub Returns-bind :
      {B : Type 0} {Q : B → Type 0} {r : Result A} (f : A → Result B)
      → Returns P r
      → ((a : A) → P a → Returns Q (f a))
      → Returns Q (r >>= f)
  Returns-bind f (returns {a} p) k = k a p

  pub Returns-if :
      (c : Bool) (r s : Result A)
      → (c ≡ true → Returns P r)
      → (c ≡ false → Returns P s)
      → Returns P (if c then r else s)
  Returns-if true r s f g = f refl
  Returns-if false r s f g = g refl

-- A guard that does not throw.
pub throw_if-Returns :
    (c : Bool) (e : Error) → c ≡ false → Returns (λ (_ : Unit {0}). Unit {0}) (throw_if c e)
throw_if-Returns false e h = returns tt
throw_if-Returns true e h = cc

-- A test, where the property depends on it.
pub Returns-test :
    {A : Type 0} (P : Bool → A → Type 0) (c : Bool) (r s : Result A)
    → (c ≡ true → Returns (P true) r)
    → (c ≡ false → Returns (P false) s)
    → Returns (P c) (if c then r else s)
Returns-test P true r s f g = f refl
Returns-test P false r s f g = g refl
