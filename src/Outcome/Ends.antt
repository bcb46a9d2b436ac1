-- ===== src/Outcome/Ends.antt =====
-- Code that returns a result with a property or throws, and does not run out of the model's fuel.
use linux_dev_env.Base.{
  String, ◌≡◌, ◌≢◌, refl, ap, Bool, true, false, Option, none, some, if◌then◌else◌,
}
use linux_dev_env.Outcome.{
  Result, ok, err, Error, crab_message, invalid_control_flow, out_of_fuel, or_throw, throw_if,
  ◌>>=◌,
}

pub data Ends {A : Type 0} (P : A → Type 0) : Result A → Type 0 where
  returns : {a : A} → P a → Ends P (ok a)
  throws : {e : Error} → e ≢ out_of_fuel → Ends P (err e)

module _ {A : Type 0} {P : A → Type 0} where
  pub Ends-of : (r : Result A) → ((a : A) → r ≡ ok a → P a) → r ≢ err out_of_fuel → Ends P r
  Ends-of (ok a) f n = returns (f a refl)
  Ends-of (err e) f n = throws λ h. n (ap err h)

  pub Ends-ok : {r : Result A} {b : A} → Ends P r → r ≡ ok b → P b
  Ends-ok {b = b} (returns {a = a} p) h = let e : a ≡ b = cc in rw (← e) p
  Ends-ok (throws n) h = cc

  pub Ends-not_out_of_fuel : {r : Result A} → Ends P r → r ≢ err out_of_fuel
  Ends-not_out_of_fuel (returns p) h = cc
  Ends-not_out_of_fuel (throws n) h = n cc

  pub Ends-imp : {Q : A → Type 0} {r : Result A} → Ends P r → ((a : A) → P a → Q a) → Ends Q r
  Ends-imp (returns {a} p) f = returns (f a p)
  Ends-imp (throws n) f = throws n

  pub Ends-bind :
      {B : Type 0} {Q : B → Type 0} {r : Result A} (f : A → Result B)
      → Ends P r
      → ((a : A) → P a → Ends Q (f a))
      → Ends Q (r >>= f)
  Ends-bind f (returns {a} p) k = k a p
  Ends-bind f (throws n) k = throws n

  pub Ends-if :
      (c : Bool) (r s : Result A)
      → (c ≡ true → Ends P r)
      → (c ≡ false → Ends P s)
      → Ends P (if c then r else s)
  Ends-if true r s f g = f refl
  Ends-if false r s f g = g refl

  pub Ends-or_throw :
      (o : Option A) (e : Error)
      → e ≢ out_of_fuel
      → ((a : A) → o ≡ some a → P a)
      → Ends P (or_throw o e)
  Ends-or_throw none e n f = throws n
  Ends-or_throw (some a) e n f = returns (f a refl)

-- A guard.
pub throw_if-Ends :
    (c : Bool) (e : Error) → e ≢ out_of_fuel → Ends (λ (_ : Unit {0}). c ≡ false) (throw_if c e)
throw_if-Ends true e n = throws n
throw_if-Ends false e n = returns refl

-- Errors of the code are not the model's.
pub crab_message-apart : (s : String) → crab_message s ≢ out_of_fuel
crab_message-apart s = λ h. cc

pub invalid_control_flow-apart : (s : String) → invalid_control_flow s ≢ out_of_fuel
invalid_control_flow-apart s = λ h. cc
