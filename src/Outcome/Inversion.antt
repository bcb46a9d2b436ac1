-- ===== src/Outcome/Inversion.antt =====
-- What a chain of actions that succeeds says about its steps.
use linux_dev_env.Base.{◌≡◌, refl, ◌⊎◌, inl, inr, Bool, true, false, if◌then◌else◌}
use linux_dev_env.Outcome.{Result, ok, err, Error, Notes, M, and_then, ◌>>=◌}

module _ {A B : Type 0} where
  pub >>=-eq-ok :
      (r : Result A) (rest : A → Result B) {y : B}
      → (r >>= rest) ≡ ok y
      → (x : A) × (r ≡ ok x) × (rest x ≡ ok y)
  >>=-eq-ok (err e) rest h = cc
  >>=-eq-ok (ok x) rest h = (x, refl, h)

  pub and_then-eq-ok :
      (r : Result A × Notes) (f : A → M B) {b : B}
      → (and_then r f).0 ≡ ok b
      → (a : A) × (r.0 ≡ ok a) × ((f a r.1).0 ≡ ok b)
  and_then-eq-ok (ok a, ns) f h = (a, refl, h)
  and_then-eq-ok (err e, ns) f h = cc

pub Result-cases :
    {A : Type 0} (r : Result A) → ((a : A) × (r ≡ ok a)) ⊎ ((e : Error) × (r ≡ err e))
Result-cases (ok a) = inl (a, refl)
Result-cases (err e) = inr (e, refl)

-- A test that picks between two actions, where both lead to the same conclusion.
pub either-ok :
    {A P : Type 0} (c : Bool) (r r' : M A) (ns : Notes) {a : A}
    → ((r ns).0 ≡ ok a → P)
    → ((r' ns).0 ≡ ok a → P)
    → ((if c then r else r') ns).0 ≡ ok a
    → P
either-ok true r r' ns f g h = f h
either-ok false r r' ns f g h = g h

-- A conclusion from the two steps of a chain that succeeds.
pub bind-ok :
    {A B P : Type 0} (m : M A) (f : A → M B) (ns : Notes) {b : B}
    → ((a : A) (ns' : Notes) → (m ns).0 ≡ ok a → (f a ns').0 ≡ ok b → P)
    → (and_then (m ns) f).0 ≡ ok b
    → P
bind-ok m f ns k h = let (a, e, e') = and_then-eq-ok (m ns) f h in k a (m ns).1 e e'

-- A test that picks between two results, where both are results with a property.
pub if-returns :
    {A : Type 0} {P : A → Type 0} (c : Bool) (r s : Result A)
    → (c ≡ true → (a : A) × (r ≡ ok a) × P a)
    → (c ≡ false → (a : A) × (s ≡ ok a) × P a)
    → (a : A) × ((if c then r else s) ≡ ok a) × P a
if-returns true r s f g = f refl
if-returns false r s f g = g refl
