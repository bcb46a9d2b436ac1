-- ===== src/Linear/Terms.antt =====
-- The terms stay in order: verifiers/prevail/src/crab/linear_expression.hpp.
use linux_dev_env.Base.{
  ℕ, ◌<◌, ◌≡◌, refl, ap, false, [], ◌∷◌, ◌++◌, ◌==◌, ltb, Bool-cases, inl, inr, arith,
}
use linux_dev_env.Base.Int.{ℤ, pos, ◌*ℤ◌, eqb_ℤ}
use linux_dev_env.Linear.{Terms, assign, emplace, keep_nonzero, Expression, combined, scaled}

-- Every variable of the terms is after a variable, or before it.
abbrev pub After : ℕ → Terms → Type 0
After v [] = Unit
After v ((w, c) ∷ terms) = (v < w) × After v terms

abbrev pub Before : Terms → ℕ → Type 0
Before [] v = Unit
Before ((w, c) ∷ terms) v = (w < v) × Before terms v

-- The variables of the terms increase.
abbrev pub IsSorted : Terms → Type 0
IsSorted [] = Unit
IsSorted ((v, c) ∷ terms) = After v terms × IsSorted terms

-- All of the first terms are before all of the second.
abbrev pub AllBefore : Terms → Terms → Type 0
AllBefore kept [] = Unit
AllBefore kept ((v, c) ∷ terms) = Before kept v × AllBefore kept terms

Before-trans : (kept : Terms) (v w : ℕ) → Before kept v → v < w → Before kept w
Before-trans [] v w h l = tt
Before-trans ((u, d) ∷ kept) v w (p, h) l = (omega arith, Before-trans kept v w h l)

-- A term after all the others is put last.
pub emplace_last :
    (v : ℕ) (c : ℤ) (kept : Terms) → Before kept v → emplace v c kept ≡ kept ++ (v, c) ∷ []
unfolding emplace
emplace_last v c [] h = refl
emplace_last v c ((w, d) ∷ kept) (p, h) =
    let e : (w == v) ≡ false = ground arith in
    let f : ltb v w ≡ false = ground arith in
    rw e (rw f (ap (λ t. (w, d) ∷ t) (emplace_last v c kept h)))

pub Before-append :
    (kept : Terms) (v w : ℕ) (c : ℤ) → Before kept w → v < w → Before (kept ++ (v, c) ∷ []) w
Before-append [] v w c h l = (l, tt)
Before-append ((u, d) ∷ kept) v w c (p, h) l = (p, Before-append kept v w c h l)

pub AllBefore-append :
    (kept terms : Terms) (v : ℕ) (c : ℤ)
    → AllBefore kept terms
    → After v terms
    → AllBefore (kept ++ (v, c) ∷ []) terms
AllBefore-append kept [] v c h a = tt
AllBefore-append kept ((w, d) ∷ terms) v c (p, h) (q, a) =
    (Before-append kept v w c p q, AllBefore-append kept terms v c h a)

After-trans : (terms : Terms) (v w : ℕ) → After w terms → v < w → After v terms
After-trans [] v w a l = tt
After-trans ((u, d) ∷ terms) v w (p, a) l = (omega arith, After-trans terms v w a l)

After-assign :
    (terms : Terms) (v w : ℕ) (c : ℤ) → After v terms → v < w → After v (assign w c terms)
unfolding assign
After-assign [] v w c a l = (l, tt)
After-assign ((u, d) ∷ terms) v w c (p, a) l = elim (Bool-cases (u == w)) [
  | inl e ↦ rw e (l, a)
  | inr e ↦ rw e (elim (Bool-cases (ltb w u)) [
    | inl f ↦ rw f (l, (p, a))
    | inr f ↦ rw f (p, After-assign terms v w c a l)
  ])
]

-- Assigning a coefficient keeps the order.
pub assign-IsSorted : (terms : Terms) (v : ℕ) (c : ℤ) → IsSorted terms → IsSorted (assign v c terms)
unfolding assign
assign-IsSorted [] v c s = (tt, tt)
assign-IsSorted ((w, d) ∷ terms) v c (a, s) = elim (Bool-cases (w == v)) [
  | inl e ↦ (let q : v ≡ w = ground (arith, e) in rw e (rw q a, s))
  | inr e ↦ rw e (elim (Bool-cases (ltb v w)) [
    | inl f ↦ (let l : v < w = ground (arith, f) in rw f ((l, After-trans terms v w a l), (a, s)))
    | inr f ↦ rw f (After-assign terms w v c a (ground (arith, e, f)), assign-IsSorted terms v c s)
  ])
]

pub AllBefore-nil : (terms : Terms) → AllBefore [] terms
AllBefore-nil [] = tt
AllBefore-nil ((v, c) ∷ terms) = (tt, AllBefore-nil terms)

After-append :
    (kept : Terms) (w v : ℕ) (c : ℤ) → After w kept → w < v → After w (kept ++ (v, c) ∷ [])
After-append [] w v c a l = (l, tt)
After-append ((u, d) ∷ kept) w v c (p, a) l = (p, After-append kept w v c a l)

pub append-IsSorted :
    (kept : Terms) (v : ℕ) (c : ℤ) → IsSorted kept → Before kept v → IsSorted (kept ++ (v, c) ∷ [])
append-IsSorted [] v c s h = (tt, tt)
append-IsSorted ((w, d) ∷ kept) v c (a, s) (p, h) =
    (After-append kept w v c a p, append-IsSorted kept v c s h)

pub keep_nonzero-IsSorted :
    (terms kept : Terms)
    → IsSorted terms
    → IsSorted kept
    → AllBefore kept terms
    → IsSorted (keep_nonzero terms kept)
unfolding keep_nonzero
keep_nonzero-IsSorted [] kept s k h = k
keep_nonzero-IsSorted ((v, c) ∷ terms) kept (a, s) k (p, h) = elim (Bool-cases (eqb_ℤ c (pos 0))) [
  | inl e ↦ rw e (keep_nonzero-IsSorted terms kept s k h)
  | inr e ↦ rw e (
      rw (emplace_last v c kept p) (
        keep_nonzero-IsSorted terms _ s (append-IsSorted kept v c k p)
          (AllBefore-append kept terms v c h a)))
]

pub assigned-IsSorted :
    (f : ℤ → ℤ → ℤ) (e : Expression) (more terms : Terms)
    → IsSorted terms
    → IsSorted (combined f e more terms)
unfolding combined
assigned-IsSorted f e [] terms s = s
assigned-IsSorted f e ((v, c) ∷ more) terms s =
    assigned-IsSorted f e more _ (assign-IsSorted terms v _ s)

pub scaled-IsSorted :
    (k : ℤ) (terms made : Terms)
    → IsSorted terms
    → IsSorted made
    → AllBefore made terms
    → IsSorted (scaled k terms made)
unfolding scaled
scaled-IsSorted k [] made s m h = m
scaled-IsSorted k ((v, c) ∷ terms) made (a, s) m (p, h) = rw (emplace_last v (c *ℤ k) made p) (
    scaled-IsSorted k terms _ s (append-IsSorted made v _ m p)
      (AllBefore-append made terms v _ h a))

-- No term has coefficient 0.
abbrev pub AreNonzero : Terms → Type 0
AreNonzero [] = Unit
AreNonzero ((v, c) ∷ terms) = (eqb_ℤ c (pos 0) ≡ false) × AreNonzero terms

emplace-AreNonzero :
    (v : ℕ) (c : ℤ) (terms : Terms)
    → eqb_ℤ c (pos 0) ≡ false
    → AreNonzero terms
    → AreNonzero (emplace v c terms)
unfolding emplace
emplace-AreNonzero v c [] e n = (e, tt)
emplace-AreNonzero v c ((w, d) ∷ terms) e (f, n) = elim (Bool-cases (w == v)) [
  | inl p ↦ rw p (f, n)
  | inr p ↦ rw p (elim (Bool-cases (ltb v w)) [
    | inl q ↦ rw q (e, (f, n))
    | inr q ↦ rw q (f, emplace-AreNonzero v c terms e n)
  ])
]

-- The constructor keeps no term of coefficient 0.
pub keep_nonzero-AreNonzero :
    (terms kept : Terms) → AreNonzero kept → AreNonzero (keep_nonzero terms kept)
unfolding keep_nonzero
keep_nonzero-AreNonzero [] kept n = n
keep_nonzero-AreNonzero ((v, c) ∷ terms) kept n = elim (Bool-cases (eqb_ℤ c (pos 0))) [
  | inl e ↦ rw e (keep_nonzero-AreNonzero terms kept n)
  | inr e ↦ rw e (keep_nonzero-AreNonzero terms _ (emplace-AreNonzero v c kept e n))
]
