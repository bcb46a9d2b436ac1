-- ===== src/Wto/Nesting.antt =====
-- `wto_nesting_t` of verifiers/prevail/src/crab/wto.cpp: the heads, from the innermost cycle to the
-- outermost.
use linux_dev_env.Base.{
  ℕ, zero, suc, ◌+◌, ◌-◌, ◌≤◌, ◌<◌, ◌≡◌, ◌↔◌, ◌⊎◌, inl, inr, refl, ap, sym, Bool, true, false,
  Option, some, List, [], ◌∷◌, ◌++◌, length, get_elem?, length-append, get_elem?-append,
  lt-get_elem?, leb, if◌then◌else◌, arith,
}
use linux_dev_env.Label.{Label}
use linux_dev_env.Label.Order.{eq_label, eq_of_eq_label, eq_label_self}

abbrev pub same_at : Option Label → Option Label → Bool
same_at (some l) (some m) = eq_label l m
same_at _ _ = false

-- The loop of `operator>`, from the outermost heads on, with `left` rounds to go.
unfoldable pub agree : List Label → List Label → ℕ → ℕ → Bool
agree heads nesting index zero = true
agree heads nesting index (suc left) =
    let rest = agree heads nesting (index + 1) left in
    if same_at (get_elem? heads (length heads - 1 - index))
      (get_elem? nesting (length nesting - 1 - index))
    then rest
    else false

unfoldable pub greater : List Label → List Label → Bool
unfolding agree
greater heads nesting =
    if leb (length heads) (length nesting) then false else agree heads nesting 0 (length nesting)

-- The heads agree from the outermost on: at every distance from the end below `n`.
abbrev Agrees : List Label → List Label → ℕ → ℕ → Type 0
Agrees heads nesting index n =
    (i : ℕ)
    → index ≤ i
    → i < n
    → same_at (get_elem? heads (length heads - 1 - i)) (get_elem? nesting (length nesting - 1 - i))
      ≡ true

le_cases : (a b : ℕ) → a ≤ b → (a ≡ b) ⊎ (a + 1 ≤ b)
le_cases a b h = ground arith

agree-Agrees :
    (heads nesting : List Label) (index left : ℕ)
    → agree heads nesting index left ≡ true
    → Agrees heads nesting index (index + left)
unfolding agree
agree-Agrees heads nesting index zero h i a b = absurd (omega arith)
agree-Agrees heads nesting index (suc left) h i a b = elim (le_cases index i a) [
  | inl e ↦ rw (← e) (ground (arith, h))
  | inr more ↦
      agree-Agrees heads nesting (index + 1) left (ground (arith, h)) i (omega arith) (omega arith)
]

Agrees-agree :
    (heads nesting : List Label) (index left : ℕ)
    → Agrees heads nesting index (index + left)
    → agree heads nesting index left ≡ true
unfolding agree
Agrees-agree heads nesting index zero h = refl
Agrees-agree heads nesting index (suc left) h = ground (
  arith,
  h index (omega arith) (omega arith),
  Agrees-agree heads nesting (index + 1) left (λ i a b. h i (omega arith) (omega arith)),
)

get_elem?-peel :
    (l : Label) (heads : List Label) (i : ℕ)
    → i < length heads
    → get_elem? (l ∷ heads) (length (l ∷ heads) - 1 - i) ≡ get_elem? heads (length heads - 1 - i)
get_elem?-peel l heads i h =
    let e : suc (length heads) - 1 - i ≡ suc (length heads - 1 - i) = omega arith in rw e refl

-- The innermost head can be left off.
Agrees-peel :
    (l : Label) (heads nesting : List Label)
    → length nesting ≤ length heads
    → Agrees (l ∷ heads) nesting 0 (length nesting)
    → Agrees heads nesting 0 (length nesting)
Agrees-peel l heads nesting h a i low high =
    rw (← get_elem?-peel l heads i (omega arith)) (a i low high)

get_elem?-first :
    (l : Label) (heads : List Label)
    → get_elem? (l ∷ heads) (length (l ∷ heads) - 1 - length heads) ≡ some l
get_elem?-first l heads =
    let e : suc (length heads) - 1 - length heads ≡ 0 = omega arith in rw e refl

-- A list that agrees with another of the same length is that list.
Agrees-eq :
    (heads nesting : List Label)
    → length heads ≡ length nesting
    → Agrees heads nesting 0 (length nesting)
    → heads ≡ nesting
Agrees-eq [] [] e h = refl
Agrees-eq [] (n ∷ nesting) e h = absurd (omega arith)
Agrees-eq (l ∷ heads) [] e h = absurd (omega arith)
Agrees-eq (l ∷ heads) (n ∷ nesting) e h =
    let short : length heads ≡ length nesting = omega arith in
    let same : l ≡ n = eq_of_eq_label l n (
      ground (
        arith,
        h (length nesting) (omega arith) (omega arith),
        get_elem?-first l heads,
        get_elem?-first n nesting,
        short,
      )) in
    let rest : heads ≡ nesting = Agrees-eq heads nesting short (λ i low high.
      rw (← get_elem?-peel l heads i (omega arith), ← get_elem?-peel n nesting i high)
        (h i low (omega arith))) in
    cc

Agrees-suffix :
    (heads nesting : List Label)
    → length nesting ≤ length heads
    → Agrees heads nesting 0 (length nesting)
    → (inner : List Label) × (heads ≡ inner ++ nesting)
Agrees-suffix [] nesting h a = ([], Agrees-eq [] nesting (omega arith) a)
Agrees-suffix (l ∷ heads) nesting h a = elim (le_cases (length nesting) (length (l ∷ heads)) h) [
  | inl e ↦ ([], Agrees-eq (l ∷ heads) nesting (sym e) a)
  | inr more ↦
      (let (inner, e) =
          Agrees-suffix heads nesting (omega arith) (Agrees-peel l heads nesting (omega arith) a) in
        (l ∷ inner, ap (λ hs. l ∷ hs) e))
]

-- A list agrees with what it ends with.
append-Agrees : (inner nesting : List Label) → Agrees (inner ++ nesting) nesting 0 (length nesting)
append-Agrees inner nesting i low high =
    let k = length nesting - 1 - i in
    let (x, e) = lt-get_elem? nesting k (omega arith) in
    let at : length (inner ++ nesting) - 1 - i ≡ length inner + k =
      omega (arith, length-append inner nesting) in
    rw (at, get_elem?-append inner nesting k, e) (eq_label_self x)

-- One nesting is above another exactly if it is a longer list that ends with the other one: so its
-- cycles are those of the other one and at least one inside of them.
pub greater_iff :
    (heads nesting : List Label)
    → (greater heads nesting ≡ true)
      ↔ ((l : Label) × (inner : List Label) × (heads ≡ (l ∷ inner) ++ nesting))
unfolding greater
greater_iff heads nesting = (forth heads, λ (l, inner, e). rw e (back l inner))
  where
    forth :
        (heads : List Label)
        → greater heads nesting ≡ true
        → (l : Label) × (inner : List Label) × (heads ≡ (l ∷ inner) ++ nesting)
    forth [] h = absurd (ground (arith, h))
    forth (l ∷ heads) h =
        let short : length nesting ≤ length heads = ground (arith, h) in
        let agreed : agree (l ∷ heads) nesting 0 (length nesting) ≡ true = ground (arith, h) in
        let (inner, e) = Agrees-suffix heads nesting short (
          Agrees-peel l heads nesting short (λ i low high.
            agree-Agrees (l ∷ heads) nesting 0 (length nesting) agreed i low (omega arith))) in
        (l, inner, ap (λ hs. l ∷ hs) e)

    back : (l : Label) (inner : List Label) → greater ((l ∷ inner) ++ nesting) nesting ≡ true
    back l inner = ground (
      arith,
      length-append (l ∷ inner) nesting,
      Agrees-agree ((l ∷ inner) ++ nesting) nesting 0 (length nesting)
          (λ i low high. append-Agrees (l ∷ inner) nesting i low (omega arith)),
    )
