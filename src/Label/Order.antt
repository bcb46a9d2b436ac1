-- ===== src/Label/Order.antt =====
-- The order of labels, `operator<=>` of verifiers/prevail/src/crab/label.hpp, and its laws: labels
-- compare by prefix, source, target and special label in turn.
use Prim.Native.Nat.{compare, Ordering}
use Prim.Native.String.compare.{nil-nil, cons-cons}
use Prim.Native.String.{String, compare as compare_String}
use text.Mathlib.TextEquality.{path_by_compare}
use linux_dev_env.Base.{ℕ, suc, ◌+◌, ◌≡◌, refl, ap, Bool, true, false, arith}
use linux_dev_env.Base.Int.{ℤ, pos, negsuc, pos_part, neg_part}
use linux_dev_env.Label.{Label}

abbrev pub then : Ordering → Ordering → Ordering
then Ordering.eq second = second
then first _ = first

abbrev pub compare_ℤ : ℤ → ℤ → Ordering
compare_ℤ a b = compare (pos_part a + neg_part b) (pos_part b + neg_part a)

unfoldable pub compare_label : Label → Label → Ordering
compare_label l m = then (compare_String l.stack_frame_prefix m.stack_frame_prefix) (
    then (compare_ℤ l.from m.from)
      (then (compare_ℤ l.to m.to) (compare_String l.special_label m.special_label)))

abbrev pub is_eq : Ordering → Bool
is_eq Ordering.eq = true
is_eq _ = false

unfoldable pub eq_label : Label → Label → Bool
unfolding compare_label
eq_label l m = is_eq (compare_label l m)

eq_of_compare : (a b : ℕ) → compare a b ≡ Ordering.eq → a ≡ b
eq_of_compare a b h = ground arith

eq_of_compare_ℤ : (a b : ℤ) → compare_ℤ a b ≡ Ordering.eq → a ≡ b
eq_of_compare_ℤ (pos a) (pos b) h = ap pos (omega (arith, eq_of_compare (a + 0) (b + 0) h))
eq_of_compare_ℤ (pos a) (negsuc b) h = absurd (omega (arith, eq_of_compare (a + suc b) (0 + 0) h))
eq_of_compare_ℤ (negsuc a) (pos b) h = absurd (omega (arith, eq_of_compare (0 + 0) (b + suc a) h))
eq_of_compare_ℤ (negsuc a) (negsuc b) h =
    ap negsuc (omega (arith, eq_of_compare (0 + suc b) (0 + suc a) h))

compare_ℤ-self : (a : ℤ) → compare_ℤ a a ≡ Ordering.eq
compare_ℤ-self a = ground arith

compare_String-self : (s : String) → compare_String s s ≡ Ordering.eq
compare_String-self String.[] = nil-nil
compare_String-self (String.◌∷◌ c s) = rw (cons-cons, compare_String-self s) (ground arith)

compare_label_self : (l : Label) → compare_label l l ≡ Ordering.eq
unfolding compare_label
compare_label_self l = rw (
  compare_String-self l.stack_frame_prefix,
  compare_ℤ-self l.from,
  compare_ℤ-self l.to,
  compare_String-self l.special_label,
)

then-eq : (a b : Ordering) → then a b ≡ Ordering.eq → (a ≡ Ordering.eq) × (b ≡ Ordering.eq)
then-eq Ordering.eq b h = (refl, h)
then-eq Ordering.lt b h = cc
then-eq Ordering.gt b h = cc

pub eq_of_compare_label : (l m : Label) → compare_label l m ≡ Ordering.eq → l ≡ m
unfolding compare_label
eq_of_compare_label l m h =
    let (p, h') = then-eq (compare_String l.stack_frame_prefix m.stack_frame_prefix) _ h in
    let (f, h'') = then-eq (compare_ℤ l.from m.from) _ h' in
    let (t, s) = then-eq (compare_ℤ l.to m.to) _ h'' in
    λ i. record {
      stack_frame_prefix = path_by_compare l.stack_frame_prefix m.stack_frame_prefix p i;
      from = eq_of_compare_ℤ l.from m.from f i;
      to = eq_of_compare_ℤ l.to m.to t i;
      special_label = path_by_compare l.special_label m.special_label s i;
    }

is_eq-true : (o : Ordering) → is_eq o ≡ true → o ≡ Ordering.eq
is_eq-true o h = ground arith

pub eq_label_self : (l : Label) → eq_label l l ≡ true
unfolding eq_label
eq_label_self l = rw (compare_label_self l)

pub eq_of_eq_label : (l m : Label) → eq_label l m ≡ true → l ≡ m
unfolding eq_label
eq_of_eq_label l m h = eq_of_compare_label l m (is_eq-true (compare_label l m) h)

-- How the answer of the order relates to the test for equality.
pub eq_label_lem : (l m : Label) → eq_label l m ≡ is_eq (compare_label l m)
unfolding eq_label
eq_label_lem l m = refl

abbrev pub eq_String : String → String → Bool
eq_String s t = is_eq (compare_String s t)

pub eq_of_eq_String : (s t : String) → eq_String s t ≡ true → s ≡ t
eq_of_eq_String s t h = path_by_compare s t (is_eq-true (compare_String s t) h)

pub eq_String-self : (s : String) → eq_String s s ≡ true
eq_String-self s = rw (compare_String-self s) refl
