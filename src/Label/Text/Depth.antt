-- ===== src/Label/Text/Depth.antt =====
-- The texts of labels and the depth of calls that they show: `to_string` of
-- verifiers/prevail/src/asm_ostream.cpp, and label.hpp.
use Prim.Native.String.{◌++◌}
use Prim.Native.String.append
use linux_dev_env.Base.{
  ℕ, zero, suc, ◌+◌, ◌/◌, ◌%◌, ◌-◌, ◌^◌, ◌≤◌, ◌≡◌, refl, ap, String, Bool, true, false, ◌&&◌, List,
  [], ◌∷◌, ltb, if◌then◌else◌, Bool-cases, inl, inr, arith,
}
use linux_dev_env.Base.Int.{ℤ, pos, negsuc}
use linux_dev_env.Label.{Label, label_at, entry, exit, is_empty, count_char, stack_frame_delimiter}
use linux_dev_env.Label.Order.{eq_label, eq_of_eq_label}
use linux_dev_env.Label.Text.{digits, digit_at, decimal, spelled, text_of_int, to_string}

is_empty-append : (s t : String) → is_empty (s ++ t) ≡ (is_empty s && is_empty t)
is_empty-append String.[] t = rw append.nil refl
is_empty-append (String.◌∷◌ c s) t = rw append.cons refl

count_char-append : (c : ℕ) (s t : String) → count_char c (s ++ t) ≡ count_char c s + count_char c t
count_char-append c String.[] t = rw append.nil (omega arith)
count_char-append c (String.◌∷◌ d s) t = rw append.cons (omega (arith, count_char-append c s t))

abbrev all_nonempty : List String → Bool
all_nonempty [] = true
all_nonempty (s ∷ ss) = elim (is_empty s) [ true ↦ false | false ↦ all_nonempty ss ]

is_empty-digit_at :
    (ds : List String) (i : ℕ) → all_nonempty ds ≡ true → is_empty (digit_at ds i) ≡ false
is_empty-digit_at [] i h = refl
is_empty-digit_at (d ∷ ds) zero h = ground (arith, h)
is_empty-digit_at (d ∷ ds) (suc i) h = ground (arith, is_empty-digit_at ds i, h)

is_empty-decimal : (fuel n : ℕ) → is_empty (decimal fuel n) ≡ false
unfolding decimal
is_empty-decimal zero n = is_empty-digit_at digits (n % 10) refl
is_empty-decimal (suc fuel) n = elim (Bool-cases (ltb n 10)) [
  | inl e ↦ rw e (is_empty-digit_at digits (n % 10) refl)
  | inr e ↦
      rw
        (
          e,
          is_empty-append (decimal fuel (n / 10)) (digit_at digits (n % 10)),
          is_empty-decimal fuel (n / 10),
        )
        refl
]

is_empty-text_of_int : (z : ℤ) → is_empty (text_of_int z) ≡ false
unfolding text_of_int
is_empty-text_of_int (pos n) = is_empty-decimal n n
is_empty-text_of_int (negsuc n) = rw (is_empty-append "-" (decimal (suc n) (suc n))) refl

-- A property of both branches of a test.
if-both :
    (P : String → Type 0) (c : Bool) (s t : String)
    → (c ≡ true → P s)
    → (c ≡ false → P t)
    → P (if c then s else t)
if-both P true s t f g = f refl
if-both P false s t f g = g refl

is_empty-spelled : (l : Label) → is_empty (spelled l) ≡ false
is_empty-spelled l = simp (is_empty-append, is_empty-text_of_int) (ground arith)

-- The text of a label is not empty.
pub is_empty-to_string : (l : Label) → is_empty (to_string l) ≡ false
unfolding to_string eq_label
is_empty-to_string l =
    if-both (λ s. is_empty s ≡ false) (eq_label l entry) "entry" _ (λ _. refl)
      λ _.
        if-both (λ s. is_empty s ≡ false) (eq_label l exit) "exit" (spelled l) (λ _. refl)
          λ _. is_empty-spelled l

count_char-spelled :
    (l : Label)
    → is_empty l.stack_frame_prefix ≡ false
    → count_char stack_frame_delimiter l.stack_frame_prefix + 1
      ≤ count_char stack_frame_delimiter (spelled l)
count_char-spelled l h =
    rw (h, count_char-append)
      (omega (arith, count_char-append stack_frame_delimiter l.stack_frame_prefix "/"))

not_constant :
    (l : Label) (index : ℤ)
    → is_empty l.stack_frame_prefix ≡ false
    → eq_label l (label_at index) ≡ false
not_constant l index h = elim (Bool-cases (eq_label l (label_at index))) [
  | inl e ↦
      let same = ap (λ (m : Label). m.stack_frame_prefix) (eq_of_eq_label l (label_at index) e) in
      absurd (ground (arith, ap is_empty same, h))
  | inr e ↦ e
]

-- A label with a prefix has at least one delimiter more than the prefix.
pub count_char-to_string :
    (l : Label)
    → is_empty l.stack_frame_prefix ≡ false
    → count_char stack_frame_delimiter l.stack_frame_prefix + 1
      ≤ count_char stack_frame_delimiter (to_string l)
unfolding to_string eq_label
count_char-to_string l h =
    let P = λ (s : String).
      count_char stack_frame_delimiter l.stack_frame_prefix + 1
      ≤ count_char stack_frame_delimiter s in
    if-both P (eq_label l entry) "entry" _
      (λ e. absurd (ground (arith, e, not_constant l (negsuc 0) h)))
      λ _.
        if-both P (eq_label l exit) "exit" _
          (λ e. absurd (ground (arith, e, not_constant l (pos (2 ^ 31 - 1)) h)))
          λ _. count_char-spelled l h
