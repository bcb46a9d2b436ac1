-- ===== src/Bitset/Ranges.antt =====
-- What the operations on ranges of bytes change and tell:
-- verifiers/prevail/src/crab/bitset_domain.hpp.
use linux_dev_env.Base.{
  ℕ, zero, suc, ◌+◌, ◌-◌, ◌^◌, ◌%◌, ◌≤◌, ◌<◌, ◌≡◌, ◌↔◌, refl, ap, ◌∙◌, sym, ◌⊎◌, inl, inr, Bool,
  true, false, not, ◌||◌, ◌&&◌, ◌==◌, ltb, leb, if◌then◌else◌, arith,
}
use linux_dev_env.Base.Int.{ℤ, min_ℤ, max_ℤ, pos, pos_part, ◌-ℤ◌, ◌≤ℤ◌, ◌<ℤ◌, ltb_ℤ}
use linux_dev_env.Outcome.{ok}
use linux_dev_env.Bitset.{
  total_stack_size, Bits, every, turns, set_bit, fill, reset, havoc, all_num_clamped, all_num,
}

-- A byte is in a range of bytes.
abbrev pub within : ℕ → ℕ → ℕ → Bool
within lb n k = leb lb k && ltb k (lb + n)

-- Filling a range inside the stack gives the bits that have the value there and are as before elsewhere.
abbrev pub filled : Bool → ℕ → ℕ → Bits → Bits
filled value lb n b k = if within lb n k then value else b k

abbrev updated : Bool → ℕ → Bits → Bits
updated value i b k = if k == i then value else b k

set_bit_lem :
    (value : Bool) (i : ℕ) (b : Bits)
    → i < total_stack_size
    → set_bit value i b ≡ ok (updated value i b)
unfolding set_bit
set_bit_lem value i b h = let e : ltb i total_stack_size ≡ true = ground arith in rw e refl

filled-suc :
    (value : Bool) (lb n k : ℕ) (b b' : Bits)
    → b' k ≡ filled value lb n b k
    → updated value (lb + n) b' k ≡ filled value lb (suc n) b k
filled-suc value lb n k b b' h = ground arith

fill_lem :
    (value : Bool) (lb n : ℕ) (b : Bits)
    → lb + n ≤ total_stack_size
    → (b' : Bits) × (fill value lb n b ≡ ok b') × ((k : ℕ) → b' k ≡ filled value lb n b k)
unfolding fill
fill_lem value lb zero b h = (b, refl, λ k. ground arith)
fill_lem value lb (suc n) b h =
    let (b', e, f) = fill_lem value lb n b (omega arith) in
    let wrapped : (lb + n) % 2 ^ 64 ≡ lb + n = omega arith in
    rw e (
      rw wrapped (
        updated value (lb + n) b',
        set_bit_lem value (lb + n) b' (omega arith),
        λ k. filled-suc value lb n k b b' (f k),
      ))

-- The turns of a loop of n turns at most from lb on.
abbrev pub at_most_room : ℕ → ℕ → ℕ
at_most_room lb n = if ltb (total_stack_size - lb) n then total_stack_size - lb else n

turns_lem : (lb n : ℕ) → lb ≤ total_stack_size → turns lb (pos n) ≡ at_most_room lb n
unfolding ◌-ℤ◌
turns_lem lb n h = ground arith

-- Where lb is inside the stack, `havoc` and `reset` of n bytes from lb on throw nothing; each byte
-- of the range is no number after `havoc` and a number after `reset`, as far as the stack reaches,
-- and every other byte is as before.
pub writes_range :
    (lb n : ℕ) (b : Bits)
    → lb ≤ total_stack_size
    → ((b' : Bits) × (havoc lb (pos n) b ≡ ok b')
        × ((k : ℕ) → b' k ≡ filled true lb (at_most_room lb n) b k))
      × ((b' : Bits) × (reset lb (pos n) b ≡ ok b')
          × ((k : ℕ) → b' k ≡ filled false lb (at_most_room lb n) b k))
unfolding havoc reset
writes_range lb n b h =
    rw (turns_lem lb n h)
      (fill_lem true lb _ b (room_le lb n h), fill_lem false lb _ b (room_le lb n h))
  where
    room_le : (lb n : ℕ) → lb ≤ total_stack_size → lb + at_most_room lb n ≤ total_stack_size
    room_le lb n h = ground arith

every_iff : (test : ℕ → Bool) (n : ℕ) → (every test n ≡ true) ↔ ((k : ℕ) → k < n → test k ≡ true)
unfolding every
every_iff test zero = (λ h k l. absurd (omega arith), λ h. refl)
every_iff test (suc n) =
    let (down, up) = every_iff test n in
    (
      λ h k l. elim (last_or_before k n l) [
        | inl e ↦ down (ground (arith, h)) k e
        | inr e ↦ rw e (ground (arith, h))
      ],
      λ h. ground (arith, up (λ k l. h k (omega arith)), h n (omega arith)),
    )
  where
    last_or_before : (k n : ℕ) → k < suc n → (k < n) ⊎ (k ≡ n)
    last_or_before k n l = ground arith

-- The first byte and the number of bytes that `all_num` tests.
abbrev first : ℤ → ℕ
first lb = pos_part lb

abbrev count : ℤ → ℤ → ℕ
count lb ub = pos_part (min_ℤ ub (pos total_stack_size)) - pos_part lb

clamped_lem :
    (f : ℕ) (t : ℤ) (b : Bits)
    → t ≤ℤ pos total_stack_size
    → all_num_clamped (pos f) t b ≡ ok (every (λ i. not (b (f + i))) (pos_part (t -ℤ pos f)))
unfolding all_num_clamped
clamped_lem f t b h =
    let e : (ltb_ℤ (pos f) (pos 0) || ltb_ℤ (pos total_stack_size) t) ≡ false = ground arith in
    rw e refl

below_size : (ub : ℤ) → min_ℤ ub (pos total_stack_size) ≤ℤ pos total_stack_size
below_size ub = ground arith

max_first : (lb : ℤ) → max_ℤ lb (pos 0) ≡ pos (first lb)
max_first lb = ground arith

count_lem : (lb ub : ℤ) → pos_part (min_ℤ ub (pos total_stack_size) -ℤ pos (first lb)) ≡ count lb ub
unfolding ◌-ℤ◌
count_lem lb ub = ground arith

all_num_lem :
    (lb ub : ℤ) (b : Bits)
    → lb <ℤ ub
    → all_num lb ub b ≡ ok (every (λ i. not (b (first lb + i))) (count lb ub))
unfolding all_num
all_num_lem lb ub b h =
    let e : ltb_ℤ lb ub ≡ true = ground arith in
    rw e (
      ap (λ f. all_num_clamped f (min_ℤ ub (pos total_stack_size)) b) (max_first lb)
      ∙ (clamped_lem (first lb) (min_ℤ ub (pos total_stack_size)) b (below_size ub)
          ∙ ap (λ n. ok (every (λ i. not (b (first lb + i))) n)) (count_lem lb ub)))

-- The bytes that are tested are those of the range that are in the stack.
count_le :
    (lb ub : ℤ) (i : ℕ)
    → i < count lb ub
    → (lb ≤ℤ pos (first lb + i)) × (pos (first lb + i) <ℤ ub) × (first lb + i < total_stack_size)
count_le lb ub i h = (ground arith, ground arith, ground arith)

le_count :
    (lb ub : ℤ) (k : ℕ)
    → lb ≤ℤ pos k
    → pos k <ℤ ub
    → k < total_stack_size
    → (first lb + (k - first lb) ≡ k) × (k - first lb < count lb ub)
le_count lb ub k h l m = (ground arith, ground arith)

-- For a range that is not empty, the test tells whether every byte of the range that is in the stack
-- is a number.
pub all_num_iff :
    (lb ub : ℤ) (b : Bits)
    → lb <ℤ ub
    → (all_num lb ub b ≡ ok true)
      ↔ ((k : ℕ) → lb ≤ℤ pos k → pos k <ℤ ub → k < total_stack_size → b k ≡ false)
all_num_iff lb ub b h =
    let (down, up) = every_iff (λ i. not (b (first lb + i))) (count lb ub) in
    (
      λ e k l m n.
          let (same, inside) = le_count lb ub k l m n in
          let here = down (ok_injective (sym (all_num_lem lb ub b h) ∙ e)) (k - first lb) inside in
          not_true (b k) (ap (λ j. not (b j)) (sym same) ∙ here),
      λ f.
          all_num_lem lb ub b h
          ∙ ap ok
              (up (λ i l. let (p, q, r) = count_le lb ub i l in ap not (f (first lb + i) p q r))),
    )
  where
    ok_injective : {x y : Bool} → ok x ≡ ok y → x ≡ y
    ok_injective e = cc

    not_true : (c : Bool) → not c ≡ true → c ≡ false
    not_true c e = ground arith
