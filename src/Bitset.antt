-- ===== src/Bitset.antt =====
-- Which bytes of the stack are not numbers: verifiers/prevail/src/crab/bitset_domain.hpp. A bitset is
-- a function of the index; its indices are those below EBPF_TOTAL_STACK_SIZE.
pub mod Ranges
use linux_dev_env.Base.{
  ℕ, zero, suc, ◌+◌, ◌-◌, ◌*◌, ◌%◌, ◌^◌, Bool, true, false, not, ◌||◌, ◌&&◌, ◌==◌, eq_Bool, ltb,
  leb, if◌then◌else◌,
}
use linux_dev_env.Base.Int.{
  ℤ, pos, pos_part, ◌-ℤ◌, ltb_ℤ, leb_ℤ, min_ℤ, max_ℤ, to_signed, to_unsigned,
}
use linux_dev_env.Outcome.{Result, ok, err, runtime_error, out_of_range, assertion_failed, ◌>>=◌}

abbrev max_call_stack_frames : ℕ
max_call_stack_frames = 8

abbrev subprogram_stack_size : ℕ
subprogram_stack_size = 512

abbrev pub total_stack_size : ℕ
total_stack_size = max_call_stack_frames * subprogram_stack_size

-- `non_numerical_bytes`.
abbrev pub Bits : Type 0
Bits = ℕ → Bool

-- A test of every bit below a size.
unfoldable pub every : (ℕ → Bool) → ℕ → Bool
every test zero = true
every test (suc n) = every test n && test n

abbrev pub top : Bits
top k = true

abbrev pub set_to_bottom : Bits
set_to_bottom k = false

unfoldable pub is_top : Bits → Bool
unfolding every
is_top b = every b total_stack_size

abbrev pub is_bottom : Bits → Bool
is_bottom b = false

abbrev pub join : Bits → Bits → Bits
join b x k = b k || x k

abbrev pub meet : Bits → Bits → Bits
meet b x k = b k && x k

abbrev pub widen : Bits → Bits → Bits
widen = join

abbrev pub narrow : Bits → Bits → Bits
narrow = meet

unfoldable pub eq : Bits → Bits → Bool
unfolding every
eq b x = every (λ k. eq_Bool (b k) (x k)) total_stack_size

unfoldable pub le : Bits → Bits → Bool
unfolding eq
le b x = eq (join b x) x

-- `(int)(EBPF_TOTAL_STACK_SIZE - lb)`.
abbrev pub room : ℕ → ℤ
room lb = to_signed (2 ^ 32) (to_unsigned (2 ^ 32) (pos total_stack_size -ℤ pos lb))

-- The number of turns of a loop of `width` turns at most, from `lb` on.
abbrev pub turns : ℕ → ℤ → ℕ
turns lb width = pos_part (min_ℤ width (room lb))

-- `bitset::set` and `bitset::reset` of one bit.
unfoldable pub set_bit : Bool → ℕ → Bits → Result Bits
set_bit value i b =
    if ltb i total_stack_size then ok (λ k. if k == i then value else b k) else err out_of_range

-- The loops of `reset` and `havoc`; `lb + i` is a `size_t`.
unfoldable pub fill : Bool → ℕ → ℕ → Bits → Result Bits
unfolding set_bit
fill value lb zero b = ok b
fill value lb (suc i) b = fill value lb i b >>= set_bit value ((lb + i) % 2 ^ 64)

unfoldable pub reset : ℕ → ℤ → Bits → Result Bits
unfolding fill ◌-ℤ◌
reset lb n b = fill false lb (turns lb n) b

unfoldable pub havoc : ℕ → ℤ → Bits → Result Bits
unfolding fill ◌-ℤ◌
havoc lb width b = fill true lb (turns lb width) b

-- The loop of `uniformity`: only numbers, and only others so far.
unfoldable pub uniform : ℕ → ℕ → Bits → Result (Bool × Bool)
uniform lb zero b = ok (true, true)
uniform lb (suc j) b = do
  (only_num, only_non_num) ← uniform lb j b
  let k = (lb + j) % 2 ^ 64
  if leb total_stack_size k
      then err (runtime_error "bitset index out of range" "")
      else ok (only_num && not (b k), only_non_num && b k)

unfoldable pub uniformity : ℕ → ℤ → Bits → Result (Bool × Bool)
unfolding uniform ◌-ℤ◌
uniformity lb width b = uniform lb (turns lb width) b

-- The loop of `all_num_width`, with the bits that are left as fuel.
unfoldable pub run_end : ℕ → ℕ → Bits → ℕ
run_end zero ub b = ub
run_end (suc left) ub b =
    let rest = run_end left (suc ub) b in if ltb ub total_stack_size && not (b ub) then rest else ub

unfoldable pub all_num_width : ℕ → Bits → ℕ
unfolding run_end
all_num_width lb b = run_end (total_stack_size - lb) lb b - lb

-- `all_num` after its bounds are clamped to the stack.
unfoldable pub all_num_clamped : ℤ → ℤ → Bits → Result Bool
unfolding every ◌-ℤ◌
all_num_clamped lb ub b =
    if ltb_ℤ lb (pos 0) || ltb_ℤ (pos total_stack_size) ub
    then ok false
    else ok (every (λ i. not (b (pos_part lb + i))) (pos_part (ub -ℤ lb)))

unfoldable pub all_num : ℤ → ℤ → Bits → Result Bool
unfolding all_num_clamped
all_num lb ub b =
    if not (ltb_ℤ lb ub)
    then err assertion_failed
    else all_num_clamped (max_ℤ lb (pos 0)) (min_ℤ ub (pos total_stack_size)) b
