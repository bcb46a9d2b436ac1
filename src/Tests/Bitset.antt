-- ===== src/Tests/Bitset.antt =====
-- The theorems on the stack bytes at concrete ranges.
use linux_dev_env.Base.{ℕ, ◌<◌, ◌≡◌, ◌↔◌, true, false, arith}
use linux_dev_env.Base.Int.{pos, negsuc, ◌≤ℤ◌, ◌<ℤ◌}
use linux_dev_env.Outcome.{ok}
use linux_dev_env.Bitset.{Bits, top, havoc, reset, all_num, total_stack_size}
use linux_dev_env.Bitset.Ranges.{filled, at_most_room, writes_range, all_num_iff}

writes_range_example :
    ((b' : Bits) × (havoc 4090 (pos 8) top ≡ ok b')
      × ((k : ℕ) → b' k ≡ filled true 4090 (at_most_room 4090 8) top k))
    × ((b' : Bits) × (reset 4090 (pos 8) top ≡ ok b')
        × ((k : ℕ) → b' k ≡ filled false 4090 (at_most_room 4090 8) top k))
writes_range_example = writes_range 4090 8 top (omega arith)

all_num_iff_example :
    (all_num (negsuc 2) (pos 5) top ≡ ok true)
    ↔ ((k : ℕ) → negsuc 2 ≤ℤ pos k → pos k <ℤ pos 5 → k < total_stack_size → top k ≡ false)
all_num_iff_example = all_num_iff (negsuc 2) (pos 5) top (omega arith)
