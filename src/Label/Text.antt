-- ===== src/Label/Text.antt =====
-- The text of a label, `to_string` and `operator<<` of verifiers/prevail/src/asm_ostream.cpp.
pub mod Depth
use Prim.Native.String.{String, ◌++◌}
use linux_dev_env.Base.{ℕ, zero, suc, ◌/◌, ◌%◌, List, [], ◌∷◌, ltb, if◌then◌else◌}
use linux_dev_env.Base.Int.{ℤ, pos, negsuc, eqb_ℤ}
use linux_dev_env.Label.{Label, entry, exit, is_empty}
use linux_dev_env.Label.Order.{eq_label}

abbrev pub digits : List String
digits = "0" ∷ "1" ∷ "2" ∷ "3" ∷ "4" ∷ "5" ∷ "6" ∷ "7" ∷ "8" ∷ []

abbrev pub digit_at : List String → ℕ → String
digit_at [] i = "9"
digit_at (d ∷ ds) zero = d
digit_at (d ∷ ds) (suc i) = digit_at ds i

abbrev digit : ℕ → String
digit n = digit_at digits (n % 10)

-- The decimal digits that a stream writes, `fuel` at most.
unfoldable pub decimal : ℕ → ℕ → String
decimal zero n = digit n
decimal (suc fuel) n =
    let rest = decimal fuel (n / 10) in if ltb n 10 then digit n else rest ++ digit n

unfoldable pub text_of_int : ℤ → String
unfolding decimal
text_of_int (pos n) = decimal n n
text_of_int (negsuc n) = "-" ++ decimal (suc n) (suc n)

-- The text of a label that is neither the entry nor the exit.
abbrev pub spelled : Label → String
spelled l =
    (if is_empty l.stack_frame_prefix then "" else l.stack_frame_prefix ++ "/")
    ++ (text_of_int l.from
        ++ ((if eqb_ℤ l.to (negsuc 0) then "" else ":" ++ text_of_int l.to)
            ++ (if is_empty l.special_label then "" else " (" ++ (l.special_label ++ ")"))))

unfoldable pub to_string : Label → String
unfolding text_of_int eq_label
to_string l = if eq_label l entry then "entry" else if eq_label l exit then "exit" else spelled l
