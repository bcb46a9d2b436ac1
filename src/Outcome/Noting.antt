-- ===== src/Outcome/Noting.antt =====
-- `do` blocks over the actions of `M`.
use linux_dev_env.Outcome.{M, and_then}

infixl 5 ◌>>=◌ ◌>>◌
abbrev pub ◌>>=◌ : {A B : Type 0} → M A → (A → M B) → M B
◌>>=◌ m f ns = and_then (m ns) f

abbrev pub ◌>>◌ : {A B : Type 0} → M A → M B → M B
m >> k = m >>= λ _. k
