-- ===== src/Safety/Call.antt =====
-- The argument registers of a decoded call of a helper: verifiers/prevail/src/asm_unmarshal.cpp.
use linux_dev_env.Base.{ℕ, ◌+◌, ◌≤◌, ◌≡◌, refl, List, [], ◌∷◌, ◌++◌, length, arith}
use linux_dev_env.Base.Int.{ℤ, pos}
use linux_dev_env.Outcome.{ok, ◌>>=◌}
use linux_dev_env.Outcome.Inversion.{>>=-eq-ok}
use linux_dev_env.Gsl.{Gsl, uint8, narrow_lem, narrow_unsigned}
use linux_dev_env.Syntax.Instruction.{ArgSingle, ArgPair, Call}
use linux_dev_env.Platform.{ReturnType, ArgumentType, EbpfHelperPrototype, Platform}
use linux_dev_env.Unmarshal.Helper.{push_single, push_pair, call_arguments, call_of, make_call}

-- The registers r1 to r5, which pass arguments.
abbrev IsArgument : ℕ → Type 0
IsArgument r = (1 ≤ r) × (r ≤ 5)

abbrev AreSingles : List ArgSingle → Type 0
AreSingles [] = Unit
AreSingles (s ∷ ss) = IsArgument s.reg × AreSingles ss

abbrev ArePairs : List ArgPair → Type 0
ArePairs [] = Unit
ArePairs (p ∷ ps) = (IsArgument p.mem × IsArgument p.size × (p.size ≡ p.mem + 1)) × ArePairs ps

-- Every argument is in a register that passes arguments, and a size in the one after its pointer.
abbrev pub UsesArguments : Call → Type 0
UsesArguments c = AreSingles c.singles × ArePairs c.pairs

AreSingles-append : (ss ts : List ArgSingle) → AreSingles ss → AreSingles ts → AreSingles (ss ++ ts)
AreSingles-append [] ts a b = b
AreSingles-append (s ∷ ss) ts (h, a) b = (h, AreSingles-append ss ts a b)

ArePairs-append : (ps qs : List ArgPair) → ArePairs ps → ArePairs qs → ArePairs (ps ++ qs)
ArePairs-append [] qs a b = b
ArePairs-append (p ∷ ps) qs (h, a) b = (h, ArePairs-append ps qs a b)

narrow_register : (gsl : Gsl) (i : ℕ) → i ≤ 5 → narrow_unsigned gsl uint8 (pos i) ≡ ok i
narrow_register gsl i h = simp (narrow_lem gsl) (ground arith)

push_single-UsesArguments :
    (gsl : Gsl) (i : ℕ) (arg : ArgumentType) (res : Call) {res' : Call}
    → IsArgument i
    → UsesArguments res
    → push_single gsl i arg res ≡ ok res'
    → UsesArguments res'
unfolding push_single
push_single-UsesArguments gsl i arg res a u h =
    grind (arith, narrow_register gsl i, AreSingles-append)

push_pair-UsesArguments :
    (gsl : Gsl) (i : ℕ) (arg next : ArgumentType) (res : Call) {res' : Call}
    → IsArgument i
    → i ≤ 4
    → UsesArguments res
    → push_pair gsl i arg next res ≡ ok res'
    → UsesArguments res'
unfolding push_pair
push_pair-UsesArguments gsl i arg next res a f u h =
    grind (arith, narrow_register gsl i, narrow_register gsl (i + 1), ArePairs-append)

-- The arguments still to be visited end in the one that is never visited.
abbrev IsTail : List ArgumentType → Type 0
IsTail [] = Unit
IsTail (arg ∷ []) = arg ≡ ArgumentType.dontcare
IsTail (_ ∷ next ∷ rest) = IsTail (next ∷ rest)

push_pair-step :
    (gsl : Gsl) (i : ℕ) (arg next : ArgumentType) (rest : List ArgumentType) (res : Call)
    {res' : Call}
    → 1 ≤ i
    → i + 2 + length rest ≡ 7
    → IsTail (next ∷ rest)
    → UsesArguments res
    → push_pair gsl i arg next res ≡ ok res'
    → UsesArguments res' × IsTail rest
unfolding push_pair
push_pair-step gsl i arg next [] res f n t u h = ground (arith, t)
push_pair-step gsl i arg next (r ∷ rest) res f n t u h =
    (push_pair-UsesArguments gsl i arg next res (f, omega arith) (omega arith) u h, t)

-- One turn of the loop that takes a pair, given the turns after it.
pair_turn :
    (gsl : Gsl) (i : ℕ) (arg next : ArgumentType) (rest : List ArgumentType) (res : Call)
    {res' : Call}
    → 1 ≤ i
    → i + 2 + length rest ≡ 7
    → IsTail (next ∷ rest)
    → UsesArguments res
    → ((c : Call)
        → IsTail rest
        → UsesArguments c
        → call_arguments gsl (i + 2) rest c ≡ ok res'
        → UsesArguments res')
    → (push_pair gsl i arg next res >>= call_arguments gsl (i + 2) rest) ≡ ok res'
    → UsesArguments res'
pair_turn gsl i arg next rest res f n t u after h =
    let (c, e, h') = >>=-eq-ok (push_pair gsl i arg next res) (call_arguments gsl (i + 2) rest) h in
    let (u', t') = push_pair-step gsl i arg next rest res f n t u e in after c t' u' h'

call_arguments-UsesArguments :
    (gsl : Gsl) (i : ℕ) (args : List ArgumentType) (res : Call) {res' : Call}
    → 1 ≤ i
    → i + length args ≡ 7
    → IsTail args
    → UsesArguments res
    → call_arguments gsl i args res ≡ ok res'
    → UsesArguments res'
unfolding call_arguments
call_arguments-UsesArguments gsl i [] res f n t u h = grind arith
call_arguments-UsesArguments gsl i (_ ∷ []) res f n t u h = grind arith
call_arguments-UsesArguments gsl i (ArgumentType.unsupported ∷ _ ∷ _) res f n t u h = cc
call_arguments-UsesArguments gsl i (ArgumentType.dontcare ∷ _ ∷ _) res f n t u h = grind arith
call_arguments-UsesArguments gsl i (ArgumentType.const_size ∷ _ ∷ _) res f n t u h = cc
call_arguments-UsesArguments gsl i (ArgumentType.const_size_or_zero ∷ _ ∷ _) res f n t u h = cc
call_arguments-UsesArguments gsl i (ArgumentType.ptr_to_readable_mem ∷ next ∷ rest) res f n t u h =
    pair_turn gsl i ArgumentType.ptr_to_readable_mem next rest res f (omega arith) t u
      (λ c. call_arguments-UsesArguments gsl (i + 2) rest c (omega arith) (omega arith)) h
call_arguments-UsesArguments gsl i (ArgumentType.ptr_to_writable_mem ∷ next ∷ rest) res f n t u h =
    pair_turn gsl i ArgumentType.ptr_to_writable_mem next rest res f (omega arith) t u
      (λ c. call_arguments-UsesArguments gsl (i + 2) rest c (omega arith) (omega arith)) h
call_arguments-UsesArguments gsl i (ArgumentType.ptr_to_readable_mem_or_null ∷ next ∷ rest) res f n
      t u h =
    pair_turn gsl i ArgumentType.ptr_to_readable_mem_or_null next rest res f (omega arith) t u
      (λ c. call_arguments-UsesArguments gsl (i + 2) rest c (omega arith) (omega arith)) h
call_arguments-UsesArguments gsl i (arg ∷ next ∷ rest) res f n t u h =
    let (res'', e, h') =
      >>=-eq-ok (push_single gsl i arg res) (call_arguments gsl (i + 1) (next ∷ rest)) h in
    call_arguments-UsesArguments gsl (i + 1) (next ∷ rest) res'' (omega arith) (omega arith) t
      (push_single-UsesArguments gsl i arg res (f, omega arith) u e) h'

call_of-UsesArguments :
    (gsl : Gsl) (func : ℤ) (proto : EbpfHelperPrototype) (return_type : ReturnType) {c : Call}
    → call_of gsl func proto return_type ≡ ok c
    → UsesArguments c
unfolding call_of
call_of-UsesArguments gsl func proto ReturnType.unsupported h = cc
call_of-UsesArguments gsl func proto _ h =
    call_arguments-UsesArguments gsl 1
      (proto.argument1 ∷ proto.argument2 ∷ proto.argument3 ∷ proto.argument4 ∷ proto.argument5
        ∷ ArgumentType.dontcare ∷ [])
      _ (omega arith) (omega arith) refl (tt, tt) h

-- Whatever the prototype of a helper is, the call that is decoded from its number passes its
-- arguments in r1 to r5, and the size of a buffer in the register after its pointer.
pub make_call-UsesArguments :
    (gsl : Gsl) (platform : Platform) (func : ℤ) {c : Call}
    → make_call gsl platform func ≡ ok c
    → UsesArguments c
unfolding make_call
make_call-UsesArguments gsl platform func h =
    let proto = platform.get_helper_prototype func in
    call_of-UsesArguments gsl func proto proto.return_type h
