-- ===== src/Preconditions/Call.antt =====
-- Calls of helpers: verifiers/prevail/src/assertions.cpp.
use mathlib.Core.List.{Memᴰ}
use mathlib.Core.List as List
use linux_dev_env.Base.{
  ◌≡◌, ap, inl, inr, Bool, true, false, Option, none, List, [], ◌∷◌, ◌++◌, arith,
}
use linux_dev_env.Base.Int.{ℤ, pos}
use linux_dev_env.Outcome.{ok}
use linux_dev_env.Outcome.Inversion.{>>=-eq-ok}
use linux_dev_env.Gsl.{Gsl}
use linux_dev_env.Label.{Label}
use linux_dev_env.Platform.{ProgramInfo}
use linux_dev_env.Syntax.Op.{Reg, reg, ArgPairKind}
use linux_dev_env.Syntax.Instruction.{ArgPair, Call, Instruction}
use linux_dev_env.Syntax.Assertion.{AccessType, TypeGroup, Assertion}
use linux_dev_env.Assertions.Access.{
  depth, type_is, pair_access, pairs_assertions, singles_assertions, call_assertions,
}
use linux_dev_env.Assertions.Extractor.{get_assertions}
use linux_dev_env.Preconditions.Access.{make_valid_access_lem, second}

abbrev pub may_be_null : ArgPairKind → Bool
may_be_null ArgPairKind.ptr_to_readable_mem_or_null = true
may_be_null _ = false

abbrev pub direction : ArgPairKind → AccessType
direction ArgPairKind.ptr_to_writable_mem = AccessType.write
direction _ = AccessType.read

-- What a buffer and its size need: a number that is a valid size, and an access to that many bytes.
abbrev pub buffer_access : ℤ → ArgPair → Assertion
buffer_access d p = Assertion.valid_access (record {
  call_stack_depth = d;
  reg = p.mem;
  offset = pos 0;
  width = reg p.size;
  or_null = may_be_null p.kind;
  access_type = direction p.kind;
})

pub record IsGuarded (d : ℤ) (p : ArgPair) (res : List Assertion) : Type 0 where
  pub number : Memᴰ (type_is p.size TypeGroup.number) res
  pub size : Memᴰ (Assertion.valid_size (record { reg = p.size; can_be_zero = p.can_be_zero })) res
  pub access : Memᴰ (buffer_access d p) res

abbrev size_checks : ArgPair → List Assertion → List Assertion
size_checks p as_ =
    type_is p.size TypeGroup.number
    ∷ Assertion.valid_size (record { reg = p.size; can_be_zero = p.can_be_zero })
    ∷ as_

mem_of_ok :
    {a : Assertion} {res res' : List Assertion} → Memᴰ a res → ok res ≡ ok res' → Memᴰ a res'
mem_of_ok {a} {res} {res'} m h = let e : res ≡ res' = cc in rw (← e) m

module _ (gsl : Gsl) (info : ProgramInfo) (label : Option Label) where
  -- What was asserted before stays.
  pairs_assertions-mem :
      (ps : List ArgPair) (a : Assertion) (res : List Assertion) {res' : List Assertion}
      → Memᴰ a res
      → pairs_assertions gsl info label ps res ≡ ok res'
      → Memᴰ a res'
  unfolding pairs_assertions
  pairs_assertions-mem [] a res m h = mem_of_ok m h
  pairs_assertions-mem (p ∷ ps) a res m h =
      let (as_, e, h') =
        >>=-eq-ok (pair_access gsl info label p.kind p.mem p.size)
          (λ as_. pairs_assertions gsl info label ps (res ++ size_checks p as_)) h in
      pairs_assertions-mem ps a _ (List.Memᴰ.append_left _ m) h'

  pair_access-mem :
      (kind : ArgPairKind) (m size : Reg) (zero : Bool) (d : ℤ) {as_ : List Assertion}
      → depth gsl info label ≡ ok d
      → pair_access gsl info label kind m size ≡ ok as_
      → Memᴰ
          (buffer_access d (record { kind = kind; mem = m; size = size; can_be_zero = zero }))
          as_
  unfolding pair_access
  pair_access-mem ArgPairKind.ptr_to_writable_mem m size zero d {as_} e h =
      second _ (type_is m TypeGroup.mem) [] as_ (
        ground (
          arith,
          make_valid_access_lem gsl info label m (pos 0) (reg size) false AccessType.write d e,
        ))
  pair_access-mem ArgPairKind.ptr_to_readable_mem m size zero d {as_} e h =
      second _ (type_is m TypeGroup.mem) [] as_ (
        ground (
          arith,
          make_valid_access_lem gsl info label m (pos 0) (reg size) false AccessType.read d e,
        ))
  pair_access-mem ArgPairKind.ptr_to_readable_mem_or_null m size zero d {as_} e h =
      second _ (type_is m TypeGroup.mem_or_num) [] as_ (
        ground (
          arith,
          make_valid_access_lem gsl info label m (pos 0) (reg size) true AccessType.read d e,
        ))

  pairs_assertions-IsGuarded :
      (ps : List ArgPair) (p : ArgPair) (d : ℤ) (res : List Assertion) {res' : List Assertion}
      → depth gsl info label ≡ ok d
      → Memᴰ p ps
      → pairs_assertions gsl info label ps res ≡ ok res'
      → IsGuarded d p res'
  unfolding pairs_assertions
  pairs_assertions-IsGuarded [] p d res e m h = absurd (List.Memᴰ.not-nil m)
  pairs_assertions-IsGuarded (q ∷ ps) p d res {res'} e m h =
      let (as_, e', h') =
        >>=-eq-ok (pair_access gsl info label q.kind q.mem q.size)
          (λ as_. pairs_assertions gsl info label ps (res ++ size_checks q as_)) h in
      elim (List.Memᴰ.cases_cons m) [
        | inl same ↦
            (let keep : (a : Assertion) → Memᴰ a (size_checks q as_) → Memᴰ a res' =
                λ a k. pairs_assertions-mem ps a _ (List.Memᴰ.append_right res k) h' in
              record {
                number =
                    keep _ (Memᴰ.head (ap (λ (x : ArgPair). type_is x.size TypeGroup.number) same));
                size = keep _ (
                    Memᴰ.tail (
                      Memᴰ.head (
                        ap
                          (λ (x : ArgPair).
                            Assertion.valid_size
                              (record { reg = x.size; can_be_zero = x.can_be_zero }))
                          same)));
                access = keep _ (
                    Memᴰ.tail (
                      Memᴰ.tail (
                        List.Memᴰ.cast (ap (buffer_access d) same)
                          (pair_access-mem q.kind q.mem q.size q.can_be_zero d e e'))));
              })
        | inr below ↦ pairs_assertions-IsGuarded ps p d _ e below h'
      ]

-- The preconditions of a call of a helper, at a label whose call depth is known, include for each of
-- its buffers: the size is a number, valid as a size, and the buffer can be accessed for that many
-- bytes, in the direction that its kind says, and may be null where its kind says so.
pub get_assertions-IsGuarded :
    (gsl : Gsl) (info : ProgramInfo) (label : Option Label) (c : Call) (p : ArgPair) (d : ℤ)
    {res : List Assertion}
    → depth gsl info label ≡ ok d
    → Memᴰ p c.pairs
    → get_assertions gsl info label (Instruction.call c) ≡ ok res
    → IsGuarded d p res
unfolding get_assertions call_assertions
get_assertions-IsGuarded gsl info label c p d e m h =
    let start =
      Assertion.valid_call (record { func = c.func; stack_frame_prefix = c.stack_frame_prefix }) in
    let (res, _, h') =
      >>=-eq-ok (singles_assertions gsl info label c.singles none (start ∷ []))
        (pairs_assertions gsl info label c.pairs) h in
    pairs_assertions-IsGuarded gsl info label c.pairs p d res e m h'
