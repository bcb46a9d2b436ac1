-- ===== src/Cfg/Blocks/Collected.antt =====
-- Collecting the basic blocks ends: verifiers/prevail/src/asm_cfg.cpp.
use linux_dev_env.Base.{
  ℕ, zero, suc, ◌+◌, ◌≤◌, ◌<◌, ◌≡◌, refl, ap, Bool, true, false, List, [], ◌∷◌, length, ◌!=◌,
  if◌then◌else◌, Bool-cases, inl, inr, arith,
}
use linux_dev_env.Outcome.{ok}
use linux_dev_env.Outcome.Ends.{Ends, returns, throws, Ends-of, Ends-imp, Ends-bind, Ends-if}
use linux_dev_env.Label.{Label}
use linux_dev_env.Label.Order.{eq_label, eq_of_eq_label, eq_label_self}
use linux_dev_env.Label.Keyed.{LabelSet, has, put, erase, emplace}
use linux_dev_env.Label.Keyed.Lookup.{has-put, has-keys}
use linux_dev_env.Cfg.{
  Cfg, get_node, not_found, labels, in_degree, out_degree, get_child, get_parent, num_siblings,
}
use linux_dev_env.Cfg.Blocks.{
  Blocks, first_label, last_label, Growth, stops, extend, grow, is_inner, collect,
  collect_basic_blocks,
}
use linux_dev_env.Cfg.Blocks.Chain.{
  IsChain, AreBlocks, IsChain-extend, AreBlocks-emplace, AreBlocks-each_label,
}

-- The labels of a list that have not been seen.
abbrev pub unseen : List Label → LabelSet → ℕ
unseen [] seen = 0
unseen (l ∷ ls) seen = (if has l seen then 0 else 1) + unseen ls seen

pub unseen-length : (ls : List Label) (seen : LabelSet) → unseen ls seen ≤ length ls
unseen-length [] seen = omega arith
unseen-length (l ∷ ls) seen = ground (arith, unseen-length ls seen)

unseen-le :
    (ls : List Label) (l : Label) (seen : LabelSet) → unseen ls (put l seen) ≤ unseen ls seen
unseen-le [] l seen = omega arith
unseen-le (m ∷ ls) l seen = ground (arith, unseen-le ls l seen, has-put m l seen)

pub unseen-lt :
    (ls : List Label) (l : Label) (seen : LabelSet)
    → has l ls ≡ true
    → has l seen ≡ false
    → unseen ls (put l seen) < unseen ls seen
unfolding has
unseen-lt [] l seen h n = cc
unseen-lt (m ∷ ls) l seen h n = elim (Bool-cases (eq_label l m)) [
  | inl e ↦
      let same : l ≡ m = eq_of_eq_label l m e in
      ground (
        arith,
        unseen-le ls l seen,
        has-put m l seen,
        ap (λ x. has x seen) same,
        ap (λ x. eq_label x l) same,
        eq_label_self l,
        n,
      )
  | inr e ↦ ground (arith, unseen-lt ls l seen, has-put m l seen, unseen-le ls l seen, h, n, e)
]

pub length-erase : (l : Label) (s : LabelSet) → length (erase l s) ≤ length s
unfolding erase
length-erase l [] = omega arith
length-erase l (m ∷ s) = ground (arith, length-erase l s)

-- A label at which a block does not stop is a node that has not been seen.
record GoesOn (next : Label) (seen : LabelSet) (cfg : Cfg) : Type 0 where
  listed : has next (labels cfg) ≡ true
  new : has next seen ≡ false
  only_parent : in_degree next cfg ≡ ok 1

stops-Ends :
    (next : Label) (seen : LabelSet) (cfg : Cfg)
    → Ends (λ (stop : Bool). stop ≡ false → GoesOn next seen cfg) (stops next seen cfg)
unfolding stops in_degree get_node not_found labels
stops-Ends next seen cfg =
    Ends-of (stops next seen cfg)
      (λ stop h f. record {
        listed = ground (arith, h, f, has-keys next cfg.neighbours);
        new = ground (arith, h, f);
        only_parent = ground (arith, h, f);
      })
      (ground arith)

out_degree-Ends : (l : Label) (cfg : Cfg) → Ends (λ (_ : ℕ). Unit {0}) (out_degree l cfg)
unfolding out_degree get_node not_found
out_degree-Ends l cfg = Ends-of (out_degree l cfg) (λ _ _. tt) (ground arith)

get_child-Ends :
    (l : Label) (cfg : Cfg) → Ends (λ (m : Label). get_child l cfg ≡ ok m) (get_child l cfg)
unfolding get_child get_node not_found
get_child-Ends l cfg = Ends-of (get_child l cfg) (λ _ h. h) (ground arith)

first_label-Ends :
    (block : List Label) → Ends (λ (l : Label). first_label block ≡ ok l) (first_label block)
first_label-Ends [] = throws (λ h. cc)
first_label-Ends (l ∷ block) = returns refl

last_label-Ends :
    (block : List Label) → Ends (λ (l : Label). last_label block ≡ ok l) (last_label block)
last_label-Ends [] = throws (λ h. cc)
last_label-Ends (l ∷ []) = returns refl
last_label-Ends (l ∷ m ∷ block) = last_label-Ends (m ∷ block)

is_inner-Ends : (l : Label) (cfg : Cfg) → Ends (λ (_ : Bool). Unit {0}) (is_inner l cfg)
unfolding is_inner in_degree num_siblings get_parent out_degree get_node not_found
is_inner-Ends l cfg = Ends-of (is_inner l cfg) (λ _ _. tt) (ground arith)

-- What the inner loop keeps, and how it leaves the labels still to do.
record IsGrown (cfg : Cfg) (before after : Growth) : Type 0 where
  shorter : length after.worklist ≤ length before.worklist
  chain : IsChain cfg after.block

-- Each round of the inner loop sees a new node.
grow-Ends :
    (fuel : ℕ) (cfg : Cfg) (label : Label) (s : Growth)
    → unseen (labels cfg) s.seen < fuel
    → IsChain cfg s.block
    → Ends (IsGrown cfg s) (grow fuel cfg label s)
unfolding grow
grow-Ends zero cfg label s h p = absurd (omega arith)
grow-Ends (suc fuel) cfg label s h p =
    let same : IsGrown cfg s s = record { shorter = omega arith; chain = p } in
    Ends-bind _ (out_degree-Ends label cfg) λ d _.
      Ends-if (d != 1) _ _ (λ _. returns same)
        λ _. Ends-bind _ (last_label-Ends s.block) λ last is_last.
          Ends-bind _ (get_child-Ends last cfg) λ next child.
            Ends-bind _ (stops-Ends next s.seen cfg) λ stop goes.
              Ends-if stop _ _ (λ _. returns same)
                λ e. Ends-bind _ (first_label-Ends s.block) λ first _.
                  let more = goes e in
                  Ends-imp
                    (grow-Ends fuel cfg next (extend first next s)
                      (omega (arith, unseen-lt (labels cfg) next s.seen more.listed more.new))
                      (IsChain-extend cfg s first last next p is_last child more.only_parent))
                    (λ s' g. record {
                      shorter = omega (arith, g.shorter, length-erase next s.worklist);
                      chain = g.chain;
                    })

-- Each round of the outer loop takes a label off the list.
collect-Ends :
    (fuel : ℕ) (cfg : Cfg) (worklist seen : LabelSet) (res : Blocks)
    → length worklist ≤ fuel
    → AreBlocks cfg res
    → Ends (AreBlocks cfg) (collect fuel cfg worklist seen res)
unfolding collect IsChain AreBlocks
collect-Ends zero cfg [] seen res h bs = returns bs
collect-Ends zero cfg (label ∷ rest) seen res h bs = absurd (omega arith)
collect-Ends (suc fuel) cfg [] seen res h bs = returns bs
collect-Ends (suc fuel) cfg (label ∷ rest) seen res h bs =
    Ends-if (has label seen) _ _ (λ _. collect-Ends fuel cfg rest seen res (omega arith) bs)
      λ _. Ends-bind _ (is_inner-Ends label cfg) λ inner _.
        Ends-if inner _ _ (λ _. collect-Ends fuel cfg rest (put label seen) res (omega arith) bs)
          λ _.
            Ends-bind _
              (grow-Ends (suc (length (labels cfg))) cfg label
                (record { block = label ∷ []; worklist = rest; seen = put label seen })
                (omega (arith, unseen-length (labels cfg) (put label seen))) tt)
              λ s g. Ends-bind _ (first_label-Ends s.block) λ first is_first.
                collect-Ends fuel cfg s.worklist s.seen (emplace first s.block res)
                  (omega (arith, g.shorter))
                  (AreBlocks-emplace cfg first s.block res is_first g.chain bs)

-- Collecting the basic blocks of any graph ends: it throws an exception, fails an `assert`, reads an
-- element that is not there, or returns blocks, each under its first label, in which each label is the only child of the one before it
-- and has no other parent.
pub collect_basic_blocks-Ends :
    (cfg : Cfg) (simplify : Bool) → Ends (AreBlocks cfg) (collect_basic_blocks cfg simplify)
unfolding collect_basic_blocks AreBlocks
collect_basic_blocks-Ends cfg simplify =
    Ends-if simplify _ _
      (λ _. collect-Ends (length (labels cfg)) cfg (labels cfg) [] [] (omega arith) tt)
      (λ _. returns (AreBlocks-each_label cfg (labels cfg) [] tt))
