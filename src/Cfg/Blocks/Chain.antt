-- ===== src/Cfg/Blocks/Chain.antt =====
-- Blocks as chains of nodes: `basic_block_t` of verifiers/prevail/src/crab/cfg.hpp.
use Prim.Native.Nat.{Ordering}
use linux_dev_env.Base.{◌≡◌, refl, ap, ◌∙◌, ◌||◌, List, [], ◌∷◌, ◌++◌, Bool-cases, inl, inr}
use linux_dev_env.Outcome.{ok}
use linux_dev_env.Label.{Label, entry, exit}
use linux_dev_env.Label.Order.{eq_label, compare_label}
use linux_dev_env.Label.Keyed.{emplace}
use linux_dev_env.Cfg.{Cfg, in_degree, get_child}
use linux_dev_env.Cfg.Blocks.{Blocks, first_label, last_label, Growth, extend, each_label}

-- Each label of a block is the only child of the one before it, and has no other parent.
unfoldable pub IsChain : Cfg → List Label → Type 0
IsChain cfg [] = Unit
IsChain cfg (l ∷ []) = Unit
IsChain cfg (l ∷ m ∷ ls) =
    (get_child l cfg ≡ ok m) × (in_degree m cfg ≡ ok 1) × IsChain cfg (m ∷ ls)

-- A set of blocks, each a chain under its first label.
unfoldable pub AreBlocks : Cfg → Blocks → Type 0
AreBlocks cfg [] = Unit
AreBlocks cfg ((l, block) ∷ res) =
    (first_label block ≡ ok l) × IsChain cfg block × AreBlocks cfg res

IsChain-snoc :
    (cfg : Cfg) (block : List Label) (last next : Label)
    → IsChain cfg block
    → last_label block ≡ ok last
    → get_child last cfg ≡ ok next
    → in_degree next cfg ≡ ok 1
    → IsChain cfg (block ++ next ∷ [])
unfolding IsChain
IsChain-snoc cfg [] last next p e c d = tt
IsChain-snoc cfg (l ∷ []) last next p e c d =
    let same : l ≡ last = cc in (ap (λ x. get_child x cfg) same ∙ c, d, tt)
IsChain-snoc cfg (l ∷ m ∷ ls) last next (a, b, p) e c d =
    (a, b, IsChain-snoc cfg (m ∷ ls) last next p e c d)

pub IsChain-extend :
    (cfg : Cfg) (s : Growth) (first last next : Label)
    → IsChain cfg s.block
    → last_label s.block ≡ ok last
    → get_child last cfg ≡ ok next
    → in_degree next cfg ≡ ok 1
    → IsChain cfg (extend first next s).block
unfolding IsChain
IsChain-extend cfg s first last next p e c d = elim (Bool-cases (eq_label first entry)) [
  | inl h ↦ rw h tt
  | inr h ↦ rw h (IsChain-snoc cfg s.block last next p e c d)
]

pub AreBlocks-emplace :
    (cfg : Cfg) (l : Label) (block : List Label) (res : Blocks)
    → first_label block ≡ ok l
    → IsChain cfg block
    → AreBlocks cfg res
    → AreBlocks cfg (emplace l block res)
unfolding emplace AreBlocks
AreBlocks-emplace cfg l block [] h p bs = (h, p, tt)
AreBlocks-emplace cfg l block ((m, other) ∷ res) h p (a, b, bs) =
    elim (compare_label l m)
      as (λ o. AreBlocks cfg (elim o [
        | Ordering.lt ↦ (l, block) ∷ (m, other) ∷ res
        | Ordering.eq ↦ (m, other) ∷ res
        | Ordering.gt ↦ (m, other) ∷ emplace l block res
      ])) [
        | Ordering.lt ↦ (h, p, (a, b, bs))
        | Ordering.eq ↦ (a, b, bs)
        | Ordering.gt ↦ (a, b, AreBlocks-emplace cfg l block res h p bs)
      ]

pub AreBlocks-each_label :
    (cfg : Cfg) (ls : List Label) (res : Blocks)
    → AreBlocks cfg res
    → AreBlocks cfg (each_label ls res)
unfolding IsChain
AreBlocks-each_label cfg [] res bs = bs
AreBlocks-each_label cfg (l ∷ ls) res bs =
    AreBlocks-each_label cfg ls _ (elim (Bool-cases (eq_label l entry || eq_label l exit)) [
      | inl h ↦ rw h bs
      | inr h ↦ rw h (AreBlocks-emplace cfg l (l ∷ []) res refl tt bs)
    ])
