-- ===== src/Cfg/Graph/Edits.antt =====
-- What adding and removing edges and nodes makes of a graph: `cfg_builder_t` of
-- verifiers/prevail/src/asm_cfg.cpp.
use linux_dev_env.Base.{
  ◌≡◌, refl, ap, false, none, some, arith, Option-cases, inl, inr, if◌then◌else◌,
}
use linux_dev_env.Outcome.{ok}
use linux_dev_env.Label.{Label, entry, exit}
use linux_dev_env.Label.Order.{eq_label, eq_of_eq_label, eq_label_self}
use linux_dev_env.Label.Keyed.{LabelSet, has, put, erase, find, emplace, update}
use linux_dev_env.Label.Keyed.Lookup.{has-put, has-erase, find-emplace, find-update}
use linux_dev_env.Cfg.{GuardedInstruction, Adjacent, isolated, Cfg, get_node}
use linux_dev_env.Cfg.Builder.{set_node, node_at, add_child, remove_child, insert}
use linux_dev_env.Cfg.Graph.{is_child, is_parent, is_node, IsGraph, Adds, Removes, Inserts}

-- What an edit of an edge that succeeds has found and written: `f` and `g` are what it does to the
-- children of `a` and the parents of `b`.
record Writes (f g : LabelSet → LabelSet) (a b : Label) (cfg cfg' : Cfg) : Type 0 where
  from : Adjacent
  to : Adjacent
  from_is : find a cfg.neighbours ≡ some from
  to_is : find b (update a (record from { children = f from.children }) cfg.neighbours) ≡ some to
  written :
      cfg'
      ≡ set_node b
          (record to { parents = g to.parents })
          (set_node a (record from { children = f from.children }) cfg)

module _ (f g : LabelSet → LabelSet) (a b : Label) (cfg : Cfg) {cfg' : Cfg}
    (w : Writes f g a b cfg cfg') where
  first :
      (x : Label)
      → find x (update a (record w.from { children = f w.from.children }) cfg.neighbours) ≡ (
          if eq_label x a
          then some (record w.from { children = f w.from.children })
          else find x cfg.neighbours)
  first x =
      find-update x a (record w.from { children = f w.from.children }) cfg.neighbours
        (rw w.from_is refl)

  second :
      (x : Label)
      → find x cfg'.neighbours ≡ (
          if eq_label x b
          then some (record w.to { parents = g w.to.parents })
          else find x (update a (record w.from { children = f w.from.children }) cfg.neighbours))
  second x = rw w.written (
      find-update x b (record w.to { parents = g w.to.parents })
        (update a (record w.from { children = f w.from.children }) cfg.neighbours)
        (rw w.to_is refl))

  written-children :
      (x y : Label)
      → is_child cfg' x y ≡ (if eq_label x a then has y (f w.from.children) else is_child cfg x y)
  written-children x y = ground (
    arith,
    first x,
    second x,
    first b,
    w.to_is,
    eq_of_eq_label x a,
    eq_of_eq_label x b,
    eq_label_self b,
  )

  written-parents :
      (x y : Label)
      → is_parent cfg' x y ≡ (if eq_label y b then has x (g w.to.parents) else is_parent cfg x y)
  written-parents x y =
      ground (arith, first y, second y, w.from_is, eq_of_eq_label y a, eq_of_eq_label y b)

  written-nodes : (l : Label) → is_node cfg' l ≡ is_node cfg l
  written-nodes l = ground (
    arith,
    first l,
    second l,
    first b,
    w.from_is,
    w.to_is,
    eq_of_eq_label l a,
    eq_of_eq_label l b,
  )

  parents-before : (x : Label) → has x w.to.parents ≡ is_parent cfg x b
  parents-before x = ground (arith, first b, w.from_is, w.to_is, eq_of_eq_label b a)

add_child-Writes :
    (a b : Label) (cfg : Cfg) {cfg' : Cfg}
    → add_child a b cfg ≡ ok cfg'
    → Writes (put b) (put a) a b cfg cfg'
unfolding add_child node_at
add_child-Writes a b cfg {cfg'} h = elim (Option-cases (find a cfg.neighbours)) [
  | inl e ↦ absurd (ground (arith, h, e))
  | inr (n, e) ↦
      elim (Option-cases
        (find b (update a (record n { children = put b n.children }) cfg.neighbours))) [
          | inl e' ↦ absurd (ground (arith, h, e, e'))
          | inr (m, e') ↦ record {
            from = n;
            to = m;
            from_is = e;
            to_is = e';
            written = ground (arith, h, e, e');
          }
        ]
]

add_child-ends :
    (a b : Label) (cfg : Cfg) {cfg' : Cfg}
    → add_child a b cfg ≡ ok cfg'
    → (eq_label b entry ≡ false) × (eq_label a exit ≡ false)
unfolding add_child
add_child-ends a b cfg h = ground (arith, h)

remove_child-Writes :
    (a b : Label) (cfg : Cfg) {cfg' : Cfg}
    → remove_child a b cfg ≡ ok cfg'
    → Writes (erase b) (erase a) a b cfg cfg'
unfolding remove_child get_node
remove_child-Writes a b cfg {cfg'} h = elim (Option-cases (find a cfg.neighbours)) [
  | inl e ↦ absurd (ground (arith, h, e))
  | inr (n, e) ↦
      elim (Option-cases
        (find b (update a (record n { children = erase b n.children }) cfg.neighbours))) [
          | inl e' ↦ absurd (ground (arith, h, e, e'))
          | inr (m, e') ↦ record {
            from = n;
            to = m;
            from_is = e;
            to_is = e';
            written = ground (arith, h, e, e');
          }
        ]
]

pub add_child-Adds :
    (a b : Label) (cfg : Cfg) {cfg' : Cfg} → add_child a b cfg ≡ ok cfg' → Adds a b cfg cfg'
add_child-Adds a b cfg {cfg'} h =
    let w = add_child-Writes a b cfg h in
    record {
      children = λ x y. ground (
        arith,
        written-children (put b) (put a) a b cfg w x y,
        has-put y b w.from.children,
        w.from_is,
        eq_of_eq_label x a,
      );
      parents = λ x y. ground (
        arith,
        written-parents (put b) (put a) a b cfg w x y,
        has-put x a w.to.parents,
        parents-before (put b) (put a) a b cfg w x,
        eq_of_eq_label y b,
      );
      nodes = written-nodes (put b) (put a) a b cfg w;
      instructions = ap (λ (c : Cfg). c.instructions) w.written;
      not_entry = (add_child-ends a b cfg h).0;
      not_exit = (add_child-ends a b cfg h).1;
    }

pub remove_child-Removes :
    (a b : Label) (cfg : Cfg) {cfg' : Cfg} → remove_child a b cfg ≡ ok cfg' → Removes a b cfg cfg'
remove_child-Removes a b cfg {cfg'} h =
    let w = remove_child-Writes a b cfg h in
    record {
      children = λ x y. ground (
        arith,
        written-children (erase b) (erase a) a b cfg w x y,
        has-erase y b w.from.children,
        w.from_is,
        eq_of_eq_label x a,
      );
      parents = λ x y. ground (
        arith,
        written-parents (erase b) (erase a) a b cfg w x y,
        has-erase x a w.to.parents,
        parents-before (erase b) (erase a) a b cfg w x,
        eq_of_eq_label y b,
      );
      nodes = written-nodes (erase b) (erase a) a b cfg w;
      instructions = ap (λ (c : Cfg). c.instructions) w.written;
    }

pub insert-Inserts :
    (l : Label) (g : GuardedInstruction) (cfg : Cfg) {cfg' : Cfg}
    → insert l g cfg ≡ ok cfg'
    → IsGraph cfg
    → Inserts l g cfg cfg'
unfolding insert has
insert-Inserts l g cfg {cfg'} h graph =
    let fresh : find l cfg.neighbours ≡ none = ground (arith, h) in
    let empty : find l cfg.instructions ≡ none = ground (arith, fresh, graph.filled l) in
    let is : cfg' ≡ record {
      neighbours = emplace l isolated cfg.neighbours;
      instructions = emplace l g cfg.instructions;
    } =
      ground (arith, h, fresh) in
    let new = λ (x : Label). find-emplace x l isolated cfg.neighbours fresh in
    let filled = λ (x : Label). find-emplace x l g cfg.instructions empty in
    rw is record {
      fresh = fresh;
      children = λ x y. ground (arith, new x, fresh, eq_of_eq_label x l);
      parents = λ x y. ground (arith, new y, fresh, eq_of_eq_label y l);
      nodes = λ x. ground (arith, new x);
      instructions = filled;
    }

-- The operations keep the shape.
pub Adds-IsGraph : (a b : Label) (cfg cfg' : Cfg) → Adds a b cfg cfg' → IsGraph cfg → IsGraph cfg'
Adds-IsGraph a b cfg cfg' w g = record {
  symmetric = λ x y. ground (arith, w.children x y, w.parents x y, g.symmetric x y);
  filled = λ l. ground (arith, w.nodes l, w.instructions, g.filled l);
  no_way_in =
      λ x. ground (arith, w.children x entry, g.no_way_in x, w.not_entry, eq_of_eq_label entry b);
  no_way_out =
      λ y. ground (arith, w.children exit y, g.no_way_out y, w.not_exit, eq_of_eq_label exit a);
  has_entry = ground (arith, w.nodes entry, g.has_entry);
  has_exit = ground (arith, w.nodes exit, g.has_exit);
}

pub Removes-IsGraph :
    (a b : Label) (cfg cfg' : Cfg) → Removes a b cfg cfg' → IsGraph cfg → IsGraph cfg'
Removes-IsGraph a b cfg cfg' w g = record {
  symmetric = λ x y. ground (arith, w.children x y, w.parents x y, g.symmetric x y);
  filled = λ l. ground (arith, w.nodes l, w.instructions, g.filled l);
  no_way_in = λ x. ground (arith, w.children x entry, g.no_way_in x);
  no_way_out = λ y. ground (arith, w.children exit y, g.no_way_out y);
  has_entry = ground (arith, w.nodes entry, g.has_entry);
  has_exit = ground (arith, w.nodes exit, g.has_exit);
}

pub Inserts-IsGraph :
    (l : Label) (i : GuardedInstruction) (cfg cfg' : Cfg)
    → Inserts l i cfg cfg'
    → IsGraph cfg
    → IsGraph cfg'
Inserts-IsGraph l i cfg cfg' w g = record {
  symmetric = λ x y. ground (arith, w.children x y, w.parents x y, g.symmetric x y);
  filled = λ x. ground (arith, w.nodes x, w.instructions x, g.filled x);
  no_way_in = λ x. ground (arith, w.children x entry, g.no_way_in x);
  no_way_out = λ y. ground (arith, w.children exit y, g.no_way_out y);
  has_entry = ground (arith, w.nodes entry, g.has_entry);
  has_exit = ground (arith, w.nodes exit, g.has_exit);
}
