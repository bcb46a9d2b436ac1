-- ===== src/Tests/Wto.antt =====
-- The weak topological order of the graph that wto.hpp draws.
use linux_dev_env.Label.Keyed.{put}
use linux_dev_env.Label.Keyed.{keys}
use linux_dev_env.Label.Keyed.{update}
use linux_dev_env.Label.Keyed.{find}
use linux_dev_env.Base.{ℕ, ◌≡◌, refl, List, [], ◌∷◌}
use linux_dev_env.Base.Int.{pos}
use linux_dev_env.Outcome.{ok, ◌>>=◌}
use linux_dev_env.Label.{Label, label_at, entry, exit}
use linux_dev_env.Cfg.Program.{cfg_from_adjacency_list}
use linux_dev_env.Wto.{cycle, vertex, collect_heads}
use linux_dev_env.Wto.Builder.{wto_of}
use linux_dev_env.Wto.Nesting.{greater, greater_iff}
use linux_dev_env.Base.{true, ◌↔◌, ◌++◌}

abbrev v : ℕ → Label
v n = label_at (pos n)

abbrev adj_list : List (Label × List Label)
adj_list =
    (entry, v 1 ∷ [])
    ∷ (v 1, v 2 ∷ [])
    ∷ (v 2, v 3 ∷ v 8 ∷ [])
    ∷ (v 3, v 4 ∷ [])
    ∷ (v 4, v 5 ∷ v 7 ∷ [])
    ∷ (v 5, v 6 ∷ [])
    ∷ (v 6, v 5 ∷ v 7 ∷ [])
    ∷ (v 7, v 3 ∷ v 8 ∷ [])
    ∷ (v 8, exit ∷ [])
    ∷ (exit, [])
    ∷ []

-- `1 2 (3 4 (5 6) 7) 8`
components_of_paper :
    (cfg_from_adjacency_list adj_list >>= wto_of 100 >>= λ wto. ok wto.components)
    ≡ ok (vertex entry ∷ vertex (v 1) ∷ vertex (v 2) ∷ cycle 0 ∷ vertex (v 8) ∷ vertex exit ∷ [])
unfolding cfg_from_adjacency_list wto_of find update keys put
components_of_paper = refl

heads_of_paper :
    (cfg_from_adjacency_list adj_list >>= wto_of 100 >>= collect_heads 5 (v 6))
    ≡ ok (v 5 ∷ v 3 ∷ [])
unfolding cfg_from_adjacency_list wto_of collect_heads find update keys put
heads_of_paper = refl

-- The nesting of 6 is above that of 7, which is in the outer cycle only.
greater_iff_example :
    (greater (v 5 ∷ v 3 ∷ []) (v 3 ∷ []) ≡ true)
    ↔ ((l : Label) × (inner : List Label) × (v 5 ∷ v 3 ∷ [] ≡ (l ∷ inner) ++ v 3 ∷ []))
greater_iff_example = greater_iff (v 5 ∷ v 3 ∷ []) (v 3 ∷ [])
