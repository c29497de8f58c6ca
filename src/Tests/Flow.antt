-- ===== src/Tests/Flow.antt =====
-- The search for a path on a graph of three links.
use remy_cc.Prelude.{
  ℕ, ◌≡◌, refl, some, none, [], ◌∷◌, List, codes, any_if, find_if, collect, add_some,
}
use remy_cc.Mcp.Flow.{
  Link, bidir_bfs, bidir_from, is_empty, scan_front, scan_node, insert_new, push_new, contains_key,
  parent_of, adj_fwd, adj_bwd, forward, backward, reconstruct_path, ancestors, reverse_onto, follow,
  edge_to, path, PathStep,
}
use remy_cc.Mcp.Flow.Trail.{Finds}
use remy_cc.Mcp.Flow.Paths.{bidir_bfs-Finds}

abbrev link : ℕ → ℕ → Link
link a b = record { source = a; target = b; provenance = some (codes "definite"); via = none }

abbrev three_links : List Link
three_links = link 1 2 ∷ link 2 3 ∷ link 1 3 ∷ []

bidir_bfs-Finds_example : Finds three_links 1 3 (bidir_bfs three_links 100 1 3 4)
bidir_bfs-Finds_example = bidir_bfs-Finds three_links 100 1 3 4

abbrev start : PathStep
start = record { node = 1; provenance = none; via = none }

abbrev onward : PathStep
onward = record { node = 3; provenance = some (codes "definite"); via = none }

direct_run : bidir_bfs three_links 100 1 3 4 ≡ path (start ∷ onward ∷ [])
unfolding bidir_bfs bidir_from is_empty scan_front scan_node insert_new push_new contains_key
    parent_of adj_fwd adj_bwd forward backward reconstruct_path ancestors reverse_onto follow
    edge_to any_if find_if collect add_some
direct_run = refl
