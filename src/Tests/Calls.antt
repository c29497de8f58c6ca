-- ===== src/Tests/Calls.antt =====
-- The searches of the tools' server on a small index: `a` calls `b`, and `b` may call `c`.
use Prim.Native.String.{String}
use remy_cc.Prelude.{ℕ, true, false, some, none, [], ◌∷◌, codes}
use remy_cc.Mcp.Index.{Index, SymbolRow}
use remy_cc.Mcp.Graph.{bfs_query, query_impact}
use remy_cc.Mcp.Graph.Queries.{Answers, bfs_query-Answers}
use remy_cc.Mcp.Graph.Affected.{Impacts, query_impact-Impacts}

abbrev symbol : ℕ → String → SymbolRow
symbol id name = record {
  id = id;
  file_path = codes "m.c";
  name = codes name;
  short_name = none;
  lineno = none;
  type = codes "function";
}

abbrev small : Index
small = record {
  files = codes "m.c" ∷ [];
  symbols = symbol 1 "a" ∷ symbol 2 "b" ∷ symbol 3 "c" ∷ [];
  edges =
      record {
        id = 1;
        source_file = codes "m.c";
        caller = codes "a";
        callee_qualified = some (codes "m.c::b");
        provenance = some (codes "definite");
        via = none;
      }
      ∷ record {
        id = 2;
        source_file = codes "m.c";
        caller = codes "b";
        callee_qualified = none;
        provenance = none;
        via = none;
      }
      ∷ [];
  edge_candidates = record { edge_id = 2; candidate_qualified = codes "m.c::c" } ∷ [];
}

bfs_query-Answers_example :
    Answers small 5 (codes "c") 3 true false true (bfs_query small 5 (codes "c") 3 true false true)
bfs_query-Answers_example = bfs_query-Answers small 5 (codes "c") 3 true false true

query_impact-Impacts_example :
    Impacts small 5
      (codes "m.c" ∷ [])
      2
      1
      false
      false
      (query_impact small 5 (codes "m.c" ∷ []) 2 1 false false)
query_impact-Impacts_example = query_impact-Impacts small 5 (codes "m.c" ∷ []) 2 1 false false
