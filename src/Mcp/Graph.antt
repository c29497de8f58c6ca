-- ===== src/Mcp/Graph.antt =====
-- The breadth-first searches of remy-cc/src/mcp/graph.rs for callers, callees and impact. A `HashSet` is a list
-- whose order and duplicates do not matter; a query that SQLite refuses is not modelled.
pub mod Chunks
pub mod Calls
pub mod Distance
pub mod Queries
pub mod Affected
use remy_cc.Prelude.{
  with_slashes, ℕ, zero, suc, ◌+◌, ◌≤◌, Bool, true, false, not, ◌&&◌, ◌||◌, Option, none, some,
  List, [], ◌∷◌, ◌++◌, map, Text, codes, text_eq, any_if, select_if, if◌then◌else◌, leb, ltb, ◌==◌,
  collect, join, mem_text, sorted_set,
}
use remy_cc.Mcp.Index.{EdgeRow, Candidate, SymbolRow, Index, qualified, source_of}

-- `AND provenance IN ('definite', 'probable')`, which no NULL satisfies.
unfoldable pub in_provenance : Bool → EdgeRow → Bool
in_provenance false e = true
in_provenance true e = elim e.provenance [
  | none ↦ false
  | some p ↦ text_eq p (codes "definite") || text_eq p (codes "probable")
]

unfoldable pub caller_of : Bool → List Text → EdgeRow → Option Text
unfolding in_provenance mem_text
caller_of static_only chunk e = elim e.callee_qualified [
  | none ↦ none
  | some q ↦ if mem_text q chunk && in_provenance static_only e then some (source_of e) else none
]

unfoldable pub callee_of : Bool → List Text → EdgeRow → Option Text
unfolding in_provenance mem_text
callee_of static_only chunk e =
    if mem_text (source_of e) chunk && in_provenance static_only e then e.callee_qualified else none

-- `edges e JOIN edge_candidates ec ON ec.edge_id = e.id`
unfoldable pub candidates_of : Index → EdgeRow → List Candidate
unfolding select_if
candidates_of index e = select_if (λ ec. ec.edge_id == e.id) index.edge_candidates

unfoldable pub candidate_caller : Bool → List Text → EdgeRow → Candidate → Option Text
unfolding in_provenance mem_text
candidate_caller static_only chunk e ec =
    if mem_text ec.candidate_qualified chunk && in_provenance static_only e
    then some (source_of e)
    else none

unfoldable pub candidate_callee : Bool → List Text → EdgeRow → Candidate → Option Text
unfolding in_provenance mem_text
candidate_callee static_only chunk e ec =
    if mem_text (source_of e) chunk && in_provenance static_only e
    then some ec.candidate_qualified
    else none

-- The query of one chunk, by its direction and whether it joins the candidates.
unfoldable pub query_callers : Index → Bool → List Text → List Text
unfolding collect caller_of
query_callers index static_only chunk = collect (caller_of static_only chunk) index.edges

unfoldable pub query_callees : Index → Bool → List Text → List Text
unfolding collect callee_of
query_callees index static_only chunk = collect (callee_of static_only chunk) index.edges

unfoldable pub query_callers_ambiguous : Index → Bool → List Text → List Text
unfolding query_callers join collect candidates_of candidate_caller
query_callers_ambiguous index static_only chunk =
    query_callers index static_only chunk
    ++ join (λ e. collect (candidate_caller static_only chunk e) (candidates_of index e))
        index.edges

unfoldable pub query_callees_ambiguous : Index → Bool → List Text → List Text
unfolding query_callees join collect candidates_of candidate_callee
query_callees_ambiguous index static_only chunk =
    query_callees index static_only chunk
    ++ join (λ e. collect (candidate_callee static_only chunk e) (candidates_of index e))
        index.edges

abbrev pub chunk_size : ℕ
chunk_size = 400

-- `chunks(CHUNK)`; `room` is what the chunk still takes.
unfoldable pub chunks_from : ℕ → List Text → List Text → List (List Text)
chunks_from room chunk [] = chunk ∷ []
chunks_from zero chunk (t ∷ ts) = chunk ∷ chunks_from 399 (t ∷ []) ts
chunks_from (suc room) chunk (t ∷ ts) = chunks_from room (chunk ++ t ∷ []) ts

unfoldable pub chunks : List Text → List (List Text)
unfolding chunks_from
chunks [] = []
chunks (t ∷ ts) = chunks_from 399 (t ∷ []) ts

abbrev pub Levels : Type 0
Levels = List (ℕ × List Text)

module _ (query : List Text → List Text) where
  unfoldable pub next_level : List Text → List Text → List Text
  unfolding chunks join sorted_set select_if mem_text
  next_level visited current =
      sorted_set (select_if (λ row. not (mem_text row visited)) (join query (chunks current)))

  -- The rounds that are left, from `depth` on. A search whose level is empty ends.
  unfoldable pub levels_from : ℕ → ℕ → List Text → List Text → Levels
  unfolding next_level
  levels_from zero depth visited current = []
  levels_from (suc rounds) depth visited [] = []
  levels_from (suc rounds) depth visited (c ∷ cs) = elim (next_level visited (c ∷ cs)) [
    | [] ↦ []
    | v ∷ vs ↦ (depth, v ∷ vs) ∷ levels_from rounds (suc depth) (visited ++ v ∷ vs) (v ∷ vs)
  ]

  -- A negative `max_depth` is as zero.
  unfoldable pub bfs : List Text → ℕ → Levels
  unfolding levels_from
  bfs targets max_depth = levels_from max_depth 1 targets targets

unfoldable pub bfs_callers : Index → List Text → ℕ → Bool → Levels
unfolding bfs query_callers
bfs_callers index targets max_depth static_only =
    bfs (query_callers index static_only) targets max_depth

unfoldable pub bfs_callees : Index → List Text → ℕ → Bool → Levels
unfolding bfs query_callees
bfs_callees index targets max_depth static_only =
    bfs (query_callees index static_only) targets max_depth

unfoldable pub bfs_callers_ambiguous : Index → List Text → ℕ → Bool → Levels
unfolding bfs query_callers_ambiguous
bfs_callers_ambiguous index targets max_depth static_only =
    bfs (query_callers_ambiguous index static_only) targets max_depth

unfoldable pub bfs_callees_ambiguous : Index → List Text → ℕ → Bool → Levels
unfolding bfs query_callees_ambiguous
bfs_callees_ambiguous index targets max_depth static_only =
    bfs (query_callees_ambiguous index static_only) targets max_depth

-- The search that a query asks for.
unfoldable pub search : Index → Bool → Bool → List Text → ℕ → Bool → Levels
unfolding bfs_callers bfs_callees bfs_callers_ambiguous bfs_callees_ambiguous
search index callers include_ambiguous targets depth static_only =
    if callers
    then if include_ambiguous
      then bfs_callers_ambiguous index targets depth static_only
      else bfs_callers index targets depth static_only
    else if include_ambiguous
    then bfs_callees_ambiguous index targets depth static_only
    else bfs_callees index targets depth static_only

unfoldable pub has_separator : Text → Bool
has_separator [] = false
has_separator (a ∷ []) = false
has_separator (a ∷ b ∷ cs) = ((a == b':') && (b == b':')) || has_separator (b ∷ cs)

unfoldable pub is_some_text : Option Text → Text → Bool
is_some_text none t = false
is_some_text (some s) t = text_eq s t

unfoldable pub named_symbol : Text → SymbolRow → Option Text
unfolding is_some_text
named_symbol symbol row =
    if text_eq row.name symbol || is_some_text row.short_name symbol
    then some (qualified row.file_path row.name)
    else none

unfoldable pub resolve_targets : Index → Text → List Text
unfolding has_separator named_symbol collect
resolve_targets index symbol =
    if has_separator symbol then symbol ∷ [] else collect (named_symbol symbol) index.symbols

abbrev pub min : ℕ → ℕ → ℕ
min a b = if leb a b then a else b

-- `bfs_query` up to the formatting; `none` is the answer that no symbol matches.
unfoldable pub bfs_query : Index → ℕ → Text → ℕ → Bool → Bool → Bool → Option Levels
unfolding resolve_targets search
bfs_query index bfs_max_depth symbol depth include_ambiguous static_only callers =
    elim (resolve_targets index symbol) [
      | [] ↦ none
      | t ∷ ts ↦
          some
            (search index callers include_ambiguous (t ∷ ts) (min depth bfs_max_depth) static_only)
    ]

unfoldable pub indexed_file : Index → Text → Option Text
unfolding mem_text with_slashes
indexed_file index f =
    let path = with_slashes f in if mem_text path index.files then some path else none

unfoldable pub target_files : Index → List Text → List Text
unfolding collect indexed_file
target_files index files = collect (indexed_file index) files

unfoldable pub symbol_of_file : Text → SymbolRow → Option Text
symbol_of_file file row =
    if text_eq row.file_path file then some (qualified row.file_path row.name) else none

unfoldable pub seeds : Index → List Text → List Text
unfolding join collect symbol_of_file
seeds index targets = join (λ file. collect (symbol_of_file file) index.symbols) targets

-- The answers of `query_impact_impl` before the formatting.
pub data Impact : Type 0 where
  no_files : Impact
  no_symbols : List Text → Impact
  affected : List Text → Levels → Levels → Impact

unfoldable pub query_impact : Index → ℕ → List Text → ℕ → ℕ → Bool → Bool → Impact
unfolding target_files seeds search
query_impact index bfs_max_depth files depth_up depth_down include_ambiguous static_only =
    elim (target_files index files) [
      | [] ↦ no_files
      | f ∷ fs ↦ elim (seeds index (f ∷ fs)) [
        | [] ↦ no_symbols (f ∷ fs)
        | t ∷ ts ↦
            let up = min depth_up bfs_max_depth in
            let down = min depth_down bfs_max_depth in
            affected (f ∷ fs)
              (if ltb 0 up then search index true include_ambiguous (t ∷ ts) up static_only else [])
              (if ltb 0 down
                then search index false include_ambiguous (t ∷ ts) down static_only
                else [])
      ]
    ]
