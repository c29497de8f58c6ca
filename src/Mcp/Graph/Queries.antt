-- ===== src/Mcp/Graph/Queries.antt =====
-- The queries of remy-cc/src/mcp/graph.rs for the callers and callees of a symbol, against distances in
-- the call relation.
use remy_cc.Prelude.{
  ℕ, ◌≤◌, ◌≡◌, ◌≢◌, refl, subst, sym, ◌↔◌, inl, inr, Bool, true, false, Option, none, some, List,
  [], ◌∷◌, Text, Memᴰ, IsAscending,
}
use remy_cc.Mcp.Index.{Index}
use remy_cc.Mcp.Graph.{
  Levels, bfs, bfs_callers, bfs_callees, bfs_callers_ambiguous, bfs_callees_ambiguous, search,
  query_callers, query_callees, query_callers_ambiguous, query_callees_ambiguous, resolve_targets,
  min, bfs_query,
}
use remy_cc.Mcp.Graph.Calls.{
  Calls, Ambiguous, Finds, query_callers-Finds, query_callees-Finds, query_callers_ambiguous-Finds,
  query_callees_ambiguous-Finds,
}
use remy_cc.Mcp.Graph.Distance.{level_at, IsDistance, List-cases, bfs-IsDistance, bfs-IsAscending}

-- A step of a search: to a caller or to a callee, of a resolved call or also of a candidate.
abbrev pub Steps : Index → Bool → Bool → Bool → Text → Text → Type 0
Steps index static_only true true u v = Ambiguous index static_only v u
Steps index static_only true false u v = Calls index static_only v u
Steps index static_only false true u v = Ambiguous index static_only u v
Steps index static_only false false u v = Calls index static_only u v

-- The levels hold, each in ascending order, exactly what is at their distance, up to the depth.
abbrev pub AtDistances : (Text → Text → Type 0) → List Text → ℕ → Levels → Type 0
AtDistances Step targets depth levels =
    (d : ℕ)
    → IsAscending (level_at d levels)
      × ((v : Text)
          → Memᴰ v (level_at d levels) ↔ ((1 ≤ d) × (d ≤ depth) × IsDistance Step targets d v))

bfs-AtDistances :
    (query : List Text → List Text) (Step : Text → Text → Type 0)
    → Finds query Step
    → (targets : List Text) (depth : ℕ) → AtDistances Step targets depth (bfs query targets depth)
bfs-AtDistances query Step finds targets depth d = (
  bfs-IsAscending query Step finds targets depth d,
  bfs-IsDistance query Step finds targets depth d,
)

pub search-AtDistances :
    (index : Index) (callers ambiguous static_only : Bool) (targets : List Text) (depth : ℕ)
    → AtDistances
        (Steps index static_only callers ambiguous)
        targets
        depth
        (search index callers ambiguous targets depth static_only)
unfolding search bfs_callers bfs_callees bfs_callers_ambiguous bfs_callees_ambiguous
search-AtDistances index true true s =
    bfs-AtDistances (query_callers_ambiguous index s) (Steps index s true true)
      (query_callers_ambiguous-Finds index s)
search-AtDistances index true false s =
    bfs-AtDistances (query_callers index s) (Steps index s true false) (query_callers-Finds index s)
search-AtDistances index false true s =
    bfs-AtDistances (query_callees_ambiguous index s) (Steps index s false true)
      (query_callees_ambiguous-Finds index s)
search-AtDistances index false false s =
    bfs-AtDistances (query_callees index s) (Steps index s false false)
      (query_callees-Finds index s)

-- A query has no levels exactly where the symbol has no targets.
abbrev pub Answers : Index → ℕ → Text → ℕ → Bool → Bool → Bool → Option Levels → Type 0
Answers index most symbol depth ambiguous static_only callers none =
    resolve_targets index symbol ≡ []
Answers index most symbol depth ambiguous static_only callers (some levels) =
    (resolve_targets index symbol ≢ [])
    × AtDistances (Steps index static_only callers ambiguous) (resolve_targets index symbol)
        (min depth most) levels

module _ (index : Index) (most : ℕ) (symbol : Text) (depth : ℕ)
    (ambiguous static_only callers : Bool) where
  bfs_query-none :
      resolve_targets index symbol ≡ []
      → bfs_query index most symbol depth ambiguous static_only callers ≡ none
  unfolding bfs_query
  bfs_query-none e = rw (e, bfs_query) refl

  bfs_query-some :
      (t : Text) (ts : List Text)
      → resolve_targets index symbol ≡ t ∷ ts
      → bfs_query index most symbol depth ambiguous static_only callers
        ≡ some (
            search index callers ambiguous
              (resolve_targets index symbol)
              (min depth most)
              static_only)
  unfolding bfs_query
  bfs_query-some t ts e = rw (e, bfs_query) refl

-- A query for the callers or callees of a symbol answers that there is none exactly when the symbol
-- resolves to nothing; otherwise its level at a depth from one to the smaller of the two limits holds,
-- in ascending order, exactly the names whose shortest chain of calls to, or from, one of the symbol's
-- targets has that length, and no other depth has a level.
pub bfs_query-Answers :
    (index : Index) (most : ℕ) (symbol : Text) (depth : ℕ) (ambiguous static_only callers : Bool)
    → Answers index most symbol depth ambiguous static_only callers
        (bfs_query index most symbol depth ambiguous static_only callers)
bfs_query-Answers index most symbol depth ambiguous static_only callers =
    elim (List-cases (resolve_targets index symbol)) [
      | inl e ↦
          subst (Answers index most symbol depth ambiguous static_only callers)
            (sym (bfs_query-none index most symbol depth ambiguous static_only callers e)) e
      | inr (t, ts, e) ↦
          subst (Answers index most symbol depth ambiguous static_only callers)
            (sym (bfs_query-some index most symbol depth ambiguous static_only callers t ts e))
            (
              λ none_there. cc,
              search-AtDistances index callers ambiguous static_only (resolve_targets index symbol)
                  (min depth most),
            )
    ]
