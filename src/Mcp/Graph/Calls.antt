-- ===== src/Mcp/Graph/Calls.antt =====
-- What the queries of remy-cc/src/mcp/graph.rs find: the calls of the edge table.
use remy_cc.Prelude.{
  ◌≡◌, refl, ap, ◌∙◌, subst, sym, ◌↔◌, ◌⊎◌, inl, inr, Bool, true, ◌&&◌, Option, none, some, List,
  ◌++◌, Text, Memᴰ, collect, join, mem-collect, mem-join, mem_text, mem_text_iff, mem-select_if,
  Bool-cases, Option-cases, ==_iff, ◌==◌, if◌then◌else◌,
}
use mathlib.Core.List.Memᴰ
use remy_cc.Mcp.Index.{EdgeRow, Candidate, Index, source_of}
use remy_cc.Mcp.Graph.{
  in_provenance, caller_of, callee_of, candidates_of, candidate_caller, candidate_callee,
  query_callers, query_callees, query_callers_ambiguous, query_callees_ambiguous,
}

module _ (index : Index) (static_only : Bool) where
  -- A row of `edges` that the search may follow, from the caller to the callee it was resolved to.
  pub record Calls (caller callee : Text) : Type 0 where
    pub edge : EdgeRow
    pub in_table : Memᴰ edge index.edges
    pub source : source_of edge ≡ caller
    pub resolved : edge.callee_qualified ≡ some callee
    pub followed : in_provenance static_only edge ≡ true

  -- The same with a candidate of the edge.
  pub record MayCall (caller callee : Text) : Type 0 where
    pub edge : EdgeRow
    pub candidate : Candidate
    pub in_table : Memᴰ edge index.edges
    pub in_candidates : Memᴰ candidate index.edge_candidates
    pub joined : candidate.edge_id ≡ edge.id
    pub source : source_of edge ≡ caller
    pub named : candidate.candidate_qualified ≡ callee
    pub followed : in_provenance static_only edge ≡ true

-- What the rows of a query are for a chunk of texts.
abbrev pub Finds : (List Text → List Text) → (Text → Text → Type 0) → Type 0
Finds query Step =
    (chunk : List Text) (v : Text) → Memᴰ v (query chunk) ↔ ((u : Text) × Memᴰ u chunk × Step u v)

-- The condition of a query's row: a text of the chunk, and the provenance.
picked-some :
    (t : Text) (chunk : List Text) (b : Bool) (o : Option Text) (v : Text)
    → ((if mem_text t chunk && b then o else none) ≡ some v)
      ↔ (Memᴰ t chunk × (o ≡ some v) × (b ≡ true))
picked-some t chunk b o v = elim (Bool-cases (mem_text t chunk)) [
  | inl m ↦ elim (Bool-cases b) [
    | inl e ↦ rw (m, e) (λ h. ((mem_text_iff t chunk).0 m, h, refl), λ (k, h, r). h)
    | inr f ↦ rw (m, f) (λ h. cc h, λ (k, h, r). cc r)
  ]
  | inr f ↦ rw f (λ h. cc h, λ (k, h, r). cc ((mem_text_iff t chunk).1 k))
]

caller_of-some :
    (static_only : Bool) (chunk : List Text) (e : EdgeRow) (v : Text)
    → (caller_of static_only chunk e ≡ some v) ↔ (
        (u : Text) × Memᴰ u chunk
        × (e.callee_qualified ≡ some u)
        × (source_of e ≡ v)
        × (in_provenance static_only e ≡ true))
unfolding caller_of
caller_of-some static_only chunk e v = elim (Option-cases e.callee_qualified) [
  | inl n ↦ rw (n, caller_of) (λ h. cc h, λ (u, m, r, s, f). cc r)
  | inr (q, n) ↦
      let (to, from) = picked-some q chunk (in_provenance static_only e) (some (source_of e)) v in
      (
        λ h. let (m, s, f) = to (rw (n, caller_of) at h) in (q, m, n, cc, f),
        λ (u, m, r, s, f).
            rw (n, caller_of) (from (subst (λ z. Memᴰ z chunk) (cc (sym r ∙ n)) m, ap some s, f)),
      )
]

module _ (index : Index) (static_only : Bool) where
  pub query_callers-Finds :
      Finds
        (query_callers index static_only)
        (λ callee caller. Calls index static_only caller callee)
  unfolding query_callers caller_of
  query_callers-Finds chunk v =
      let (to, from) = mem-collect (caller_of static_only chunk) index.edges v in
      (
        λ m.
            let (e, in_table, h) = to m in
            let (u, k, r, s, f) = (caller_of-some static_only chunk e v).0 h in
            (
              u,
              k,
              record { edge = e; in_table = in_table; source = s; resolved = r; followed = f },
            ),
        λ (u, m, calls). from (
          calls.edge,
          calls.in_table,
          (caller_of-some static_only chunk calls.edge v).1
              (u, m, calls.resolved, calls.source, calls.followed),
        ),
      )

  pub query_callees-Finds : Finds (query_callees index static_only) (Calls index static_only)
  unfolding query_callees callee_of
  query_callees-Finds chunk v =
      let (to, from) = mem-collect (callee_of static_only chunk) index.edges v in
      (
        λ m.
            let (e, in_table, h) = to m in
            let (k, r, f) =
              (picked-some (source_of e) chunk (in_provenance static_only e) e.callee_qualified v).0
                h in
            (
              source_of e,
              k,
              record { edge = e; in_table = in_table; source = refl; resolved = r; followed = f },
            ),
        λ (u, m, calls).
            let e = calls.edge in
            from (
              e,
              calls.in_table,
              (picked-some (source_of e) chunk (in_provenance static_only e) e.callee_qualified v).1
                  (subst (λ z. Memᴰ z chunk) (sym calls.source) m, calls.resolved, calls.followed),
            ),
      )

  -- The rows that the join adds to a query.
  append-Finds :
      {Step More : Text → Text → Type 0} (query extra : List Text → List Text)
      → Finds query Step
      → Finds extra More
      → Finds (λ chunk. query chunk ++ extra chunk) (λ u v. Step u v ⊎ More u v)
  append-Finds query extra first second chunk v = (
    λ m. elim (Memᴰ.append_cases (query chunk) m) [
      | inl here ↦ let (u, k, s) = (first chunk v).0 here in (u, k, inl s)
      | inr there ↦ let (u, k, s) = (second chunk v).0 there in (u, k, inr s)
    ],
    λ (u, k, s). elim s [
      | inl s ↦ Memᴰ.append_left (extra chunk) ((first chunk v).1 (u, k, s))
      | inr s ↦ Memᴰ.append_right (query chunk) ((second chunk v).1 (u, k, s))
    ],
  )

  mem-candidates_of :
      (e : EdgeRow) (ec : Candidate)
      → Memᴰ ec (candidates_of index e) ↔ (Memᴰ ec index.edge_candidates × (ec.edge_id ≡ e.id))
  unfolding candidates_of
  mem-candidates_of e ec =
      let (to, from) = mem-select_if (λ c. c.edge_id == e.id) index.edge_candidates ec in
      (
        λ m. let (k, t) = to m in (k, (==_iff ec.edge_id e.id).0 t),
        λ (k, t). from (k, (==_iff ec.edge_id e.id).1 t),
      )

  -- A row of a join with the candidates.
  joined-Finds :
      (row : List Text → EdgeRow → Candidate → Option Text) (chunk : List Text) (v : Text)
      → Memᴰ v (join (λ e. collect (row chunk e) (candidates_of index e)) index.edges) ↔ (
          (e : EdgeRow) × (ec : Candidate) × Memᴰ e index.edges
          × Memᴰ ec index.edge_candidates
          × (ec.edge_id ≡ e.id)
          × (row chunk e ec ≡ some v))
  joined-Finds row chunk v =
      let (to, from) =
        mem-join (λ e. collect (row chunk e) (candidates_of index e)) index.edges v in
      (
        λ m.
            let (e, k, m') = to m in
            let (ec, c, h) = (mem-collect (row chunk e) (candidates_of index e) v).0 m' in
            let (c', j) = (mem-candidates_of e ec).0 c in (e, ec, k, c', j, h),
        λ (e, ec, k, c, j, h). from (
          e,
          k,
          (mem-collect (row chunk e) (candidates_of index e) v).1
              (ec, (mem-candidates_of e ec).1 (c, j), h),
        ),
      )

  candidate_callers-Finds :
      Finds
        (λ chunk.
          join
            (λ e. collect (candidate_caller static_only chunk e) (candidates_of index e))
            index.edges)
        (λ callee caller. MayCall index static_only caller callee)
  unfolding candidate_caller
  candidate_callers-Finds chunk v =
      let (to, from) = joined-Finds (candidate_caller static_only) chunk v in
      let picked = λ (e : EdgeRow) (ec : Candidate).
        picked-some ec.candidate_qualified chunk (in_provenance static_only e) (some (source_of e))
          v in
      (
        λ m.
            let (e, ec, k, c, j, h) = to m in
            let (u, s, f) = (picked e ec).0 h in
            (
              ec.candidate_qualified,
              u,
              record {
                edge = e;
                candidate = ec;
                in_table = k;
                in_candidates = c;
                joined = j;
                source = cc;
                named = refl;
                followed = f;
              },
            ),
        λ (u, m, may). from (
          may.edge,
          may.candidate,
          may.in_table,
          may.in_candidates,
          may.joined,
          (picked may.edge may.candidate).1
              (subst (λ z. Memᴰ z chunk) (sym may.named) m, ap some may.source, may.followed),
        ),
      )

  candidate_callees-Finds :
      Finds
        (λ chunk.
          join
            (λ e. collect (candidate_callee static_only chunk e) (candidates_of index e))
            index.edges)
        (MayCall index static_only)
  unfolding candidate_callee
  candidate_callees-Finds chunk v =
      let (to, from) = joined-Finds (candidate_callee static_only) chunk v in
      let picked = λ (e : EdgeRow) (ec : Candidate).
        picked-some (source_of e) chunk (in_provenance static_only e) (some ec.candidate_qualified)
          v in
      (
        λ m.
            let (e, ec, k, c, j, h) = to m in
            let (u, s, f) = (picked e ec).0 h in
            (
              source_of e,
              u,
              record {
                edge = e;
                candidate = ec;
                in_table = k;
                in_candidates = c;
                joined = j;
                source = refl;
                named = cc;
                followed = f;
              },
            ),
        λ (u, m, may). from (
          may.edge,
          may.candidate,
          may.in_table,
          may.in_candidates,
          may.joined,
          (picked may.edge may.candidate).1
              (subst (λ z. Memᴰ z chunk) (sym may.source) m, ap some may.named, may.followed),
        ),
      )

  -- A resolved call or a candidate of one.
  abbrev pub Ambiguous : Text → Text → Type 0
  Ambiguous caller callee =
      Calls index static_only caller callee ⊎ MayCall index static_only caller callee

  pub query_callers_ambiguous-Finds :
      Finds (query_callers_ambiguous index static_only) (λ callee caller. Ambiguous caller callee)
  unfolding query_callers_ambiguous
  query_callers_ambiguous-Finds =
      append-Finds (query_callers index static_only) _ query_callers-Finds candidate_callers-Finds

  pub query_callees_ambiguous-Finds : Finds (query_callees_ambiguous index static_only) Ambiguous
  unfolding query_callees_ambiguous
  query_callees_ambiguous-Finds =
      append-Finds (query_callees index static_only) _ query_callees-Finds candidate_callees-Finds
