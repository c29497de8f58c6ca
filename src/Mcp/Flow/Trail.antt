-- ===== src/Mcp/Flow/Trail.antt =====
-- Paths of links, and the path that `reconstruct_path` (remy-cc/src/mcp/graph.rs) puts together.
use remy_cc.Prelude.{
  ℕ, ◌≡◌, refl, sym, ◌∙◌, ap, subst, inl, inr, true, Option, some, List, [], ◌∷◌, Memᴰ, length,
  Text, Bool-cases, ◌==◌, ==_iff, ==_refl, mem-collect, mem-find_if, find_if-some,
}
use remy_cc.Mcp.Flow.{
  Link, Parent, ParentMap, root, parent_of, contains_key, forward, backward, adj_fwd, adj_bwd,
  PathStep, step_of, reverse_onto, edge_to, follow, ancestors, Flow, no_path, panicked, path,
  reconstruct_path,
}
use remy_cc.Mcp.Flow.Forest.{IsForest, IsAncestry, ComesFrom, ancestors-IsAncestry}

module _ (links : List Link) where
  -- The step is a link of the graph at `a`, with the link's provenance.
  abbrev pub IsStep : ℕ → PathStep → Type 0
  IsStep a s =
      Memᴰ (record { source = a; target = s.node; provenance = s.provenance; via = s.via }) links

  abbrev pub IsTrail : ℕ → List PathStep → ℕ → Type 0
  IsTrail a [] b = a ≡ b
  IsTrail a (s ∷ ss) b = IsStep a s × IsTrail s.node ss b

  -- A path starts with the bare source, and every further step is a link from the step before it.
  abbrev pub IsPath : ℕ → ℕ → List PathStep → Type 0
  IsPath src tgt steps =
      (rest : List PathStep) × (steps ≡ step_of (root src) ∷ rest) × IsTrail src rest tgt

  -- An entry of the search from the source, and of the search from the target.
  abbrev pub Forward : ℕ → Parent → Type 0
  Forward q p = IsStep q (step_of p)

  abbrev pub Backward : ℕ → Parent → Type 0
  Backward q p =
      Memᴰ (record { source = p.node; target = q; provenance = p.provenance; via = p.via }) links

  pub adj_fwd-ComesFrom : (n : ℕ) → ComesFrom Forward n n (adj_fwd links n)
  unfolding adj_fwd forward
  adj_fwd-ComesFrom n p m =
      let made : ℕ → Option Text → Option Text → Parent = λ node provenance via. record {
        node = node;
        parent = some n;
        provenance = provenance;
        via = via;
      } in
      let (l, i, h) = (mem-collect (forward n) links p).0 m in
      elim (Bool-cases (l.source == n)) [
        | inl t ↦
            let e : l.source ≡ n = (==_iff l.source n).0 t in
            let same : made l.target l.provenance l.via ≡ p = cc (rw t at h) in
            subst (λ z. (z.parent ≡ some n) × Forward n z) same
              (
                refl,
                subst
                    (λ z.
                      Memᴰ
                        (record {
                          source = z;
                          target = l.target;
                          provenance = l.provenance;
                          via = l.via;
                        })
                        links)
                    e i,
              )
        | inr f ↦ cc (rw f at h)
      ]

  pub adj_bwd-ComesFrom : (n : ℕ) → ComesFrom Backward n n (adj_bwd links n)
  unfolding adj_bwd backward
  adj_bwd-ComesFrom n p m =
      let made : ℕ → Option Text → Option Text → Parent = λ node provenance via. record {
        node = node;
        parent = some n;
        provenance = provenance;
        via = via;
      } in
      let (l, i, h) = (mem-collect (backward n) links p).0 m in
      elim (Bool-cases (l.target == n)) [
        | inl t ↦
            let e : l.target ≡ n = (==_iff l.target n).0 t in
            let same : made l.source l.provenance l.via ≡ p = cc (rw t at h) in
            subst (λ z. (z.parent ≡ some n) × Backward n z) same
              (
                refl,
                subst
                    (λ z.
                      Memᴰ
                        (record {
                          source = l.source;
                          target = z;
                          provenance = l.provenance;
                          via = l.via;
                        })
                        links)
                    e i,
              )
        | inr f ↦ cc (rw f at h)
      ]

  -- Back from the root, and then a trail.
  reverse_onto-IsPath :
      (src n b : ℕ) (ps : List Parent) (acc : List PathStep)
      → IsAncestry Forward src n ps
      → IsTrail n acc b
      → IsPath src b (reverse_onto acc ps)
  unfolding reverse_onto
  reverse_onto-IsPath src n b [] acc a trail = absurd a
  reverse_onto-IsPath src n b (p ∷ []) acc (e, top) trail =
      let at : n ≡ src = e ∙ ap (λ z. z.node) top in
      (acc, ap (λ z. step_of z ∷ acc) top, subst (λ z. IsTrail z acc b) at trail)
  reverse_onto-IsPath src n b (p ∷ r ∷ ps) acc (e, (q, parent, entry, older)) trail =
      reverse_onto-IsPath src q b (r ∷ ps) (step_of p ∷ acc) older
        (entry, subst (λ z. IsTrail z acc b) e trail)

  adj_fwd-has :
      (l : Link)
      → Memᴰ l links
      → (p : Parent) × Memᴰ p (adj_fwd links l.source) × (p.node ≡ l.target)
  unfolding adj_fwd forward
  adj_fwd-has l i =
      let p : Parent = record {
        node = l.target;
        parent = some l.source;
        provenance = l.provenance;
        via = l.via;
      } in
      (p, (mem-collect (forward l.source) links p).1 (l, i, rw (==_refl l.source) refl), refl)

  edge_to-some :
      (ps : List Parent) (n : ℕ) (p : Parent)
      → parent_of ps n ≡ some p
      → edge_to ps n ≡ record { node = n; provenance = p.provenance; via = p.via }
  unfolding edge_to
  edge_to-some ps n p e = rw (e, edge_to) refl

  -- The first link that `follow` finds between two nodes is one of theirs.
  edge_to-IsStep :
      (l : Link)
      → Memᴰ l links
      → IsStep l.source (edge_to (adj_fwd links l.source) l.target)
        × ((edge_to (adj_fwd links l.source) l.target).node ≡ l.target)
  unfolding parent_of
  edge_to-IsStep l i =
      let at = λ (r : Parent). r.node == l.target in
      let (p, k, e) = adj_fwd-has l i in
      let (b, found) = find_if-some at (adj_fwd links l.source) k ((==_iff p.node l.target).1 e) in
      let (k', t) = mem-find_if at (adj_fwd links l.source) found in
      let (parent, step) = adj_fwd-ComesFrom l.source b k' in
      subst (λ s. IsStep l.source s × (s.node ≡ l.target))
        (sym (edge_to-some (adj_fwd links l.source) l.target b found))
        (
          subst (λ z. IsStep l.source (record { node = z; provenance = b.provenance; via = b.via }))
              ((==_iff b.node l.target).0 t) step,
          refl,
        )

  IsAncestry-node :
      (tgt n : ℕ) (p : Parent) (ps : List Parent) → IsAncestry Backward tgt n (p ∷ ps) → n ≡ p.node
  IsAncestry-node tgt n p [] (e, top) = e
  IsAncestry-node tgt n p (r ∷ ps) (e, rest) = e

  follow-IsTrail :
      (tgt n : ℕ) (p : Parent) (ps : List Parent)
      → IsAncestry Backward tgt n (p ∷ ps)
      → IsTrail n (follow links n ps) tgt
  unfolding follow
  follow-IsTrail tgt n p [] (e, top) = e ∙ ap (λ z. z.node) top
  follow-IsTrail tgt n p (r ∷ ps) (e, (q, parent, entry, older)) =
      let same : q ≡ r.node = IsAncestry-node tgt q r ps older in
      let (step, at) = edge_to-IsStep _ entry in
      let trail =
        subst (λ z. IsTrail z (follow links z ps) tgt) same (follow-IsTrail tgt q r ps older) in
      let step' = subst (λ z. IsStep z (edge_to (adj_fwd links z) q)) (sym e) step in
      let at' = subst (λ z. (edge_to (adj_fwd links z) q).node ≡ q) (sym e) at in
      subst
        (λ z.
          IsStep n (edge_to (adj_fwd links n) z)
          × IsTrail (edge_to (adj_fwd links n) z).node (follow links r.node ps) tgt)
        same (step', subst (λ z. IsTrail z (follow links r.node ps) tgt) (sym (at' ∙ same)) trail)

  -- What the search returns: a path of links, or none.
  abbrev pub Finds : ℕ → ℕ → Flow → Type 0
  Finds src tgt no_path = Unit
  Finds src tgt panicked = ⊥
  Finds src tgt (path steps) = IsPath src tgt steps

  module _ (src tgt meet : ℕ) (fwd bwd : ParentMap) where
    joined_halves :
        (fs bs : List Parent)
        → ancestors (length fwd) fwd (some meet) ≡ some fs
        → ancestors (length bwd) bwd (some meet) ≡ some bs
        → IsAncestry Forward src meet fs
        → IsAncestry Backward tgt meet bs
        → Finds src tgt (reconstruct_path links meet fwd bwd)
    unfolding reconstruct_path
    joined_halves fs [] found_f found_b back_f back_b = absurd back_b
    joined_halves fs (p ∷ ps) found_f found_b back_f back_b =
        rw (found_f, found_b, reconstruct_path)
          (reverse_onto-IsPath src meet tgt fs (follow links meet ps) back_f
            (follow-IsTrail tgt meet p ps back_b))

    pub reconstruct_path-Finds :
        IsForest Forward src fwd
        → IsForest Backward tgt bwd
        → contains_key fwd meet ≡ true
        → contains_key bwd meet ≡ true
        → Finds src tgt (reconstruct_path links meet fwd bwd)
    reconstruct_path-Finds from_src from_tgt in_fwd in_bwd =
        let (fs, found_f, back_f) = ancestors-IsAncestry Forward src fwd meet from_src in_fwd in
        let (bs, found_b, back_b) = ancestors-IsAncestry Backward tgt bwd meet from_tgt in_bwd in
        joined_halves fs bs found_f found_b back_f back_b
