-- ===== src/Mcp/Flow/Paths.antt =====
-- The rounds of `bidir_bfs` (remy-cc/src/mcp/graph.rs).
use remy_cc.Prelude.{
  ℕ, zero, suc, ◌+◌, ◌≡◌, refl, sym, subst, inl, inr, true, false, List, [], ◌∷◌, Memᴰ, length,
  Bool-cases, ◌==◌, ==_iff, ltb, ◌&&◌,
}
use mathlib.Core.List.Memᴰ
use remy_cc.Mcp.Flow.{
  Link, ParentMap, root, contains_key, adj_fwd, adj_bwd, Flow, no_path, reconstruct_path, is_empty,
  Scan, scan_front, met, scanned, bidir_from, bidir_bfs,
}
use remy_cc.Mcp.Flow.Forest.{IsForest, Keeps, Scan-cases, front-Keeps, contains_key-head}
use remy_cc.Mcp.Flow.Trail.{
  Forward, Backward, Finds, adj_fwd-ComesFrom, adj_bwd-ComesFrom, reconstruct_path-Finds,
}

module _ (links : List Link) (max_visited src tgt : ℕ) where
  -- The maps lead back to the two ends, and the fronts are in them.
  record Searching (fwd bwd : ParentMap) (front_f front_b : List ℕ) : Type 0 where
    from_src : IsForest (Forward links) src fwd
    from_tgt : IsForest (Backward links) tgt bwd
    in_fwd : (n : ℕ) → Memᴰ n front_f → contains_key fwd n ≡ true
    in_bwd : (n : ℕ) → Memᴰ n front_b → contains_key bwd n ≡ true

  module _ (rounds : ℕ) (fwd bwd : ParentMap) (front_f front_b : List ℕ) where
    abbrev here : Flow
    here = bidir_from links max_visited (suc rounds) fwd bwd front_f front_b

    abbrev ahead : Scan
    ahead = scan_front (adj_fwd links) front_f bwd fwd []

    bidir_from-limit : ltb max_visited (length fwd + length bwd) ≡ true → here ≡ no_path
    unfolding bidir_from
    bidir_from-limit t = rw (t, bidir_from) refl

    -- Below the limit, and with a front that is not empty.
    IsOpen : Type 0
    IsOpen =
        (ltb max_visited (length fwd + length bwd) ≡ false)
        × ((is_empty front_f && is_empty front_b) ≡ false)

    bidir_from-empty :
        ltb max_visited (length fwd + length bwd) ≡ false
        → (is_empty front_f && is_empty front_b) ≡ true
        → here ≡ no_path
    unfolding bidir_from
    bidir_from-empty f t = rw (f, t, bidir_from) refl

    bidir_from-met :
        {t : ℕ} {m : ParentMap} → IsOpen → ahead ≡ met t m → here ≡ reconstruct_path links t m bwd
    unfolding bidir_from IsOpen
    bidir_from-met (f, g) e = rw (f, g, e, bidir_from) refl

    bidir_from-met_back :
        {t : ℕ} {m back : ParentMap} {next : List ℕ}
        → IsOpen
        → ahead ≡ scanned m next
        → scan_front (adj_bwd links) front_b m bwd [] ≡ met t back
        → here ≡ reconstruct_path links t m back
    unfolding bidir_from IsOpen
    bidir_from-met_back (f, g) e h = rw (f, g, e, bidir_from) (rw h refl)

    bidir_from-next :
        {m back : ParentMap} {next next_b : List ℕ}
        → IsOpen
        → ahead ≡ scanned m next
        → scan_front (adj_bwd links) front_b m bwd [] ≡ scanned back next_b
        → here ≡ bidir_from links max_visited rounds m back next next_b
    unfolding bidir_from IsOpen
    bidir_from-next (f, g) e h = rw (f, g, e, bidir_from) (rw h refl)

  bidir_from-Finds :
      (rounds : ℕ) (fwd bwd : ParentMap) (front_f front_b : List ℕ)
      → Searching fwd bwd front_f front_b
      → Finds links src tgt (bidir_from links max_visited rounds fwd bwd front_f front_b)
  unfolding bidir_from IsOpen
  bidir_from-Finds zero fwd bwd front_f front_b s = tt
  bidir_from-Finds (suc rounds) fwd bwd front_f front_b s =
      elim (Bool-cases (ltb max_visited (length fwd + length bwd))) [
        | inl t ↦ found (bidir_from-limit rounds fwd bwd front_f front_b t) tt
        | inr f ↦ elim (Bool-cases (is_empty front_f && is_empty front_b)) [
          | inl t ↦ found (bidir_from-empty rounds fwd bwd front_f front_b f t) tt
          | inr g ↦ elim (Scan-cases (scan_front (adj_fwd links) front_f bwd fwd [])) [
            | inl (t, m, e) ↦
                let (forest, has, other) = subst (Keeps (Forward links) src bwd fwd) e keeps in
                found (bidir_from-met rounds fwd bwd front_f front_b (f, g) e)
                  (reconstruct_path-Finds links src tgt t m bwd forest s.from_tgt has other)
            | inr (m, next, e) ↦
                let grown = subst (Keeps (Forward links) src bwd fwd) e keeps in
                let back =
                  front-Keeps (Backward links) tgt (adj_bwd links) (adj_bwd-ComesFrom links) front_b
                    m bwd s.from_tgt s.in_bwd in
                elim (Scan-cases (scan_front (adj_bwd links) front_b m bwd [])) [
                  | inl (t, b, h) ↦
                      let (forest, has, other) = subst (Keeps (Backward links) tgt m bwd) h back in
                      found (bidir_from-met_back rounds fwd bwd front_f front_b (f, g) e h)
                        (reconstruct_path-Finds links src tgt t m b grown.forest forest other has)
                  | inr (b, next_b, h) ↦
                      let grown_b = subst (Keeps (Backward links) tgt m bwd) h back in
                      found (bidir_from-next rounds fwd bwd front_f front_b (f, g) e h) (
                        bidir_from-Finds rounds m b next next_b (record {
                          from_src = grown.forest;
                          from_tgt = grown_b.forest;
                          in_fwd = grown.front;
                          in_bwd = grown_b.front;
                        }))
                ]
          ]
        ]
      ]
    where
      found : {x y : Flow} → x ≡ y → Finds links src tgt y → Finds links src tgt x
      found e f = subst (Finds links src tgt) (sym e) f

      keeps : Keeps (Forward links) src bwd fwd (scan_front (adj_fwd links) front_f bwd fwd [])
      keeps =
          front-Keeps (Forward links) src (adj_fwd links) (adj_fwd-ComesFrom links) front_f bwd fwd
            s.from_src s.in_fwd

  -- The search never asks a parent map for a node that it does not have, nor walks back for ever: it
  -- returns no path, or a path from the source to the target whose every step is a link of the graph
  -- with the provenance that the step shows.
  pub bidir_bfs-Finds :
      (max_depth : ℕ) → Finds links src tgt (bidir_bfs links max_visited src tgt max_depth)
  unfolding bidir_bfs
  bidir_bfs-Finds max_depth = elim (Bool-cases (src == tgt)) [
    | inl t ↦ rw (t, bidir_bfs) ([], refl, (==_iff src tgt).0 t)
    | inr f ↦
        rw (f, bidir_bfs)
          (bidir_from-Finds max_depth (root src ∷ []) (root tgt ∷ []) (src ∷ []) (tgt ∷ [])
            (record {
              from_src = refl;
              from_tgt = refl;
              in_fwd = λ n i.
                  subst (λ z. contains_key (root src ∷ []) z ≡ true) (sym (Memᴰ.eq_of_singleton i))
                    (contains_key-head (Forward links) src (root src) []);
              in_bwd = λ n i.
                  subst (λ z. contains_key (root tgt ∷ []) z ≡ true) (sym (Memᴰ.eq_of_singleton i))
                    (contains_key-head (Backward links) tgt (root tgt) []);
            }))
  ]
