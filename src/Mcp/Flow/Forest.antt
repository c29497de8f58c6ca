-- ===== src/Mcp/Flow/Forest.antt =====
-- The parent maps of the search (remy-cc/src/mcp/graph.rs, `bidir_bfs`): every entry but the root's
-- comes from a link at an older entry, so the way back to the root ends.
use mathlib.Core.Option
use remy_cc.Prelude.{
  ℕ, zero, suc, ◌≤◌, ◌≡◌, refl, sym, ◌∙◌, ap, subst, ◌⊎◌, inl, inr, true, false, none, some, List,
  [], ◌∷◌, Memᴰ, arith, length, any_if, find_if, Bool-cases, ◌==◌, ==_iff, ==_refl,
}
use mathlib.Core.List.Memᴰ
use remy_cc.Mcp.Flow.{
  Parent, ParentMap, root, contains_key, parent_of, Scan, met, scanned, insert_new, push_new,
  scan_node, scan_front, ancestors,
}

pub Scan-cases :
    (s : Scan)
    → ((t : ℕ) × (m : ParentMap) × (s ≡ met t m))
      ⊎ ((m : ParentMap) × (found : List ℕ) × (s ≡ scanned m found))
Scan-cases (met t m) = inl (t, m, refl)
Scan-cases (scanned m found) = inr (m, found, refl)

module _ (Entry : ℕ → Parent → Type 0) (start : ℕ) where
  -- `Entry n p` is that the entry `p` comes from a link at `n`.
  abbrev pub IsForest : ParentMap → Type 0
  IsForest [] = ⊥
  IsForest (p ∷ []) = p ≡ root start
  IsForest (p ∷ r ∷ m) =
      (q : ℕ) × (p.parent ≡ some q)
      × Entry q p
      × (contains_key (r ∷ m) q ≡ true)
      × (contains_key (r ∷ m) p.node ≡ false)
      × IsForest (r ∷ m)

  -- The entries from a node back to the root.
  abbrev pub IsAncestry : ℕ → List Parent → Type 0
  IsAncestry n [] = ⊥
  IsAncestry n (p ∷ []) = (n ≡ p.node) × (p ≡ root start)
  IsAncestry n (p ∷ r ∷ ps) =
      (n ≡ p.node) × ((q : ℕ) × (p.parent ≡ some q) × Entry q p × IsAncestry q (r ∷ ps))

  contains_key-cons :
      (p : Parent) (m : ParentMap) (n : ℕ)
      → contains_key (p ∷ m) n ≡ true
      → (p.node ≡ n) ⊎ (contains_key m n ≡ true)
  unfolding contains_key any_if
  contains_key-cons p m n h = elim (Bool-cases (p.node == n)) [
    | inl t ↦ inl ((==_iff p.node n).0 t)
    | inr f ↦ inr (rw f at h)
  ]

  -- A lookup that skips the newest entry.
  parent_of-cons :
      (p : Parent) (m : ParentMap) (n : ℕ)
      → contains_key m p.node ≡ false
      → contains_key m n ≡ true
      → parent_of (p ∷ m) n ≡ parent_of m n
  unfolding parent_of find_if
  parent_of-cons p m n new old = elim (Bool-cases (p.node == n)) [
    | inl t ↦ cc ((==_iff p.node n).0 t)
    | inr f ↦ rw f refl
  ]

  parent_of-head : (p : Parent) (m : ParentMap) (n : ℕ) → p.node ≡ n → parent_of (p ∷ m) n ≡ some p
  unfolding parent_of find_if
  parent_of-head p m n e = rw ((==_iff p.node n).1 e) refl

  ancestors-suc :
      (fuel : ℕ) (m : ParentMap) (n : ℕ) (p : Parent)
      → parent_of m n ≡ some p
      → ancestors (suc fuel) m (some n) ≡ Option.map (λ ps. p ∷ ps) (ancestors fuel m p.parent)
  unfolding ancestors
  ancestors-suc fuel m n p e = rw (e, ancestors) refl

  IsAncestry-cons :
      (n : ℕ) (p : Parent) (q : ℕ) (ps : List Parent)
      → n ≡ p.node
      → p.parent ≡ some q
      → Entry q p
      → IsAncestry q ps
      → IsAncestry n (p ∷ ps)
  IsAncestry-cons n p q [] e i v a = absurd a
  IsAncestry-cons n p q (r ∷ ps) e i v a = (e, (q, i, v, a))

  pub contains_key-head : (p : Parent) (m : ParentMap) → contains_key (p ∷ m) p.node ≡ true
  unfolding contains_key any_if
  contains_key-head p m = rw (==_refl p.node) refl

  contains_key-tail :
      (p : Parent) (m : ParentMap) (n : ℕ) → contains_key m n ≡ true → contains_key (p ∷ m) n ≡ true
  unfolding contains_key any_if
  contains_key-tail p m n h = elim (Bool-cases (p.node == n)) [ inl t ↦ rw t refl | inr f ↦ rw f h ]

  contains_key-nil : (n : ℕ) → contains_key [] n ≡ false
  unfolding contains_key any_if
  contains_key-nil n = refl

  ancestors-none : (fuel : ℕ) (m : ParentMap) → ancestors fuel m none ≡ some []
  unfolding ancestors
  ancestors-none fuel m = refl

  -- `m` is the part of the map that was there when its newest entry came.
  ancestors_of_part :
      (whole m : ParentMap)
      → ((n : ℕ) → contains_key m n ≡ true → parent_of whole n ≡ parent_of m n)
      → IsForest m
      → (fuel n : ℕ) → length m ≤ fuel
      → contains_key m n ≡ true
      → (ps : List Parent) × (ancestors fuel whole (some n) ≡ some ps) × IsAncestry n ps
  ancestors_of_part whole [] agrees forest fuel n enough has = absurd forest
  ancestors_of_part whole (p ∷ m) agrees forest zero n enough has = absurd (omega (arith, enough))
  ancestors_of_part whole (p ∷ []) agrees forest (suc fuel) n enough has =
      elim (contains_key-cons p [] n has) [
        | inl e ↦
            let found = agrees n has ∙ parent_of-head p [] n e in
            let top : p.parent ≡ none = ap (λ x. x.parent) forest in
            (
              p ∷ [],
              ancestors-suc fuel whole n p found
                  ∙ ap (λ o. Option.map (λ ps. p ∷ ps) (ancestors fuel whole o)) top
                  ∙ ap (Option.map (λ ps. p ∷ ps)) (ancestors-none fuel whole),
              (sym e, forest),
            )
        | inr h ↦ cc (contains_key-nil n)
      ]
  ancestors_of_part whole (p ∷ r ∷ m) agrees forest (suc fuel) n enough has =
      let (q, parent, entry, has_q, new, older) = forest in
      let agrees' = λ (k : ℕ) (h : contains_key (r ∷ m) k ≡ true).
        agrees k (contains_key-tail p (r ∷ m) k h) ∙ parent_of-cons p (r ∷ m) k new h in
      elim (contains_key-cons p (r ∷ m) n has) [
        | inl e ↦
            let (ps, found, ancestry) =
              ancestors_of_part whole (r ∷ m) agrees' older fuel q (omega (arith, enough)) has_q in
            (
              p ∷ ps,
              ancestors-suc fuel whole n p (agrees n has ∙ parent_of-head p (r ∷ m) n e)
                  ∙ ap (λ o. Option.map (λ ps. p ∷ ps) (ancestors fuel whole o)) parent
                  ∙ ap (Option.map (λ ps. p ∷ ps)) found,
              IsAncestry-cons n p q ps (sym e) parent entry ancestry,
            )
        | inr h ↦
            ancestors_of_part whole (r ∷ m) agrees' older (suc fuel) n (omega (arith, enough)) h
      ]

  pub ancestors-IsAncestry :
      (m : ParentMap) (n : ℕ)
      → IsForest m
      → contains_key m n ≡ true
      → (ps : List Parent) × (ancestors (length m) m (some n) ≡ some ps) × IsAncestry n ps
  ancestors-IsAncestry m n forest has =
      ancestors_of_part m m (λ k h. refl) forest (length m) n (omega arith) has

  -- The part of a scan that keeps the map a forest and the front in it.
  pub record Grown (mine mine' : ParentMap) (next : List ℕ) : Type 0 where
    pub forest : IsForest mine'
    pub kept : (n : ℕ) → contains_key mine n ≡ true → contains_key mine' n ≡ true
    pub front : (n : ℕ) → Memᴰ n next → contains_key mine' n ≡ true

  -- What a scan leaves.
  abbrev pub Keeps : ParentMap → ParentMap → Scan → Type 0
  Keeps other mine (met t mine') =
      IsForest mine' × (contains_key mine' t ≡ true) × (contains_key other t ≡ true)
  Keeps other mine (scanned mine' next) = Grown mine mine' next

  insert_new-Grown :
      (p : Parent) (q : ℕ) (base mine : ParentMap) (next : List ℕ)
      → Entry q p
      → p.parent ≡ some q
      → contains_key base q ≡ true
      → Grown base mine next
      → Grown base (insert_new p mine) (push_new p mine next)
        × (contains_key (insert_new p mine) p.node ≡ true)
  unfolding insert_new push_new
  insert_new-Grown p q base [] next entry parent has grown = absurd grown.forest
  insert_new-Grown p q base (r ∷ m) next entry parent has grown =
      elim (Bool-cases (contains_key (r ∷ m) p.node)) [
        | inl t ↦ rw (t, insert_new, push_new) (grown, t)
        | inr f ↦
            rw (f, insert_new, push_new)
              (
                record {
                  forest = (q, parent, entry, grown.kept q has, f, grown.forest);
                  kept = λ n h. contains_key-tail p (r ∷ m) n (grown.kept n h);
                  front = λ n i. elim (Memᴰ.append_cases next i) [
                    | inl old ↦ contains_key-tail p (r ∷ m) n (grown.front n old)
                    | inr new ↦
                        subst (λ z. contains_key (p ∷ r ∷ m) z ≡ true)
                          (sym (Memᴰ.eq_of_singleton new)) (contains_key-head p (r ∷ m))
                  ];
                },
                contains_key-head p (r ∷ m),
              )
      ]

  -- The entries at a node come from links at it.
  abbrev pub ComesFrom : ℕ → List Parent → Type 0
  ComesFrom q ps = (p : Parent) → Memᴰ p ps → (p.parent ≡ some q) × Entry q p

  scan_node-met :
      (p : Parent) (ps : List Parent) (other mine : ParentMap) (next : List ℕ)
      → contains_key other p.node ≡ true
      → scan_node (p ∷ ps) other mine next ≡ met p.node (insert_new p mine)
  unfolding scan_node
  scan_node-met p ps other mine next t = rw (t, scan_node) refl

  scan_node-on :
      (p : Parent) (ps : List Parent) (other mine : ParentMap) (next : List ℕ)
      → contains_key other p.node ≡ false
      → scan_node (p ∷ ps) other mine next
        ≡ scan_node ps other (insert_new p mine) (push_new p mine next)
  unfolding scan_node
  scan_node-on p ps other mine next f = rw (f, scan_node) refl

  scan_node-Keeps :
      (q : ℕ) (ps : List Parent) (other base mine : ParentMap) (next : List ℕ)
      → ComesFrom q ps
      → contains_key base q ≡ true
      → Grown base mine next
      → Keeps other base (scan_node ps other mine next)
  unfolding scan_node
  scan_node-Keeps q [] other base mine next from has grown = grown
  scan_node-Keeps q (p ∷ ps) other base mine next from has grown =
      let (parent, entry) = from p (Memᴰ.head refl) in
      let (grown', new) = insert_new-Grown p q base mine next entry parent has grown in
      elim (Bool-cases (contains_key other p.node)) [
        | inl t ↦
            subst (Keeps other base) (sym (scan_node-met p ps other mine next t))
              (grown'.forest, new, t)
        | inr f ↦ subst (Keeps other base) (sym (scan_node-on p ps other mine next f)) (
            scan_node-Keeps q ps other base (insert_new p mine) (push_new p mine next)
              (λ r i. from r (Memᴰ.tail i)) has grown')
      ]

  module _ (adjacent : ℕ → List Parent) (from : (n : ℕ) → ComesFrom n (adjacent n)) where
    scan_front-met :
        (n : ℕ) (front : List ℕ) (other mine : ParentMap) (next : List ℕ) {t : ℕ} {m : ParentMap}
        → scan_node (adjacent n) other mine next ≡ met t m
        → scan_front adjacent (n ∷ front) other mine next ≡ met t m
    unfolding scan_front
    scan_front-met n front other mine next e = rw (e, scan_front) refl

    scan_front-on :
        (n : ℕ) (front : List ℕ) (other mine : ParentMap) (next : List ℕ) {m : ParentMap}
        {found : List ℕ}
        → scan_node (adjacent n) other mine next ≡ scanned m found
        → scan_front adjacent (n ∷ front) other mine next ≡ scan_front adjacent front other m found
    unfolding scan_front
    scan_front-on n front other mine next e = rw (e, scan_front) refl

    scan_front-Keeps :
        (front : List ℕ) (other base mine : ParentMap) (next : List ℕ)
        → ((n : ℕ) → Memᴰ n front → contains_key base n ≡ true)
        → Grown base mine next
        → Keeps other base (scan_front adjacent front other mine next)
    unfolding scan_front
    scan_front-Keeps [] other base mine next in_base grown = grown
    scan_front-Keeps (n ∷ front) other base mine next in_base grown =
        let keeps =
          scan_node-Keeps n (adjacent n) other base mine next (from n) (in_base n (Memᴰ.head refl))
            grown in
        elim (Scan-cases (scan_node (adjacent n) other mine next)) [
          | inl (t, m, e) ↦
              subst (Keeps other base) (sym (scan_front-met n front other mine next e))
                (subst (Keeps other base) e keeps)
          | inr (m, found, e) ↦
              subst (Keeps other base) (sym (scan_front-on n front other mine next e)) (
                scan_front-Keeps front other base m found (λ k i. in_base k (Memᴰ.tail i))
                  (subst (Keeps other base) e keeps))
        ]

    -- A scan of a whole front.
    pub front-Keeps :
        (front : List ℕ) (other mine : ParentMap)
        → IsForest mine
        → ((n : ℕ) → Memᴰ n front → contains_key mine n ≡ true)
        → Keeps other mine (scan_front adjacent front other mine [])
    front-Keeps front other mine forest in_mine =
        scan_front-Keeps front other mine mine [] in_mine
          (record { forest = forest; kept = λ n h. h; front = λ n i. absurd (Memᴰ.not-nil i) })
