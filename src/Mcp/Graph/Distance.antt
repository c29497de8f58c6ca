-- ===== src/Mcp/Graph/Distance.antt =====
-- The levels of a breadth-first search (remy-cc/src/mcp/graph.rs, `bfs`) against the distance in the
-- relation that its query finds.
use remy_cc.Prelude.{
  ℕ, zero, suc, ◌+◌, ◌-◌, ◌≤◌, ◌<◌, ◌≡◌, refl, subst, sym, ◌↔◌, ◌⊎◌, inl, inr, Bool, true, false,
  not, List, [], ◌∷◌, ◌++◌, Text, Memᴰ, arith, join, mem-join, mem_text, mem_text_iff, select_if,
  mem-select_if, mem-sorted_set, IsAscending, sorted_set-IsAscending, Bool-cases, ==_iff, ◌==◌,
  if◌then◌else◌,
}
use mathlib.Core.List.Memᴰ
use remy_cc.Mcp.Graph.{Levels, chunks, next_level, levels_from, bfs}
use remy_cc.Mcp.Graph.Chunks.{mem-chunks}
use remy_cc.Mcp.Graph.Calls.{Finds}

-- The texts at a depth; none where the search has no such level.
abbrev pub level_at : ℕ → Levels → List Text
level_at d [] = []
level_at d ((depth, vs) ∷ levels) = if depth == d then vs else level_at d levels

module _ (Step : Text → Text → Type 0) (targets : List Text) where
  -- A walk of that many steps from one of the targets.
  abbrev pub Walk : ℕ → Text → Type 0
  Walk zero v = Memᴰ v targets
  Walk (suc n) v = (u : Text) × Walk n u × Step u v

  -- The length of the shortest walk.
  abbrev pub IsDistance : ℕ → Text → Type 0
  IsDistance n v = Walk n v × ((m : ℕ) → m < n → ¬ Walk m v)

  -- What is at a distance is a step from something one nearer.
  IsDistance-before :
      (n : ℕ) (v : Text) → IsDistance (suc n) v → (u : Text) × IsDistance n u × Step u v
  IsDistance-before n v ((u, walk, step), least) =
      (u, (walk, λ m below w. least (suc m) (omega (arith, below)) (u, w, step)), step)

  -- Where a level is empty, those behind it are.
  IsDistance-none :
      (n k : ℕ) → ((v : Text) → ¬ IsDistance n v) → (v : Text) → ¬ IsDistance (n + k) v
  IsDistance-none n zero h v d = h v (subst (λ z. IsDistance z v) (omega arith) d)
  IsDistance-none n (suc k) h v d =
      let (u, du, step) =
        IsDistance-before (n + k) v (subst (λ z. IsDistance z v) (omega arith) d) in
      IsDistance-none n k h u du

  IsDistance-none_from :
      (n d : ℕ) → ((v : Text) → ¬ IsDistance n v) → n ≤ d → (v : Text) → ¬ IsDistance d v
  IsDistance-none_from n d h le v at =
      IsDistance-none n (d - n) h v (subst (λ z. IsDistance z v) (omega (arith, le)) at)

pub List-cases : (xs : List Text) → (xs ≡ []) ⊎ ((x : Text) × (rest : List Text) × (xs ≡ x ∷ rest))
List-cases [] = inl refl
List-cases (x ∷ xs) = inr (x, xs, refl)

module _ (query : List Text → List Text) (Step : Text → Text → Type 0) (finds : Finds query Step)
    (targets : List Text) where
  mem-next_level :
      (visited current : List Text) (v : Text)
      → Memᴰ v (next_level query visited current)
        ↔ ((u : Text) × (¬ Memᴰ v visited) × Memᴰ u current × Step u v)
  unfolding next_level
  mem-next_level visited current v =
      let rows = join query (chunks current) in
      let fresh = λ (row : Text). not (mem_text row visited) in
      let (chosen, choose) = mem-select_if fresh rows v in
      let (joined, to_join) = mem-join query (chunks current) v in
      let (sorted, sort) = mem-sorted_set v (select_if fresh rows) in
      (
        λ m.
            let (row, new) = chosen (sorted m) in
            let (chunk, in_chunks, found) = joined row in
            let (u, in_chunk, step) = (finds chunk v).0 found in
            (
              u,
              λ old. cc ((mem_text_iff v visited).1 old),
              (mem-chunks current u).1 (chunk, in_chunks, in_chunk),
              step,
            ),
        λ (u, new, m, step).
            let (chunk, in_chunks, in_chunk) = (mem-chunks current u).0 m in
            sort (
              choose
                (to_join (chunk, in_chunks, (finds chunk v).1 (u, in_chunk, step)), not_seen new)),
      )
    where
      not_seen :
          {v : Text} {visited : List Text} → ¬ Memᴰ v visited → not (mem_text v visited) ≡ true
      not_seen {v} {visited} new = elim (Bool-cases (mem_text v visited)) [
        | inl t ↦ absurd (new ((mem_text_iff v visited).0 t))
        | inr f ↦ rw f refl
      ]

  -- The state of the loop after the level `j`.
  record Explored (j : ℕ) (visited current : List Text) : Type 0 where
    seen : (v : Text) → Memᴰ v visited ↔ ((m : ℕ) × (m ≤ j) × Walk Step targets m v)
    newest : (v : Text) → Memᴰ v current ↔ IsDistance Step targets j v

  next_level-IsDistance :
      {j : ℕ} {visited current : List Text}
      → Explored j visited current
      → (v : Text) → Memᴰ v (next_level query visited current) ↔ IsDistance Step targets (suc j) v
  next_level-IsDistance {j} {visited} {current} explored v =
      let (to, from) = mem-next_level visited current v in
      (
        λ m.
            let (u, new, mu, step) = to m in
            let (walk, least) = (explored.newest u).0 mu in
            ((u, walk, step), λ m below w. new ((explored.seen v).1 (m, omega (arith, below), w))),
        λ d.
            let (u, du, step) = IsDistance-before Step targets j v d in
            from (
              u,
              λ old. let (m, le, w) = (explored.seen v).0 old in d.1 m (omega (arith, le)) w,
              (explored.newest u).1 du,
              step,
            ),
      )

  Explored-next :
      {j : ℕ} {visited current : List Text}
      → Explored j visited current
      → Explored
          (suc j)
          (visited ++ next_level query visited current)
          (next_level query visited current)
  Explored-next {j} {visited} {current} explored =
      let next = next_level query visited current in
      record {
        seen = λ v. (
          λ m. elim (Memᴰ.append_cases visited m) [
            | inl old ↦ let (m, le, w) = (explored.seen v).0 old in (m, omega (arith, le), w)
            | inr new ↦ (suc j, omega arith, ((next_level-IsDistance explored v).0 new).0)
          ],
          λ (m, le, w). elim (Bool-cases (mem_text v visited)) [
            | inl t ↦ Memᴰ.append_left next ((mem_text_iff v visited).0 t)
            | inr f ↦ Memᴰ.append_right visited (reached explored v f m le w)
          ],
        );
        newest = next_level-IsDistance explored;
      }
    where
      reached :
          {j : ℕ} {visited current : List Text}
          → Explored j visited current
          → (v : Text) → mem_text v visited ≡ false
          → (m : ℕ) → m ≤ suc j
          → Walk Step targets m v
          → Memᴰ v (next_level query visited current)
      reached {j} {visited} explored v f m le w =
          let new : ¬ Memᴰ v visited = λ old. cc ((mem_text_iff v visited).1 old) in
          elim (Bool-cases (m == suc j)) [
            | inl t ↦ (next_level-IsDistance explored v).1 (
              subst (λ z. Walk Step targets z v) ((==_iff m (suc j)).0 t) w,
              λ k below w'. new ((explored.seen v).1 (k, omega (arith, below), w')),
            )
            | inr g ↦ absurd (new ((explored.seen v).1 (m, ground arith, w)))
          ]

  -- Which levels a search in this state still adds.
  abbrev pub IsLevel : ℕ → ℕ → ℕ → Text → Type 0
  IsLevel j rounds d v = (suc j ≤ d) × (d ≤ j + rounds) × IsDistance Step targets d v

  -- A search that ends early misses nothing.
  IsLevel-none :
      (j rounds d : ℕ) (v : Text)
      → ((w : Text) → ¬ IsDistance Step targets (suc j) w)
      → Memᴰ v [] ↔ IsLevel j rounds d v
  IsLevel-none j rounds d v h = (
    λ m. absurd (Memᴰ.not-nil m),
    λ (above, within, at). absurd (IsDistance-none_from Step targets (suc j) d h above v at),
  )

  -- The level at the depth of a round is its next level; the others come later.
  level_at-IsLevel :
      (j rounds : ℕ) (next : List Text) (rest : Levels) (d : ℕ) (v : Text)
      → Memᴰ v next ↔ IsDistance Step targets (suc j) v
      → Memᴰ v (level_at d rest) ↔ IsLevel (suc j) rounds d v
      → Memᴰ v (level_at d ((suc j, next) ∷ rest)) ↔ IsLevel j (suc rounds) d v
  level_at-IsLevel j rounds next rest d v here there = elim (Bool-cases (suc j == d)) [
    | inl t ↦
        let e : suc j ≡ d = (==_iff (suc j) d).0 t in
        rw t (
          λ m. (
            omega (arith, e),
            omega (arith, e),
            subst (λ z. IsDistance Step targets z v) e (here.0 m),
          ),
          λ (above, within, at). here.1 (subst (λ z. IsDistance Step targets z v) (sym e) at),
        )
    | inr f ↦ rw f (
      λ m. let (above, within, at) = there.0 m in (omega (arith, above), omega (arith, within), at),
      λ (above, within, at). there.1 (ground arith, omega (arith, within), at),
    )
  ]

  levels_from-ended :
      (rounds depth : ℕ) (visited : List Text) (c : Text) (cs : List Text)
      → next_level query visited (c ∷ cs) ≡ []
      → levels_from query (suc rounds) depth visited (c ∷ cs) ≡ []
  unfolding levels_from
  levels_from-ended rounds depth visited c cs e = rw (e, levels_from) refl

  levels_from-more :
      (rounds depth : ℕ) (visited : List Text) (c : Text) (cs : List Text) (n : Text)
      (ns : List Text)
      → next_level query visited (c ∷ cs) ≡ n ∷ ns
      → levels_from query (suc rounds) depth visited (c ∷ cs)
        ≡ (depth, n ∷ ns) ∷ levels_from query rounds (suc depth) (visited ++ n ∷ ns) (n ∷ ns)
  unfolding levels_from
  levels_from-more rounds depth visited c cs n ns e = rw (e, levels_from) refl

  levels_from-IsLevel :
      (rounds j : ℕ) (visited current : List Text)
      → Explored j visited current
      → (d : ℕ) (v : Text)
      → Memᴰ v (level_at d (levels_from query rounds (suc j) visited current))
        ↔ IsLevel j rounds d v
  unfolding levels_from
  levels_from-IsLevel zero j visited current explored d v =
      (λ m. absurd (Memᴰ.not-nil m), λ (above, within, at). absurd (omega (arith, above, within)))
  levels_from-IsLevel (suc rounds) j visited [] explored d v =
      IsLevel-none j (suc rounds) d v (λ w dist.
        let (u, du, step) = IsDistance-before Step targets j w dist in
        Memᴰ.not-nil ((explored.newest u).1 du))
  levels_from-IsLevel (suc rounds) j visited (c ∷ cs) explored d v =
      elim (List-cases (next_level query visited (c ∷ cs))) [
        | inl e ↦
            subst (λ ls. Memᴰ v (level_at d ls) ↔ IsLevel j (suc rounds) d v)
              (sym (levels_from-ended rounds (suc j) visited c cs e))
              (IsLevel-none j (suc rounds) d v (λ w dist.
                Memᴰ.not-nil
                  (subst (λ ns. Memᴰ w ns) e ((next_level-IsDistance explored w).1 dist))))
        | inr (n, ns, e) ↦
            subst (λ ls. Memᴰ v (level_at d ls) ↔ IsLevel j (suc rounds) d v)
              (sym (levels_from-more rounds (suc j) visited c cs n ns e))
              (level_at-IsLevel j rounds (n ∷ ns) _ d v
                (subst (λ ns. Memᴰ v ns ↔ IsDistance Step targets (suc j) v) e
                  (next_level-IsDistance explored v))
                (levels_from-IsLevel rounds (suc j) (visited ++ n ∷ ns) (n ∷ ns)
                  (subst (λ ns. Explored (suc j) (visited ++ ns) ns) e (Explored-next explored)) d
                  v))
      ]

  Explored-start : Explored 0 targets targets
  Explored-start = record {
    seen = λ v. (
      λ m. (0, omega arith, m),
      λ (m, le, w). let e : m ≡ 0 = omega (arith, le) in subst (λ z. Walk Step targets z v) e w,
    );
    newest = λ v. ((λ m. (m, λ k below. absurd (omega (arith, below)))), λ d. d.0);
  }

  pub bfs-IsDistance :
      (max_depth d : ℕ) (v : Text)
      → Memᴰ v (level_at d (bfs query targets max_depth))
        ↔ ((1 ≤ d) × (d ≤ max_depth) × IsDistance Step targets d v)
  unfolding bfs
  bfs-IsDistance max_depth d v =
      let (to, from) = levels_from-IsLevel max_depth 0 targets targets Explored-start d v in
      (
        λ m. let (above, within, at) = to m in (above, omega (arith, within), at),
        λ (above, within, at). from (above, omega (arith, within), at),
      )

  next_level-IsAscending :
      (visited current : List Text) → IsAscending (next_level query visited current)
  unfolding next_level
  next_level-IsAscending visited current =
      sorted_set-IsAscending
        (select_if (λ row. not (mem_text row visited)) (join query (chunks current)))

  -- Every level is strictly increasing.
  levels_from-IsAscending :
      (rounds depth : ℕ) (visited current : List Text) (d : ℕ)
      → IsAscending (level_at d (levels_from query rounds depth visited current))
  unfolding levels_from
  levels_from-IsAscending zero depth visited current d = tt
  levels_from-IsAscending (suc rounds) depth visited [] d = tt
  levels_from-IsAscending (suc rounds) depth visited (c ∷ cs) d =
      elim (List-cases (next_level query visited (c ∷ cs))) [
        | inl e ↦
            subst (λ ls. IsAscending (level_at d ls))
              (sym (levels_from-ended rounds depth visited c cs e)) tt
        | inr (n, ns, e) ↦
            subst (λ ls. IsAscending (level_at d ls))
              (sym (levels_from-more rounds depth visited c cs n ns e))
              (one_of (depth == d) (n ∷ ns) _
                (subst IsAscending e (next_level-IsAscending visited (c ∷ cs)))
                (levels_from-IsAscending rounds (suc depth) (visited ++ n ∷ ns) (n ∷ ns) d))
      ]
    where
      one_of :
          (b : Bool) (xs ys : List Text)
          → IsAscending xs
          → IsAscending ys
          → IsAscending (if b then xs else ys)
      one_of true xs ys a b = a
      one_of false xs ys a b = b

  pub bfs-IsAscending : (max_depth d : ℕ) → IsAscending (level_at d (bfs query targets max_depth))
  unfolding bfs
  bfs-IsAscending max_depth d = levels_from-IsAscending max_depth 1 targets targets d
