-- ===== src/Mcp/Graph/Affected.antt =====
-- The query of remy-cc/src/mcp/graph.rs for the impact of files.
use remy_cc.Prelude.{
  with_slashes, ℕ, ◌≡◌, refl, ap, subst, sym, ◌↔◌, inl, inr, Bool, true, false, none, some, List,
  [], ◌∷◌, Text, Memᴰ, arith, collect, mem-collect, mem-join, mem_text, mem_text_iff, text_eq,
  text_eq_iff, Bool-cases, if◌then◌else◌, ltb,
}
use mathlib.Core.List.Memᴰ
use remy_cc.Mcp.Index.{Index, SymbolRow, qualified}
use remy_cc.Mcp.Graph.{
  Levels, search, min, indexed_file, target_files, symbol_of_file, seeds, Impact, no_files,
  no_symbols, affected, query_impact,
}
use remy_cc.Mcp.Graph.Distance.{List-cases}
use remy_cc.Mcp.Graph.Queries.{Steps, AtDistances, search-AtDistances}

-- A file of the index that one of the arguments names, with either kind of slash.
abbrev pub IsTarget : Index → List Text → Text → Type 0
IsTarget index files path =
    (f : Text) × Memᴰ f files × (with_slashes f ≡ path) × Memᴰ path index.files

-- A symbol of such a file.
abbrev pub IsSeed : Index → List Text → Text → Type 0
IsSeed index files v =
    (row : SymbolRow) × Memᴰ row index.symbols
    × IsTarget index files row.file_path
    × (qualified row.file_path row.name ≡ v)

if_some_iff :
    (b : Bool) (x y : Text) → ((if b then some x else none) ≡ some y) ↔ ((b ≡ true) × (x ≡ y))
if_some_iff true x y = (λ h. (refl, cc), λ h. ap some h.1)
if_some_iff false x y = (λ h. cc h, λ h. cc h.0)

mem-target_files :
    (index : Index) (files : List Text) (path : Text)
    → Memᴰ path (target_files index files) ↔ IsTarget index files path
unfolding target_files indexed_file
mem-target_files index files path =
    let (to, from) = mem-collect (indexed_file index) files path in
    (
      λ m.
          let (f, k, h) = to m in
          let (t, e) =
            (if_some_iff (mem_text (with_slashes f) index.files) (with_slashes f) path).0 h in
          (
            f,
            k,
            e,
            subst (λ z. Memᴰ z index.files) e ((mem_text_iff (with_slashes f) index.files).0 t),
          ),
      λ (f, k, e, t). from (
        f,
        k,
        (if_some_iff (mem_text (with_slashes f) index.files) (with_slashes f) path).1 (
          (mem_text_iff (with_slashes f) index.files).1 (subst (λ z. Memᴰ z index.files) (sym e) t),
          e,
        ),
      ),
    )

mem-seeds :
    (index : Index) (files : List Text) (v : Text)
    → Memᴰ v (seeds index (target_files index files)) ↔ IsSeed index files v
unfolding seeds symbol_of_file
mem-seeds index files v =
    let (to, from) =
      mem-join (λ file. collect (symbol_of_file file) index.symbols) (target_files index files) v in
    (
      λ m.
          let (file, k, m') = to m in
          let (row, r, h) = (mem-collect (symbol_of_file file) index.symbols v).0 m' in
          let (t, e) =
            (if_some_iff (text_eq row.file_path file) (qualified row.file_path row.name) v).0 h in
          let same : row.file_path ≡ file = (text_eq_iff row.file_path file).0 t in
          (
            row,
            r,
            (mem-target_files index files row.file_path).0
                (subst (λ z. Memᴰ z (target_files index files)) (sym same) k),
            e,
          ),
      λ (row, r, t, e). from (
        row.file_path,
        (mem-target_files index files row.file_path).1 t,
        (mem-collect (symbol_of_file row.file_path) index.symbols v).1 (
          row,
          r,
          (if_some_iff (text_eq row.file_path row.file_path) (qualified row.file_path row.name) v).1
              ((text_eq_iff row.file_path row.file_path).1 refl, e),
        ),
      ),
    )

-- What the answer of an impact query says, by the seeds: the symbols of the named files of the index.
abbrev pub Impacts : Index → ℕ → List Text → ℕ → ℕ → Bool → Bool → Impact → Type 0
Impacts index most files up down ambiguous static_only no_files =
    (path : Text) → ¬ IsTarget index files path
Impacts index most files up down ambiguous static_only (no_symbols targets) =
    ((path : Text) → Memᴰ path targets ↔ IsTarget index files path)
    × ((v : Text) → ¬ IsSeed index files v)
Impacts index most files up down ambiguous static_only (affected targets upstream downstream) =
    (from : List Text) × ((path : Text) → Memᴰ path targets ↔ IsTarget index files path)
    × ((v : Text) → Memᴰ v from ↔ IsSeed index files v)
    × AtDistances (Steps index static_only true ambiguous) from (min up most) upstream
    × AtDistances (Steps index static_only false ambiguous) from (min down most) downstream

-- No search is made for a depth of zero, which has no levels.
guarded-AtDistances :
    (Step : Text → Text → Type 0) (from : List Text) (depth : ℕ) (found : Levels)
    → AtDistances Step from depth found
    → AtDistances Step from depth (if ltb 0 depth then found else [])
guarded-AtDistances Step from depth found at = elim (Bool-cases (ltb 0 depth)) [
  | inl t ↦ rw t at
  | inr f ↦ rw f (λ d.
      (tt, λ v. (λ m. absurd (Memᴰ.not-nil m), λ (above, within, dist). absurd (ground arith))))
]

module _ (index : Index) (most : ℕ) (files : List Text) (up down : ℕ)
    (ambiguous static_only : Bool) where
  abbrev answer : Impact
  answer = query_impact index most files up down ambiguous static_only

  abbrev one_way : Bool → ℕ → Levels
  one_way callers depth =
      if ltb 0 (min depth most)
      then search index callers ambiguous (seeds index (target_files index files)) (min depth most)
          static_only
      else []

  query_impact-no_files : target_files index files ≡ [] → answer ≡ no_files
  unfolding query_impact
  query_impact-no_files e = rw (e, query_impact) refl

  query_impact-no_symbols :
      (f : Text) (fs : List Text)
      → target_files index files ≡ f ∷ fs
      → seeds index (target_files index files) ≡ []
      → answer ≡ no_symbols (target_files index files)
  unfolding query_impact
  query_impact-no_symbols f fs e = rw (e, query_impact) (λ h. rw h refl)

  query_impact-affected :
      (f : Text) (fs : List Text) (t : Text) (ts : List Text)
      → target_files index files ≡ f ∷ fs
      → seeds index (target_files index files) ≡ t ∷ ts
      → answer ≡ affected (target_files index files) (one_way true up) (one_way false down)
  unfolding query_impact
  query_impact-affected f fs t ts e = rw (e, query_impact) (λ h. rw h refl)

  -- An impact query answers that no file is indexed, or that the files have no symbols, only where that
  -- is so; otherwise its upstream and downstream levels hold, in ascending order, exactly the names
  -- whose shortest chain of calls to, or from, a symbol of the named files has the level's length, from
  -- one to the limit of the direction.
  pub query_impact-Impacts : Impacts index most files up down ambiguous static_only answer
  query_impact-Impacts = elim (List-cases (target_files index files)) [
    | inl e ↦
        subst (Impacts index most files up down ambiguous static_only)
          (sym (query_impact-no_files e))
          (λ path t.
            Memᴰ.not-nil (subst (λ z. Memᴰ path z) e ((mem-target_files index files path).1 t)))
    | inr (f, fs, e) ↦ elim (List-cases (seeds index (target_files index files))) [
      | inl empty ↦
          subst (Impacts index most files up down ambiguous static_only)
            (sym (query_impact-no_symbols f fs e empty))
            (
              mem-target_files index files,
              λ v s. Memᴰ.not-nil (subst (λ z. Memᴰ v z) empty ((mem-seeds index files v).1 s)),
            )
      | inr (t, ts, seeded) ↦
          let from = seeds index (target_files index files) in
          subst (Impacts index most files up down ambiguous static_only)
            (sym (query_impact-affected f fs t ts e seeded))
            (
              from,
              mem-target_files index files,
              mem-seeds index files,
              guarded-AtDistances (Steps index static_only true ambiguous) from (min up most) _
                  (search-AtDistances index true ambiguous static_only from (min up most)),
              guarded-AtDistances (Steps index static_only false ambiguous) from (min down most) _
                  (search-AtDistances index false ambiguous static_only from (min down most)),
            )
    ]
  ]
