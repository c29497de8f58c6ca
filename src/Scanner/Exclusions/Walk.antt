-- ===== src/Scanner/Exclusions/Walk.antt =====
-- The exclusion of a stored path against the walk (remy-cc/scanner-core/src/config.rs and discovery.rs).
use remy_cc.Prelude.{
  with_slashes, ◌≡◌, refl, sym, ◌∙◌, ap, subst, ◌⊎◌, inl, inr, ◌↔◌, Bool, true, false, List, [],
  ◌∷◌, ◌++◌, Text, codes, Memᴰ, arith, any_if, any_if_iff, or_iff, text_eq, text_eq_iff, Bool-cases,
  ◌==◌,
}
use mathlib.Core.List.{append_assoc}
use remy_cc.Host.{normal}
use remy_cc.Paths.{split_slash, cons_first, join, piece}
use remy_cc.Paths.Names.{AllNames, split-join}
use remy_cc.Scanner.Exclusions.{
  last_part, ends_with_slash, hits, excludes_entry, is_excluded, any_ancestor, excludes_path,
  is_path_excluded, passes_over,
}

-- A name without a backslash is the same with slashes.
abbrev pub has_backslash : Text → Bool
has_backslash = any_if (λ c. c == 92)

with_slashes-same : (t : Text) → has_backslash t ≡ false → with_slashes t ≡ t
unfolding with_slashes any_if
with_slashes-same [] h = refl
with_slashes-same (c ∷ cs) h = ground (arith, with_slashes-same cs)

AllNames-prefix : (xs ys : List Text) → AllNames (xs ++ ys) → AllNames xs
AllNames-prefix [] ys n = tt
AllNames-prefix (x ∷ xs) ys (n, ns) = (n, AllNames-prefix xs ys ns)

dot_named : {B : Type 0} → piece (codes ".") ≡ normal (codes ".") ∷ [] → B
unfolding piece text_eq
dot_named h = cc

-- A path of names is not `.`.
join-dot :
    (p : Text) (ps : List Text) → AllNames (p ∷ ps) → text_eq (join (p ∷ ps)) (codes ".") ≡ false
unfolding split_slash cons_first piece
join-dot p ps n = elim (Bool-cases (text_eq (join (p ∷ ps)) (codes "."))) [
  | inl t ↦
      let e : p ∷ ps ≡ codes "." ∷ [] =
        sym (split-join p ps n) ∙ ap split_slash ((text_eq_iff (join (p ∷ ps)) (codes ".")).0 t) in
      let dot : p ≡ codes "." = cc in dot_named (subst (λ z. piece z ≡ normal z ∷ []) dot n.0.named)
  | inr f ↦ f
]

last_part-last : (xs : List Text) (x : Text) → last_part (xs ++ x ∷ []) ≡ x
unfolding last_part
last_part-last [] x = refl
last_part-last (y ∷ []) x = refl
last_part-last (y ∷ z ∷ xs) x = last_part-last (z ∷ xs) x

last_part-cons :
    (p : Text) (ps : List Text) (above : List Text)
    → last_part (above ++ p ∷ ps) ≡ last_part (p ∷ ps)
unfolding last_part
last_part-cons p ps [] = refl
last_part-cons p ps (a ∷ []) = refl
last_part-cons p ps (a ∷ b ∷ above) = last_part-cons p ps (b ∷ above)

module _ (windows : Bool) (to_lowercase : Text → Text) where
  abbrev hit : Text → Text → Text → Bool
  hit = hits windows to_lowercase

  -- What a path of names is asked for each pattern.
  is_excluded-names :
      (exclusions : List Text) (p : Text) (ps : List Text) (is_dir : Bool)
      → AllNames (p ∷ ps)
      → is_excluded windows to_lowercase exclusions (join (p ∷ ps)) is_dir
        ≡ any_if
            (excludes_entry windows to_lowercase (last_part (p ∷ ps)) (join (p ∷ ps)) is_dir)
            exclusions
  unfolding is_excluded
  is_excluded-names exclusions p ps is_dir n =
      rw (join-dot p ps n, split-join p ps n, is_excluded) refl

  excludes_entry-dir :
      (name path p : Text) → excludes_entry windows to_lowercase name path true p ≡ hit name path p
  unfolding excludes_entry
  excludes_entry-dir name path p = elim (Bool-cases (ends_with_slash p)) [
    | inl t ↦ rw (t, excludes_entry) refl
    | inr f ↦ rw (f, excludes_entry) refl
  ]

  excludes_entry-file :
      (name path p : Text)
      → (excludes_entry windows to_lowercase name path false p ≡ true)
        ↔ ((ends_with_slash p ≡ false) × (hit name path p ≡ true))
  unfolding excludes_entry
  excludes_entry-file name path p = elim (Bool-cases (ends_with_slash p)) [
    | inl t ↦ rw (t, excludes_entry) (λ h. cc h, λ h. cc h.0)
    | inr f ↦ rw (f, excludes_entry) (λ h. (refl, h), λ h. h.1)
  ]

  excluded_by :
      (exclusions : List Text) (p : Text) (ps : List Text) (name : Text)
      → last_part (p ∷ ps) ≡ name
      → AllNames (p ∷ ps)
      → (is_excluded windows to_lowercase exclusions (join (p ∷ ps)) true ≡ true)
        ↔ ((x : Text) × Memᴰ x exclusions × (hit name (join (p ∷ ps)) x ≡ true))
  excluded_by exclusions p ps name last n =
      let path = join (p ∷ ps) in
      let same = is_excluded-names exclusions p ps true n in
      let (to, from) =
        any_if_iff (excludes_entry windows to_lowercase (last_part (p ∷ ps)) path true)
          exclusions in
      let entry = λ (x : Text).
        excludes_entry-dir (last_part (p ∷ ps)) path x ∙ ap (λ z. hit z path x) last in
      (
        λ h. let (x, m, t) = to (sym same ∙ h) in (x, m, sym (entry x) ∙ t),
        λ (x, m, t). same ∙ from (x, m, entry x ∙ t),
      )

  -- A directory on the way is excluded by a pattern that hits its name or its path.
  is_excluded-dir :
      (exclusions above : List Text) (part : Text)
      → AllNames (above ++ part ∷ [])
      → (is_excluded windows to_lowercase exclusions (join (above ++ part ∷ [])) true ≡ true)
        ↔ ((x : Text) × Memᴰ x exclusions × (hit part (join (above ++ part ∷ [])) x ≡ true))
  is_excluded-dir exclusions [] part n =
      excluded_by exclusions part [] part (last_part-last [] part) n
  is_excluded-dir exclusions (a ∷ above) part n =
      excluded_by exclusions a (above ++ part ∷ []) part (last_part-last (a ∷ above) part) n

  -- A pattern hits a directory above the file.
  abbrev pub HitsAbove : List Text → List Text → Text → Type 0
  HitsAbove above parts x = any_ancestor (λ name path. hit name path x) above parts ≡ true

  any_ancestor-excluded :
      (exclusions above parts : List Text)
      → AllNames (above ++ parts)
      → (any_ancestor
            (λ name path. is_excluded windows to_lowercase exclusions path true)
            above
            parts
          ≡ true)
        ↔ ((x : Text) × Memᴰ x exclusions × HitsAbove above parts x)
  unfolding any_ancestor
  any_ancestor-excluded exclusions above [] n = (λ h. cc h, λ (x, m, h). cc h)
  any_ancestor-excluded exclusions above (part ∷ []) n = (λ h. cc h, λ (x, m, h). cc h)
  any_ancestor-excluded exclusions above (part ∷ q ∷ parts) n =
      let n' = subst AllNames (sym (append_assoc above (part ∷ []) (q ∷ parts))) n in
      let here =
        is_excluded-dir exclusions above part
          (AllNames-prefix (above ++ part ∷ []) (q ∷ parts) n') in
      let below = any_ancestor-excluded exclusions (above ++ part ∷ []) (q ∷ parts) n' in
      (
        λ h. elim ((or_iff _ _).0 h) [
          | inl t ↦ let (x, m, k) = here.0 t in (x, m, (or_iff _ _).1 (inl k))
          | inr t ↦ let (x, m, k) = below.0 t in (x, m, (or_iff _ _).1 (inr k))
        ],
        λ (x, m, h). (or_iff _ _).1 (elim ((or_iff _ _).0 h) [
          | inl t ↦ inl (here.1 (x, m, t))
          | inr t ↦ inr (below.1 (x, m, t))
        ]),
      )

  excludes_path_iff :
      (parts : List Text) (path x : Text)
      → (excludes_path windows to_lowercase parts path x ≡ true) ↔ (
          ((ends_with_slash x ≡ true) × HitsAbove [] parts x)
          ⊎ ((ends_with_slash x ≡ false) × (hit (last_part parts) path x ≡ true)))
  unfolding excludes_path
  excludes_path_iff parts path x = elim (Bool-cases (ends_with_slash x)) [
    | inl t ↦
        rw (t, excludes_path) (λ h. inl (refl, h), λ h. elim h [ inl k ↦ k.1 | inr k ↦ cc k.0 ])
    | inr f ↦
        rw (f, excludes_path) (λ h. inr (refl, h), λ h. elim h [ inl k ↦ cc k.0 | inr k ↦ k.1 ])
  ]

  is_path_excluded_iff :
      (exclusions : List Text) (p : Text) (ps : List Text)
      → AllNames (p ∷ ps)
      → has_backslash (join (p ∷ ps)) ≡ false
      → (is_path_excluded windows to_lowercase exclusions (join (p ∷ ps)) ≡ true) ↔ (
          (x : Text) × Memᴰ x exclusions
          × (excludes_path windows to_lowercase (p ∷ ps) (join (p ∷ ps)) x ≡ true))
  unfolding is_path_excluded
  is_path_excluded_iff exclusions p ps n b =
      rw (with_slashes-same (join (p ∷ ps)) b, split-join p ps n, is_path_excluded)
        (any_if_iff (excludes_path windows to_lowercase (p ∷ ps) (join (p ∷ ps))) exclusions)

  -- For the path of a file that is made of names without a backslash, the walk passes the file over
  -- exactly when its stored path counts as excluded or a pattern that does not end in a slash hits a
  -- directory above it.
  pub passes_over_iff :
      (exclusions : List Text) (p : Text) (ps : List Text)
      → AllNames (p ∷ ps)
      → has_backslash (join (p ∷ ps)) ≡ false
      → (passes_over windows to_lowercase exclusions (p ∷ ps) ≡ true) ↔ (
          (is_path_excluded windows to_lowercase exclusions (join (p ∷ ps)) ≡ true)
          ⊎ ((x : Text) × Memᴰ x exclusions
              × (ends_with_slash x ≡ false)
              × HitsAbove [] (p ∷ ps) x))
  unfolding passes_over
  passes_over_iff exclusions p ps n b =
      let path = join (p ∷ ps) in
      let above = any_ancestor-excluded exclusions [] (p ∷ ps) n in
      let stored = is_path_excluded_iff exclusions p ps n b in
      let same = is_excluded-names exclusions p ps false n in
      let file =
        any_if_iff (excludes_entry windows to_lowercase (last_part (p ∷ ps)) path false)
          exclusions in
      (
        λ h. elim ((or_iff _ _).0 h) [
          | inl t ↦
              let (x, m, k) = above.0 t in
              elim (Bool-cases (ends_with_slash x)) [
                | inl s ↦ inl (stored.1 (x, m, (excludes_path_iff (p ∷ ps) path x).1 (inl (s, k))))
                | inr f ↦ inr (x, m, f, k)
              ]
          | inr t ↦
              let (x, m, k) = file.0 (sym same ∙ t) in
              let (f, k') = (excludes_entry-file (last_part (p ∷ ps)) path x).0 k in
              inl (stored.1 (x, m, (excludes_path_iff (p ∷ ps) path x).1 (inr (f, k'))))
        ],
        λ h. (or_iff _ _).1 (elim h [
          | inl t ↦
              let (x, m, k) = stored.0 t in
              elim ((excludes_path_iff (p ∷ ps) path x).0 k) [
                | inl (s, k') ↦ inl (above.1 (x, m, k'))
                | inr (f, k') ↦ inr (
                    same
                    ∙ file.1 (x, m, (excludes_entry-file (last_part (p ∷ ps)) path x).1 (f, k')))
              ]
          | inr (x, m, f, k) ↦ inl (above.1 (x, m, k))
        ]),
      )
