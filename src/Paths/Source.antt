-- ===== src/Paths/Source.antt =====
-- The source paths that the store accepts (remy-cc/src/state.rs, `normalize_source_path`).
use remy_cc.Prelude.{
  false, ◌||◌, ◌≡◌, refl, sym, ◌∙◌, ap, subst, some, Option-cases, List, [], ◌∷◌, map, Text,
  text_eq, inl, inr, arith, Bool-cases,
}
use remy_cc.Host.{normal}
use remy_cc.Job.{ok}
use remy_cc.Paths.{
  split_slash, piece, pieces, first_piece, relative, is_absolute, components, extension,
  normal_parts, join, check_extension, normalize_source_path,
}
use remy_cc.Paths.Names.{
  IsName, AllNames, split-join, pieces-names, parts-names, split_slash-NoSlashes, relative-AllNames,
}

join-starts :
    (p : Text) (ps : List Text)
    → IsName p
    → (is_absolute (join (p ∷ ps)) ≡ false) × (text_eq (join (p ∷ ps)) [] ≡ false)
unfolding join is_absolute text_eq
join-starts [] ps name = cc (name.some_text)
join-starts (c ∷ s) [] name = (name.relative, refl)
join-starts (c ∷ s) (q ∷ ps) name = (name.relative, refl)

components-join :
    (p : Text) (ps : List Text)
    → AllNames (p ∷ ps)
    → components (join (p ∷ ps)) ≡ map normal (p ∷ ps)
unfolding components relative
components-join p ps (name, names) =
    rw ((join-starts p ps name).0, split-join p ps (name, names), relative)
      (rw (name.first, pieces-names ps names) refl)

check_extension-ok : (n t : Text) → check_extension n ≡ ok t → (n ≡ t) × (check_extension n ≡ ok n)
unfolding check_extension
check_extension-ok n t h = ground (arith, h)

no_extension : (t : Text) → ¬ (check_extension [] ≡ ok t)
unfolding check_extension extension components split_slash relative first_piece piece pieces
    is_absolute text_eq
no_extension t h = cc

-- An accepted path is its parts, joined.
pub record IsAccepted (t : Text) : Type 0 where
  pub parts : List Text
  pub joined : join parts ≡ t
  pub as_components : components t ≡ map normal parts
  pub again : normalize_source_path t ≡ ok t

join-nil : join [] ≡ []
unfolding join
join-nil = refl

normalized_again :
    (n : Text) (parts : List Text)
    → is_absolute n ≡ false
    → text_eq n [] ≡ false
    → normal_parts (components n) ≡ some parts
    → join parts ≡ n
    → check_extension n ≡ ok n
    → normalize_source_path n ≡ ok n
unfolding normalize_source_path
normalized_again n parts below some_text read joined checked =
    let good : (is_absolute n || text_eq n []) ≡ false = rw (below, some_text) refl in
    rw (good, read, joined, normalize_source_path) checked

accepted :
    (parts : List Text) (t : Text)
    → AllNames parts
    → check_extension (join parts) ≡ ok t
    → IsAccepted t
accepted [] t names h = absurd (no_extension t (rw join-nil at h))
accepted (p ∷ ps) t names h =
    let (same, ok_again) = check_extension-ok (join (p ∷ ps)) t h in
    let (below, some_text) = join-starts p ps names.0 in
    record {
      parts = p ∷ ps;
      joined = same;
      as_components = rw (sym same) (components-join p ps names);
      again =
          subst (λ x. normalize_source_path x ≡ ok x) same
            (normalized_again (join (p ∷ ps)) (p ∷ ps) below some_text
              (ap normal_parts (components-join p ps names) ∙ parts-names (p ∷ ps)) refl ok_again);
    }

components-AllNames :
    (value : Text)
    → is_absolute value ≡ false
    → (parts : List Text) → normal_parts (components value) ≡ some parts
    → AllNames parts
unfolding components
components-AllNames value h parts e =
    relative-AllNames (split_slash value) (split_slash-NoSlashes value) parts (rw h at e)

-- A source path that is accepted has normal components only, none of them `.`, `..` or the root, which are
-- its parts joined by slashes, so it stays below its project; and normalising it again gives the same path.
pub normalize_source_path-IsAccepted :
    (value t : Text) → normalize_source_path value ≡ ok t → IsAccepted t
unfolding normalize_source_path
normalize_source_path-IsAccepted value t h =
    elim (Bool-cases (is_absolute value || text_eq value [])) [
      | inl bad ↦ cc (rw (bad, normalize_source_path) at h)
      | inr good ↦ elim (Option-cases (normal_parts (components value))) [
        | inl none_read ↦ cc (rw (good, none_read, normalize_source_path) at h)
        | inr (parts, e) ↦
            accepted parts t (components-AllNames value (ground arith) parts e)
              (rw (good, e, normalize_source_path) at h)
      ]
    ]
