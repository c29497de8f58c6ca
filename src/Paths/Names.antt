-- ===== src/Paths/Names.antt =====
-- The pieces of a path that stand for themselves (remy-cc/src/state.rs, `normalize_source_path`).
use remy_cc.Prelude.{
  ℕ, Bool, false, ◌≡◌, refl, ◌∙◌, ap, subst, some, Option-cases, List, [], ◌∷◌, ◌++◌, map, Text,
  codes, text_eq, any_if, inl, inr, arith, Bool-cases, ◌==◌,
}
use remy_cc.Host.{Components, cur_dir, parent_dir, normal}
use remy_cc.Paths.{
  slash, cons_first, split_slash, piece, pieces, first_piece, relative, is_absolute, normal_parts,
  join,
}

abbrev pub is_slash : ℕ → Bool
is_slash c = c == slash

-- A name that stands for itself as a component.
pub record IsName (p : Text) : Type 0 where
  pub no_slash : any_if is_slash p ≡ false
  pub named : piece p ≡ normal p ∷ []
  pub first : first_piece p ≡ normal p ∷ []
  pub relative : is_absolute p ≡ false
  pub some_text : text_eq p [] ≡ false

abbrev pub AllNames : List Text → Type 0
AllNames [] = Unit {0}
AllNames (p ∷ ps) = IsName p × AllNames ps

abbrev pub NoSlashes : List Text → Type 0
NoSlashes [] = Unit {0}
NoSlashes (p ∷ ps) = (any_if is_slash p ≡ false) × NoSlashes ps

cons_first-NoSlashes :
    (c : ℕ) (ps : List Text) → is_slash c ≡ false → NoSlashes ps → NoSlashes (cons_first c ps)
unfolding cons_first any_if
cons_first-NoSlashes c [] h k = (rw h refl, tt)
cons_first-NoSlashes c (p ∷ ps) h (k, ks) = (rw h k, ks)

pub split_slash-NoSlashes : (t : Text) → NoSlashes (split_slash t)
unfolding split_slash any_if
split_slash-NoSlashes [] = (refl, tt)
split_slash-NoSlashes (c ∷ s) = elim (Bool-cases (c == slash)) [
  | inl t ↦ rw t (refl, split_slash-NoSlashes s)
  | inr f ↦ rw f (cons_first-NoSlashes c (split_slash s) f (split_slash-NoSlashes s))
]

no_slash-relative : (p : Text) → any_if is_slash p ≡ false → is_absolute p ≡ false
unfolding any_if is_absolute
no_slash-relative [] h = refl
no_slash-relative (c ∷ s) h = ground arith

-- A component that is normal is a name.
IsName-of :
    (p : Text)
    → any_if is_slash p ≡ false
    → text_eq p [] ≡ false
    → text_eq p (codes ".") ≡ false
    → text_eq p (codes "..") ≡ false
    → IsName p
unfolding piece first_piece
IsName-of p h e d dd =
    let named : piece p ≡ normal p ∷ [] = rw (e, d, dd, piece) refl in
    record {
      no_slash = h;
      named = named;
      first = rw (d, first_piece) (rw (e, dd) refl);
      relative = no_slash-relative p h;
      some_text = e;
    }

nil_parts : {parts : List Text} → normal_parts [] ≡ some parts → [] ≡ parts
unfolding normal_parts
nil_parts e = cc (e)

-- What a piece adds to the parts.
module _ (p : Text) (rest : Components) (parts : List Text) where
  data Adds : Type 0 where
    nothing : piece p ≡ [] → normal_parts rest ≡ some parts → Adds
    a_name : (ps : List Text) → IsName p → normal_parts rest ≡ some ps → parts ≡ p ∷ ps → Adds

cons-parts :
    (p : Text) (rest : Components) (parts : List Text)
    → normal_parts (normal p ∷ rest) ≡ some parts
    → (ps : List Text) × (normal_parts rest ≡ some ps) × (parts ≡ p ∷ ps)
unfolding normal_parts
cons-parts p rest parts e = elim (Option-cases (normal_parts rest)) [
  | inl n ↦ cc (rw (n, normal_parts) at e)
  | inr (ps, h) ↦ (ps, h, cc (rw (h, normal_parts) at e))
]

parent-parts :
    (rest : Components) (parts : List Text) → ¬ (normal_parts (parent_dir ∷ rest) ≡ some parts)
unfolding normal_parts
parent-parts rest parts e = cc

piece-Adds :
    (p : Text) (rest : Components) (parts : List Text)
    → any_if is_slash p ≡ false
    → normal_parts (piece p ++ rest) ≡ some parts
    → Adds p rest parts
unfolding piece
piece-Adds p rest parts k e = elim (Bool-cases (text_eq p [])) [
  | inl t ↦
      let none_there : piece p ≡ [] = rw (t, piece) refl in nothing none_there (rw none_there at e)
  | inr f ↦ elim (Bool-cases (text_eq p (codes "."))) [
    | inl t ↦
        let none_there : piece p ≡ [] = rw (f, t, piece) refl in
        nothing none_there (rw none_there at e)
    | inr g ↦ elim (Bool-cases (text_eq p (codes ".."))) [
      | inl t ↦
          let up : piece p ≡ parent_dir ∷ [] = rw (f, g, t, piece) refl in
          absurd (parent-parts rest parts (rw up at e))
      | inr h ↦
          let name = IsName-of p k f g h in
          let (ps, at_ps, same) = cons-parts p rest parts (rw name.named at e) in
          a_name ps name at_ps same
    ]
  ]
]

current-parts :
    (rest : Components) (parts : List Text) → ¬ (normal_parts (cur_dir ∷ rest) ≡ some parts)
unfolding normal_parts
current-parts rest parts e = cc

-- What is read off the pieces of a path.
pieces-AllNames :
    (ps : List Text)
    → NoSlashes ps
    → (parts : List Text) → normal_parts (pieces ps) ≡ some parts
    → AllNames parts
unfolding pieces
pieces-AllNames [] h parts e = subst AllNames (nil_parts e) tt
pieces-AllNames (p ∷ ps) (k, ks) parts e = elim (piece-Adds p (pieces ps) parts k e) [
  | nothing _ h ↦ pieces-AllNames ps ks parts h
  | a_name qs name h same ↦ rw same (name, pieces-AllNames ps ks qs h)
]

-- A relative path that is not empty starts with a component, so some part is read off it.
pub relative-AllNames :
    (ps : List Text)
    → NoSlashes ps
    → (parts : List Text) → normal_parts (relative ps) ≡ some parts
    → AllNames parts
unfolding relative first_piece
relative-AllNames [] h parts e = subst AllNames (nil_parts e) tt
relative-AllNames (p ∷ ps) (k, ks) parts e = elim (Bool-cases (text_eq p (codes "."))) [
  | inl t ↦
      let here : first_piece p ≡ cur_dir ∷ [] = rw (t, first_piece) refl in
      absurd (current-parts (pieces ps) parts (rw here at e))
  | inr f ↦
      let same : first_piece p ≡ piece p = rw (f, first_piece) refl in
      elim (piece-Adds p (pieces ps) parts k (rw same at e)) [
        | nothing _ h ↦ pieces-AllNames ps ks parts h
        | a_name qs name h same ↦ rw same (name, pieces-AllNames ps ks qs h)
      ]
]

split-name : (p : Text) → any_if is_slash p ≡ false → split_slash p ≡ p ∷ []
unfolding any_if split_slash cons_first
split-name [] h = refl
split-name (c ∷ s) h = elim (Bool-cases (c == slash)) [
  | inl t ↦ cc (rw t at h)
  | inr f ↦ rw (f, split_slash) (rw (split-name s (rw f at h)) refl)
]

split-append :
    (p rest : Text)
    → any_if is_slash p ≡ false
    → split_slash (p ++ (slash ∷ rest)) ≡ p ∷ split_slash rest
unfolding any_if split_slash cons_first
split-append [] rest h = refl
split-append (c ∷ s) rest h = elim (Bool-cases (c == slash)) [
  | inl t ↦ cc (rw t at h)
  | inr f ↦ rw (f, split_slash) (rw (split-append s rest (rw f at h)) refl)
]

-- Joined names are split again.
pub split-join :
    (p : Text) (ps : List Text) → AllNames (p ∷ ps) → split_slash (join (p ∷ ps)) ≡ p ∷ ps
unfolding join
split-join p [] (name, _) = split-name p name.no_slash
split-join p (q ∷ ps) (name, names) =
    split-append p (join (q ∷ ps)) name.no_slash
    ∙ ap (λ (x : List Text). p ∷ x) (split-join q ps names)

pub pieces-names : (ps : List Text) → AllNames ps → pieces ps ≡ map normal ps
unfolding pieces
pieces-names [] h = refl
pieces-names (p ∷ ps) (name, names) = rw (name.named, pieces-names ps names) refl

pub parts-names : (ps : List Text) → normal_parts (map normal ps) ≡ some ps
unfolding normal_parts
parts-names [] = refl
parts-names (p ∷ ps) = rw (parts-names ps) refl
