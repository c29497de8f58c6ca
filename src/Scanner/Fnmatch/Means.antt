-- ===== src/Scanner/Fnmatch/Means.antt =====
-- What a pattern of remy-cc/scanner-core/src/fnmatch.rs means, read off its characters.
use remy_cc.Prelude.{
  ℕ, zero, suc, Bool, true, false, ◌≡◌, refl, sym, subst, ap, ◌∙◌, ◌↔◌, ◌⊎◌, inl, inr, none, some,
  [], ◌∷◌, Text, Bool-cases, Option-cases, ◌==◌, ==_iff,
}
use remy_cc.Scanner.Fnmatch.{Tok, any, lit, class, class_ranges, parse_class, fnmatchcase}
use remy_cc.Scanner.Fnmatch.Denotes.{IsEmpty, One, Some, Some-map, accepts}
use remy_cc.Scanner.Fnmatch.Reads.{Reads, Same, fnmatchcase-Reads}
use remy_cc.Scanner.Fnmatch.CharSets.{IsIn, class_matches_iff}
use remy_cc.Scanner.Fnmatch.Classes.{Closes, Closes-parse_class, found_parts, parse_class-Found}

-- A character that the set has, or that it does not have if it is negated, and the rest of the name.
abbrev pub OneOf : Bool → Text → (Text → Type 0) → Text → Type 0
OneOf negated set P name = (c : ℕ) × (rest : Text) × (name ≡ c ∷ rest) × IsIn negated set c × P rest

-- A given character, and the rest of the name.
abbrev pub Itself : ℕ → (Text → Type 0) → Text → Type 0
Itself c P name = (rest : Text) × (name ≡ c ∷ rest) × P rest

-- Behind a `[`: a set that is closed and what is behind it, or, where no `]` closes one, `[` itself.
abbrev pub Bracket : Text → (ℕ → Text → Type 0) → Text → Type 0
Bracket cs behind name =
    ((negated : Bool) × (set : Text) × (after : ℕ) × Closes cs negated set after
      × OneOf negated set (behind after) name)
    ⊎ (((negated : Bool) (set : Text) (after : ℕ) → ¬ Closes cs negated set after)
        × Itself b'[' (behind 0) name)

-- The names that a pattern means, after the characters to pass over: `*` is any piece, `?` any
-- character, a class one of its characters, and every other character, also a `[` that no `]` closes,
-- is itself.
abbrev pub Means : ℕ → Text → Text → Type 0
Means k [] = IsEmpty
Means (suc k) (c ∷ cs) = Means k cs
Means zero (c ∷ cs) = elim (c == b'*') [
  | true ↦ Some (Means 0 cs)
  | false ↦ elim (c == b'?') [
    | true ↦ λ name. (d : ℕ) × Itself d (Means 0 cs) name
    | false ↦ elim (c == b'[') [
      | true ↦ Bracket cs (λ after. Means after cs)
      | false ↦ Itself c (Means 0 cs)
    ]
  ]
]

Some-Same : {P Q : Text → Type 0} → Same P Q → Same (Some P) (Some Q)
Some-Same same name = (Some-map (λ n. (same n).0), Some-map (λ n. (same n).1))

any-Same : {P Q : Text → Type 0} → Same P Q → Same (One any P) (λ name. (d : ℕ) × Itself d Q name)
unfolding accepts
any-Same same name = (
  λ (c, rest, e, a, p). (c, (rest, e, (same rest).0 p)),
  λ (c, (rest, e, q)). (c, rest, e, refl, (same rest).1 q),
)

lit-Same : {P Q : Text → Type 0} (d : ℕ) → Same P Q → Same (One (lit d) P) (Itself d Q)
unfolding accepts
lit-Same d same name = (
  λ (c, rest, e, a, p). (rest, e ∙ ap (λ z. z ∷ rest) (sym ((==_iff d c).0 a)), (same rest).0 p),
  λ (rest, e, q). (d, rest, e, (==_iff d d).1 refl, (same rest).1 q),
)

class-Same :
    {P Q : Text → Type 0} (negated : Bool) (set : Text)
    → Same P Q
    → Same (One (class negated (class_ranges set)) P) (OneOf negated set Q)
unfolding accepts
class-Same negated set same name = (
  λ (c, rest, e, a, p). (c, rest, e, (class_matches_iff negated set c).0 a, (same rest).0 p),
  λ (c, rest, e, i, q). (c, rest, e, (class_matches_iff negated set c).1 i, (same rest).1 q),
)

same_of : {P Q R S : Text → Type 0} → P ≡ R → Q ≡ S → Same R S → Same P Q
same_of {P} {S} e f same = subst (λ Z. Same P Z) (sym f) (subst (λ Z. Same Z S) (sym e) same)

-- What `parse_class` finds against the set that is closed, and where it finds none.
module _ (cs : Text) (P Q : ℕ → Text → Type 0) (same : (k : ℕ) → Same (P k) (Q k)) where
  found-Bracket :
      (tok : Tok) (after : ℕ)
      → parse_class cs ≡ some (tok, after)
      → Same (One tok (P after)) (Bracket cs Q)
  found-Bracket tok after e name =
      let (negated, set, closed, is) = parse_class-Found cs e in
      (
        λ one. inl (
          negated,
          set,
          after,
          closed,
          (class-Same negated set (same after) name).0 (subst (λ t. One t (P after) name) is one),
        ),
        λ means. elim means [
          | inl (negated', set', after', closed', one) ↦
              let (tok_is, after_is) =
                found_parts (Closes-parse_class cs negated' set' after' closed') e in
              subst (λ t. One t (P after) name) tok_is
                (subst (λ k. One (class negated' (class_ranges set')) (P k) name) after_is
                  ((class-Same negated' set' (same after') name).1 one))
          | inr (unclosed, one) ↦ absurd (unclosed negated set after closed)
        ],
      )

  open-Bracket : parse_class cs ≡ none → Same (One (lit b'[') (P 0)) (Bracket cs Q)
  open-Bracket e name = (
    λ one. inr (
      λ negated set after closed. cc (sym e ∙ Closes-parse_class cs negated set after closed),
      (lit-Same b'[' (same 0) name).0 one,
    ),
    λ means. elim means [
      | inl (negated, set, after, closed, one) ↦
          cc (sym e ∙ Closes-parse_class cs negated set after closed)
      | inr (unclosed, one) ↦ (lit-Same b'[' (same 0) name).1 one
    ],
  )

Reads-Means : (k : ℕ) (cs : Text) → Same (Reads k cs) (Means k cs)
Reads-Means k [] = λ name. (λ h. h, λ h. h)
Reads-Means (suc k) (c ∷ cs) = Reads-Means k cs
Reads-Means zero (c ∷ cs) = elim (Bool-cases (c == b'*')) [
  | inl t ↦ same_of (rw (t, Reads) refl) (rw (t, Means) refl) (Some-Same (Reads-Means 0 cs))
  | inr f ↦ elim (Bool-cases (c == b'?')) [
    | inl t ↦ same_of (rw (f, t, Reads) refl) (rw (f, t, Means) refl) (any-Same (Reads-Means 0 cs))
    | inr g ↦ elim (Bool-cases (c == b'[')) [
      | inl t ↦ elim (Option-cases (parse_class cs)) [
        | inl e ↦
            same_of (rw (f, g, t, e, Reads) refl) (rw (f, g, t, Means) refl)
              (open-Bracket cs (λ k. Reads k cs) (λ k. Means k cs) (λ k. Reads-Means k cs) e)
        | inr ((tok, after), e) ↦ same_of (rw (f, g, t, e, Reads) refl) (rw (f, g, t, Means) refl) (
            found-Bracket cs (λ k. Reads k cs) (λ k. Means k cs) (λ k. Reads-Means k cs) tok after
              e)
      ]
      | inr h ↦
          same_of (rw (f, g, h, Reads) refl) (rw (f, g, h, Means) refl)
            (lit-Same c (Reads-Means 0 cs))
    ]
  ]
]

-- On any name and pattern `fnmatchcase` returns, and it returns true exactly for the names that the
-- pattern means.
pub fnmatchcase-Means :
    (name pattern : Text)
    → ((matches : Bool) × (fnmatchcase name pattern ≡ some matches))
      × ((fnmatchcase name pattern ≡ some true) ↔ Means 0 pattern name)
fnmatchcase-Means name pattern =
    let (returns, answer) = fnmatchcase-Reads name pattern in
    let same = Reads-Means 0 pattern name in
    (returns, (λ h. same.0 (answer.0 h), λ m. answer.1 (same.1 m)))
