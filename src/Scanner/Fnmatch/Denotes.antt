-- ===== src/Scanner/Fnmatch/Denotes.antt =====
-- What a list of tokens denotes: the names that are a concatenation of one piece for each token. This
-- is independent of the loop of remy-cc/scanner-core/src/fnmatch.rs that looks for the pieces.
use remy_cc.Prelude.{
  ℕ, Bool, true, false, ◌≡◌, refl, sym, subst, ◌↔◌, ◌⊎◌, inl, inr, List, [], ◌∷◌, ◌++◌, Text, ◌==◌,
  if◌then◌else◌,
}
use remy_cc.Scanner.Fnmatch.{
  Tok, star, any, lit, class, class_matches, Verdict, opens, matched, failed, verdict, only_stars,
}

-- The characters that a token other than a star stands for.
unfoldable pub accepts : Tok → ℕ → Bool
unfolding class_matches
accepts star c = false
accepts any c = true
accepts (lit d) c = d == c
accepts (class negated ranges) c = class_matches negated ranges c

-- A piece of one character, and the rest of the name.
abbrev pub One : Tok → (Text → Type 0) → Text → Type 0
One t P name = (c : ℕ) × (rest : Text) × (name ≡ c ∷ rest) × (accepts t c ≡ true) × P rest

-- A piece of any length, and the rest of the name.
abbrev pub Some : (Text → Type 0) → Text → Type 0
Some P name = (piece : Text) × (rest : Text) × (name ≡ piece ++ rest) × P rest

-- A piece for each token, and then `P`.
abbrev pub Then : List Tok → (Text → Type 0) → Text → Type 0
Then [] P name = P name
Then (star ∷ ts) P name = Some (Then ts P) name
Then (any ∷ ts) P name = One any (Then ts P) name
Then (lit d ∷ ts) P name = One (lit d) (Then ts P) name
Then (class negated ranges ∷ ts) P name = One (class negated ranges) (Then ts P) name

abbrev pub IsEmpty : Text → Type 0
IsEmpty name = name ≡ []

abbrev pub Denotes : List Tok → Text → Type 0
Denotes ts name = Then ts IsEmpty name

pub Some-none : {P : Text → Type 0} {name : Text} → P name → Some P name
Some-none {name} p = ([], name, refl, p)

pub Some-more : {P : Text → Type 0} {c : ℕ} {name : Text} → Some P name → Some P (c ∷ name)
Some-more {c} (piece, rest, e, p) = (c ∷ piece, rest, rw e refl, p)

pub Some-map :
    {P Q : Text → Type 0}
    → ((name : Text) → P name → Q name)
    → {name : Text} → Some P name
    → Some Q name
Some-map f (piece, rest, e, p) = (piece, rest, e, f rest p)

pub Some-cons :
    {P : Text → Type 0} {c : ℕ} {name : Text} → Some P (c ∷ name) → P (c ∷ name) ⊎ Some P name
Some-cons {P} ([], rest, e, p) = inl (subst P (sym e) p)
Some-cons (d ∷ piece, rest, e, p) = inr (piece, rest, cc, p)

pub Some-nil : {P : Text → Type 0} → Some P [] → P []
Some-nil {P} ([], rest, e, p) = subst P (sym e) p
Some-nil (d ∷ piece, rest, e, p) = cc e

-- A second star adds nothing.
pub Some-Some : {P : Text → Type 0} (name : Text) → Some (Some P) name → Some P name
Some-Some [] s = Some-nil s
Some-Some (c ∷ name) s = elim (Some-cons s) [ inl p ↦ p | inr q ↦ Some-more (Some-Some name q) ]

pub One-cons :
    (t : Tok) (P : Text → Type 0) {c : ℕ} {name : Text}
    → One t P (c ∷ name)
    → (accepts t c ≡ true) × P name
One-cons t P (d, rest, e, a, p) = (subst (λ z. accepts t z ≡ true) (cc e) a, subst P (cc e) p)

-- A star before a token of one character can take that character.
Some-One : (t : Tok) (P : Text → Type 0) (name : Text) → Some (One t P) name → Some P name
Some-One t P [] s = let (c, rest, e, a, p) = Some-nil s in cc e
Some-One t P (c ∷ name) s = elim (Some-cons s) [
  | inl one ↦ Some-more (Some-none (One-cons t P one).1)
  | inr more ↦ Some-more (Some-One t P name more)
]

Some-One-cons :
    (t : Tok) (P : Text → Type 0) {c : ℕ} (name : Text) → Some (One t P) (c ∷ name) → Some P name
Some-One-cons t P name s = elim (Some-cons s) [
  | inl one ↦ Some-none (One-cons t P one).1
  | inr more ↦ Some-One t P name more
]

-- What a verdict says of tokens that denote `P`, also behind a star.
abbrev pub Says : (Text → Type 0) → ℕ → Verdict → Type 0
Says P c (opens rest) = (name : Text) → P name ↔ Some (Denotes rest) name
Says P c (matched rest) =
    (name : Text)
    → (P (c ∷ name) ↔ Denotes rest name) × (Some P (c ∷ name) → Some (Denotes rest) name)
Says P c failed = (name : Text) → ¬ P (c ∷ name)

Says-One :
    (t : Tok) (ts : List Tok) (c : ℕ) (b : Bool)
    → accepts t c ≡ b
    → Says (One t (Denotes ts)) c (if b then matched ts else failed)
Says-One t ts c true a = λ name. (
  (λ one. (One-cons t (Denotes ts) one).1, λ d. (c, name, refl, a, d)),
  Some-One-cons t (Denotes ts) name,
)
Says-One t ts c false a = λ name one. cc (One-cons t (Denotes ts) one).0

pub verdict_lem : (ts : List Tok) (c : ℕ) → Says (Denotes ts) c (verdict ts c)
unfolding verdict accepts
verdict_lem [] c = λ name e. cc e
verdict_lem (star ∷ ts) c = λ name. (λ s. s, λ s. s)
verdict_lem (any ∷ ts) c = Says-One any ts c true refl
verdict_lem (lit d ∷ ts) c = Says-One (lit d) ts c (d == c) refl
verdict_lem (class negated ranges ∷ ts) c =
    Says-One (class negated ranges) ts c (class_matches negated ranges c) refl

-- The tokens that are left at the end of the name denote the empty name when they are stars.
pub only_stars_iff : (ts : List Tok) → (only_stars ts ≡ true) ↔ Denotes ts []
unfolding only_stars
only_stars_iff [] = (λ h. refl, λ e. refl)
only_stars_iff (star ∷ ts) =
    let ih = only_stars_iff ts in (λ h. Some-none (ih.0 h), λ s. ih.1 (Some-nil s))
only_stars_iff (any ∷ ts) = (λ h. cc h, λ (c, rest, e, a, d). cc e)
only_stars_iff (lit x ∷ ts) = (λ h. cc h, λ (c, rest, e, a, d). cc e)
only_stars_iff (class negated ranges ∷ ts) = (λ h. cc h, λ (c, rest, e, a, d). cc e)
