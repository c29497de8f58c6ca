-- ===== src/Scanner/Fnmatch/Reads.antt =====
-- The names that a pattern stands for when its classes are read by `parse_class`
-- (remy-cc/scanner-core/src/fnmatch.rs), and that `tokenize` and `fnmatchcase` keep them.
use remy_cc.Prelude.{
  ℕ, zero, suc, ◌+◌, ◌*◌, Bool, true, false, ◌≡◌, refl, sym, subst, ap, ◌∙◌, ◌↔◌, inl, inr, Option,
  none, some, List, [], ◌∷◌, ◌++◌, Text, arith, Bool-cases, ◌==◌, length, Option-cases, take,
}
use remy_cc.Scanner.Fnmatch.{
  Tok, star, any, lit, class, parse_class, class_body, class_ranges, body_length, ends_in_star,
  push_star, next_tok, tokenize_from, tokenize, match_from, fnmatchcase,
}
use remy_cc.Scanner.Fnmatch.Denotes.{
  Then, IsEmpty, Denotes, One, Some, Some-none, Some-Some, Some-map,
}
use remy_cc.Scanner.Fnmatch.Greedy.{match_from-Answers, Answers, Answers_iff, Enough}

-- The names that a pattern stands for, after the characters to pass over: `*` is any piece, `?` any
-- character, a class one of its characters, and every other character, also a `[` that no `]` closes,
-- is itself.
abbrev pub Reads : ℕ → Text → Text → Type 0
Reads k [] = IsEmpty
Reads (suc k) (c ∷ cs) = Reads k cs
Reads zero (c ∷ cs) = elim (c == b'*') [
  | true ↦ Some (Reads 0 cs)
  | false ↦ elim (c == b'?') [
    | true ↦ One any (Reads 0 cs)
    | false ↦ elim (c == b'[') [
      | true ↦ elim (parse_class cs) [
        | some (tok, after) ↦ One tok (Reads after cs)
        | none ↦ One (lit b'[') (Reads 0 cs)
      ]
      | false ↦ One (lit c) (Reads 0 cs)
    ]
  ]
]

abbrev pub Same : (Text → Type 0) → (Text → Type 0) → Type 0
Same P Q = (name : Text) → P name ↔ Q name

Then-append : (xs ys : List Tok) (P : Text → Type 0) → Then (xs ++ ys) P ≡ Then xs (Then ys P)
Then-append [] ys P = refl
Then-append (star ∷ xs) ys P = ap Some (Then-append xs ys P)
Then-append (any ∷ xs) ys P = ap (One any) (Then-append xs ys P)
Then-append (lit d ∷ xs) ys P = ap (One (lit d)) (Then-append xs ys P)
Then-append (class n r ∷ xs) ys P = ap (One (class n r)) (Then-append xs ys P)

One-map :
    (t : Tok) (P Q : Text → Type 0)
    → ((name : Text) → P name → Q name)
    → (name : Text) → One t P name
    → One t Q name
One-map t P Q f name (c, rest, e, a, p) = (c, rest, e, a, f rest p)

Same-cons :
    (t : Tok) (ts us : List Tok) (P Q : Text → Type 0)
    → Same (Then ts P) (Then us Q)
    → Same (Then (t ∷ ts) P) (Then (t ∷ us) Q)
Same-cons star ts us P Q same = λ name. (Some-map (λ n. (same n).0), Some-map (λ n. (same n).1))
Same-cons any ts us P Q same = λ name. (
  One-map any (Then ts P) (Then us Q) (λ n. (same n).0) name,
  One-map any (Then us Q) (Then ts P) (λ n. (same n).1) name,
)
Same-cons (lit d) ts us P Q same = λ name. (
  One-map (lit d) (Then ts P) (Then us Q) (λ n. (same n).0) name,
  One-map (lit d) (Then us Q) (Then ts P) (λ n. (same n).1) name,
)
Same-cons (class m r) ts us P Q same = λ name. (
  One-map (class m r) (Then ts P) (Then us Q) (λ n. (same n).0) name,
  One-map (class m r) (Then us Q) (Then ts P) (λ n. (same n).1) name,
)

-- A star after tokens that end in one adds nothing.
Then-Some :
    (ts : List Tok) (P : Text → Type 0)
    → ends_in_star ts ≡ true
    → Same (Then ts P) (Then ts (Some P))
unfolding ends_in_star
Then-Some [] P h = cc
Then-Some (star ∷ []) P h = λ name. (Some-map (λ n. Some-none), Some-Some name)
Then-Some (any ∷ []) P h = cc
Then-Some (lit d ∷ []) P h = cc
Then-Some (class m r ∷ []) P h = cc
Then-Some (t ∷ u ∷ ts) P h = Same-cons t (u ∷ ts) (u ∷ ts) P (Some P) (Then-Some (u ∷ ts) P h)

Same-path : {P Q : Text → Type 0} → P ≡ Q → Same P Q
Same-path {P} e name = (subst (λ R. R name) e, subst (λ R. R name) (sym e))

Then-push_star :
    (ts : List Tok) (P : Text → Type 0) → Same (Then (push_star ts) P) (Then ts (Some P))
unfolding push_star
Then-push_star ts P = elim (Bool-cases (ends_in_star ts)) [
  | inl t ↦ rw t (Then-Some ts P t)
  | inr f ↦ rw f (Same-path (Then-append ts (star ∷ []) P))
]

class_body-class :
    (m : Bool) (n : ℕ) (body : Text) {tok : Tok} {after : ℕ}
    → class_body m n body ≡ some (tok, after)
    → (r : List (ℕ × ℕ)) × (tok ≡ class m r)
unfolding class_body
class_body-class m n body h = elim (Option-cases (body_length body)) [
  | inl e ↦ cc (rw (e, class_body) at h)
  | inr (k, e) ↦ (class_ranges (take k body), cc (rw (e, class_body) at h))
]

parse_class-One :
    (cs : Text) {tok : Tok} {after : ℕ}
    → parse_class cs ≡ some (tok, after)
    → (P : Text → Type 0) → Then (tok ∷ []) P ≡ One tok P
unfolding parse_class
parse_class-One [] h P = cc
parse_class-One (c ∷ cs) h P = elim (Bool-cases (c == b'!')) [
  | inl t ↦ let (r, e) = class_body-class true 1 cs (rw (t, parse_class) at h) in rw e refl
  | inr f ↦ let (r, e) = class_body-class false 0 (c ∷ cs) (rw (f, parse_class) at h) in rw e refl
]

-- A step of the reader, by what it finds and what the character stands for.
next_tok-Same_of :
    (toks : List Tok) (c : ℕ) (cs : Text) {found : List Tok} {after : ℕ} {R : Text → Type 0}
    → next_tok toks c cs ≡ (found, after)
    → Reads 0 (c ∷ cs) ≡ R
    → Same (Then found (Reads after cs)) (Then toks R)
    → Same
        (Then (next_tok toks c cs).0 (Reads (next_tok toks c cs).1 cs))
        (Then toks (Reads 0 (c ∷ cs)))
next_tok-Same_of toks c cs {found = ts} {after = k} found means same =
    subst (λ n. Same (Then n.0 (Reads n.1 cs)) (Then toks (Reads 0 (c ∷ cs)))) (sym found)
      (subst (λ R. Same (Then ts (Reads k cs)) (Then toks R)) (sym means) same)

next_tok-Same :
    (toks : List Tok) (c : ℕ) (cs : Text)
    → Same
        (Then (next_tok toks c cs).0 (Reads (next_tok toks c cs).1 cs))
        (Then toks (Reads 0 (c ∷ cs)))
unfolding next_tok
next_tok-Same toks c cs = elim (Bool-cases (c == b'*')) [
  | inl t ↦
      next_tok-Same_of toks c cs (rw t refl) (rw (t, Reads) refl) (Then-push_star toks (Reads 0 cs))
  | inr f ↦ elim (Bool-cases (c == b'?')) [
    | inl t ↦
        next_tok-Same_of toks c cs (rw (f, t) refl) (rw (f, t, Reads) refl)
          (Same-path (Then-append toks (any ∷ []) (Reads 0 cs)))
    | inr g ↦ elim (Bool-cases (c == b'[')) [
      | inl t ↦ elim (Option-cases (parse_class cs)) [
        | inl e ↦
            next_tok-Same_of toks c cs (rw (f, g, t, e) refl) (rw (f, g, t, e, Reads) refl)
              (Same-path (Then-append toks (lit b'[' ∷ []) (Reads 0 cs)))
        | inr ((tok, after), e) ↦
            next_tok-Same_of toks c cs (rw (f, g, t, e) refl) (rw (f, g, t, e, Reads) refl) (
              Same-path (
                Then-append toks (tok ∷ []) (Reads after cs)
                ∙ ap (Then toks) (parse_class-One cs e (Reads after cs))))
      ]
      | inr h ↦
          next_tok-Same_of toks c cs (rw (f, g, h) refl) (rw (f, g, h, Reads) refl)
            (Same-path (Then-append toks (lit c ∷ []) (Reads 0 cs)))
    ]
  ]
]

Same-trans : {P Q R : Text → Type 0} → Same P Q → Same Q R → Same P R
Same-trans p q name = (λ h. (q name).0 ((p name).0 h), λ h. (p name).1 ((q name).1 h))

tokenize_from-Same :
    (toks : List Tok) (k : ℕ) (cs : Text)
    → Same (Denotes (tokenize_from toks k cs)) (Then toks (Reads k cs))
unfolding tokenize_from
tokenize_from-Same toks k [] = λ name. (λ h. h, λ h. h)
tokenize_from-Same toks (suc k) (c ∷ cs) = tokenize_from-Same toks k cs
tokenize_from-Same toks zero (c ∷ cs) =
    Same-trans (tokenize_from-Same (next_tok toks c cs).0 (next_tok toks c cs).1 cs)
      (next_tok-Same toks c cs)

tokenize-Same : (pattern : Text) → Same (Denotes (tokenize pattern)) (Reads 0 pattern)
unfolding tokenize
tokenize-Same pattern = tokenize_from-Same [] 0 pattern

-- `fnmatchcase` returns, and its answer is true exactly for the names that it stands for.
pub fnmatchcase-Answers :
    (name pattern : Text) → Answers (fnmatchcase name pattern) (Reads 0 pattern name)
unfolding fnmatchcase
fnmatchcase-Answers name pattern =
    let toks = tokenize pattern in
    let fuel = length name * suc (length toks) + length toks in
    let enough : Enough (length toks) (length name) fuel toks name none = record {
      fuelled = omega arith;
      tokens = omega arith;
      characters = omega arith;
      marked = tt;
    } in
    Answers_iff (match_from fuel toks name none)
      (
        λ h. elim h [ inl d ↦ (tokenize-Same pattern name).0 d | inr later ↦ absurd later ],
        λ m. inl ((tokenize-Same pattern name).1 m),
      )
      (match_from-Answers (length toks) (length name) fuel toks name none enough tt)

-- An answer that is right for `P` is there, and true exactly where `P` holds.
pub answer_iff :
    {P : Type 0} (r : Option Bool)
    → Answers r P
    → ((matches : Bool) × (r ≡ some matches)) × ((r ≡ some true) ↔ P)
answer_iff none a = absurd a
answer_iff (some true) a = ((true, refl), (λ e. a, λ p. refl))
answer_iff (some false) a = ((false, refl), (λ e. cc, λ p. absurd (a p)))

pub fnmatchcase-Reads :
    (name pattern : Text)
    → ((matches : Bool) × (fnmatchcase name pattern ≡ some matches))
      × ((fnmatchcase name pattern ≡ some true) ↔ Reads 0 pattern name)
fnmatchcase-Reads name pattern =
    answer_iff (fnmatchcase name pattern) (fnmatchcase-Answers name pattern)
