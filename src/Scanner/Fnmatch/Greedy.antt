-- ===== src/Scanner/Fnmatch/Greedy.antt =====
-- The loop of `fnmatchcase` (remy-cc/scanner-core/src/fnmatch.rs) comes back to the last star only,
-- and finds a match when there is one.
use remy_cc.Prelude.{
  ℕ, zero, suc, ◌+◌, ◌*◌, ◌≤◌, Bool, true, false, ◌≡◌, refl, sym, subst, ◌↔◌, ◌⊎◌, inl, inr, Option,
  none, some, List, [], ◌∷◌, Text, arith, length,
}
use remy_cc.Scanner.Fnmatch.{
  Tok, star, any, lit, class, Verdict, opens, matched, failed, verdict, only_stars, Mark,
  match_from, drop_one,
}
use remy_cc.Scanner.Fnmatch.Denotes.{
  Denotes, Some, Some-none, Some-more, Some-cons, Some-nil, Some-Some, Some-map, Says, verdict_lem,
  only_stars_iff,
}

-- What the loop can still find after it comes back to the star.
abbrev Later : Mark → Type 0
Later none = ⊥
Later (some (rest, name)) = Some (Denotes rest) (drop_one name)

-- What the star finds, the tokens after it find further on.
abbrev pub Covers : Mark → List Tok → Text → Type 0
Covers none ts name = Unit
Covers (some (rest, from)) ts name = Some (Denotes rest) from → Some (Denotes ts) name

Some-drop_one : {P : Text → Type 0} (name : Text) → Some P (drop_one name) → Some P name
unfolding drop_one
Some-drop_one [] s = s
Some-drop_one (c ∷ name) s = Some-more s

Covers-Later :
    (mark : Mark) (ts : List Tok) (name : Text)
    → Covers mark ts name
    → Later mark
    → Some (Denotes ts) name
Covers-Later none ts name covers later = absurd later
Covers-Later (some (rest, from)) ts name covers later = covers (Some-drop_one from later)

-- The answer of a run: it ends, and finds what the tokens, or the star again, denote.
abbrev pub Answers : Option Bool → Type 0 → Type 0
Answers none P = ⊥
Answers (some true) P = P
Answers (some false) P = ¬ P

pub Answers_iff : (r : Option Bool) {P Q : Type 0} → P ↔ Q → Answers r P → Answers r Q
Answers_iff (some true) (to, from) a = to a
Answers_iff (some false) (to, from) a = λ q. a (from q)
Answers_iff none e a = a

abbrev pub Marked : ℕ → ℕ → Mark → Type 0
Marked most longest none = Unit
Marked most longest (some (rest, from)) = (length rest ≤ most) × (length from ≤ longest)

-- A run with this fuel ends: coming back to the star takes a character from `longest`, and any other
-- step takes a token.
pub record Enough (most longest fuel : ℕ) (ts : List Tok) (name : Text) (mark : Mark) : Type 0 where
  pub fuelled : longest * suc most + length ts ≤ fuel
  pub tokens : length ts ≤ most
  pub characters : length name ≤ longest
  pub marked : Marked most longest mark

Verdict-cases :
    (v : Verdict)
    → ((rest : List Tok) × (v ≡ opens rest))
      ⊎ (((rest : List Tok) × (v ≡ matched rest)) ⊎ (v ≡ failed))
Verdict-cases (opens rest) = inl (rest, refl)
Verdict-cases (matched rest) = inr (inl (rest, refl))
Verdict-cases failed = inr (inr refl)

-- The fuel is measured by tokens that `verdict` leaves.
verdict-length :
    (ts : List Tok) (c : ℕ)
    → (rest : List Tok) → (verdict ts c ≡ opens rest) ⊎ (verdict ts c ≡ matched rest)
    → length ts ≡ suc (length rest)
unfolding verdict
verdict-length [] c rest h = ground arith
verdict-length (star ∷ ts) c rest h = ground arith
verdict-length (any ∷ ts) c rest h = ground arith
verdict-length (lit d ∷ ts) c rest h = ground arith
verdict-length (class negated ranges ∷ ts) c rest h = ground arith

module _ (fuel : ℕ) (ts : List Tok) (c : ℕ) (cs : Text) (mark : Mark) where
  match_from-opened :
      {rest : List Tok}
      → verdict ts c ≡ opens rest
      → match_from (suc fuel) ts (c ∷ cs) mark ≡ match_from fuel rest (c ∷ cs) (some (rest, c ∷ cs))
  unfolding match_from
  match_from-opened e = rw (e, match_from) refl

  match_from-matched :
      {rest : List Tok}
      → verdict ts c ≡ matched rest
      → match_from (suc fuel) ts (c ∷ cs) mark ≡ match_from fuel rest cs mark
  unfolding match_from
  match_from-matched e = rw (e, match_from) refl

  match_from-failed :
      verdict ts c ≡ failed → mark ≡ none → match_from (suc fuel) ts (c ∷ cs) mark ≡ some false
  unfolding match_from
  match_from-failed e m = rw (e, m, match_from) refl

  match_from-retried :
      {rest : List Tok} {from : Text}
      → verdict ts c ≡ failed
      → mark ≡ some (rest, from)
      → match_from (suc fuel) ts (c ∷ cs) mark
        ≡ match_from fuel rest (drop_one from) (some (rest, drop_one from))
  unfolding match_from
  match_from-retried e m = rw (e, m, match_from) refl

-- The tokens' denotation or the star, before and after a step of the loop.
module _ (ts : List Tok) (c : ℕ) (cs : Text) (mark : Mark) (covers : Covers mark ts (c ∷ cs)) where
  opened_iff :
      (rest : List Tok)
      → ((name : Text) → Denotes ts name ↔ Some (Denotes rest) name)
      → (Denotes rest (c ∷ cs) ⊎ Some (Denotes rest) cs) ↔ (Denotes ts (c ∷ cs) ⊎ Later mark)
  opened_iff rest says = (
    λ h. elim h [
      | inl d ↦ inl ((says (c ∷ cs)).1 (Some-none d))
      | inr s ↦ inl ((says (c ∷ cs)).1 (Some-more s))
    ],
    λ h. elim h [
      | inl d ↦ Some-cons ((says (c ∷ cs)).0 d)
      | inr later ↦ Some-cons (
          Some-Some (c ∷ cs)
            (Some-map (λ name. (says name).0) (Covers-Later mark ts (c ∷ cs) covers later)))
    ],
  )

  matched_iff :
      (rest : List Tok)
      → (Denotes ts (c ∷ cs) ↔ Denotes rest cs)
      → (Denotes rest cs ⊎ Later mark) ↔ (Denotes ts (c ∷ cs) ⊎ Later mark)
  matched_iff rest (to, from) = (
    λ h. elim h [ inl d ↦ inl (from d) | inr later ↦ inr later ],
    λ h. elim h [ inl d ↦ inl (to d) | inr later ↦ inr later ],
  )

Covers-matched :
    (mark : Mark) (ts rest : List Tok) (c : ℕ) (cs : Text)
    → Covers mark ts (c ∷ cs)
    → (Some (Denotes ts) (c ∷ cs) → Some (Denotes rest) cs)
    → Covers mark rest cs
Covers-matched none ts rest c cs covers next = tt
Covers-matched (some (after, from)) ts rest c cs covers next = λ s. next (covers s)

-- Coming back to the star gives up the place where it stopped before.
retried_iff :
    (ts rest : List Tok) (name from : Text)
    → ¬ Denotes ts name
    → (Denotes rest (drop_one from) ⊎ Some (Denotes rest) (drop_one (drop_one from)))
      ↔ (Denotes ts name ⊎ Some (Denotes rest) (drop_one from))
unfolding drop_one
retried_iff ts rest name from fails = (
  λ h. elim h [ inl d ↦ inr (Some-none d) | inr s ↦ inr (Some-drop_one (drop_one from) s) ],
  λ h. elim h [ inl d ↦ absurd (fails d) | inr s ↦ Some-again (drop_one from) s ],
)
  where
    Some-again : {P : Text → Type 0} (text : Text) → Some P text → P text ⊎ Some P (drop_one text)
    Some-again [] s = inl (Some-nil s)
    Some-again (c ∷ text) s = Some-cons s

Enough-opened :
    (most longest fuel : ℕ) (ts rest : List Tok) (name : Text) (mark : Mark)
    → length ts ≡ suc (length rest)
    → Enough most longest (suc fuel) ts name mark
    → Enough most longest fuel rest name (some (rest, name))
Enough-opened most longest fuel ts rest name mark e enough = record {
  fuelled = omega (arith, e, enough.fuelled);
  tokens = omega (arith, e, enough.tokens);
  characters = enough.characters;
  marked = (omega (arith, e, enough.tokens), enough.characters);
}

Enough-matched :
    (most longest fuel : ℕ) (ts rest : List Tok) (c : ℕ) (cs : Text) (mark : Mark)
    → length ts ≡ suc (length rest)
    → Enough most longest (suc fuel) ts (c ∷ cs) mark
    → Enough most longest fuel rest cs mark
Enough-matched most longest fuel ts rest c cs mark e enough = record {
  fuelled = omega (arith, e, enough.fuelled);
  tokens = omega (arith, e, enough.tokens);
  characters = omega (arith, enough.characters);
  marked = enough.marked;
}

length-drop_one :
    (longest : ℕ) (name : Text) → length name ≤ suc longest → length (drop_one name) ≤ longest
unfolding drop_one
length-drop_one longest [] h = omega arith
length-drop_one longest (c ∷ cs) h = omega (arith, h)

Enough-retried :
    (most longest fuel : ℕ) (ts rest : List Tok) (name from : Text)
    → Enough most (suc longest) (suc fuel) ts name (some (rest, from))
    → Enough most longest fuel rest (drop_one from) (some (rest, drop_one from))
Enough-retried most longest fuel ts rest name from enough =
    let (few, short) = enough.marked in
    let shorter = length-drop_one longest from short in
    record {
      fuelled = omega (arith, few, enough.fuelled);
      tokens = few;
      characters = shorter;
      marked = (few, shorter);
    }

Answers-end :
    (fuel : ℕ) (ts : List Tok) (mark : Mark)
    → Covers mark ts []
    → Answers (match_from fuel ts [] mark) (Denotes ts [] ⊎ Later mark)
unfolding match_from
Answers-end fuel ts mark covers = go (only_stars ts) refl
  where
    go : (b : Bool) → only_stars ts ≡ b → Answers (some b) (Denotes ts [] ⊎ Later mark)
    go true e = inl ((only_stars_iff ts).0 e)
    go false e = λ h. cc (
        (only_stars_iff ts).1
          (elim h [ inl d ↦ d | inr later ↦ Some-nil (Covers-Later mark ts [] covers later) ]))

-- Coming back to the star, or the end of the run without one.
Answers-failed :
    (fuel : ℕ) (ts : List Tok) (c : ℕ) (cs : Text) (mark : Mark)
    → verdict ts c ≡ failed
    → ¬ Denotes ts (c ∷ cs)
    → ((rest : List Tok) (from : Text)
        → mark ≡ some (rest, from)
        → Answers
            (match_from fuel rest (drop_one from) (some (rest, drop_one from)))
            (Denotes rest (drop_one from) ⊎ Some (Denotes rest) (drop_one (drop_one from))))
    → Answers (match_from (suc fuel) ts (c ∷ cs) mark) (Denotes ts (c ∷ cs) ⊎ Later mark)
Answers-failed fuel ts c cs none e fails ih =
    subst (λ r. Answers r (Denotes ts (c ∷ cs) ⊎ ⊥))
      (sym (match_from-failed fuel ts c cs none e refl))
      (λ h. elim h [ inl d ↦ fails d | inr later ↦ later ])
Answers-failed fuel ts c cs (some (rest, from)) e fails ih =
    subst (λ r. Answers r (Denotes ts (c ∷ cs) ⊎ Some (Denotes rest) (drop_one from)))
      (sym (match_from-retried fuel ts c cs (some (rest, from)) e refl))
      (Answers_iff (match_from fuel rest (drop_one from) (some (rest, drop_one from)))
        (retried_iff ts rest (c ∷ cs) from fails) (ih rest from refl))

-- A run of the loop, on enough fuel, ends with the answer.
pub match_from-Answers :
    (most longest fuel : ℕ) (ts : List Tok) (name : Text) (mark : Mark)
    → Enough most longest fuel ts name mark
    → Covers mark ts name
    → Answers (match_from fuel ts name mark) (Denotes ts name ⊎ Later mark)
unfolding drop_one
match_from-Answers most longest fuel ts [] mark enough covers = Answers-end fuel ts mark covers
match_from-Answers most zero fuel ts (c ∷ cs) mark enough covers =
    absurd (omega (arith, enough.characters))
match_from-Answers most (suc longest) zero ts (c ∷ cs) mark enough covers =
    absurd (omega (arith, enough.fuelled))
match_from-Answers most (suc longest) (suc fuel) ts (c ∷ cs) mark enough covers =
    let says = verdict_lem ts c in
    elim (Verdict-cases (verdict ts c)) [
      | inl (rest, e) ↦
          let next =
            Enough-opened most (suc longest) fuel ts rest (c ∷ cs) mark
              (verdict-length ts c rest (inl e)) enough in
          subst (λ r. Answers r (Denotes ts (c ∷ cs) ⊎ Later mark))
            (sym (match_from-opened fuel ts c cs mark e))
            (Answers_iff _
              (opened_iff ts c cs mark covers rest (subst (Says (Denotes ts) c) e says))
              (match_from-Answers most (suc longest) fuel rest (c ∷ cs) (some (rest, c ∷ cs)) next
                (λ s. s)))
      | inr (inl (rest, e)) ↦
          let says = subst (Says (Denotes ts) c) e says in
          let next =
            Enough-matched most (suc longest) fuel ts rest c cs mark
              (verdict-length ts c rest (inr e)) enough in
          subst (λ r. Answers r (Denotes ts (c ∷ cs) ⊎ Later mark))
            (sym (match_from-matched fuel ts c cs mark e))
            (Answers_iff _ (matched_iff ts c cs mark covers rest (says cs).0) (
              match_from-Answers most (suc longest) fuel rest cs mark next
                (Covers-matched mark ts rest c cs covers (says cs).1)))
      | inr (inr e) ↦
          Answers-failed fuel ts c cs mark e (subst (Says (Denotes ts) c) e says cs) (λ rest from m.
            match_from-Answers most longest fuel rest (drop_one from) (some (rest, drop_one from))
              (Enough-retried most longest fuel ts rest (c ∷ cs) from
                (subst (Enough most (suc longest) (suc fuel) ts (c ∷ cs)) m enough))
              (λ s. s))
    ]
