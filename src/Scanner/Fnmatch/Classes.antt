-- ===== src/Scanner/Fnmatch/Classes.antt =====
-- The classes of a pattern, read off its characters, against `parse_class`
-- (remy-cc/scanner-core/src/fnmatch.rs).
use remy_cc.Prelude.{
  ℕ, suc, ◌+◌, Bool, true, false, ◌≡◌, refl, sym, subst, ap, ◌∙◌, inl, inr, Option, some, [], ◌∷◌,
  ◌++◌, Text, Bool-cases, Option-cases, ◌==◌, ==_iff, length, take, any_if,
}
use mathlib.Core.Option
use remy_cc.Scanner.Fnmatch.{
  Tok, class, parse_class, class_body, class_ranges, body_length, close_index,
}

abbrev pub bang : Bool → Text
bang true = b'!' ∷ []
bang false = []

-- Behind a `[`: a `!` if the set is negated, the set, and the first `]` that is not its first character.
pub record Closes (cs : Text) (negated : Bool) (set : Text) (after : ℕ) : Type 0 where
  pub first : ℕ
  pub others : Text
  pub rest : Text
  pub set_is : set ≡ first ∷ others
  pub split : cs ≡ bang negated ++ (set ++ b']' ∷ rest)
  pub sole : any_if (λ c. c == b']') others ≡ false
  pub unmarked : negated ≡ false → (first == b'!') ≡ false
  pub taken : after ≡ length (bang negated) + length set + 1

-- The first `]` of a text is `n` characters in.
abbrev Splits : Text → ℕ → Type 0
Splits t n =
    (rest : Text) × (t ≡ take n t ++ b']' ∷ rest)
    × (any_if (λ c. c == b']') (take n t) ≡ false)
    × (length (take n t) ≡ n)

close_index-Splits : (t : Text) (n : ℕ) → close_index t ≡ some n → Splits t n
unfolding close_index any_if
close_index-Splits [] n h = cc h
close_index-Splits (c ∷ cs) n h = elim (Bool-cases (c == b']')) [
  | inl t ↦
      let e : some 0 ≡ some n = rw (t, close_index) at h in
      let zero_is : 0 ≡ n = cc in
      subst (Splits (c ∷ cs)) zero_is (cs, ap (λ z. z ∷ cs) ((==_iff c b']').0 t), refl, refl)
  | inr f ↦ elim (Option-cases (close_index cs)) [
    | inl e ↦ cc (rw (f, e, close_index) at h)
    | inr (m, e) ↦
        let same : some (suc m) ≡ some n = rw (f, e, close_index) at h in
        let suc_is : suc m ≡ n = cc in
        let (rest, split, lacks, len) = close_index-Splits cs m e in
        subst (Splits (c ∷ cs)) suc_is (rest, ap (λ z. c ∷ z) split, rw f lacks, ap suc len)
  ]
]

close_index-append :
    (s rest : Text)
    → any_if (λ c. c == b']') s ≡ false
    → close_index (s ++ b']' ∷ rest) ≡ some (length s)
unfolding close_index any_if
close_index-append [] rest h = refl
close_index-append (c ∷ s) rest h = elim (Bool-cases (c == b']')) [
  | inl t ↦ cc (rw t at h)
  | inr f ↦ rw (f, close_index) (ap (Option.map suc) (close_index-append s rest (rw f at h)))
]

take-append : (s t : Text) → take (length s) (s ++ t) ≡ s
take-append [] t = refl
take-append (c ∷ s) t = ap (λ z. c ∷ z) (take-append s t)

class_body-some :
    (m : Bool) (before : ℕ) (body : Text) {n : ℕ}
    → body_length body ≡ some n
    → class_body m before body ≡ some (class m (class_ranges (take n body)), before + n + 1)
unfolding class_body
class_body-some m before body e = rw (e, class_body) refl

body_length-closed :
    (first : ℕ) (others rest : Text)
    → any_if (λ c. c == b']') others ≡ false
    → body_length ((first ∷ others) ++ b']' ∷ rest) ≡ some (length (first ∷ others))
unfolding body_length
body_length-closed first others rest h = ap (Option.map suc) (close_index-append others rest h)

-- A set that is closed is what `parse_class` finds.
class_body-closed :
    (m : Bool) (before first : ℕ) (others rest : Text)
    → any_if (λ c. c == b']') others ≡ false
    → class_body m before ((first ∷ others) ++ b']' ∷ rest)
      ≡ some (class m (class_ranges (first ∷ others)), before + length (first ∷ others) + 1)
class_body-closed m before first others rest h =
    class_body-some m before ((first ∷ others) ++ b']' ∷ rest)
      (body_length-closed first others rest h)
    ∙ ap (λ z. some (class m (class_ranges z), before + length (first ∷ others) + 1))
        (take-append (first ∷ others) (b']' ∷ rest))

parse_class-bang : (cs : Text) → parse_class (b'!' ∷ cs) ≡ class_body true 1 cs
unfolding parse_class
parse_class-bang cs = refl

parse_class-plain :
    (c : ℕ) (cs : Text) → (c == b'!') ≡ false → parse_class (c ∷ cs) ≡ class_body false 0 (c ∷ cs)
unfolding parse_class
parse_class-plain c cs f = rw (f, parse_class) refl

pub Closes-parse_class :
    (cs : Text) (negated : Bool) (set : Text) (after : ℕ)
    → Closes cs negated set after
    → parse_class cs ≡ some (class negated (class_ranges set), after)
Closes-parse_class cs true set after k =
    ap parse_class (k.split ∙ ap (λ z. b'!' ∷ z ++ b']' ∷ k.rest) k.set_is)
    ∙ parse_class-bang ((k.first ∷ k.others) ++ b']' ∷ k.rest)
    ∙ class_body-closed true 1 k.first k.others k.rest k.sole
    ∙ ap (λ z. some (class true (class_ranges z), 1 + length z + 1)) (sym k.set_is)
    ∙ ap (λ z. some (class true (class_ranges set), z)) (sym k.taken)
Closes-parse_class cs false set after k =
    ap parse_class (k.split ∙ ap (λ z. z ++ b']' ∷ k.rest) k.set_is)
    ∙ parse_class-plain k.first (k.others ++ b']' ∷ k.rest) (k.unmarked refl)
    ∙ class_body-closed false 0 k.first k.others k.rest k.sole
    ∙ ap (λ z. some (class false (class_ranges z), 0 + length z + 1)) (sym k.set_is)
    ∙ ap (λ z. some (class false (class_ranges set), z)) (sym k.taken)

pub found_parts :
    {t u : Tok} {m n : ℕ} {found : Option (Tok × ℕ)}
    → found ≡ some (t, m)
    → found ≡ some (u, n)
    → (t ≡ u) × (m ≡ n)
found_parts e h = (cc, cc)

-- What `parse_class` finds is a set that is closed.
abbrev pub Found : Text → Tok → ℕ → Type 0
Found cs tok after =
    (negated : Bool) × (set : Text) × Closes cs negated set after
    × (tok ≡ class negated (class_ranges set))

class_body-Found :
    (m : Bool) (cs body : Text) {tok : Tok} {after : ℕ}
    → cs ≡ bang m ++ body
    → ((c : ℕ) (rest : Text) → body ≡ c ∷ rest → m ≡ false → (c == b'!') ≡ false)
    → class_body m (length (bang m)) body ≡ some (tok, after)
    → Found cs tok after
unfolding class_body body_length
class_body-Found m cs [] e plain h = cc h
class_body-Found m cs (c ∷ rest) {tok} {after} e plain h = elim (Option-cases (close_index rest)) [
  | inl none_there ↦ cc (rw (none_there, class_body) at h)
  | inr (n, there) ↦
      let (tok_is, after_is) =
        found_parts (class_body-some m (length (bang m)) (c ∷ rest) (rw there refl)) h in
      let (tail, split, lacks, len) = close_index-Splits rest n there in
      (
        m,
        c ∷ take n rest,
        record {
          first = c;
          others = take n rest;
          rest = tail;
          set_is = refl;
          split = e ∙ ap (λ z. bang m ++ c ∷ z) split;
          sole = lacks;
          unmarked = plain c rest refl;
          taken = sym after_is ∙ ap (λ z. length (bang m) + suc z + 1) (sym len);
        },
        sym tok_is,
      )
]

pub parse_class-Found :
    (cs : Text) {tok : Tok} {after : ℕ} → parse_class cs ≡ some (tok, after) → Found cs tok after
unfolding parse_class
parse_class-Found [] h = cc h
parse_class-Found (c ∷ cs) h = elim (Bool-cases (c == b'!')) [
  | inl t ↦
      class_body-Found true (c ∷ cs) cs (ap (λ z. z ∷ cs) ((==_iff c b'!').0 t)) (λ d rest e m. cc)
        (rw (t, parse_class) at h)
  | inr f ↦
      class_body-Found false (c ∷ cs) (c ∷ cs) refl
        (λ d rest e m. let same : c ≡ d = cc in subst (λ z. (z == b'!') ≡ false) same f)
        (rw (f, parse_class) at h)
]
