-- ===== src/Scanner/Fnmatch/Literal.antt =====
-- Patterns without `*`, `?` and `]` (remy-cc/scanner-core/src/fnmatch.rs): no class can close.
use remy_cc.Prelude.{
  ℕ, suc, Bool, true, false, ◌≡◌, refl, sym, subst, ap, ◌∙◌, ◌↔◌, inl, inr, none, some, [], ◌∷◌,
  Text, arith, Bool-cases, ◌==◌, ==_iff, any_if, ◌||◌,
}
use mathlib.Core.Option
use remy_cc.Scanner.Fnmatch.{lit, close_index, body_length, class_body, parse_class, fnmatchcase}
use remy_cc.Scanner.Fnmatch.Denotes.{One, accepts}
use remy_cc.Scanner.Fnmatch.Reads.{Reads, fnmatchcase-Reads}

-- The characters that give a pattern a meaning other than its text.
abbrev pub is_special : ℕ → Bool
is_special c = (c == b'*') || ((c == b'?') || (c == b']'))

record IsPlain (c : ℕ) (cs : Text) : Type 0 where
  no_star : (c == b'*') ≡ false
  no_any : (c == b'?') ≡ false
  no_close : (c == b']') ≡ false
  rest : any_if is_special cs ≡ false

IsPlain-of : (c : ℕ) (cs : Text) → any_if is_special (c ∷ cs) ≡ false → IsPlain c cs
unfolding any_if
IsPlain-of c cs h = record {
  no_star = ground arith;
  no_any = ground arith;
  no_close = ground arith;
  rest = ground arith;
}

close_index-none : (cs : Text) → any_if is_special cs ≡ false → close_index cs ≡ none
unfolding close_index
close_index-none [] h = refl
close_index-none (c ∷ cs) h =
    let plain = IsPlain-of c cs h in
    rw (plain.no_close, close_index) (ap (Option.map suc) (close_index-none cs plain.rest))

class_body-none :
    (m : Bool) (n : ℕ) (cs : Text) → any_if is_special cs ≡ false → class_body m n cs ≡ none
unfolding class_body body_length
class_body-none m n [] h = refl
class_body-none m n (c ∷ cs) h = rw (close_index-none cs (IsPlain-of c cs h).rest, class_body) refl

parse_class-none : (cs : Text) → any_if is_special cs ≡ false → parse_class cs ≡ none
unfolding parse_class
parse_class-none [] h = refl
parse_class-none (c ∷ cs) h = elim (Bool-cases (c == b'!')) [
  | inl t ↦ rw (t, parse_class) (class_body-none true 1 cs (IsPlain-of c cs h).rest)
  | inr f ↦ rw (f, parse_class) (class_body-none false 0 (c ∷ cs) h)
]

Reads-cons :
    (c : ℕ) (cs : Text)
    → any_if is_special (c ∷ cs) ≡ false
    → Reads 0 (c ∷ cs) ≡ One (lit c) (Reads 0 cs)
Reads-cons c cs h =
    let plain = IsPlain-of c cs h in
    elim (Bool-cases (c == b'[')) [
      | inl t ↦
          let e : c ≡ b'[' = ground arith in
          rw (plain.no_star, plain.no_any, t, parse_class-none cs plain.rest, e, Reads) refl
      | inr f ↦ rw (plain.no_star, plain.no_any, f, Reads) refl
    ]

One-literal :
    {P : Text → Type 0} (c : ℕ) (cs : Text) (name : Text)
    → ((rest : Text) → P rest ↔ (rest ≡ cs))
    → One (lit c) P name ↔ (name ≡ c ∷ cs)
unfolding accepts
One-literal c cs name same = (
  λ (d, rest, e, a, p). e ∙ cong2 (sym ((==_iff c d).0 a)) ((same rest).0 p),
  λ e. (c, cs, e, (==_iff c c).1 refl, (same cs).1 refl),
)
  where
    cong2 : {d c : ℕ} {ds cs : Text} → d ≡ c → ds ≡ cs → d ∷ ds ≡ c ∷ cs
    cong2 e f = cc

Reads-literal :
    (pattern name : Text)
    → any_if is_special pattern ≡ false
    → Reads 0 pattern name ↔ (name ≡ pattern)
Reads-literal [] name h = (λ e. e, λ e. e)
Reads-literal (c ∷ cs) name h =
    subst (λ P. P name ↔ (name ≡ c ∷ cs)) (sym (Reads-cons c cs h))
      (One-literal c cs name (λ rest. Reads-literal cs rest (IsPlain-of c cs h).rest))

-- A pattern without `*`, `?` and `]` matches its own text only; a `[` in it is not special.
pub fnmatchcase_literal :
    (name pattern : Text)
    → any_if is_special pattern ≡ false
    → (fnmatchcase name pattern ≡ some true) ↔ (name ≡ pattern)
fnmatchcase_literal name pattern h =
    let (to, from) = (fnmatchcase-Reads name pattern).1 in
    let (means, literal) = Reads-literal pattern name h in
    (λ e. means (to e), λ e. from (literal e))
