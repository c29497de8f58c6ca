-- ===== src/Scanner/Config/Trims.antt =====
-- Trimmed lines and their pieces (remy-cc/scanner-core/src/config.rs, `ScanConfig::parse`).
use remy_cc.Prelude.{
  ℕ, ◌≡◌, refl, sym, ap, ◌⊎◌, inl, inr, true, false, some, [], ◌∷◌, ◌++◌, Text, any_if, Bool-cases,
  ◌==◌, arith,
}
use mathlib.Core.List.{append_assoc, append-nil}
use remy_cc.Scanner.Config.{
  is_whitespace, trim_start, trim_end, trim, strip_return, lines_from, split_once, split,
}

-- The end of a text that is trimmed and not empty is the end of a longer one.
pub trim_end-append :
    (s : Text) (d : ℕ) (ds : Text)
    → trim_end (d ∷ ds) ≡ d ∷ ds
    → trim_end (s ++ d ∷ ds) ≡ s ++ d ∷ ds
unfolding trim_end
trim_end-append [] d ds h = h
trim_end-append (c ∷ []) d ds h = rw (h, trim_end) refl
trim_end-append (c ∷ b ∷ s) d ds h = rw (trim_end-append (b ∷ s) d ds h, trim_end) refl

pub trim_end-mark :
    (c : ℕ) (t : Text) → is_whitespace c ≡ false → trim_end t ≡ t → trim_end (c ∷ t) ≡ c ∷ t
unfolding trim_end
trim_end-mark c [] w h = rw w refl
trim_end-mark c (d ∷ ds) w h = trim_end-append (c ∷ []) d ds h

trim_end-tail :
    (c d : ℕ) (ds : Text) → trim_end (c ∷ d ∷ ds) ≡ c ∷ d ∷ ds → trim_end (d ∷ ds) ≡ d ∷ ds
unfolding trim_end
trim_end-tail c d ds h = elim (tails (trim_end (d ∷ ds))) [
  | inl e ↦ elim (Bool-cases (is_whitespace c)) [
    | inl w ↦ cc (rw (e, w) at h)
    | inr w ↦ cc (rw (e, w) at h)
  ]
  | inr (x, xs, e) ↦ let k : c ∷ x ∷ xs ≡ c ∷ d ∷ ds = rw e at h in cc
]
  where
    tails : (t : Text) → (t ≡ []) ⊎ ((x : ℕ) × (xs : Text) × (t ≡ x ∷ xs))
    tails [] = inl refl
    tails (x ∷ xs) = inr (x, xs, refl)

not_return : (c : ℕ) → trim_end (c ∷ []) ≡ c ∷ [] → (c == 13) ≡ false
unfolding trim_end is_whitespace any_if
not_return c h = elim (Bool-cases (c == 13)) [
  | inl t ↦ let e : c ≡ 13 = ground arith in cc (rw e at h)
  | inr f ↦ f
]

pub strip_return-trimmed : (t : Text) → trim_end t ≡ t → strip_return t ≡ t
unfolding strip_return
strip_return-trimmed [] h = refl
strip_return-trimmed (c ∷ []) h = rw (not_return c h) refl
strip_return-trimmed (c ∷ d ∷ ds) h =
    ap (λ z. c ∷ z) (strip_return-trimmed (d ∷ ds) (trim_end-tail c d ds h))

pub trim-trimmed :
    (c : ℕ) (cs : Text)
    → is_whitespace c ≡ false
    → trim_end (c ∷ cs) ≡ c ∷ cs
    → trim (c ∷ cs) ≡ c ∷ cs
unfolding trim trim_start
trim-trimmed c cs w h = rw (w, trim) h

-- No character of the text is the given one.
abbrev pub Lacks : ℕ → Text → Type 0
Lacks sep t = any_if (λ c. c == sep) t ≡ false

pub lines_from-line :
    (t line rest : Text)
    → Lacks 10 t
    → lines_from (t ++ 10 ∷ rest) line ≡ strip_return (line ++ t) ∷ lines_from rest []
unfolding lines_from any_if
lines_from-line [] line rest h =
    ap (λ z. strip_return z ∷ lines_from rest []) (sym (append-nil line))
lines_from-line (c ∷ t) line rest h = elim (Bool-cases (c == 10)) [
  | inl y ↦ cc (rw y at h)
  | inr n ↦
      rw (n, lines_from-line t (line ++ c ∷ []) rest (rw n at h), append_assoc line (c ∷ []) t) refl
]

same_char : (c : ℕ) → (c == c) ≡ true
same_char c = ground arith

pub split_once-first :
    (sep : ℕ) (s t : Text) → Lacks sep s → split_once sep (s ++ sep ∷ t) ≡ some (s, t)
unfolding split_once any_if
split_once-first sep [] t h = rw (same_char sep, split_once) refl
split_once-first sep (c ∷ s) t h = elim (Bool-cases (c == sep)) [
  | inl y ↦ cc (rw y at h)
  | inr n ↦ rw (n, split_once-first sep s t (rw n at h)) refl
]

pub split-first : (sep : ℕ) (s t : Text) → Lacks sep s → split sep (s ++ sep ∷ t) ≡ s ∷ split sep t
unfolding split any_if
split-first sep [] t h = rw (same_char sep, split) refl
split-first sep (c ∷ s) t h = elim (Bool-cases (c == sep)) [
  | inl y ↦ cc (rw y at h)
  | inr n ↦ rw (n, split-first sep s t (rw n at h)) refl
]

pub split-last : (sep : ℕ) (s : Text) → Lacks sep s → split sep s ≡ s ∷ []
unfolding split any_if
split-last sep [] h = refl
split-last sep (c ∷ s) h = elim (Bool-cases (c == sep)) [
  | inl y ↦ cc (rw y at h)
  | inr n ↦ rw (n, split-last sep s (rw n at h)) refl
]
