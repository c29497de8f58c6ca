-- ===== src/Scanner/Hashes/Newlines.antt =====
-- Newlines and whitespace (remy-cc/scanner-core/src/hashes.rs, `translate_newlines`, `symbol_hash`).
use remy_cc.Prelude.{
  ℕ, ◌≡◌, refl, sym, ◌∙◌, ap, subst, inl, inr, true, false, not, ◌&&◌, List, [], ◌∷◌, Text, map,
  select_if, any_if, Bool-cases, if◌then◌else◌, ◌==◌, arith,
}
use remy_cc.Scanner.Config.{is_whitespace}
use remy_cc.Scanner.Hashes.{
  is_python_whitespace, as_bytes, md5_hex, symbol_hash, translate_from, translate_newlines,
}

-- `\n` for each `\r\n`.
unfoldable pub replace_pairs : Text → Text
replace_pairs [] = []
replace_pairs (c ∷ []) = c ∷ []
replace_pairs (c ∷ d ∷ cs) =
    let behind = replace_pairs cs in
    let next = replace_pairs (d ∷ cs) in if (c == 13) && (d == 10) then 10 ∷ behind else c ∷ next

-- `\n` for a `\r`.
abbrev pub newline_for : ℕ → ℕ
newline_for c = if c == 13 then 10 else c

cons-newline_for :
    (c d : ℕ) (s t : Text)
    → d ≡ newline_for c
    → s ≡ map newline_for t
    → d ∷ s ≡ map newline_for (c ∷ t)
cons-newline_for c d s t e h = cc

translate_from-replace : (t : Text) → translate_from t ≡ map newline_for (replace_pairs t)
unfolding translate_from replace_pairs
translate_from-replace [] = refl
translate_from-replace (c ∷ []) = refl
translate_from-replace (c ∷ d ∷ cs) = elim (Bool-cases (c == 13)) [
  | inl r ↦ elim (Bool-cases (d == 10)) [
    | inl n ↦ rw (r, n) (ap (λ z. 10 ∷ z) (translate_from-replace cs))
    | inr n ↦
        rw (r, n)
          (cons-newline_for c 10 (translate_from (d ∷ cs)) (replace_pairs (d ∷ cs)) (rw r refl)
            (translate_from-replace (d ∷ cs)))
  ]
  | inr r ↦ rw r (
      cons-newline_for c c (translate_from (d ∷ cs)) (replace_pairs (d ∷ cs)) (rw r refl)
        (translate_from-replace (d ∷ cs)))
]

no_returns : (t : Text) → any_if (λ c. c == 13) t ≡ false → translate_from t ≡ t
unfolding translate_from any_if
no_returns [] h = refl
no_returns (c ∷ []) h = ground arith
no_returns (c ∷ d ∷ cs) h = elim (Bool-cases (c == 13)) [
  | inl r ↦ cc (rw r at h)
  | inr r ↦ rw r (ap (λ z. c ∷ z) (no_returns (d ∷ cs) (rw r at h)))
]

translate_newlines-loop : (t : Text) → translate_newlines t ≡ translate_from t
unfolding translate_newlines
translate_newlines-loop t = elim (Bool-cases (any_if (λ c. c == 13) t)) [
  | inl r ↦ rw (r, translate_newlines) refl
  | inr r ↦ rw (r, translate_newlines) (sym (no_returns t r))
]

-- Translating the newlines of a source is to replace each `\r\n` by `\n` and then each `\r` that is
-- left by `\n`.
pub translate_newlines-replace :
    (text : Text) → translate_newlines text ≡ map newline_for (replace_pairs text)
translate_newlines-replace text = translate_newlines-loop text ∙ translate_from-replace text

-- What the hash of a symbol is taken of.
kept : Text → Text
kept t = select_if (λ c. not (is_python_whitespace c)) t

kept-space : (c : ℕ) (t : Text) → is_python_whitespace c ≡ true → kept (c ∷ t) ≡ kept t
unfolding kept select_if
kept-space c t w = rw w refl

kept-cons : (c : ℕ) (s t : Text) → kept s ≡ kept t → kept (c ∷ s) ≡ kept (c ∷ t)
unfolding kept select_if
kept-cons c s t e = elim (Bool-cases (is_python_whitespace c)) [
  | inl w ↦ rw w e
  | inr w ↦ rw w (ap (λ z. c ∷ z) e)
]

newline_space : (c : ℕ) → (c == 10) ≡ true → is_python_whitespace c ≡ true
unfolding is_python_whitespace is_whitespace any_if
newline_space c h =
    let e : c ≡ 10 = ground arith in subst (λ z. is_python_whitespace z ≡ true) (sym e) refl

return_space : (c : ℕ) → (c == 13) ≡ true → is_python_whitespace c ≡ true
unfolding is_python_whitespace is_whitespace any_if
return_space c h =
    let e : c ≡ 13 = ground arith in subst (λ z. is_python_whitespace z ≡ true) (sym e) refl

kept-newline :
    (c : ℕ) (s t : Text) → (c == 13) ≡ true → kept s ≡ kept t → kept (10 ∷ s) ≡ kept (c ∷ t)
kept-newline c s t r e =
    kept-space 10 s (newline_space 10 refl) ∙ e ∙ sym (kept-space c t (return_space c r))

kept-translate_from : (t : Text) → kept (translate_from t) ≡ kept t
unfolding translate_from
kept-translate_from [] = refl
kept-translate_from (c ∷ []) = elim (Bool-cases (c == 13)) [
  | inl r ↦ rw r (kept-newline c [] [] r refl)
  | inr r ↦ rw r refl
]
kept-translate_from (c ∷ d ∷ cs) = elim (Bool-cases (c == 13)) [
  | inl r ↦ elim (Bool-cases (d == 10)) [
    | inl n ↦
        rw (r, n)
          (kept-newline c (translate_from cs) (d ∷ cs) r
            (kept-translate_from cs ∙ sym (kept-space d cs (newline_space d n))))
    | inr n ↦
        rw (r, n)
          (kept-newline c (translate_from (d ∷ cs)) (d ∷ cs) r (kept-translate_from (d ∷ cs)))
  ]
  | inr r ↦ rw r (kept-cons c (translate_from (d ∷ cs)) (d ∷ cs) (kept-translate_from (d ∷ cs)))
]

-- Translating the newlines of a text does not change its hash as a symbol, whatever the digest.
pub symbol_hash-translate_newlines :
    (digest : List ℕ → List ℕ) (text : Text)
    → symbol_hash digest (translate_newlines text) ≡ symbol_hash digest text
unfolding symbol_hash kept
symbol_hash-translate_newlines digest text =
    ap (λ z. symbol_hash digest z) (translate_newlines-loop text)
    ∙ ap (λ z. md5_hex digest (as_bytes z)) (kept-translate_from text)
