-- ===== src/Scanner/Language/Longest.antt =====
-- `Language::resolve` takes the longest extension, and the ids name the languages
-- (remy-cc/scanner-core/src/language.rs).
use remy_cc.Prelude.{
  ◌≤◌, ◌≡◌, refl, sym, ◌∙◌, ap, subst, inl, inr, ◌↔◌, true, false, Option, none, some, List, [],
  ◌∷◌, ◌++◌, Text, codes, Memᴰ, arith, text_eq, text_eq_iff, Bool-cases, if◌then◌else◌, leb, length,
}
use mathlib.Core.List.{append-nil, append_assoc}
use mathlib.Core.List.Memᴰ
use mathlib.Core.Option
use remy_cc.Scanner.Language.{
  Language, c_cpp, python, ts, rust, extensions, ends_with, Best, better, resolve_from, resolve,
  language_id, from_language_id,
}

-- The longest extension of a table that the name ends with, or that it ends with none.
abbrev pub IsLongest : Text → List (Text × Language) → Best → Type 0
IsLongest f table none = (e : Text × Language) → Memᴰ e table → ends_with f e.0 ≡ false
IsLongest f table (some (ext, language)) =
    Memᴰ (ext, language) table
    × (ends_with f ext ≡ true)
    × ((e : Text × Language) → Memᴰ e table → ends_with f e.0 ≡ true → length e.0 ≤ length ext)

-- An extension that the name does not end with changes nothing.
IsLongest-other :
    (f : Text) (table : List (Text × Language)) (best : Best) (e : Text × Language)
    → ends_with f e.0 ≡ false
    → IsLongest f table best
    → IsLongest f (table ++ e ∷ []) best
IsLongest-other f table none e other h = λ x m. elim (Memᴰ.append_cases table m) [
  | inl old ↦ h x old
  | inr new ↦ subst (λ z. ends_with f z.0 ≡ false) (sym (Memᴰ.eq_of_singleton new)) other
]
IsLongest-other f table (some b) e other (m, t, longest) = (
  Memᴰ.append_left (e ∷ []) m,
  t,
  λ x k u. elim (Memᴰ.append_cases table k) [
    | inl old ↦ longest x old u
    | inr new ↦ cc (subst (λ z. ends_with f z.0 ≡ true) (Memᴰ.eq_of_singleton new) u)
  ],
)

-- The longest so far, when the new one is as long as any or not longer.
IsLongest-better :
    (f : Text) (table : List (Text × Language)) (best : Best) (e : Text × Language)
    → ends_with f e.0 ≡ true
    → IsLongest f table best
    → IsLongest f (table ++ e ∷ []) (better best e)
unfolding better
IsLongest-better f table none e at_end h = (
  Memᴰ.append_right table (Memᴰ.head refl),
  at_end,
  λ x k u. elim (Memᴰ.append_cases table k) [
    | inl old ↦ cc (h x old)
    | inr new ↦ subst (λ z. length z.0 ≤ length e.0) (sym (Memᴰ.eq_of_singleton new)) (omega arith)
  ],
)
IsLongest-better f table (some (prev, l)) (ext, language) at_end (m, t, longest) =
    elim (Bool-cases (leb (length ext) (length prev))) [
      | inl le ↦ rw le (
        Memᴰ.append_left ((ext, language) ∷ []) m,
        t,
        λ x k u. elim (Memᴰ.append_cases table k) [
          | inl old ↦ longest x old u
          | inr new ↦
              subst (λ z. length z.0 ≤ length prev) (sym (Memᴰ.eq_of_singleton new)) (ground arith)
        ],
      )
      | inr gt ↦ rw gt (
        Memᴰ.append_right table (Memᴰ.head refl),
        at_end,
        λ x k u. elim (Memᴰ.append_cases table k) [
          | inl old ↦ let le = longest x old u in ground arith
          | inr new ↦
              subst (λ z. length z.0 ≤ length ext) (sym (Memᴰ.eq_of_singleton new)) (omega arith)
        ],
      )
    ]

resolve_from-IsLongest :
    (f : Text) (seen rest : List (Text × Language)) (best : Best)
    → IsLongest f seen best
    → IsLongest f (seen ++ rest) (resolve_from f best rest)
unfolding resolve_from
resolve_from-IsLongest f seen [] best h = subst (λ z. IsLongest f z best) (sym (append-nil seen)) h
resolve_from-IsLongest f seen ((ext, language) ∷ rest) best h =
    let best' = if ends_with f ext then better best (ext, language) else best in
    subst (λ z. IsLongest f z (resolve_from f best' rest))
      (append_assoc seen ((ext, language) ∷ []) rest)
      (resolve_from-IsLongest f (seen ++ (ext, language) ∷ []) rest best'
        (elim (Bool-cases (ends_with f ext)) [
          | inl t ↦ rw t (IsLongest-better f seen best (ext, language) t h)
          | inr n ↦ rw n (IsLongest-other f seen best (ext, language) n h)
        ]))

-- The language of a file name.
abbrev pub Resolves : Text → Option Language → Type 0
Resolves f none = IsLongest f extensions none
Resolves f (some language) = (ext : Text) × IsLongest f extensions (some (ext, language))

-- A file name has the language of the longest extension of the table that it ends with, and none when
-- it ends with no extension of the table.
pub resolve-Resolves : (filename : Text) → Resolves filename (resolve filename)
unfolding resolve
resolve-Resolves filename =
    go (resolve_from filename none extensions)
      (resolve_from-IsLongest filename [] extensions none (λ e m. absurd (Memᴰ.not-nil m)))
  where
    go :
        (best : Best)
        → IsLongest filename extensions best
        → Resolves filename (Option.map (λ e. e.1) best)
    go none h = h
    go (some (ext, language)) h = (ext, h)

named :
    {id : Text} {language : Language} (l : Language)
    → text_eq id (language_id l) ≡ true
    → some l ≡ some language
    → language_id language ≡ id
named {id} {language} l t e =
    let same : l ≡ language = cc in
    ap language_id (sym same) ∙ sym ((text_eq_iff id (language_id l)).0 t)

read_back : (language : Language) → from_language_id (language_id language) ≡ some language
unfolding from_language_id language_id text_eq
read_back c_cpp = refl
read_back python = refl
read_back ts = refl
read_back rust = refl

-- The id of a language, and no other text, reads back as the language.
pub from_language_id_iff :
    (id : Text) (language : Language)
    → (from_language_id id ≡ some language) ↔ (language_id language ≡ id)
unfolding from_language_id language_id
from_language_id_iff id language = (
  λ h. elim (Bool-cases (text_eq id (codes "CCppParser"))) [
    | inl t ↦ named c_cpp t (rw t at h)
    | inr f ↦ elim (Bool-cases (text_eq id (codes "PythonParser"))) [
      | inl t ↦ named python t (rw (f, t) at h)
      | inr g ↦ elim (Bool-cases (text_eq id (codes "TSParser"))) [
        | inl t ↦ named ts t (rw (f, g, t) at h)
        | inr k ↦ elim (Bool-cases (text_eq id (codes "RustParser"))) [
          | inl t ↦ named rust t (rw (f, g, k, t) at h)
          | inr l ↦ cc (rw (f, g, k, l) at h)
        ]
      ]
    ]
  ],
  λ e. subst (λ z. from_language_id z ≡ some language) e (read_back language),
)
