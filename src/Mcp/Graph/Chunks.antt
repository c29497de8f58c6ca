-- ===== src/Mcp/Graph/Chunks.antt =====
-- The chunks of a list hold its elements (remy-cc/src/mcp/graph.rs, `chunks(CHUNK)`).
use remy_cc.Prelude.{ℕ, zero, suc, refl, subst, ◌↔◌, ◌⊎◌, inl, inr, List, [], ◌∷◌, ◌++◌, Text, Memᴰ}
use mathlib.Core.List.Memᴰ
use remy_cc.Mcp.Graph.{chunks_from, chunks}

abbrev pub InSome : Text → List (List Text) → Type 0
InSome v chunks = (chunk : List Text) × Memᴰ chunk chunks × Memᴰ v chunk

InSome-later :
    {v : Text} {chunk : List Text} {chunks : List (List Text)}
    → InSome v chunks
    → InSome v (chunk ∷ chunks)
InSome-later (c, m, k) = (c, Memᴰ.tail m, k)

chunks_from-InSome :
    (room : ℕ) (chunk ts : List Text) {v : Text}
    → Memᴰ v chunk ⊎ Memᴰ v ts
    → InSome v (chunks_from room chunk ts)
unfolding chunks_from
chunks_from-InSome room chunk [] m = elim m [
  | inl here ↦ (chunk, Memᴰ.head refl, here)
  | inr there ↦ absurd (Memᴰ.not-nil there)
]
chunks_from-InSome zero chunk (t ∷ ts) m = elim m [
  | inl here ↦ (chunk, Memᴰ.head refl, here)
  | inr there ↦ InSome-later (
      chunks_from-InSome 399 (t ∷ []) ts
        (elim (Memᴰ.cases_cons there) [ inl e ↦ inl (Memᴰ.head e) | inr later ↦ inr later ]))
]
chunks_from-InSome (suc room) chunk (t ∷ ts) m =
    chunks_from-InSome room (chunk ++ t ∷ []) ts (elim m [
      | inl here ↦ inl (Memᴰ.append_left (t ∷ []) here)
      | inr there ↦ elim (Memᴰ.cases_cons there) [
        | inl e ↦ inl (Memᴰ.append_right chunk (Memᴰ.head e))
        | inr later ↦ inr later
      ]
    ])

mem-chunks_from :
    (room : ℕ) (chunk ts : List Text) {v : Text}
    → InSome v (chunks_from room chunk ts)
    → Memᴰ v chunk ⊎ Memᴰ v ts
unfolding chunks_from
mem-chunks_from room chunk [] {v} (c, m, k) = inl (subst (λ z. Memᴰ v z) (Memᴰ.eq_of_singleton m) k)
mem-chunks_from zero chunk (t ∷ ts) {v} (c, m, k) = elim (Memᴰ.cases_cons m) [
  | inl e ↦ inl (subst (λ z. Memᴰ v z) e k)
  | inr later ↦ elim (mem-chunks_from 399 (t ∷ []) ts (c, later, k)) [
    | inl here ↦ inr (Memᴰ.head (Memᴰ.eq_of_singleton here))
    | inr there ↦ inr (Memᴰ.tail there)
  ]
]
mem-chunks_from (suc room) chunk (t ∷ ts) m = elim (mem-chunks_from room (chunk ++ t ∷ []) ts m) [
  | inl here ↦ elim (Memᴰ.append_cases chunk here) [
    | inl old ↦ inl old
    | inr new ↦ inr (Memᴰ.head (Memᴰ.eq_of_singleton new))
  ]
  | inr there ↦ inr (Memᴰ.tail there)
]

-- The chunks together hold the list.
pub mem-chunks : (ts : List Text) (v : Text) → Memᴰ v ts ↔ InSome v (chunks ts)
unfolding chunks
mem-chunks [] v = (λ m. absurd (Memᴰ.not-nil m), λ (c, m, k). absurd (Memᴰ.not-nil m))
mem-chunks (t ∷ ts) v = (
  λ m.
      chunks_from-InSome 399 (t ∷ []) ts
        (elim (Memᴰ.cases_cons m) [ inl e ↦ inl (Memᴰ.head e) | inr later ↦ inr later ]),
  λ m. elim (mem-chunks_from 399 (t ∷ []) ts m) [
    | inl here ↦ Memᴰ.head (Memᴰ.eq_of_singleton here)
    | inr there ↦ Memᴰ.tail there
  ],
)
