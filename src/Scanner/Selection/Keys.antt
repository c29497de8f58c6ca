-- ===== src/Scanner/Selection/Keys.antt =====
-- The keys of remy-cc/scanner-core/src/selection.rs order the symbols, so a first symbol exists.
use remy_cc.Prelude.{
  ◌≡◌, refl, sym, ◌∙◌, ap, inl, inr, true, false, [], Order, less, length, reversed, cmp_nat,
  cmp_bool, cmp_list, cmp_text, IsComparison, IsComparison-then, IsComparison-opposite,
  IsComparison-on, IsComparison-list, cmp_nat-IsComparison, cmp_bool-IsComparison,
  cmp_text-IsComparison, reflexive, Order-cases, IsStrict,
}
use remy_cc.Scanner.Selection.{
  normalize_signature, or_else, end_of, is_nonempty, extent_span, stable_key_cmp, source_extent_cmp,
  is_less,
}

texts-IsComparison : IsComparison (cmp_list cmp_text)
texts-IsComparison = IsComparison-list cmp_text cmp_text-IsComparison

pub stable_key_cmp-IsComparison : IsComparison stable_key_cmp
unfolding stable_key_cmp
stable_key_cmp-IsComparison =
    IsComparison-then _ _ (IsComparison-on (λ s. s.lineno) cmp_nat cmp_nat-IsComparison) (
      IsComparison-then _ _ (IsComparison-on end_of cmp_nat cmp_nat-IsComparison) (
        IsComparison-then _ _ (IsComparison-on (λ s. s.name) cmp_text cmp_text-IsComparison) (
          IsComparison-then _ _ (IsComparison-on (λ s. s.sym_type) cmp_text cmp_text-IsComparison) (
            IsComparison-then _ _
              (IsComparison-on (λ s. normalize_signature s.args) cmp_text cmp_text-IsComparison)
              (IsComparison-then _ _
                (IsComparison-on (λ s. s.source_segment) cmp_text cmp_text-IsComparison)
                (IsComparison-then _ _
                  (IsComparison-on (λ s. or_else [] s.docstring) cmp_text cmp_text-IsComparison)
                  (IsComparison-on (λ s. or_else [] s.bases) (cmp_list cmp_text)
                    texts-IsComparison)))))))

pub source_extent_cmp-IsComparison : IsComparison source_extent_cmp
unfolding source_extent_cmp
source_extent_cmp-IsComparison =
    IsComparison-then _ _
      (IsComparison-opposite _
        (IsComparison-on (λ s. is_nonempty s.source_segment) cmp_bool cmp_bool-IsComparison))
      (IsComparison-then _ _
        (IsComparison-opposite _ (IsComparison-on extent_span cmp_nat cmp_nat-IsComparison))
        (IsComparison-then _ _
          (IsComparison-opposite _
            (IsComparison-on (λ s. length s.source_segment) cmp_nat cmp_nat-IsComparison))
          stable_key_cmp-IsComparison))

module _ {A : Type 0} (c : A → A → Order) (law : IsComparison c) where
  asym_less : (a b : A) → is_less (c a b) ≡ true → is_less (c b a) ≡ false
  unfolding reversed
  asym_less a b h = elim (Order-cases (c a b)) [
    | inl e ↦ rw (law.flip a b, e) refl
    | inr (inl e) ↦ cc (rw e at h)
    | inr (inr e) ↦ cc (rw e at h)
  ]

  clash : (a b d : A) → is_less (c a b) ≡ false → is_less (c b d) ≡ false → ¬ (c a d ≡ less)
  unfolding reversed
  clash a b d h k e = elim (Order-cases (c a b)) [
    | inl l ↦ cc (rw l at h)
    | inr (inl l) ↦ let m : c b d ≡ less = sym (law.same a b l d) ∙ e in cc (rw m at k)
    | inr (inr l) ↦
        let m : c b d ≡ less = law.trans b a d (law.flip a b ∙ ap reversed l) e in cc (rw m at k)
  ]

  -- What is not less than `b`, with `b` not less than `d`, is not less than `d`.
  not_less_trans :
      (a b d : A) → is_less (c a b) ≡ false → is_less (c b d) ≡ false → is_less (c a d) ≡ false
  not_less_trans a b d h k = elim (Order-cases (c a d)) [
    | inl e ↦ absurd (clash a b d h k e)
    | inr (inl e) ↦ rw e refl
    | inr (inr e) ↦ rw e refl
  ]

  pub is_less-IsStrict : IsStrict (λ a b. is_less (c a b))
  is_less-IsStrict = record {
    irrefl = λ a. rw (reflexive c law a) refl;
    asym = asym_less;
    trans = not_less_trans;
  }
