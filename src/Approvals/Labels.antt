-- ===== src/Approvals/Labels.antt =====
-- A text that strings.TrimSpace leaves has a character other than the space, so that btrim of the
-- database leaves something of it.
use wf_all.Prelude.{
  ◌≡◌, refl, ◌∙◌, ap, subst, Bool, true, false, not, ◌||◌, [], ◌∷◌, ◌++◌, Text, any, ◌==◌, is_space,
  drop_space, trim, is_empty, arith, Bool-cases, inl, inr, ◌⊎◌,
}
use mathlib.Core.List.{reverse, reverse-cons}

-- char_length(btrim(t)) is not zero.
abbrev pub shows : Text → Bool
shows t = any (λ c. not (c == 32)) t

shows-append : (s t : Text) → shows (s ++ t) ≡ (shows s || shows t)
shows-append [] t = refl
shows-append (c ∷ s) t = ground (arith, shows-append s t)

shows-reverse : (s : Text) → shows (reverse s) ≡ shows s
shows-reverse [] = refl
shows-reverse (c ∷ s) =
    ap shows (reverse-cons c s) ∙ ground (arith, shows-append (reverse s) (c ∷ []), shows-reverse s)

shows-drop_space : (s : Text) → (drop_space s ≡ []) ⊎ (shows (drop_space s) ≡ true)
unfolding drop_space is_space
shows-drop_space [] = inl refl
shows-drop_space (c ∷ s) = elim (Bool-cases (is_space c)) [
  | inl e ↦ rw e (shows-drop_space s)
  | inr e ↦ rw e (inr (ground arith))
]

pub shows-trim : (s : Text) → is_empty (trim s) ≡ false → shows (trim s) ≡ true
unfolding trim
shows-trim s h = elim (shows-drop_space (reverse (drop_space s))) [
  | inl e ↦ absurd (ground (arith, subst (λ x. is_empty (reverse x) ≡ false) e h))
  | inr e ↦ shows-reverse (drop_space (reverse (drop_space s))) ∙ e
]
