-- ===== src/RfValidation/Correlate/Manual.antt =====
-- `_manual_by_template_key`: which observation counts for a key.
use srhc_observability_claud.Prelude.{
  ◌≡◌, refl, ap, ◌∙◌, ◌⊎◌, inl, inr, true, false, Bool-cases, Option, none, some, List, [], ◌∷◌,
  ◌++◌,
}
use srhc_observability_claud.Prelude.Select.{All}
use srhc_observability_claud.RfValidation.Models.{ManualObservation}
use srhc_observability_claud.RfValidation.Correlate.{
  ManualIndex, TemplateKey, template_key_eq, template_key_of, index_loop, manual_by_template_key,
  get_manual,
}

module _ (key : TemplateKey) where
  -- The last observation of the key in the list, if there is one.
  pub data LastOf (observations : List ManualObservation) : Option ManualObservation → Type 0 where
    absent :
        All (λ o. template_key_eq (template_key_of o) key ≡ false) observations
        → LastOf observations none
    last :
        (before : List ManualObservation) {observation : ManualObservation}
        (after : List ManualObservation)
        → observations ≡ before ++ observation ∷ after
        → template_key_eq (template_key_of observation) key ≡ true
        → All (λ o. template_key_eq (template_key_of o) key ≡ false) after
        → LastOf observations (some observation)

  abbrev OldOrLast : ManualIndex → List ManualObservation → Option ManualObservation → Type 0
  OldOrLast indexed observations r =
      (All (λ o. template_key_eq (template_key_of o) key ≡ false) observations
        × (r ≡ get_manual indexed key))
      ⊎ ((o : ManualObservation) × (r ≡ some o) × LastOf observations (some o))

  get-put_same :
      (indexed : ManualIndex) (o : ManualObservation)
      → template_key_eq (template_key_of o) key ≡ true
      → get_manual ((template_key_of o, o) ∷ indexed) key ≡ some o
  unfolding get_manual
  get-put_same indexed o e = simp e

  get-put_other :
      (indexed : ManualIndex) (o : ManualObservation)
      → template_key_eq (template_key_of o) key ≡ false
      → get_manual ((template_key_of o, o) ∷ indexed) key ≡ get_manual indexed key
  unfolding get_manual
  get-put_other indexed o e = simp e

  index_loop_lem :
      (indexed : ManualIndex) (observations : List ManualObservation)
      → OldOrLast indexed observations (get_manual (index_loop indexed observations) key)
  unfolding index_loop
  index_loop_lem indexed [] = inl (tt, refl)
  index_loop_lem indexed (o ∷ os) = elim (index_loop_lem ((template_key_of o, o) ∷ indexed) os) [
    | inr (x, e, last before after split k h) ↦
        inr (x, e, last (o ∷ before) after (ap (◌∷◌ o) split) k h)
    | inl (h, e) ↦ elim (Bool-cases (template_key_eq (template_key_of o) key)) [
      | inl k ↦ inr (o, e ∙ get-put_same indexed o k, last [] os refl k h)
      | inr k ↦ inl ((k, h), e ∙ get-put_other indexed o k)
    ]
  ]

  -- The entry that the index of _manual_by_template_key has for a key is the last observation with
  -- that key, and there is none only if no observation has the key.
  manual_by_template_key_last :
      (observations : List ManualObservation)
      → LastOf observations (get_manual (manual_by_template_key observations) key)
  unfolding manual_by_template_key get_manual
  manual_by_template_key_last observations = elim (index_loop_lem [] observations) [
    | inl (h, e) ↦ rw e (absent h)
    | inr (o, e, l) ↦ rw e l
  ]
