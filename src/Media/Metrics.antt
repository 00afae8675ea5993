-- ===== src/Media/Metrics.antt =====
-- The Prometheus lines: `esc_label`, `label_text` and `emit_metric`. A value is the text of it.
use srhc_observability_claud.Prelude.{
  ℕ, ◌≡◌, refl, sym, ap, Bool, true, false, Bool-cases, inl, inr, Option, none, some, List, [], ◌∷◌,
  ◌++◌, ltb, ◌==◌, if◌then◌else◌, ◌&&◌, ◌||◌, ==_iff,
}
use srhc_observability_claud.Prelude.Sort.{sorted}
use srhc_observability_claud.Prelude.Text.{Text, codes}

-- `text.replace(old, new)` for one character.
unfoldable pub replace : ℕ → Text → Text → Text
replace old new [] = []
replace old new (c ∷ s) = let rest = replace old new s in if c == old then new ++ rest else c ∷ rest

abbrev pub backslash : ℕ
backslash = 92

abbrev pub newline : ℕ
newline = 10

abbrev pub quote : ℕ
quote = 34

unfoldable pub esc_text : Text → Text
unfolding replace
esc_text text =
    replace quote (backslash ∷ quote ∷ [])
      (replace newline (backslash ∷ 110 ∷ []) (replace backslash (backslash ∷ backslash ∷ []) text))

-- The text of a value; `None` has none.
abbrev pub value_text : Option Text → Text
value_text none = []
value_text (some text) = text

unfoldable pub esc_label : Option Text → Text
unfolding esc_text
esc_label value = esc_text (value_text value)

abbrev pub text_less : Text → Text → Bool
text_less [] [] = false
text_less [] (d ∷ t) = true
text_less (c ∷ s) [] = false
text_less (c ∷ s) (d ∷ t) = ltb c d || (c == d && text_less s t)

unfoldable pub join_labels : List (Text × Text) → Text
unfolding esc_label
join_labels [] = []
join_labels (e ∷ []) = e.0 ++ codes "=\"" ++ esc_label (some e.1) ++ codes "\""
join_labels (e ∷ f ∷ labels) =
    e.0 ++ codes "=\"" ++ esc_label (some e.1) ++ codes "\"," ++ join_labels (f ∷ labels)

unfoldable pub label_text : List (Text × Text) → Text
unfolding sorted join_labels
label_text labels = join_labels (sorted (λ a b. text_less a.0 b.0) labels)

unfoldable pub emit_metric : Text → List (Text × Text) → Option Text → Text
unfolding label_text
emit_metric name labels none = []
emit_metric name labels (some value) =
    name ++ codes "{" ++ label_text labels ++ codes "} " ++ value ++ newline ∷ []

-- How a reader of the format takes a label back: after a backslash `n` is a new line, and any other
-- character stands for itself.
abbrev pub unescape_from : Bool → Text → Text
unescape_from escaped [] = []
unescape_from true (c ∷ s) = (if c == 110 then newline else c) ∷ unescape_from false s
unescape_from false (c ∷ s) =
    let skipped = unescape_from true s in
    let rest = unescape_from false s in if c == backslash then skipped else c ∷ rest

abbrev pub unescape : Text → Text
unescape s = unescape_from false s

esc_backslash :
    (c : ℕ) (s : Text)
    → (c == backslash) ≡ true
    → esc_text (c ∷ s) ≡ backslash ∷ backslash ∷ esc_text s
unfolding esc_text replace
esc_backslash c s e = simp e

esc_newline :
    (c : ℕ) (s : Text)
    → (c == backslash) ≡ false
    → (c == newline) ≡ true
    → esc_text (c ∷ s) ≡ backslash ∷ 110 ∷ esc_text s
unfolding esc_text replace
esc_newline c s e f = simp (e, f)

esc_quote :
    (c : ℕ) (s : Text)
    → (c == backslash) ≡ false
    → (c == newline) ≡ false
    → (c == quote) ≡ true
    → esc_text (c ∷ s) ≡ backslash ∷ quote ∷ esc_text s
unfolding esc_text replace
esc_quote c s e f g = simp (e, f, g)

esc_plain :
    (c : ℕ) (s : Text)
    → (c == backslash) ≡ false
    → (c == newline) ≡ false
    → (c == quote) ≡ false
    → esc_text (c ∷ s) ≡ c ∷ esc_text s
unfolding esc_text replace
esc_plain c s e f g = simp (e, f, g)

unescape-esc_text : (s : Text) → unescape (esc_text s) ≡ s
unfolding esc_text replace
unescape-esc_text [] = refl
unescape-esc_text (c ∷ s) = elim (Bool-cases (c == backslash)) [
  | inl e ↦
      rw (esc_backslash c s e, unescape-esc_text s)
        (ap (λ d. d ∷ s) (sym ((==_iff c backslash).0 e)))
  | inr e ↦ elim (Bool-cases (c == newline)) [
    | inl f ↦
        rw (esc_newline c s e f, unescape-esc_text s)
          (ap (λ d. d ∷ s) (sym ((==_iff c newline).0 f)))
    | inr f ↦ elim (Bool-cases (c == quote)) [
      | inl g ↦
          rw (esc_quote c s e f g, unescape-esc_text s)
            (ap (λ d. d ∷ s) (sym ((==_iff c quote).0 g)))
      | inr g ↦ rw (esc_plain c s e f g) (plain c s e (unescape-esc_text s))
    ]
  ]
]
  where
    plain :
        (c : ℕ) (s : Text)
        → (c == backslash) ≡ false
        → unescape (esc_text s) ≡ s
        → unescape (c ∷ esc_text s) ≡ c ∷ s
    plain c s e h = simp e (ap (◌∷◌ c) h)

-- A label value that esc_label has escaped is read back as its text, and None as the empty text.
pub unescape-esc_label : (value : Option Text) → unescape (esc_label value) ≡ value_text value
unfolding esc_label
unescape-esc_label value = unescape-esc_text (value_text value)
