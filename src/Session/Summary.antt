-- ===== src/Session/Summary.antt =====
-- `_select_summary_row`: the line of a pasted group summary that holds the selected group.
use srhc_observability_claud.Prelude.{
  ℕ, Bool, true, false, ◌&&◌, ◌||◌, Option, none, some, List, [], ◌∷◌, leb, ◌==◌, if◌then◌else◌,
  ◌≡◌, refl,
}
use srhc_observability_claud.Prelude.Text.{Text, codes, strip, is_empty}
use mathlib.Core.List.{reverse}

-- The line boundaries of `str.splitlines`.
is_break : ℕ → Bool
is_break c =
    (leb 10 c && leb c 13) || (leb 28 c && leb c 30) || c == 0x85 || c == 0x2028 || c == 0x2029

-- `line` holds the current line backwards, and `after_cr` says that the last break was a `\r`.
split : Bool → Text → Text → List Text
split after_cr line [] = if is_empty line then [] else reverse line ∷ []
split after_cr line (c ∷ s) = elim (after_cr && c == 10 && is_empty line) [
  | true ↦ split false [] s
  | false ↦ elim (is_break c) [
    | true ↦ reverse line ∷ split (c == 13) [] s
    | false ↦ split false (c ∷ line) s
  ]
]

unfoldable pub splitlines : Text → List Text
unfolding split is_break
splitlines = split false []

unfoldable pub starts_with : Text → Text → Bool
starts_with [] s = true
starts_with (c ∷ p) [] = false
starts_with (c ∷ p) (d ∷ s) = c == d && starts_with p s

-- `part in text`
unfoldable pub is_within : Text → Text → Bool
unfolding starts_with
is_within part [] = starts_with part []
is_within part (c ∷ s) = starts_with part (c ∷ s) || is_within part s

unfoldable pub first_row : Text → List Text → Option Text
first_row group_ip [] = none
first_row group_ip (line ∷ lines) =
    if is_within group_ip line then some (strip line) else first_row group_ip lines

unfoldable pub select_summary_row : Text → Text → Option Text
unfolding splitlines first_row is_within strip
select_summary_row summary_text group_ip = first_row group_ip (splitlines summary_text)

select_summary_row_test :
    select_summary_row (codes "head\n  230.230.0.4  684  \n") (codes "230.230.0.4")
    ≡ some (codes "230.230.0.4  684")
unfolding select_summary_row
select_summary_row_test = refl
