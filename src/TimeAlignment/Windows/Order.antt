-- ===== src/TimeAlignment/Windows/Order.antt =====
-- The sort and the set of `normalize_windows`: ascending lists without repetition.
use srhc_observability_claud.Prelude.{
  ℕ, ◌<◌, ◌≡◌, ◌≢◌, inl, inr, false, Option, none, some, List, [], ◌∷◌, arith, ltb, ltb→lt, ==_iff,
  ◌==◌, Bool-cases,
}
use srhc_observability_claud.Prelude.Select.{All, All-map}
use srhc_observability_claud.Prelude.Ratio.{Ratio}
use srhc_observability_claud.Prelude.Sort.{insert, sorted}
use srhc_observability_claud.TimeAlignment.Sweep.{
  has_window, add_window, window_of, collect_windows,
}

-- Each is less than all that follow it.
abbrev pub Ascending : List ℕ → Type 0
Ascending [] = Unit
Ascending (w ∷ ws) = All (λ v. w < v) ws × Ascending ws

-- No two are equal.
abbrev pub Distinct : List ℕ → Type 0
Distinct [] = Unit
Distinct (w ∷ ws) = All (λ v. w ≢ v) ws × Distinct ws

insert-All : (P : ℕ → Type 0) (w : ℕ) (ws : List ℕ) → P w → All P ws → All P (insert ltb w ws)
unfolding insert
insert-All P w [] p h = (p, tt)
insert-All P w (v ∷ ws) p h = elim (Bool-cases (ltb v w)) [
  | inl e ↦ simp e (h.0, insert-All P w ws p h.1)
  | inr e ↦ simp e (p, h)
]

insert-Ascending :
    (w : ℕ) (ws : List ℕ) → All (λ v. w ≢ v) ws → Ascending ws → Ascending (insert ltb w ws)
unfolding insert
insert-Ascending w [] h a = (tt, tt)
insert-Ascending w (v ∷ ws) h a = elim (Bool-cases (ltb v w)) [
  | inl e ↦ simp e (insert-All (λ u. v < u) w ws (ltb→lt v w e) a.0, insert-Ascending w ws h.1 a.1)
  | inr e ↦ simp e (let l = less e in ((l, All-map ws (λ u k. omega (arith, l, k)) a.0), a))
]
  where
    less : ltb v w ≡ false → w < v
    less e = ground (arith, e, h.0)

sorted-All : (P : ℕ → Type 0) (ws : List ℕ) → All P ws → All P (sorted ltb ws)
unfolding sorted
sorted-All P [] h = tt
sorted-All P (w ∷ ws) h = insert-All P w (sorted ltb ws) h.0 (sorted-All P ws h.1)

pub sorted-Ascending : (ws : List ℕ) → Distinct ws → Ascending (sorted ltb ws)
unfolding sorted
sorted-Ascending [] d = tt
sorted-Ascending (w ∷ ws) d =
    insert-Ascending w (sorted ltb ws) (sorted-All (λ v. w ≢ v) ws d.0) (sorted-Ascending ws d.1)

has_window_no : (w : ℕ) (seen : List ℕ) → has_window w seen ≡ false → All (λ v. w ≢ v) seen
unfolding has_window
has_window_no w [] = λ e. tt
has_window_no w (v ∷ seen) = elim (Bool-cases (w == v)) [
  | inl g ↦ simp g (λ e. absurd (ground (arith, e)))
  | inr g ↦
      simp g (λ e. (λ q. absurd (ground (arith, g, (==_iff w v).1 q)), has_window_no w seen e))
]

add_window-Distinct : (o : Option ℕ) (seen : List ℕ) → Distinct seen → Distinct (add_window o seen)
unfolding add_window
add_window-Distinct none seen d = d
add_window-Distinct (some w) seen d = elim (Bool-cases (has_window w seen)) [
  | inl e ↦ simp e d
  | inr e ↦ simp e (has_window_no w seen e, d)
]

pub collect_windows-Distinct :
    (raws : List (Option Ratio)) (seen : List ℕ)
    → Distinct seen
    → Distinct (collect_windows raws seen)
unfolding collect_windows
collect_windows-Distinct [] seen d = d
collect_windows-Distinct (raw ∷ raws) seen d =
    collect_windows-Distinct raws (add_window (window_of raw) seen)
      (add_window-Distinct (window_of raw) seen d)
