-- ===== src/Evidence/Verdict/Failure.antt =====
-- The snapshot that `_best_snapshot` selects, and the verdict membership_failure.
use mathlib.Core.Path.{sym, ap, subst}
use srhc_observability_claud.Prelude.{
  ◌∙◌, sym, ap, ◌≤◌, ◌≡◌, ◌⊎◌, inl, inr, refl, Bool, true, false, ltb, Option, none, some, List, [],
  ◌∷◌, if◌then◌else◌, arith,
}
use srhc_observability_claud.Evidence.Verdict.{
  Snapshot, CaptureArtifact, AudioResult, missed, membership_failure, high, during, richest,
  richest_of, or_else, best_snapshot, group_of, member_of, any_valid, decide, compute_verdict,
}

abbrev pub IsIn : Snapshot → List Snapshot → Type 0
IsIn s [] = ⊥
IsIn s (x ∷ rest) = (s ≡ x) ⊎ IsIn s rest

IsIn-picked :
    (b : Bool) (best s r : Snapshot) (rest : List Snapshot)
    → IsIn r ((if b then s else best) ∷ rest)
    → IsIn r (best ∷ s ∷ rest)
IsIn-picked true best s r rest (inl e) = inr (inl e)
IsIn-picked true best s r rest (inr e) = inr (inr e)
IsIn-picked false best s r rest (inl e) = inl e
IsIn-picked false best s r rest (inr e) = inr (inr e)

richest-IsIn : (best : Snapshot) (rest : List Snapshot) → IsIn (richest best rest) (best ∷ rest)
unfolding richest
richest-IsIn best [] = inl refl
richest-IsIn best (s ∷ rest) =
    IsIn-picked (ltb best.filled s.filled) best s _ rest
      (richest-IsIn (if ltb best.filled s.filled then s else best) rest)

-- No snapshot of the list has more filled fields.
abbrev pub Richest : Snapshot → List Snapshot → Type 0
Richest s [] = Unit {0}
Richest s (x ∷ rest) = (x.filled ≤ s.filled) × Richest s rest

richest-filled : (best : Snapshot) (rest : List Snapshot) → best.filled ≤ (richest best rest).filled
unfolding richest
richest-filled best [] = ground arith
richest-filled best (s ∷ rest) =
    ground (arith, richest-filled (if ltb best.filled s.filled then s else best) rest)

richest-Richest : (best : Snapshot) (rest : List Snapshot) → Richest (richest best rest) rest
unfolding richest
richest-Richest best [] = tt
richest-Richest best (s ∷ rest) =
    let next = if ltb best.filled s.filled then s else best in
    (ground (arith, richest-filled next rest), richest-Richest next rest)

IsIn-kept :
    (b : Bool) (x s : Snapshot) (found : List Snapshot)
    → IsIn s (if b then x ∷ found else found)
    → ((s ≡ x) × (b ≡ true)) ⊎ IsIn s found
IsIn-kept true x s found (inl e) = inl (e, refl)
IsIn-kept true x s found (inr k) = inr k
IsIn-kept false x s found k = inr k

during-IsIn :
    (s : Snapshot) (snapshots : List Snapshot)
    → IsIn s (during snapshots)
    → IsIn s snapshots × (s.is_during ≡ true)
unfolding during
during-IsIn s [] h = absurd h
during-IsIn s (x ∷ rest) h = elim (IsIn-kept x.is_during x s (during rest) h) [
  | inl (e, d) ↦ (inl e, ap (λ y. y.is_during) e ∙ d)
  | inr k ↦ let (i, d) = during-IsIn s rest k in (inr i, d)
]

decide_failure :
    (audio : AudioResult) (group : Bool) (member : Option Bool) (pcap : Bool)
    → (decide audio group member pcap).0 ≡ membership_failure
    → (audio ≡ missed)
      × (group ≡ true)
      × (member ≡ some false)
      × ((decide audio group member pcap).1 ≡ high)
unfolding decide
decide_failure audio group member pcap h = ground arith

-- A best snapshot: one of the snapshots, of the phase during if there is any of that phase, and
-- among these none has more filled fields.
abbrev pub IsBest : Snapshot → List Snapshot → Type 0
IsBest s snapshots =
    IsIn s snapshots
    × ((s.is_during ≡ true) ⊎ (during snapshots ≡ []))
    × Richest s (or_else (during snapshots) snapshots)

some_snapshot : (r s : Snapshot) → some r ≡ some s → r ≡ s
some_snapshot r s h = cc

richest_all : (x : Snapshot) (rest : List Snapshot) → Richest (richest x rest) (x ∷ rest)
richest_all x rest = (richest-filled x rest, richest-Richest x rest)

best_from :
    (d snapshots : List Snapshot) (s : Snapshot)
    → (IsIn s d → IsIn s snapshots × (s.is_during ≡ true))
    → richest_of (or_else d snapshots) ≡ some s
    → IsIn s snapshots × ((s.is_during ≡ true) ⊎ (d ≡ [])) × Richest s (or_else d snapshots)
best_from [] [] s f h = cc
best_from [] (x ∷ rest) s f h =
    let e = some_snapshot (richest x rest) s h in
    (
      subst (λ r. IsIn r (x ∷ rest)) e (richest-IsIn x rest),
      inr refl,
      subst (λ r. Richest r (x ∷ rest)) e (richest_all x rest),
    )
best_from (x ∷ rest) snapshots s f h =
    let e = some_snapshot (richest x rest) s h in
    let (i, d) = f (subst (λ r. IsIn r (x ∷ rest)) e (richest-IsIn x rest)) in
    (i, inl d, subst (λ r. Richest r (x ∷ rest)) e (richest_all x rest))

best_snapshot-IsBest :
    (snapshots : List Snapshot) (s : Snapshot)
    → best_snapshot snapshots ≡ some s
    → IsBest s snapshots
unfolding best_snapshot
best_snapshot-IsBest snapshots s h =
    best_from (during snapshots) snapshots s (during-IsIn s snapshots) h

grouped : (o : Option Snapshot) → group_of o ≡ true → (s : Snapshot) × (o ≡ some s)
grouped none h = cc
grouped (some s) h = (s, refl)

-- If compute_verdict says membership_failure, then the audio was missed, the confidence is high,
-- and a best snapshot has a group and says that the receiver is not a member: one of the given
-- snapshots, of the phase during if there is any such, and of these one with the most filled
-- fields.
pub membership_failure_has_evidence :
    (audio : AudioResult) (snapshots : List Snapshot) (artifacts : List CaptureArtifact)
    → (compute_verdict audio snapshots artifacts).verdict ≡ membership_failure
    → (audio ≡ missed)
      × ((compute_verdict audio snapshots artifacts).verdict_confidence ≡ high)
      × ((s : Snapshot) × IsBest s snapshots × (s.has_group ≡ true) × (s.member ≡ some false))
unfolding compute_verdict
membership_failure_has_evidence audio snapshots artifacts h =
    let best = best_snapshot snapshots in
    let (a, g, m, c) =
      decide_failure audio (group_of best) (member_of best) (any_valid artifacts) h in
    let (s, e) = grouped best g in
    (
      a,
      c,
      (s, best_snapshot-IsBest snapshots s e, sym (ap group_of e) ∙ g, sym (ap member_of e) ∙ m),
    )
