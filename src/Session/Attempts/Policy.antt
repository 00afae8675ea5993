-- ===== src/Session/Attempts/Policy.antt =====
-- What resolve-group may write, and what an outcome for a given id closes.
use text.Mathlib.Text.{◌==◌ as str_eq}
use srhc_observability_claud.Prelude.Select.Least.{image}
use srhc_observability_claud.Prelude.{
  sym, ◌∙◌, Bool, if◌then◌else◌, ◌≡◌, ◌⊎◌, inl, inr, refl, ap, true, false, Option, none, some,
  List, [], ◌∷◌, ◌++◌, map, String, arith, Option-cases, Bool-cases,
}
use srhc_observability_claud.Prelude.Text.{is_empty}
use srhc_observability_claud.Multicast.Vlan.{
  is_selected, is_override, reason_of, enforce_vlan_selection, enforce_vlan_selection_policy,
  Selection-cases,
}
use srhc_observability_claud.Session.Package.{
  Attempt, Package, Ambient, completed, is_opened, open_attempt, find_attempt, update_found,
  update_open,
}
use srhc_observability_claud.Session.Attempts.{
  Exit, StartArgs, OutcomeArgs, new_attempt, command_start_attempt, command_outcome, outcome_for,
  given_id, close_attempt,
}
use srhc_observability_claud.Session.Attempts.Resolve.{
  ResolveArgs, command_resolve_group, resolve_for, resolve_on, resolve_attempt, configured_vlan_of,
}
use srhc_observability_claud.Session.Attempts.Open.{
  open_attempt-none, count_open, count_open-append,
}

-- An attempt with what resolve-group may write taken out.
abbrev pub core : Attempt → Attempt
core attempt = record attempt {
  resolved_group_ip = none;
  resolved_group_vlan = none;
  resolved_mgid = none;
  group_selection_source = none;
  vlan_override_reason = none;
  active_group_selected_at = none;
}

core-update_found :
    (id : String) (f : Attempt → Attempt) (xs : List Attempt)
    → ((a : Attempt) → core (f a) ≡ core a)
    → map core (update_found id f xs) ≡ map core xs
unfolding update_found
core-update_found id f [] same = refl
core-update_found id f (x ∷ xs) same = elim (Bool-cases (str_eq x.attempt_id id)) [
  | inl e ↦ rw e (ap (λ (a : Attempt). a ∷ map core xs) (same x))
  | inr e ↦ rw e (ap (λ (l : List Attempt). core x ∷ l) (core-update_found id f xs same))
]

core-update_open :
    (f : Attempt → Attempt) (xs : List Attempt)
    → ((a : Attempt) → core (f a) ≡ core a)
    → map core (update_open f xs) ≡ map core xs
unfolding update_open
core-update_open f [] same = refl
core-update_open f (x ∷ xs) same = elim (Bool-cases (is_opened x.attempt_state)) [
  | inl e ↦ rw e (ap (λ (a : Attempt). a ∷ map core xs) (same x))
  | inr e ↦ rw e (ap (λ (l : List Attempt). core x ∷ l) (core-update_open f xs same))
]

-- The VLAN policy that a successful resolve-group has met.
abbrev pub Allowed : ResolveArgs → Package → Type 0
Allowed args p =
    (args.group_vlan ≡ configured_vlan_of p)
    ⊎ ((is_override args.selection_source ≡ true)
        × (is_empty (reason_of args.override_reason) ≡ false))

-- Either nothing changed and the exit code is 2, or it is 0, the policy is met, and the package
-- differs at most in the resolution fields of attempts and in the written files.
abbrev pub ResolveResult : ResolveArgs → Package → Exit → Type 0
ResolveResult args p exit =
    (exit ≡ record { code = 2; state = p })
    ⊎ ((exit.code ≡ 0)
        × Allowed args p
        × (map core exit.state.attempts ≡ map core p.attempts)
        × (exit.state.session_events ≡ p.session_events)
        × (exit.state.attempt_markers ≡ p.attempt_markers))

resolve_on-result :
    (args : ResolveArgs) (ambient : Ambient) (p : Package) (id : String)
    (update : (Attempt → Attempt) → List Attempt)
    → ((source : String)
        → map core (update (resolve_attempt args ambient source)) ≡ map core p.attempts)
    → ResolveResult args p (resolve_on args ambient p id update)
resolve_on-result args ambient p id update same =
    let policy =
      enforce_vlan_selection_policy (configured_vlan_of p) args.group_vlan args.selection_source
        args.override_reason in
    elim (Selection-cases (
      enforce_vlan_selection (some (configured_vlan_of p)) (some args.group_vlan)
        args.selection_source args.override_reason)) [
          | inl (e, refusal) ↦ unfold resolve_on in rw (refusal, resolve_on) (inl refl)
          | inr (source, accepted) ↦
              let allowed = policy.0 (ap is_selected accepted) in
              unfold resolve_on in
              rw (accepted, resolve_on) (inr (refl, allowed, same source, refl, refl))
        ]

-- resolve-group returns 2 and changes nothing; or it returns 0, the selected VLAN is the
-- configured one or was overridden with a reason that is not blank, every attempt keeps its id,
-- state, times, results, operator and notes, none is added, and the timelines stay as they are.
pub command_resolve_group_policy :
    (args : ResolveArgs) (ambient : Ambient) (p : Package)
    → ResolveResult args p (command_resolve_group args ambient p)
unfolding command_resolve_group
command_resolve_group_policy args ambient p = by_id (given_id args.attempt_id)
  where
    by_id : (id : Option String) → ResolveResult args p (resolve_for id args ambient p)
    by_id none = elim (Option-cases (open_attempt p.attempts)) [
      | inl e ↦ rw (e, resolve_for) (inl refl)
      | inr (a, e) ↦
          rw (e, resolve_for)
            (resolve_on-result args ambient p a.attempt_id (λ f. update_open f p.attempts)
              (λ source.
                core-update_open (resolve_attempt args ambient source) p.attempts (λ _. refl)))
    ]
    by_id (some id) = elim (Option-cases (find_attempt id p.attempts)) [
      | inl e ↦ rw (e, resolve_for) (inl refl)
      | inr (a, e) ↦
          rw (e, resolve_for)
            (resolve_on-result args ambient p a.attempt_id (λ f. update_found id f p.attempts)
              (λ source.
                core-update_found id (resolve_attempt args ambient source) p.attempts (λ _. refl)))
    ]

-- An entry that the id finds before the end of the index shadows a later one.
find_attempt-append :
    (id : String) (xs ys : List Attempt) (a : Attempt)
    → find_attempt id xs ≡ some a
    → find_attempt id (xs ++ ys) ≡ some a
unfolding find_attempt
find_attempt-append id [] ys a h = cc
find_attempt-append id (x ∷ xs) ys a h = ground (arith, find_attempt-append id xs ys a)

update_found-append :
    (id : String) (f : Attempt → Attempt) (xs ys : List Attempt) (a : Attempt)
    → find_attempt id xs ≡ some a
    → update_found id f (xs ++ ys) ≡ update_found id f xs ++ ys
unfolding update_found find_attempt
update_found-append id f [] ys a h = cc
update_found-append id f (x ∷ xs) ys a h = ground (arith, update_found-append id f xs ys a)

count_open-update_found_closed :
    (id : String) (f : Attempt → Attempt) (xs : List Attempt)
    → ((a : Attempt) → is_opened (f a).attempt_state ≡ false)
    → count_open xs ≡ 0
    → count_open (update_found id f xs) ≡ 0
unfolding update_found
count_open-update_found_closed id f [] closed h = refl
count_open-update_found_closed id f (x ∷ xs) closed h =
    ground (arith, closed x, count_open-update_found_closed id f xs)

find_attempt-update_found :
    (id : String) (f : Attempt → Attempt) (xs : List Attempt) (a : Attempt)
    → ((b : Attempt) → (f b).attempt_id ≡ b.attempt_id)
    → find_attempt id xs ≡ some a
    → find_attempt id (update_found id f xs) ≡ some (f a)
unfolding update_found find_attempt
find_attempt-update_found id f [] a same h = cc
find_attempt-update_found id f (x ∷ xs) a same h = elim (Bool-cases (str_eq x.attempt_id id)) [
  | inl e ↦
      let kept = ap (λ i. str_eq i id) (same x) ∙ e in
      simp (e, kept) (ap (λ o. image f o) (sym (pick (str_eq x.attempt_id id) e) ∙ h))
  | inr e ↦
      simp e (find_attempt-update_found id f xs a same (sym (skip (str_eq x.attempt_id id) e) ∙ h))
]
  where
    pick : (b : Bool) → b ≡ true → (if b then some x else find_attempt id xs) ≡ some x
    pick b e = rw e refl

    skip : (b : Bool) → b ≡ false → (if b then some x else find_attempt id xs) ≡ find_attempt id xs
    skip b e = rw e refl

-- Behind attempts of which none is open, the search finds an open one.
open_attempt-append :
    (xs : List Attempt) (y : Attempt)
    → count_open xs ≡ 0
    → is_opened y.attempt_state ≡ true
    → open_attempt (xs ++ y ∷ []) ≡ some y
unfolding open_attempt
open_attempt-append [] y h k = simp k refl
open_attempt-append (x ∷ xs) y h k = ground (arith, open_attempt-append xs y)

-- Where no attempt is open and the index already has an attempt with a given non-empty id,
-- start-attempt with that id succeeds. An outcome for that id then returns 0, but it is the older
-- attempt that is completed with its result, and the new one stays open, as it was started.
pub outcome_of_reused_id :
    (start : StartArgs) (args : OutcomeArgs) (ambient later : Ambient) (p : Package) (id : String)
    (old : Attempt)
    → str_eq id "" ≡ false
    → start.attempt_id ≡ some id
    → args.attempt_id ≡ some id
    → open_attempt p.attempts ≡ none
    → find_attempt id p.attempts ≡ some old
    → let started = command_start_attempt start ambient p in
      let exit = command_outcome args later started.state in
      (started.code ≡ 0)
      × (exit.code ≡ 0)
      × (count_open exit.state.attempts ≡ 1)
      × (open_attempt exit.state.attempts ≡ some (new_attempt start ambient p))
      × ((older : Attempt) × (find_attempt id exit.state.attempts ≡ some older)
          × (older.attempt_started_at ≡ old.attempt_started_at)
          × (older.attempt_state ≡ some completed)
          × (older.audio_result ≡ some args.audio_result))
unfolding command_start_attempt command_outcome
outcome_of_reused_id start args ambient later p id old named first second shut known =
    let last = new_attempt start ambient p ∷ [] in
    let zero_open = open_attempt-none p.attempts shut in
    let closed : count_open (update_found id (close_attempt args later) p.attempts) ≡ 0 =
      count_open-update_found_closed id (close_attempt args later) p.attempts (λ _. refl)
        zero_open in
    let rewritten =
      find_attempt-append id (update_found id (close_attempt args later) p.attempts) last
        (close_attempt args later old)
        (find_attempt-update_found id (close_attempt args later) p.attempts old (λ _. refl)
          known) in
    rw (shut, command_start_attempt, second, named)
      (rw (find_attempt-append id p.attempts last old known, outcome_for)
        (
          refl,
          refl,
          rw (update_found-append id (close_attempt args later) p.attempts last old known) (
              omega (
                arith,
                count_open-append (update_found id (close_attempt args later) p.attempts) last,
                closed,
              )),
          rw (update_found-append id (close_attempt args later) p.attempts last old known) (
              open_attempt-append (update_found id (close_attempt args later) p.attempts)
                (new_attempt start ambient p) closed refl),
          (
            close_attempt args later old,
            rw (update_found-append id (close_attempt args later) p.attempts last old known)
                rewritten,
            refl,
            refl,
            refl,
          ),
        ))
