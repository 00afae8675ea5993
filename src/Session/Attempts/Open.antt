-- ===== src/Session/Attempts/Open.antt =====
-- How many attempts are open, and what the commands do to that number.
use srhc_observability_claud.Prelude.{
  ℕ, ◌+◌, ◌≤◌, ◌<◌, ◌≡◌, ◌⊎◌, inl, inr, refl, false, none, some, List, [], ◌∷◌, ◌++◌, String,
  if◌then◌else◌, length, length-append, arith, Option-cases,
}
use srhc_observability_claud.Session.Package.{
  Attempt, Package, Ambient, open_attempt, update_found, update_open, is_opened,
}
use srhc_observability_claud.Session.Attempts.{
  StartArgs, OutcomeArgs, new_attempt, started_event, command_start_attempt, command_outcome,
  outcome_for, given_id, close_attempt, bare_attempt,
}

-- 1 for an open attempt, 0 for any other
abbrev pub open_weight : Attempt → ℕ
open_weight attempt = if is_opened attempt.attempt_state then 1 else 0

abbrev pub count_open : List Attempt → ℕ
count_open [] = 0
count_open (attempt ∷ attempts) = open_weight attempt + count_open attempts

pub count_open-append :
    (xs ys : List Attempt) → count_open (xs ++ ys) ≡ count_open xs + count_open ys
count_open-append [] ys = omega arith
count_open-append (x ∷ xs) ys = omega (arith, count_open-append xs ys)

pub open_attempt-none : (xs : List Attempt) → open_attempt xs ≡ none → count_open xs ≡ 0
unfolding open_attempt
open_attempt-none [] h = refl
open_attempt-none (x ∷ xs) h = ground (arith, open_attempt-none xs)

pub open_attempt-some :
    (xs : List Attempt) (a : Attempt) → open_attempt xs ≡ some a → 0 < count_open xs
unfolding open_attempt
open_attempt-some [] a h = cc
open_attempt-some (x ∷ xs) a h = ground (arith, open_attempt-some xs a)

-- An update that keeps the state of an attempt keeps the number.
pub count_open-update_found_same :
    (id : String) (f : Attempt → Attempt) (xs : List Attempt)
    → ((a : Attempt) → (f a).attempt_state ≡ a.attempt_state)
    → count_open (update_found id f xs) ≡ count_open xs
unfolding update_found
count_open-update_found_same id f [] same = refl
count_open-update_found_same id f (x ∷ xs) same =
    ground (arith, same x, count_open-update_found_same id f xs)

pub count_open-update_open_same :
    (f : Attempt → Attempt) (xs : List Attempt)
    → ((a : Attempt) → (f a).attempt_state ≡ a.attempt_state)
    → count_open (update_open f xs) ≡ count_open xs
unfolding update_open
count_open-update_open_same f [] same = refl
count_open-update_open_same f (x ∷ xs) same =
    ground (arith, same x, count_open-update_open_same f xs)

-- An update that closes an attempt never raises the number.
pub count_open-update_found_close :
    (id : String) (f : Attempt → Attempt) (xs : List Attempt)
    → ((a : Attempt) → is_opened (f a).attempt_state ≡ false)
    → count_open (update_found id f xs) ≤ count_open xs
unfolding update_found
count_open-update_found_close id f [] closed = omega arith
count_open-update_found_close id f (x ∷ xs) closed =
    ground (arith, closed x, count_open-update_found_close id f xs)

-- Closing the open attempt lowers the number by one.
pub count_open-update_open_close :
    (f : Attempt → Attempt) (xs : List Attempt) (a : Attempt)
    → ((b : Attempt) → is_opened (f b).attempt_state ≡ false)
    → open_attempt xs ≡ some a
    → count_open (update_open f xs) + 1 ≡ count_open xs
unfolding update_open open_attempt
count_open-update_open_close f [] a closed h = cc
count_open-update_open_close f (x ∷ xs) a closed h =
    ground (arith, closed x, count_open-update_open_close f xs a)

pub length-update_found :
    (id : String) (f : Attempt → Attempt) (xs : List Attempt)
    → length (update_found id f xs) ≡ length xs
unfolding update_found
length-update_found id f [] = refl
length-update_found id f (x ∷ xs) = ground (arith, length-update_found id f xs)

pub length-update_open :
    (f : Attempt → Attempt) (xs : List Attempt) → length (update_open f xs) ≡ length xs
unfolding update_open
length-update_open f [] = refl
length-update_open f (x ∷ xs) = ground (arith, length-update_open f xs)

pub closes :
    (args : OutcomeArgs) (ambient : Ambient) (a : Attempt)
    → is_opened (close_attempt args ambient a).attempt_state ≡ false
unfolding close_attempt
closes args ambient a = refl

-- start-attempt either finds an open attempt, returns 2 and leaves the package as it is; or
-- there is no open attempt, and it returns 0, adds the new attempt at the end of the index,
-- so that exactly one attempt is open, and appends its event to both timelines.
command_start_attempt_cases :
    (args : StartArgs) (ambient : Ambient) (p : Package)
    → let exit = command_start_attempt args ambient p in
      ((0 < count_open p.attempts) × (exit ≡ record { code = 2; state = p }))
      ⊎ ((count_open p.attempts ≡ 0)
          × (exit.code ≡ 0)
          × (exit.state.attempts ≡ p.attempts ++ new_attempt args ambient p ∷ [])
          × (count_open exit.state.attempts ≡ 1)
          × (exit.state.session_events ≡ p.session_events ++ started_event args ambient p ∷ [])
          × (exit.state.attempt_markers ≡ p.attempt_markers ++ started_event args ambient p ∷ []))
unfolding command_start_attempt
command_start_attempt_cases args ambient p = elim (Option-cases (open_attempt p.attempts)) [
  | inr (a, e) ↦ rw (e, command_start_attempt) (inl (open_attempt-some p.attempts a e, refl))
  | inl e ↦
      let zero_open = open_attempt-none p.attempts e in
      rw (e, command_start_attempt)
        (inr (
          zero_open,
          refl,
          refl,
          omega (arith, count_open-append p.attempts (new_attempt args ambient p ∷ [])),
          refl,
          refl,
        ))
]

-- An outcome with no attempt id, in a package with at most one open attempt, returns 0 and leaves
-- no attempt open. It adds an entry exactly where no attempt was open.
pub command_outcome_closes :
    (args : OutcomeArgs) (ambient : Ambient) (p : Package)
    → given_id args.attempt_id ≡ none
    → count_open p.attempts ≤ 1
    → let exit = command_outcome args ambient p in
      (exit.code ≡ 0)
      × (count_open exit.state.attempts ≡ 0)
      × (length exit.state.attempts + count_open p.attempts ≡ length p.attempts + 1)
unfolding command_outcome
command_outcome_closes args ambient p bare one = elim (Option-cases (open_attempt p.attempts)) [
  | inr (a, e) ↦
      rw (bare, e, outcome_for)
        (
          refl,
          omega (
            arith,
            count_open-update_open_close (close_attempt args ambient) p.attempts a
                (closes args ambient) e,
          ),
          omega (
            arith,
            count_open-update_open_close (close_attempt args ambient) p.attempts a
                (closes args ambient) e,
            length-update_open (close_attempt args ambient) p.attempts,
          ),
        )
  | inl e ↦
      let last = close_attempt args ambient (bare_attempt args ambient p) ∷ [] in
      rw (bare, e, outcome_for)
        (
          refl,
          omega (arith, open_attempt-none p.attempts e, count_open-append p.attempts last),
          omega (arith, open_attempt-none p.attempts e, length-append p.attempts last),
        )
]
