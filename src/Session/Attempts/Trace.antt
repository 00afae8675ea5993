-- ===== src/Session/Attempts/Trace.antt =====
-- Any sequence of attempt commands on one package.
use mathlib.Core.List.{append-nil, append_assoc}
use srhc_observability_claud.Multicast.Vlan.{Selection-cases, enforce_vlan_selection}
use srhc_observability_claud.Prelude.{
  ◌≤◌, ◌≡◌, inl, inr, refl, sym, ap, ◌∙◌, Option, none, some, List, [], ◌∷◌, ◌++◌, String, arith,
  Option-cases,
}
use srhc_observability_claud.Session.Package.{
  Attempt, Event, Package, Ambient, open_attempt, find_attempt, update_found, update_open,
}
use srhc_observability_claud.Session.Attempts.{
  given_id, Exit, StartArgs, OutcomeArgs, new_attempt, started_event, outcome_event,
  command_start_attempt, command_outcome, command_mark, mark_event, MarkArgs, outcome_for,
  close_attempt, bare_attempt,
}
use srhc_observability_claud.Session.Attempts.Resolve.{
  configured_vlan_of, resolve_attempt, resolve_on, resolve_for, ResolveArgs, command_resolve_group,
}
use srhc_observability_claud.Session.Attempts.Open.{
  count_open-update_found_same, count_open-update_open_same, count_open, count_open-append,
  open_attempt-none, count_open-update_found_close, count_open-update_open_close, closes,
}

pub data Command : Type 0 where
  start_attempt : StartArgs → Ambient → Command
  record_outcome : OutcomeArgs → Ambient → Command
  resolve_group : ResolveArgs → Ambient → Command
  mark : MarkArgs → Ambient → Command

-- The functions that `parse_args` sets for the sub-commands.
unfoldable pub run_command : Command → Package → Exit
run_command (start_attempt args ambient) p = command_start_attempt args ambient p
run_command (record_outcome args ambient) p = command_outcome args ambient p
run_command (resolve_group args ambient) p = command_resolve_group args ambient p
run_command (mark args ambient) p = command_mark args ambient p

-- One process after another on the same package.
unfoldable pub run_commands : List Command → Package → Package
run_commands [] p = p
run_commands (command ∷ commands) p = run_commands commands (run_command command p).state

-- `q` follows from `p` by appended events, the same ones in both timelines, and at most one
-- attempt is open in it if that is so in `p`.
pub record Follows (p q : Package) : Type 0 where
  pub events : List Event
  pub in_session : q.session_events ≡ p.session_events ++ events
  pub in_markers : q.attempt_markers ≡ p.attempt_markers ++ events
  pub one_open : count_open p.attempts ≤ 1 → count_open q.attempts ≤ 1

Follows-refl : (p : Package) → Follows p p
Follows-refl p = record {
  events = [];
  in_session = sym (append-nil p.session_events);
  in_markers = sym (append-nil p.attempt_markers);
  one_open = λ h. h;
}

Follows-trans : {p q r : Package} → Follows p q → Follows q r → Follows p r
Follows-trans {p} {q} {r} f g = record {
  events = f.events ++ g.events;
  in_session =
      g.in_session
      ∙ ap (λ (l : List Event). l ++ g.events) f.in_session
      ∙ append_assoc p.session_events f.events g.events;
  in_markers =
      g.in_markers
      ∙ ap (λ (l : List Event). l ++ g.events) f.in_markers
      ∙ append_assoc p.attempt_markers f.events g.events;
  one_open = λ h. g.one_open (f.one_open h);
}

-- One event in each timeline, with an index in which no more attempts are open.
event_Follows :
    (p : Package) (attempts : List Attempt) (event : Event)
    → (count_open p.attempts ≤ 1 → count_open attempts ≤ 1)
    → Follows p (record p {
      attempts = attempts;
      session_events = p.session_events ++ event ∷ [];
      attempt_markers = p.attempt_markers ++ event ∷ [];
    })
event_Follows p attempts event h = record {
  events = event ∷ [];
  in_session = refl;
  in_markers = refl;
  one_open = h;
}

start-Follows :
    (args : StartArgs) (ambient : Ambient) (p : Package)
    → Follows p (command_start_attempt args ambient p).state
unfolding command_start_attempt
start-Follows args ambient p = elim (Option-cases (open_attempt p.attempts)) [
  | inr (a, e) ↦ rw (e, command_start_attempt) (Follows-refl p)
  | inl e ↦
      rw (e, command_start_attempt)
        (event_Follows p (p.attempts ++ new_attempt args ambient p ∷ [])
          (started_event args ambient p)
          (λ _. omega (
            arith,
            open_attempt-none p.attempts e,
            count_open-append p.attempts (new_attempt args ambient p ∷ []),
          )))
]

outcome_for-Follows :
    (id : Option String) (args : OutcomeArgs) (ambient : Ambient) (p : Package)
    → Follows p (outcome_for id args ambient p).state
unfolding outcome_for
outcome_for-Follows none args ambient p = elim (Option-cases (open_attempt p.attempts)) [
  | inr (a, e) ↦
      rw (e, outcome_for)
        (event_Follows p (update_open (close_attempt args ambient) p.attempts)
          (outcome_event args ambient p a.attempt_id)
          (λ h. omega (
            arith,
            count_open-update_open_close (close_attempt args ambient) p.attempts a
                (closes args ambient) e,
          )))
  | inl e ↦
      let last = close_attempt args ambient (bare_attempt args ambient p) ∷ [] in
      rw (e, outcome_for)
        (event_Follows p (p.attempts ++ last)
          (outcome_event args ambient p ambient.fresh_attempt_id)
          (λ h. omega (arith, count_open-append p.attempts last)))
]
outcome_for-Follows (some id) args ambient p = elim (Option-cases (find_attempt id p.attempts)) [
  | inl e ↦ rw (e, outcome_for) (Follows-refl p)
  | inr (a, e) ↦
      rw (e, outcome_for)
        (event_Follows p (update_found id (close_attempt args ambient) p.attempts)
          (outcome_event args ambient p a.attempt_id)
          (λ h. omega (
            arith,
            count_open-update_found_close id (close_attempt args ambient) p.attempts
                (closes args ambient),
          )))
]

resolve_on-Follows :
    (args : ResolveArgs) (ambient : Ambient) (p : Package) (id : String)
    (update : (Attempt → Attempt) → List Attempt)
    → ((source : String)
        → count_open (update (resolve_attempt args ambient source)) ≡ count_open p.attempts)
    → Follows p (resolve_on args ambient p id update).state
unfolding resolve_on
resolve_on-Follows args ambient p id update same =
    elim (Selection-cases (
      enforce_vlan_selection (some (configured_vlan_of p)) (some args.group_vlan)
        args.selection_source args.override_reason)) [
          | inl (e, refusal) ↦ rw (refusal, resolve_on) (Follows-refl p)
          | inr (source, accepted) ↦
              rw (accepted, resolve_on)
                (record {
                  events = [];
                  in_session = sym (append-nil p.session_events);
                  in_markers = sym (append-nil p.attempt_markers);
                  one_open = λ h. omega (arith, same source);
                })
        ]

resolve_for-Follows :
    (id : Option String) (args : ResolveArgs) (ambient : Ambient) (p : Package)
    → Follows p (resolve_for id args ambient p).state
unfolding resolve_for resolve_attempt
resolve_for-Follows none args ambient p = elim (Option-cases (open_attempt p.attempts)) [
  | inl e ↦ rw (e, resolve_for) (Follows-refl p)
  | inr (a, e) ↦
      rw (e, resolve_for)
        (resolve_on-Follows args ambient p a.attempt_id (λ f. update_open f p.attempts)
          (λ source.
            count_open-update_open_same (resolve_attempt args ambient source) p.attempts
              (λ _. refl)))
]
resolve_for-Follows (some id) args ambient p = elim (Option-cases (find_attempt id p.attempts)) [
  | inl e ↦ rw (e, resolve_for) (Follows-refl p)
  | inr (a, e) ↦
      rw (e, resolve_for)
        (resolve_on-Follows args ambient p a.attempt_id (λ f. update_found id f p.attempts)
          (λ source.
            count_open-update_found_same id (resolve_attempt args ambient source) p.attempts
              (λ _. refl)))
]

run_command-Follows : (command : Command) (p : Package) → Follows p (run_command command p).state
unfolding run_command command_outcome command_resolve_group command_mark
run_command-Follows (start_attempt args ambient) p = start-Follows args ambient p
run_command-Follows (record_outcome args ambient) p =
    outcome_for-Follows (given_id args.attempt_id) args ambient p
run_command-Follows (resolve_group args ambient) p =
    resolve_for-Follows (given_id args.attempt_id) args ambient p
run_command-Follows (mark args ambient) p =
    event_Follows p p.attempts (mark_event args ambient p) (λ h. h)

-- From a package with at most one open attempt, any sequence of start-attempt, outcome,
-- resolve-group and mark commands leaves at most one attempt open, and only appends to the two
-- timelines, the same events to both.
pub run_commands-Follows :
    (commands : List Command) (p : Package)
    → count_open p.attempts ≤ 1
    → (count_open (run_commands commands p).attempts ≤ 1)
      × ((events : List Event) × ((run_commands commands p).session_events
            ≡ p.session_events ++ events)
          × ((run_commands commands p).attempt_markers ≡ p.attempt_markers ++ events))
unfolding run_commands
run_commands-Follows [] p h =
    (h, ([], sym (append-nil p.session_events), sym (append-nil p.attempt_markers)))
run_commands-Follows (command ∷ commands) p h =
    let first = run_command-Follows command p in
    let (one, rest) =
      run_commands-Follows commands (run_command command p).state (first.one_open h) in
    let both =
      Follows-trans {r = run_commands commands (run_command command p).state} first (record {
        events = rest.0;
        in_session = rest.1;
        in_markers = rest.2;
        one_open = λ _. one;
      }) in
    (one, (both.events, both.in_session, both.in_markers))
