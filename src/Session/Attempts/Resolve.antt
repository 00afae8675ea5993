-- ===== src/Session/Attempts/Resolve.antt =====
-- The command resolve-group of tools/vocera_media_qoe/vocera_wlc_session.py.
use srhc_observability_claud.Session.Attempts.{Exit, given_id}
use srhc_observability_claud.Prelude.{
  ℕ, zero, suc, Option, none, some, List, [], ◌∷◌, ◌++◌, String, if◌then◌else◌,
}
use srhc_observability_claud.Prelude.Text.{Text, strip, is_empty}
use srhc_observability_claud.Multicast.Vlan.{selected, refused, reason_of, enforce_vlan_selection}
use srhc_observability_claud.Session.Package.{
  Attempt, FileWrite, sheet, summary, selection, Package, Ambient, or_text, operator_of,
  open_attempt, find_attempt, update_found, update_open,
}
use srhc_observability_claud.Session.Summary.{select_summary_row}

pub record ResolveArgs : Type 0 where
  pub group_ip : Text
  pub group_vlan : ℕ
  pub mgid : Option ℕ
  pub attempt_id : Option String
  pub selection_source : Option String
  pub override_reason : Option Text
  pub summary_text : Text
  pub event_time : Option String
  pub operator : Option String

-- `a or b` on numbers
abbrev or_number : Option ℕ → ℕ → ℕ
or_number none fallback = fallback
or_number (some zero) fallback = fallback
or_number (some (suc n)) fallback = suc n

unfoldable pub configured_vlan_of : Package → ℕ
configured_vlan_of p = or_number p.configured_vocera_vlan (or_number p.expected_vocera_vlan 684)

-- `(args.override_reason or "").strip() or None`
unfoldable pub reason_or_none : Option Text → Option Text
unfolding reason_of
reason_or_none reason = if is_empty (reason_of reason) then none else some (reason_of reason)

-- `attempt.update(…)`
unfoldable pub resolve_attempt : ResolveArgs → Ambient → String → Attempt → Attempt
unfolding or_text reason_or_none
resolve_attempt args ambient source attempt = record attempt {
  resolved_group_ip = some args.group_ip;
  resolved_group_vlan = some args.group_vlan;
  resolved_mgid = args.mgid;
  group_selection_source = some source;
  vlan_override_reason = reason_or_none args.override_reason;
  active_group_selected_at = some (or_text args.event_time ambient.now);
}

unfoldable pub summary_write : String → Text → List FileWrite
summary_write id text = if is_empty (strip text) then [] else summary id text ∷ []

unfoldable pub resolve_writes : ResolveArgs → Ambient → Package → String → String → List FileWrite
unfolding or_text operator_of reason_or_none summary_write configured_vlan_of select_summary_row
resolve_writes args ambient p source id =
    sheet id (configured_vlan_of p) args.group_ip args.group_vlan
      ∷ summary_write id args.summary_text
    ++ selection id args.group_ip args.group_vlan args.mgid (configured_vlan_of p) source
        (reason_or_none args.override_reason) (select_summary_row args.summary_text args.group_ip)
        (or_text args.event_time ambient.now) (operator_of args.operator ambient)
      ∷ []

-- The part below the check that there is an attempt: `id` is the id of the attempt, and
-- `update` changes its entry.
unfoldable pub resolve_on :
    ResolveArgs → Ambient → Package → String → ((Attempt → Attempt) → List Attempt) → Exit
unfolding enforce_vlan_selection configured_vlan_of resolve_attempt resolve_writes
resolve_on args ambient p id update =
    elim (enforce_vlan_selection (some (configured_vlan_of p)) (some args.group_vlan)
      args.selection_source args.override_reason) [
        | refused e ↦ record { code = 2; state = p }
        | selected source ↦ record {
          code = 0;
          state = record p {
            attempts = update (resolve_attempt args ambient source);
            writes = p.writes ++ resolve_writes args ambient p source id;
          };
        }
      ]

unfoldable pub resolve_for : Option String → ResolveArgs → Ambient → Package → Exit
unfolding resolve_on
resolve_for (some id) args ambient p = elim (find_attempt id p.attempts) [
  | none ↦ record { code = 2; state = p }
  | some attempt ↦ resolve_on args ambient p attempt.attempt_id (λ f. update_found id f p.attempts)
]
resolve_for none args ambient p = elim (open_attempt p.attempts) [
  | none ↦ record { code = 2; state = p }
  | some attempt ↦ resolve_on args ambient p attempt.attempt_id (λ f. update_open f p.attempts)
]

unfoldable pub command_resolve_group : ResolveArgs → Ambient → Package → Exit
unfolding resolve_for given_id
command_resolve_group args ambient p = resolve_for (given_id args.attempt_id) args ambient p
