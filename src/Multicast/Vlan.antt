-- ===== src/Multicast/Vlan.antt =====
-- `enforce_vlan_selection` and `reject_session_level_resolution` of vocera_multicast.py: who may
-- select an active group, and on which VLAN.
use text.Mathlib.Text.{◌==◌ as str_eq}
use srhc_observability_claud.Prelude.{
  ℕ, ◌≡◌, ◌≢◌, ◌↔◌, ◌⊎◌, inl, inr, refl, Bool, true, false, Option, none, some, String, List, [],
  ◌∷◌, arith, ◌==◌, if◌then◌else◌,
}
use srhc_observability_claud.Prelude.Text.{Text, strip, is_empty}

-- `VlanSelectionError`, by the two `raise` statements.
pub data VlanSelectionError : Type 0 where
  needs_override needs_reason : VlanSelectionError

pub data Selection : Type 0 where
  selected : String → Selection
  refused : VlanSelectionError → Selection

-- `selection_source or fallback`
unfoldable pub source_or : Option String → String → String
source_or none fallback = fallback
source_or (some source) fallback = if str_eq source "" then fallback else source

-- `(override_reason or "").strip()`
unfoldable pub reason_of : Option Text → Text
unfolding strip
reason_of none = []
reason_of (some reason) = strip reason

abbrev pub is_override : Option String → Bool
is_override none = false
is_override (some source) = str_eq source "operator_override"

-- The last part, where the selected VLAN differs from the configured one.
unfoldable pub enforce_override : Option String → Text → Selection
enforce_override selection_source reason =
    if is_override selection_source
    then (if is_empty reason then refused needs_reason else selected "operator_override")
    else refused needs_override

unfoldable pub enforce_vlan_selection :
    Option ℕ → Option ℕ → Option String → Option Text → Selection
unfolding source_or reason_of enforce_override
enforce_vlan_selection configured none selection_source override_reason =
    selected (source_or selection_source "default")
enforce_vlan_selection none (some vlan) selection_source override_reason =
    selected (source_or selection_source "observed_confirmation")
enforce_vlan_selection (some configured) (some vlan) selection_source override_reason =
    if vlan == configured
    then selected (source_or selection_source "observed_confirmation")
    else enforce_override selection_source (reason_of override_reason)

-- The fields of a session update that `SESSION_LEVEL_RESOLUTION_FIELDS` names; `true` where the
-- payload holds a value other than `None`.
pub record ResolutionFields : Type 0 where
  pub resolved_group_ip : Bool
  pub resolved_group_vlan : Bool
  pub resolved_mgid : Bool
  pub resolved_at : Bool

abbrev only_if : Bool → String → List String → List String
only_if true name names = name ∷ names
only_if false name names = names

-- The offending names in sorted order; the function raises exactly when there are any.
unfoldable pub reject_session_level_resolution : ResolutionFields → List String
reject_session_level_resolution f = only_if f.resolved_at "resolved_at" (
    only_if f.resolved_group_ip "resolved_group_ip" (
      only_if f.resolved_group_vlan "resolved_group_vlan"
        (only_if f.resolved_mgid "resolved_mgid" [])))

abbrev pub is_selected : Selection → Bool
is_selected (selected source) = true
is_selected (refused e) = false

-- For every configured and selected VLAN, source and reason, the selection is accepted exactly
-- when the VLANs are equal, or the source is "operator_override" and the reason is not blank.
pub enforce_vlan_selection_policy :
    (configured vlan : ℕ) (selection_source : Option String) (override_reason : Option Text)
    → (is_selected
          (enforce_vlan_selection (some configured) (some vlan) selection_source override_reason)
        ≡ true)
      ↔ ((vlan ≡ configured)
          ⊎ ((is_override selection_source ≡ true)
              × (is_empty (reason_of override_reason) ≡ false)))
unfolding enforce_vlan_selection
enforce_vlan_selection_policy configured vlan selection_source override_reason = ground arith

-- Where the selected VLAN differs from the configured one, the selection is refused for want of
-- an override exactly when the source is not "operator_override", it is refused for want of a
-- reason exactly when the source is and the reason is blank, and else it is accepted with the
-- source "operator_override".
enforce_vlan_selection_mismatch :
    (configured vlan : ℕ) (selection_source : Option String) (override_reason : Option Text)
    → vlan ≢ configured
    → let result =
        enforce_vlan_selection (some configured) (some vlan) selection_source override_reason in
      ((result ≡ refused needs_override) ↔ (is_override selection_source ≡ false))
      × ((result ≡ refused needs_reason)
          ↔ ((is_override selection_source ≡ true) × (is_empty (reason_of override_reason) ≡ true)))
      × ((result ≡ selected "operator_override") ↔ (
          (is_override selection_source ≡ true) × (is_empty (reason_of override_reason) ≡ false)))
unfolding enforce_vlan_selection
enforce_vlan_selection_mismatch configured vlan selection_source override_reason differ =
    ground arith

-- A session update is let through exactly when none of the four resolution fields has a value.
reject_session_level_resolution_names :
    (f : ResolutionFields)
    → (reject_session_level_resolution f ≡ []) ↔ (
        (f.resolved_group_ip ≡ false)
        × (f.resolved_group_vlan ≡ false)
        × (f.resolved_mgid ≡ false)
        × (f.resolved_at ≡ false))
unfolding reject_session_level_resolution
reject_session_level_resolution_names f = ground arith

-- To split on a selection and keep the equation.
pub Selection-cases :
    (r : Selection)
    → ((e : VlanSelectionError) × (r ≡ refused e)) ⊎ ((source : String) × (r ≡ selected source))
Selection-cases (selected source) = inr (source, refl)
Selection-cases (refused e) = inl (e, refl)
