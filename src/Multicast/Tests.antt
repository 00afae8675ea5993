-- ===== src/Multicast/Tests.antt =====
-- The multicast theorems at concrete inputs.
use srhc_observability_claud.Multicast.Mac.{
  first_usable, last_usable, mac_of, mac_int, is_vocera_multicast_mac, default_pool,
  ipv4_multicast_to_mac, validate_ip_mac_mapping,
}
use srhc_observability_claud.Multicast.Mac.Pool.{is_vocera_multicast_mac_hosts}
use srhc_observability_claud.Multicast.Mac.Mapping.{validate_ip_mac_mapping_classes}
use srhc_observability_claud.Prelude.{
  ◌^◌, ◌%◌, ◌+◌, ◌*◌, ◌≤◌, refl, ℕ, ◌≡◌, ◌↔◌, ◌⊎◌, true, false, none, some,
}
use srhc_observability_claud.Prelude.Text.{Text, codes, is_empty}
use srhc_observability_claud.Multicast.Vlan.{
  ResolutionFields, is_selected, is_override, reason_of, enforce_vlan_selection,
  enforce_vlan_selection_policy,
}

enforce_vlan_selection_policy_example :
    (is_selected (enforce_vlan_selection (some 684) (some 690) (some "default") none) ≡ true) ↔ (
      (◌≡◌ {A = ℕ} 690 684)
      ⊎ ((is_override (some "default") ≡ true) × (is_empty (reason_of none) ≡ false)))
enforce_vlan_selection_policy_example = enforce_vlan_selection_policy 684 690 (some "default") none

abbrev resolved_vlan_only : ResolutionFields
resolved_vlan_only = record {
  resolved_group_ip = false;
  resolved_group_vlan = true;
  resolved_mgid = false;
  resolved_at = false;
}

-- 230.230.0.7 and 239.102.0.7.
abbrev group : ℕ
group = 230 * 16777216 + 230 * 65536 + 7

abbrev other_group : ℕ
other_group = 239 * 16777216 + 102 * 65536 + 7

abbrev group_mac : Text
group_mac = codes "01:00:5e:66:00:07"

group_mac_int : mac_int group_mac ≡ some 0x01005E660007
unfolding mac_int
group_mac_int = refl

is_vocera_multicast_mac_hosts_example :
    (is_vocera_multicast_mac group_mac default_pool ≡ some true) ↔ (
      (host : ℕ) × (first_usable ≤ host)
      × (host ≤ last_usable)
      × (mac_of host ≡ some 0x01005E660007))
is_vocera_multicast_mac_hosts_example =
    is_vocera_multicast_mac_hosts group_mac 0x01005E660007 group_mac_int

other_group_mac : ipv4_multicast_to_mac other_group ≡ some group_mac
unfolding ipv4_multicast_to_mac
other_group_mac = refl

validate_ip_mac_mapping_classes_example :
    (validate_ip_mac_mapping group group_mac ≡ true) ↔ (group % 2 ^ 23 ≡ other_group % 2 ^ 23)
validate_ip_mac_mapping_classes_example =
    validate_ip_mac_mapping_classes group other_group group_mac refl refl other_group_mac
