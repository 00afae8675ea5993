-- ===== src/Media/Config.antt =====
-- `AnalyzerConfig` with its methods, and `direction_for`, `server_label` and `stream_device_labels`.
-- The addresses of the configuration are kept as their four numbers, and a subnet as its first
-- address and its number of addresses.
pub mod Direction
use srhc_observability_claud.Prelude.{
  ℕ, ◌+◌, ◌*◌, Bool, true, false, ◌&&◌, ◌||◌, Option, none, some, List, [], ◌∷◌, ◌++◌, ltb, leb,
  ◌==◌, if◌then◌else◌,
}
use srhc_observability_claud.Prelude.Text.{Text, codes, text_or, text_eq}
use srhc_observability_claud.Prelude.Ratio.{Ratio}
use srhc_observability_claud.Rtp.Frame.{Ipv4, UdpPacket}

pub record DeviceProfile : Type 0 where
  pub name : Text
  pub role : Text
  pub config : Text

pub record Subnet : Type 0 where
  pub network_address : ℕ
  pub num_addresses : ℕ

pub record AnalyzerConfig : Type 0 where
  pub site : Text
  pub capture_point : Text
  pub expected_dscp : Option ℕ
  pub servers : List (Text × Ipv4)
  pub badge_subnets : List Subnet
  pub devices : List (Ipv4 × DeviceProfile)
  pub media_ports : List (ℕ × ℕ)
  pub payload_clock_rates : List (ℕ × ℕ)
  pub default_rtp_clock_hz : ℕ
  pub min_rtp_qoe_packets : ℕ
  pub max_rtp_transit_delta_seconds : Ratio
  pub strict_rtp_plausibility : Bool
  pub require_known_rtp_clock_rate : Bool
  pub min_rtp_duration_seconds : Ratio
  pub max_rtp_interarrival_ms : Ratio
  pub max_rtp_jitter_ms : Ratio
  pub min_rtp_sequence_progression_ratio : Ratio
  pub min_rtp_timestamp_progression_ratio : Ratio
  pub max_rtp_timestamp_wallclock_error_ms : Ratio
  pub min_voice_packetization_ms : Ratio
  pub max_voice_packetization_ms : Ratio
  pub max_rtp_loss_ratio : Ratio
  pub max_rtp_duplicate_ratio : Ratio
  pub max_rtp_out_of_order_ratio : Ratio

abbrev pub ip_eq : Ipv4 → Ipv4 → Bool
ip_eq a b = a.first == b.first && a.second == b.second && a.third == b.third && a.fourth == b.fourth

unfoldable pub server_name_in : List (Text × Ipv4) → Ipv4 → Option Text
server_name_in [] ip = none
server_name_in (e ∷ servers) ip =
    let rest = server_name_in servers ip in if ip_eq ip e.1 then some e.0 else rest

unfoldable pub address_of : Ipv4 → ℕ
address_of ip = ((ip.first * 256 + ip.second) * 256 + ip.third) * 256 + ip.fourth

-- `any(address in subnet for subnet in badge_subnets)`
unfoldable pub in_subnets : ℕ → List Subnet → Bool
in_subnets address [] = false
in_subnets address (s ∷ subnets) =
    (leb s.network_address address && ltb address (s.network_address + s.num_addresses))
    || in_subnets address subnets

-- An empty name is as no name.
abbrev pub is_named : Option Text → Bool
is_named none = false
is_named (some []) = false
is_named (some (c ∷ s)) = true

unfoldable pub role_for : AnalyzerConfig → Ipv4 → Text
unfolding server_name_in address_of in_subnets
role_for config ip =
    if is_named (server_name_in config.servers ip)
    then codes "server"
    else if in_subnets (address_of ip) config.badge_subnets
    then codes "badge"
    else codes "unknown"

unfoldable pub device_in : List (Ipv4 × DeviceProfile) → Ipv4 → Option DeviceProfile
device_in [] ip = none
device_in (e ∷ devices) ip =
    let rest = device_in devices ip in if ip_eq e.0 ip then some e.1 else rest

unfoldable pub port_in_ranges : List (ℕ × ℕ) → ℕ → ℕ → Bool
port_in_ranges [] src_port dst_port = false
port_in_ranges (r ∷ ranges) src_port dst_port =
    (leb r.0 src_port && leb src_port r.1)
    || (leb r.0 dst_port && leb dst_port r.1)
    || port_in_ranges ranges src_port dst_port

-- `media_port_matches`: no ranges match every port.
unfoldable pub media_port_matches : List (ℕ × ℕ) → ℕ → ℕ → Bool
unfolding port_in_ranges
media_port_matches [] src_port dst_port = true
media_port_matches (r ∷ ranges) src_port dst_port = port_in_ranges (r ∷ ranges) src_port dst_port

unfoldable pub rate_in : List (ℕ × ℕ) → ℕ → ℕ → ℕ × Bool
rate_in [] default payload_type = (default, false)
rate_in (e ∷ rates) default payload_type =
    let rest = rate_in rates default payload_type in
    if e.0 == payload_type then (e.1, true) else rest

unfoldable pub rtp_clock_rate : AnalyzerConfig → ℕ → ℕ × Bool
unfolding rate_in
rtp_clock_rate config payload_type =
    rate_in config.payload_clock_rates config.default_rtp_clock_hz payload_type

unfoldable pub direction_for : Text → Text → Text
direction_for src_role dst_role =
    if text_eq src_role (codes "badge") && text_eq dst_role (codes "server")
    then codes "badge_to_server"
    else if text_eq src_role (codes "server") && text_eq dst_role (codes "badge")
    then codes "server_to_badge"
    else if text_eq src_role (codes "badge") && text_eq dst_role (codes "badge")
    then codes "badge_to_badge"
    else if text_eq src_role (codes "server") && text_eq dst_role (codes "server")
    then codes "server_to_server"
    else src_role ++ codes "_to_" ++ dst_role

abbrev pub named_or : Option Text → Text → Text
named_or none default = default
named_or (some name) default = name

unfoldable pub server_label : UdpPacket → AnalyzerConfig → Text
unfolding server_name_in text_or
server_label packet config =
    named_or
      (text_or (server_name_in config.servers packet.src_ip)
        (text_or (server_name_in config.servers packet.dst_ip) none))
      (codes "unknown")

-- A device's three labels.
pub record Labels : Type 0 where
  pub name : Text
  pub role : Text
  pub config : Text

abbrev pub unmapped : Labels
unmapped = record { name = codes "unmapped"; role = codes "unmapped"; config = codes "unmapped" }

unfoldable pub labels_of : Option DeviceProfile → Labels
labels_of none = unmapped
labels_of (some d) = record { name = d.name; role = d.role; config = d.config }

-- The device and its peer, from the profiles of the source and the destination.
unfoldable pub stream_devices : Option DeviceProfile → Option DeviceProfile → Labels × Labels
unfolding labels_of
stream_devices (some src) (some dst) = (labels_of (some src), labels_of (some dst))
stream_devices (some src) none = (labels_of (some src), unmapped)
stream_devices none dst = (labels_of dst, unmapped)

unfoldable pub stream_device_labels : AnalyzerConfig → Ipv4 → Ipv4 → Labels × Labels
unfolding device_in stream_devices
stream_device_labels config src_ip dst_ip =
    stream_devices (device_in config.devices src_ip) (device_in config.devices dst_ip)
