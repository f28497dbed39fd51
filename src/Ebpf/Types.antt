-- ===== src/Ebpf/Types.antt =====
-- The values of the forwarding tables: the types of cmd/ebpf/pdr.go and the generated
-- IpEntrypointPdrInfo, whose layout is `struct pdr_info` of cmd/ebpf/xdp/pdr.h.
-- An address or a mask is the list of its bytes; Go's nil slice is the empty list.
use eupf.Base.{ℕ, List, [], ◌∷◌, Option, none}

abbrev pub Bytes : Type 0
Bytes = List ℕ

pub record PortRange : Type 0 where
  pub lower_bound : ℕ
  pub upper_bound : ℕ

-- `type`: 0 any, 1 ip4, 2 ip6.
pub record IpWMask : Type 0 where
  pub ip_type : ℕ
  pub ip : Bytes
  pub mask : Bytes

-- `protocol`: 0 icmp, 1 ip, 2 tcp, 3 udp, 4 icmp6.
pub record SdfFilter : Type 0 where
  pub protocol : ℕ
  pub src_address : IpWMask
  pub src_port_range : PortRange
  pub dst_address : IpWMask
  pub dst_port_range : PortRange

pub record PdrInfo : Type 0 where
  pub outer_header_removal : ℕ
  pub far_id : ℕ
  pub qer_id : ℕ
  pub urr1_id : ℕ
  pub urr2_id : ℕ
  pub sdf_filter : Option SdfFilter

abbrev pub zero_pdr_info : PdrInfo
zero_pdr_info = record {
  outer_header_removal = 0;
  far_id = 0;
  qer_id = 0;
  urr1_id = 0;
  urr2_id = 0;
  sdf_filter = none;
}

pub record FarInfo : Type 0 where
  pub action : ℕ
  pub outer_header_creation : ℕ
  pub teid : ℕ
  pub remote_ip : ℕ
  pub transport_level_marking : ℕ

abbrev pub zero_far_info : FarInfo
zero_far_info = record {
  action = 0;
  outer_header_creation = 0;
  teid = 0;
  remote_ip = 0;
  transport_level_marking = 0;
}

pub record QerInfo : Type 0 where
  pub gate_status_ul : ℕ
  pub gate_status_dl : ℕ
  pub qfi : ℕ
  pub max_bitrate_ul : ℕ
  pub max_bitrate_dl : ℕ
  pub start_ul : ℕ
  pub start_dl : ℕ

abbrev pub zero_qer_info : QerInfo
zero_qer_info = record {
  gate_status_ul = 0;
  gate_status_dl = 0;
  qfi = 0;
  max_bitrate_ul = 0;
  max_bitrate_dl = 0;
  start_ul = 0;
  start_dl = 0;
}

pub record UrrInfo : Type 0 where
  pub uplink_volume : ℕ
  pub downlink_volume : ℕ

abbrev pub zero_urr_info : UrrInfo
zero_urr_info = record { uplink_volume = 0; downlink_volume = 0 }

-- `struct sdf_filter`: addresses are sixteen bytes.
pub record IpAddrWMask : Type 0 where
  pub addr_type : ℕ
  pub addr_ip : Bytes
  pub addr_mask : Bytes

pub record StoredSdfFilter : Type 0 where
  pub stored_protocol : ℕ
  pub src_addr : IpAddrWMask
  pub src_port : PortRange
  pub dst_addr : IpAddrWMask
  pub dst_port : PortRange

-- `struct sdf_rules`.
pub record SdfRules : Type 0 where
  pub rules_sdf_filter : StoredSdfFilter
  pub rules_outer_header_removal : ℕ
  pub rules_far_id : ℕ
  pub rules_qer_id : ℕ
  pub rules_urr1_id : ℕ
  pub rules_urr2_id : ℕ

-- `sdf_mode`: 0 no sdf, 1 sdf only, 2 sdf and default.
pub record IpEntrypointPdrInfo : Type 0 where
  pub stored_far_id : ℕ
  pub stored_qer_id : ℕ
  pub stored_urr1_id : ℕ
  pub stored_urr2_id : ℕ
  pub stored_outer_header_removal : ℕ
  pub sdf_mode : ℕ
  pub sdf_rules : SdfRules

abbrev pub zero_16_bytes : Bytes
zero_16_bytes = 0 ∷ 0 ∷ 0 ∷ 0 ∷ 0 ∷ 0 ∷ 0 ∷ 0 ∷ 0 ∷ 0 ∷ 0 ∷ 0 ∷ 0 ∷ 0 ∷ 0 ∷ 0 ∷ []

abbrev pub zero_addr : IpAddrWMask
zero_addr = record { addr_type = 0; addr_ip = zero_16_bytes; addr_mask = zero_16_bytes }

abbrev pub zero_port_range : PortRange
zero_port_range = record { lower_bound = 0; upper_bound = 0 }

abbrev pub zero_sdf_rules : SdfRules
zero_sdf_rules = record {
  rules_sdf_filter = record {
    stored_protocol = 0;
    src_addr = zero_addr;
    src_port = zero_port_range;
    dst_addr = zero_addr;
    dst_port = zero_port_range;
  };
  rules_outer_header_removal = 0;
  rules_far_id = 0;
  rules_qer_id = 0;
  rules_urr1_id = 0;
  rules_urr2_id = 0;
}

abbrev pub zero_entrypoint_pdr_info : IpEntrypointPdrInfo
zero_entrypoint_pdr_info = record {
  stored_far_id = 0;
  stored_qer_id = 0;
  stored_urr1_id = 0;
  stored_urr2_id = 0;
  stored_outer_header_removal = 0;
  sdf_mode = 0;
  sdf_rules = zero_sdf_rules;
}
