-- ===== src/Core/Sdf/Flow.antt =====
-- Flow descriptions as 3GPP TS 29.212 writes them, printed as the text that ParseSdfFilter of
-- cmd/core/sdf_filter_parser.go reads, and the filters that they mean.
use eupf.Base.{ℕ, ◌≤◌, List, [], ◌∷◌, ◌++◌}
use eupf.Base.Text.{Text, codes}
use eupf.Base.Text.Digits.{digits}
use eupf.Base.Text.Split.{join}
use eupf.Ebpf.Types.{SdfFilter, IpWMask, PortRange}
use eupf.Core.ParseIp.{cidr_mask, mask_ip}
use eupf.Core.Sdf.{any_address, any_port}

pub data Protocol : Type 0 where
  icmp ip tcp udp icmp6 : Protocol

-- Any address, or a.b.c.d, or a.b.c.d/len.
pub data Host : Type 0 where
  any : Host
  address : ℕ → ℕ → ℕ → ℕ → Host
  network : ℕ → ℕ → ℕ → ℕ → ℕ → Host

pub data Ports : Type 0 where
  all_ports : Ports
  one_port : ℕ → Ports
  ports : ℕ → ℕ → Ports

pub record Flow : Type 0 where
  pub flow_protocol : Protocol
  pub from_host : Host
  pub from_ports : Ports
  pub to_host : Host
  pub to_ports : Ports

abbrev pub IsHost : Host → Type 0
IsHost any = Unit
IsHost (address a b c d) = (a ≤ 255) × (b ≤ 255) × (c ≤ 255) × (d ≤ 255)
IsHost (network a b c d len) = (a ≤ 255) × (b ≤ 255) × (c ≤ 255) × (d ≤ 255) × (len ≤ 32)

abbrev pub IsPorts : Ports → Type 0
IsPorts all_ports = Unit
IsPorts (one_port p) = p ≤ 65535
IsPorts (ports p q) = (p ≤ q) × (q ≤ 65535)

abbrev pub IsFlow : Flow → Type 0
IsFlow f = IsHost f.from_host × IsPorts f.from_ports × IsHost f.to_host × IsPorts f.to_ports

abbrev pub protocol_word : Protocol → Text
protocol_word icmp = codes "icmp"
protocol_word ip = codes "ip"
protocol_word tcp = codes "tcp"
protocol_word udp = codes "udp"
protocol_word icmp6 = codes "58"

abbrev pub dotted : ℕ → ℕ → ℕ → ℕ → Text
dotted a b c d = digits 3 a ++ (b'.' ∷ (digits 3 b ++ (b'.' ∷ (digits 3 c ++ (b'.' ∷ digits 3 d)))))

-- The address and the mask as they stand around '/'.
abbrev pub host_parts : Host → Text × Text
host_parts any = (codes "any", [])
host_parts (address a b c d) = (dotted a b c d, [])
host_parts (network a b c d len) = (dotted a b c d, digits 2 len)

abbrev pub host_word : Host → Text
host_word any = codes "any"
host_word (address a b c d) = dotted a b c d
host_word (network a b c d len) = dotted a b c d ++ (b'/' ∷ digits 2 len)

-- Nothing stands for all ports.
abbrev pub port_word : Ports → Text
port_word all_ports = []
port_word (one_port p) = digits 5 p
port_word (ports p q) = digits 5 p ++ (b'-' ∷ digits 5 q)

abbrev pub port_words : Ports → List Text
port_words all_ports = []
port_words (one_port p) = digits 5 p ∷ []
port_words (ports p q) = (digits 5 p ++ (b'-' ∷ digits 5 q)) ∷ []

abbrev pub flow_words : Flow → List Text
flow_words f =
    codes "permit"
    ∷ codes "out"
    ∷ protocol_word f.flow_protocol
    ∷ codes "from"
    ∷ host_word f.from_host
    ∷ (port_words f.from_ports ++ (codes "to" ∷ host_word f.to_host ∷ port_words f.to_ports))

-- "permit out <protocol> from <host> [<ports>] to <host> [<ports>]".
unfoldable pub print_flow : Flow → Text
unfolding digits
print_flow f = join b' ' (flow_words f)

abbrev pub protocol_number : Protocol → ℕ
protocol_number icmp = 0
protocol_number ip = 1
protocol_number tcp = 2
protocol_number udp = 3
protocol_number icmp6 = 4

abbrev pub host_address : Host → IpWMask
host_address any = any_address
host_address (address a b c d) = record {
  ip_type = 1;
  ip = a ∷ b ∷ c ∷ d ∷ [];
  mask = 255 ∷ 255 ∷ 255 ∷ 255 ∷ [];
}
host_address (network a b c d len) = record {
  ip_type = 1;
  ip = mask_ip (a ∷ b ∷ c ∷ d ∷ []) (cidr_mask len 4);
  mask = cidr_mask len 4;
}

abbrev pub port_bounds : Ports → PortRange
port_bounds all_ports = any_port
port_bounds (one_port p) = record { lower_bound = p; upper_bound = p }
port_bounds (ports p q) = record { lower_bound = p; upper_bound = q }

unfoldable pub flow_filter : Flow → SdfFilter
unfolding mask_ip cidr_mask
flow_filter f = record {
  protocol = protocol_number f.flow_protocol;
  src_address = host_address f.from_host;
  src_port_range = port_bounds f.from_ports;
  dst_address = host_address f.to_host;
  dst_port_range = port_bounds f.to_ports;
}
