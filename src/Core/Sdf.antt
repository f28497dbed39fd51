-- ===== src/Core/Sdf.antt =====
-- cmd/core/sdf_filter_parser.go: flow descriptions of PFCP SDF filters. The regular expression is
-- matched word by word: no part of it but the separators matches a space.
pub mod Matches
pub mod Bounds
pub mod Flow
pub mod Words
pub mod Hosts
pub mod RoundTrip
use eupf.Base.{
  ℕ, ◌*◌, ◌%◌, ◌≡◌, refl, Bool, ◌&&◌, ◌||◌, Option, none, some, List, [], ◌∷◌, ltb, ◌==◌,
  if◌then◌else◌, length, bytes_beq,
}
use eupf.Base.Outcome.{
  Outcome, ok, err, panic, and_then, bad_format, unsupported_protocol, mask_after_any, bad_ip,
  bad_mask, bad_port, bad_port_range,
}
use eupf.Base.Outcome.Pure.{◌>>=◌}
use eupf.Base.Text.{
  Text, codes, is_digit, is_hex_letter, some_of, is_number, split_on, cut, parse_uint,
}
use eupf.Ebpf.Types.{Bytes, SdfFilter, IpWMask, PortRange}
use eupf.Core.ParseIp.{parse_ip, to4, cidr_mask, mask_ip}

-- ParseProtocol.
unfoldable pub parse_protocol : Text → Outcome ℕ
parse_protocol p =
    if bytes_beq p (codes "58")
    then ok 4
    else if bytes_beq p (codes "icmp")
    then ok 0
    else if bytes_beq p (codes "ip")
    then ok 1
    else if bytes_beq p (codes "tcp")
    then ok 2
    else if bytes_beq p (codes "udp")
    then ok 3
    else if bytes_beq p (codes "icmp6")
    then ok 4
    else err unsupported_protocol

-- ParsePort.
unfoldable pub parse_port : Text → Outcome ℕ
unfolding parse_uint
parse_port s = elim (parse_uint s) [
  | none ↦ err bad_port
  | some port64 ↦ if ltb 65535 port64 then err bad_port else ok (port64 % 65536)
]

abbrev pub port_range : ℕ → ℕ → Outcome PortRange
port_range lower upper =
    if ltb upper lower
    then err bad_port_range
    else ok (record { lower_bound = lower; upper_bound = upper })

-- `match` of ^(\d+)(?:-(\d+))?$ ; where it does not match, `match[1]` is out of range.
abbrev pub parse_port_parts : Text × Option Text → Outcome PortRange
parse_port_parts (l, none) =
    if is_number l then and_then (parse_port l) (λ p. port_range p p) else panic
parse_port_parts (l, some u) =
    if is_number l && is_number u
    then and_then (parse_port l) (λ p. and_then (parse_port u) (λ q. port_range p q))
    else panic

-- ParsePortRange.
unfoldable pub parse_port_range : Text → Outcome PortRange
unfolding parse_port cut is_number
parse_port_range s = parse_port_parts (cut b'-' s)

abbrev pub with_mask : ℕ → Bytes → Text → Outcome IpWMask
with_mask ip_type ip [] =
    ok (record { ip_type = ip_type; ip = ip; mask = cidr_mask (8 * length ip) (length ip) })
with_mask ip_type ip (c ∷ cs) = elim (parse_uint (c ∷ cs)) [
  | none ↦ err bad_mask
  | some ones ↦
      let mask = cidr_mask ones (length ip) in
      ok (record { ip_type = ip_type; ip = mask_ip ip mask; mask = mask })
]

-- ParseCidrIp.
unfoldable pub parse_cidr_ip : Text → Text → Outcome IpWMask
unfolding parse_ip to4 cidr_mask mask_ip parse_uint
parse_cidr_ip ip_str mask_str = elim (parse_ip ip_str) [
  | none ↦ err bad_ip
  | some ip ↦ elim (to4 ip) [ none ↦ with_mask 2 ip mask_str | some ip4 ↦ with_mask 1 ip4 mask_str ]
]

-- The groups of the regular expression; a group that takes no part is "".
pub record Match : Type 0 where
  pub protocol : Text
  pub src : Text
  pub src_mask : Text
  pub src_port : Text
  pub dst : Text
  pub dst_mask : Text
  pub dst_port : Text

abbrev pub source_match : Text → Text → Text → Match
source_match p s mask = record {
  protocol = p;
  src = s;
  src_mask = mask;
  src_port = [];
  dst = [];
  dst_mask = [];
  dst_port = [];
}

-- icmp|ip|tcp|udp|\d+
unfoldable pub is_protocol : Text → Bool
is_protocol p =
    bytes_beq p (codes "icmp")
    || bytes_beq p (codes "ip")
    || bytes_beq p (codes "tcp")
    || bytes_beq p (codes "udp")
    || is_number p

-- any|[\d.]+|[\da-fA-F:]+
unfoldable pub is_address : Text → Bool
unfolding some_of
is_address a =
    bytes_beq a (codes "any")
    || some_of (λ c. is_digit c || c == b'.') a
    || some_of (λ c. is_digit c || is_hex_letter c || c == b':') a

abbrev pub is_port_parts : Text × Option Text → Bool
is_port_parts (l, none) = is_number l
is_port_parts (l, some u) = is_number l && is_number u

-- \d+|\d+-\d+
unfoldable pub is_port_group : Text → Bool
unfolding cut
is_port_group w = is_port_parts (cut b'-' w)

-- An address with its optional mask, /(\d+).
abbrev pub address_parts : (Text → Bool) → Text × Option Text → Option (Text × Text)
address_parts test (a, none) = if test a then some (a, []) else none
address_parts test (a, some m) = if test a && is_number m then some (a, m) else none

unfoldable pub match_address : (Text → Bool) → Text → Option (Text × Text)
unfolding cut
match_address test w = address_parts test (cut b'/' w)

abbrev pub is_destination : Text → Bool
is_destination a = bytes_beq a (codes "assigned") || is_address a

abbrev pub finish : Match → List Text → Option Match
finish m [] = some m
finish m (p ∷ []) = if is_port_group p then some (record m { dst_port = p }) else none
finish m _ = none

-- What follows the source port: " to " and the destination.
abbrev pub match_destination : Match → List Text → Option Match
match_destination m (t ∷ b ∷ rest) = elim (match_address is_destination b) [
  | none ↦ none
  | some (d, mask) ↦
      if bytes_beq t (codes "to") then finish (record m { dst = d; dst_mask = mask }) rest else none
]
match_destination m _ = none

abbrev pub match_source_port : Match → List Text → Option Match
match_source_port m [] = none
match_source_port m (w ∷ rest) =
    if is_port_group w
    then match_destination (record m { src_port = w }) rest
    else match_destination m (w ∷ rest)

abbrev pub match_words : List Text → Option Match
match_words (permit ∷ out ∷ p ∷ from ∷ a ∷ rest) = elim (match_address is_address a) [
  | none ↦ none
  | some (s, mask) ↦
      if bytes_beq permit (codes "permit")
        && bytes_beq out (codes "out")
        && is_protocol p
        && bytes_beq from (codes "from")
      then match_source_port (source_match p s mask) rest
      else none
]
match_words _ = none

-- re.FindStringSubmatch.
unfoldable pub match_flow : Text → Option Match
unfolding split_on is_number is_protocol is_address is_port_group match_address
match_flow s = match_words (split_on b' ' s)

abbrev pub any_address : IpWMask
any_address = record { ip_type = 0; ip = []; mask = [] }

abbrev pub any_port : PortRange
any_port = record { lower_bound = 0; upper_bound = 65535 }

abbrev pub source_address : Match → Outcome IpWMask
source_address m =
    if bytes_beq m.src (codes "any")
    then (if length m.src_mask == 0 then ok any_address else err mask_after_any)
    else parse_cidr_ip m.src m.src_mask

abbrev pub destination_address : Match → Outcome IpWMask
destination_address m =
    if bytes_beq m.dst (codes "assigned") || bytes_beq m.dst (codes "any")
    then ok any_address
    else parse_cidr_ip m.dst m.dst_mask

abbrev pub optional_ports : Text → Outcome PortRange
optional_ports [] = ok any_port
optional_ports (c ∷ cs) = parse_port_range (c ∷ cs)

unfoldable pub sdf_of_match : Match → Outcome SdfFilter
unfolding parse_protocol parse_cidr_ip parse_port_range
sdf_of_match m = do
  protocol ← parse_protocol m.protocol
  src_address ← source_address m
  src_port_range ← optional_ports m.src_port
  dst_address ← destination_address m
  dst_port_range ← optional_ports m.dst_port
  ok (record {
    protocol = protocol;
    src_address = src_address;
    src_port_range = src_port_range;
    dst_address = dst_address;
    dst_port_range = dst_port_range;
  })

-- ParseSdfFilter.
unfoldable pub parse_sdf_filter : Text → Outcome SdfFilter
unfolding match_flow sdf_of_match
parse_sdf_filter flow_description = elim (match_flow flow_description) [
  | none ↦ err bad_format
  | some m ↦ sdf_of_match m
]
