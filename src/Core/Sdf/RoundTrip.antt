-- ===== src/Core/Sdf/RoundTrip.antt =====
-- ParseSdfFilter of cmd/core/sdf_filter_parser.go on printed flow descriptions.
use eupf.Base.{ℕ, ◌≤◌, ◌≡◌, refl, false, [], ◌∷◌, arith, bytes_beq, ltb}
use eupf.Base.Outcome.{ok}
use eupf.Base.Text.{Text, codes}
use eupf.Base.Text.Digits.{digits, Begun, digits-Begun, is_number-digits, parse_uint-digits}
use eupf.Base.Text.Split.{cut-first, cut-last}
use eupf.Core.Sdf.{
  parse_protocol, parse_port, parse_port_range, Match, optional_ports, source_address,
  destination_address, sdf_of_match, parse_sdf_filter,
}
use eupf.Core.Sdf.Flow.{
  Protocol, icmp, ip, tcp, udp, icmp6, Host, any, address, network, Ports, all_ports, one_port,
  ports, IsHost, IsPorts, protocol_word, protocol_number, dotted, host_parts, host_address,
  port_word, port_bounds, Flow, IsFlow, print_flow, flow_filter,
}
use eupf.Core.Sdf.Hosts.{parse_cidr_ip-address, parse_cidr_ip-network}
use eupf.Core.Sdf.Words.{digits-Lacks, dotted-Begun, Begun-append, flow_match, match_flow-print}

-- Neither "any" nor "assigned".
Begun-differs : (cs w : Text) → Begun cs → bytes_beq cs (b'a' ∷ w) ≡ false
Begun-differs [] w h = refl
Begun-differs (c ∷ cs) w h = ground (arith, h)

abbrev dotted-differs :
    (a b c d : ℕ) (w : Text) → a ≤ 255 → bytes_beq (dotted a b c d) (b'a' ∷ w) ≡ false
dotted-differs a b c d w h = Begun-differs (dotted a b c d) w (dotted-Begun a b c d h)

source_address-host :
    (h : Host) (m : Match)
    → IsHost h
    → source_address (record m { src = (host_parts h).0; src_mask = (host_parts h).1 })
      ≡ ok (host_address h)
unfolding sdf_of_match
source_address-host any m v = refl
source_address-host (address a b c d) m v =
    rw (dotted-differs a b c d (codes "ny") v.0, parse_cidr_ip-address a b c d v) refl
source_address-host (network a b c d len) m v =
    rw (dotted-differs a b c d (codes "ny") v.0, parse_cidr_ip-network a b c d len v) refl

destination_address-host :
    (h : Host) (m : Match)
    → IsHost h
    → destination_address (record m { dst = (host_parts h).0; dst_mask = (host_parts h).1 })
      ≡ ok (host_address h)
unfolding sdf_of_match
destination_address-host any m v = refl
destination_address-host (address a b c d) m v =
    rw
      (
        dotted-differs a b c d (codes "ssigned") v.0,
        dotted-differs a b c d (codes "ny") v.0,
        parse_cidr_ip-address a b c d v,
      )
      refl
destination_address-host (network a b c d len) m v =
    rw
      (
        dotted-differs a b c d (codes "ssigned") v.0,
        dotted-differs a b c d (codes "ny") v.0,
        parse_cidr_ip-network a b c d len v,
      )
      refl

parse_port-digits : (p : ℕ) → p ≤ 65535 → parse_port (digits 5 p) ≡ ok p
unfolding parse_port
parse_port-digits p h =
    rw (parse_port, parse_uint-digits 4 p (omega (arith, h)) (omega (arith, h))) (ground (arith, h))

optional_ports-group : (cs : Text) → Begun cs → optional_ports cs ≡ parse_port_range cs
unfolding parse_port_range
optional_ports-group [] h = absurd h
optional_ports-group (c ∷ cs) h = refl

ltb-le : (p q : ℕ) → p ≤ q → ltb q p ≡ false
ltb-le p q h = ground (arith, h)

optional_ports-ports :
    (ps : Ports) → IsPorts ps → optional_ports (port_word ps) ≡ ok (port_bounds ps)
unfolding parse_port_range
optional_ports-ports all_ports h = refl
optional_ports-ports (one_port p) h =
    rw
      (
        optional_ports-group (digits 5 p) (digits-Begun 4 p (omega (arith, h))),
        parse_port_range,
        cut-last b'-' (digits 5 p) (digits-Lacks b'-' 5 p refl),
        is_number-digits 4 p (omega (arith, h)),
        parse_port-digits p h,
        ltb-le p p (omega arith),
      )
      refl
optional_ports-ports (ports p q) h =
    rw
      (
        optional_ports-group (port_word (ports p q))
            (Begun-append (digits 5 p) _ (digits-Begun 4 p (omega (arith, h)))),
        parse_port_range,
        cut-first b'-' (digits 5 p) (digits 5 q) (digits-Lacks b'-' 5 p refl),
        is_number-digits 4 p (omega (arith, h)),
        is_number-digits 4 q (omega (arith, h)),
        parse_port-digits p (omega (arith, h)),
        parse_port-digits q h.1,
        ltb-le p q h.0,
      )
      refl

parse_protocol-word : (p : Protocol) → parse_protocol (protocol_word p) ≡ ok (protocol_number p)
unfolding parse_protocol
parse_protocol-word icmp = refl
parse_protocol-word ip = refl
parse_protocol-word tcp = refl
parse_protocol-word udp = refl
parse_protocol-word icmp6 = refl

sdf_of_match-flow : (f : Flow) → IsFlow f → sdf_of_match (flow_match f) ≡ ok (flow_filter f)
unfolding sdf_of_match flow_filter
sdf_of_match-flow f h =
    rw
      (
        parse_protocol-word f.flow_protocol,
        source_address-host f.from_host (flow_match f) h.0,
        optional_ports-ports f.from_ports h.1,
        destination_address-host f.to_host (flow_match f) h.2,
        optional_ports-ports f.to_ports h.3,
      )
      refl

-- A flow description "permit out P from H [ports] to H [ports]", with a protocol of icmp, ip, tcp,
-- udp or 58, hosts "any", a.b.c.d or a.b.c.d/len with bytes up to 255 and len up to 32, and ports
-- p or p-q in order and up to 65535, all numbers in decimal, is read by ParseSdfFilter as the
-- filter that it was printed from: its protocol, its addresses cut by their masks and its ports.
pub parse_sdf_filter-print_flow :
    (f : Flow) → IsFlow f → parse_sdf_filter (print_flow f) ≡ ok (flow_filter f)
unfolding parse_sdf_filter
parse_sdf_filter-print_flow f h =
    rw (match_flow-print f h, parse_sdf_filter) (sdf_of_match-flow f h)
