-- ===== src/Tests/Flows.antt =====
-- Flow descriptions, printed and read back.
use eupf.Base.{◌≡◌, refl, arith}
use eupf.Base.Outcome.{ok}
use eupf.Base.Text.{codes}
use eupf.Core.Sdf.{parse_sdf_filter}
use eupf.Core.Sdf.Flow.{udp, any, network, all_ports, ports, Flow, print_flow, flow_filter}
use eupf.Core.Sdf.RoundTrip.{parse_sdf_filter-print_flow}

abbrev flow : Flow
flow = record {
  flow_protocol = udp;
  from_host = network 10 62 0 1 24;
  from_ports = ports 80 443;
  to_host = any;
  to_ports = all_ports;
}

printed : print_flow flow ≡ codes "permit out udp from 10.62.0.1/24 80-443 to any"
unfolding print_flow
printed = refl

parse_sdf_filter-print_flow_example : parse_sdf_filter (print_flow flow) ≡ ok (flow_filter flow)
parse_sdf_filter-print_flow_example = parse_sdf_filter-print_flow flow (
  (omega arith, omega arith, omega arith, omega arith, omega arith),
  (omega arith, omega arith),
  tt,
  tt,
)
