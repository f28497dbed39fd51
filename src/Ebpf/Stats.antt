-- ===== src/Ebpf/Stats.antt =====
-- cmd/ebpf/stats.go: packet counters and route statistics summed over the processors, and what
-- changed since the last reading. A reading is what the Lookup of a per-CPU map gives: a value for
-- each processor, or an error. The fields are uint64.
pub mod Wrap
pub mod Deltas
pub mod Routes
use eupf.Base.{ℕ, ◌+◌, ◌-◌, ◌%◌, ◌^◌, Option, none, some, List, [], ◌∷◌, get_or}

abbrev pub add64 : ℕ → ℕ → ℕ
add64 a b = (a + b) % 2 ^ 64

-- `new - current`; neither is above 2^64 - 1.
abbrev pub sub64 : ℕ → ℕ → ℕ
sub64 new current = (new + 2 ^ 64 - current) % 2 ^ 64

pub record UpfCounters : Type 0 where
  pub rx_arp : ℕ
  pub rx_icmp : ℕ
  pub rx_icmp6 : ℕ
  pub rx_ip4 : ℕ
  pub rx_ip6 : ℕ
  pub rx_tcp : ℕ
  pub rx_udp : ℕ
  pub rx_other : ℕ
  pub rx_gtp_echo : ℕ
  pub rx_gtp_pdu : ℕ
  pub rx_gtp_other : ℕ
  pub rx_gtp_unexp : ℕ

abbrev pub zero_counters : UpfCounters
zero_counters = record {
  rx_arp = 0;
  rx_icmp = 0;
  rx_icmp6 = 0;
  rx_ip4 = 0;
  rx_ip6 = 0;
  rx_tcp = 0;
  rx_udp = 0;
  rx_other = 0;
  rx_gtp_echo = 0;
  rx_gtp_pdu = 0;
  rx_gtp_other = 0;
  rx_gtp_unexp = 0;
}

-- UpfCounters.Add.
unfoldable pub add_counters : UpfCounters → UpfCounters → UpfCounters
add_counters current new = record current {
  rx_arp = add64 current.rx_arp new.rx_arp;
  rx_icmp = add64 current.rx_icmp new.rx_icmp;
  rx_icmp6 = add64 current.rx_icmp6 new.rx_icmp6;
  rx_ip4 = add64 current.rx_ip4 new.rx_ip4;
  rx_ip6 = add64 current.rx_ip6 new.rx_ip6;
  rx_tcp = add64 current.rx_tcp new.rx_tcp;
  rx_udp = add64 current.rx_udp new.rx_udp;
  rx_other = add64 current.rx_other new.rx_other;
  rx_gtp_echo = add64 current.rx_gtp_echo new.rx_gtp_echo;
  rx_gtp_pdu = add64 current.rx_gtp_pdu new.rx_gtp_pdu;
  rx_gtp_other = add64 current.rx_gtp_other new.rx_gtp_other;
}

-- UpfCounters.Delta.
unfoldable pub delta_counters : UpfCounters → UpfCounters → UpfCounters
delta_counters current new = record zero_counters {
  rx_arp = sub64 new.rx_arp current.rx_arp;
  rx_icmp = sub64 new.rx_icmp current.rx_icmp;
  rx_icmp6 = sub64 new.rx_icmp6 current.rx_icmp6;
  rx_ip4 = sub64 new.rx_ip4 current.rx_ip4;
  rx_ip6 = sub64 new.rx_ip6 current.rx_ip6;
  rx_tcp = sub64 new.rx_tcp current.rx_tcp;
  rx_udp = sub64 new.rx_udp current.rx_udp;
  rx_other = sub64 new.rx_other current.rx_other;
  rx_gtp_echo = sub64 new.rx_gtp_echo current.rx_gtp_echo;
  rx_gtp_pdu = sub64 new.rx_gtp_pdu current.rx_gtp_pdu;
  rx_gtp_other = sub64 new.rx_gtp_other current.rx_gtp_other;
}

pub record RouteStat : Type 0 where
  pub fib_lookup_ip4_cache : ℕ
  pub fib_lookup_ip4_ok : ℕ
  pub fib_lookup_ip4_error_drop : ℕ
  pub fib_lookup_ip4_error_pass : ℕ
  pub fib_lookup_ip6_cache : ℕ
  pub fib_lookup_ip6_ok : ℕ
  pub fib_lookup_ip6_error_drop : ℕ
  pub fib_lookup_ip6_error_pass : ℕ

abbrev pub zero_route_stat : RouteStat
zero_route_stat = record {
  fib_lookup_ip4_cache = 0;
  fib_lookup_ip4_ok = 0;
  fib_lookup_ip4_error_drop = 0;
  fib_lookup_ip4_error_pass = 0;
  fib_lookup_ip6_cache = 0;
  fib_lookup_ip6_ok = 0;
  fib_lookup_ip6_error_drop = 0;
  fib_lookup_ip6_error_pass = 0;
}

-- Both operations on route statistics treat every field alike.
abbrev pub each_route_field : (ℕ → ℕ → ℕ) → RouteStat → RouteStat → RouteStat
each_route_field f a b = record {
  fib_lookup_ip4_cache = f a.fib_lookup_ip4_cache b.fib_lookup_ip4_cache;
  fib_lookup_ip4_ok = f a.fib_lookup_ip4_ok b.fib_lookup_ip4_ok;
  fib_lookup_ip4_error_drop = f a.fib_lookup_ip4_error_drop b.fib_lookup_ip4_error_drop;
  fib_lookup_ip4_error_pass = f a.fib_lookup_ip4_error_pass b.fib_lookup_ip4_error_pass;
  fib_lookup_ip6_cache = f a.fib_lookup_ip6_cache b.fib_lookup_ip6_cache;
  fib_lookup_ip6_ok = f a.fib_lookup_ip6_ok b.fib_lookup_ip6_ok;
  fib_lookup_ip6_error_drop = f a.fib_lookup_ip6_error_drop b.fib_lookup_ip6_error_drop;
  fib_lookup_ip6_error_pass = f a.fib_lookup_ip6_error_pass b.fib_lookup_ip6_error_pass;
}

unfoldable pub add_route_stat : RouteStat → RouteStat → RouteStat
add_route_stat current new = each_route_field add64 current new

unfoldable pub delta_route_stat : RouteStat → RouteStat → RouteStat
delta_route_stat current new = each_route_field sub64 new current

-- The generated IpEntrypointUpfStatistic: `struct upf_statistic`.
pub record UpfStatistic : Type 0 where
  pub upf_counters : UpfCounters
  pub xdp_actions : List ℕ

abbrev pub Reading : Type 0
Reading = Option (List UpfStatistic)

abbrev pub RouteReading : Type 0
RouteReading = Option (List RouteStat)

-- UpfXdpActionStatistic, without the maps that it reads.
pub record UpfXdpActionStatistic : Type 0 where
  pub upf_counters_previous : UpfCounters
  pub upf_route_previous : RouteStat

abbrev pub new_statistic : UpfXdpActionStatistic
new_statistic = record {
  upf_counters_previous = zero_counters;
  upf_route_previous = zero_route_stat;
}

-- `statistic.XdpActions[field]`, an array of eight; `field` is below five.
abbrev pub sum_actions : ℕ → ℕ → List UpfStatistic → ℕ
sum_actions field total [] = total
sum_actions field total (s ∷ ss) = sum_actions field (add64 total (get_or s.xdp_actions field 0)) ss

unfoldable pub get_upf_xdp_statistic_field : ℕ → Reading → ℕ
get_upf_xdp_statistic_field field none = 0
get_upf_xdp_statistic_field field (some statistics) = sum_actions field 0 statistics

abbrev pub sum_counters : UpfCounters → List UpfStatistic → UpfCounters
sum_counters counters [] = counters
sum_counters counters (s ∷ ss) = sum_counters (add_counters counters s.upf_counters) ss

unfoldable pub get_upf_ext_stat : Reading → UpfCounters
unfolding add_counters
get_upf_ext_stat none = zero_counters
get_upf_ext_stat (some statistics) = sum_counters zero_counters statistics

unfoldable pub get_upf_ext_stat_delta :
    Reading → UpfXdpActionStatistic → UpfCounters × UpfXdpActionStatistic
unfolding add_counters delta_counters
get_upf_ext_stat_delta none stat = (zero_counters, stat)
get_upf_ext_stat_delta (some statistics) stat =
    let counters = sum_counters zero_counters statistics in
    (
      delta_counters stat.upf_counters_previous counters,
      record stat { upf_counters_previous = counters },
    )

abbrev pub sum_routes : RouteStat → List RouteStat → RouteStat
sum_routes counters [] = counters
sum_routes counters (s ∷ ss) = sum_routes (add_route_stat counters s) ss

unfoldable pub get_upf_route_stat : RouteReading → RouteStat
unfolding add_route_stat
get_upf_route_stat none = zero_route_stat
get_upf_route_stat (some statistics) = sum_routes zero_route_stat statistics

unfoldable pub get_upf_route_stat_delta :
    RouteReading → UpfXdpActionStatistic → RouteStat × UpfXdpActionStatistic
unfolding add_route_stat delta_route_stat
get_upf_route_stat_delta none stat = (zero_route_stat, stat)
get_upf_route_stat_delta (some statistics) stat =
    let counters = sum_routes zero_route_stat statistics in
    (
      delta_route_stat stat.upf_route_previous counters,
      record stat { upf_route_previous = counters },
    )

unfoldable pub get_aborted : Reading → ℕ
unfolding get_upf_xdp_statistic_field
get_aborted r = get_upf_xdp_statistic_field 0 r

unfoldable pub get_drop : Reading → ℕ
unfolding get_upf_xdp_statistic_field
get_drop r = get_upf_xdp_statistic_field 1 r

unfoldable pub get_pass : Reading → ℕ
unfolding get_upf_xdp_statistic_field
get_pass r = get_upf_xdp_statistic_field 2 r

unfoldable pub get_tx : Reading → ℕ
unfolding get_upf_xdp_statistic_field
get_tx r = get_upf_xdp_statistic_field 3 r

unfoldable pub get_redirect : Reading → ℕ
unfolding get_upf_xdp_statistic_field
get_redirect r = get_upf_xdp_statistic_field 4 r
