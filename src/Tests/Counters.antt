-- ===== src/Tests/Counters.antt =====
-- Readings of the packet counters, scrapes of the metrics and ticks of the GTP path manager.
use eupf.Base.{
  arith, ℕ, ◌+◌, ◌-◌, ◌^◌, ◌≡◌, refl, none, some, [], ◌∷◌, string_eq, ◌==◌, if◌then◌else◌,
}
use eupf.Base.Table.{get_or, lookup}
use eupf.Base.MapOrder.{kept_order}
use eupf.Ebpf.Stats.{
  UpfStatistic, Reading, RouteReading, zero_counters, zero_route_stat, new_statistic,
  get_upf_ext_stat, get_upf_xdp_statistic_field,
}
use eupf.Ebpf.Stats.Deltas.{count, latest}
use eupf.Ebpf.Stats.Routes.{count_routes, latest_route, deltas-latest}
use eupf.Core.Metrics.{Metrics, Prometheus, IsPrometheus, float64}
use eupf.Core.Metrics.Scrapes.{
  read, serve_all, reported, packets_ip4, float64-exact, upf_rx-serve_all,
}
use eupf.Core.GtpPaths.{
  EchoCalls, Answers, done, tick, GtpPathManager, add_gtp_path, gtp_run, send_echo,
}
use eupf.Core.GtpPaths.Echoes.{sequence-add_gtp_path}

abbrev ip4_packets : ℕ → UpfStatistic
ip4_packets n = record {
  upf_counters = record zero_counters { rx_ip4 = n };
  xdp_actions = 0 ∷ 1 ∷ n ∷ 0 ∷ 0 ∷ 0 ∷ 0 ∷ 0 ∷ [];
}

-- Two processors.
abbrev reading : ℕ → ℕ → Reading
reading a b = some (ip4_packets a ∷ ip4_packets b ∷ [])

abbrev route : ℕ → RouteReading
route n = some (record zero_route_stat { fib_lookup_ip4_ok = n } ∷ [])

deltas-latest_example :
    (count zero_counters (reading 1 2 ∷ none ∷ reading 4 4 ∷ []) new_statistic
      ≡ latest zero_counters (reading 1 2 ∷ none ∷ reading 4 4 ∷ []))
    × (count_routes zero_route_stat (route 5 ∷ route 9 ∷ []) new_statistic
        ≡ latest_route zero_route_stat (route 5 ∷ route 9 ∷ []))
deltas-latest_example =
    deltas-latest (reading 1 2 ∷ none ∷ reading 4 4 ∷ []) (route 5 ∷ route 9 ∷ [])

passed : get_upf_xdp_statistic_field 2 (reading 3 4) ≡ 7
unfolding get_upf_xdp_statistic_field
passed = refl

-- Counters that hold a float64, as the client's do.
abbrev counters : Prometheus
counters = record { Counter = ℕ; new_counter = 0; add = λ x c. float64 (c + x); value = λ c. c }

counters-IsPrometheus : IsPrometheus counters
counters-IsPrometheus = record { value-new = refl; value-add = λ x c h. float64-exact (c + x) h }

float64_test : (float64 (2 ^ 53 + 1) ≡ 2 ^ 53) × (float64 (2 ^ 64 - 1) ≡ 2 ^ 64)
unfolding float64
float64_test = (refl, refl)

abbrev no_metrics : Metrics counters
no_metrics = record { upf_rx = []; upf_route = [] }

scraped_twice : reported packets_ip4 ((reading 1 2, none) ∷ (reading 1 2, none) ∷ []) ≡ 6
unfolding get_upf_ext_stat
scraped_twice = refl

-- Three packets came in, and two scrapes count six.
upf_rx-serve_all_example :
    read counters counters-IsPrometheus "ip4"
      (serve_all counters counters-IsPrometheus
        ((reading 1 2, none) ∷ (reading 1 2, none) ∷ [])
        new_statistic
        no_metrics).upf_rx
    ≡ read counters counters-IsPrometheus "ip4" no_metrics.upf_rx
      + reported packets_ip4 ((reading 1 2, none) ∷ (reading 1 2, none) ∷ [])
unfolding get_or lookup
upf_rx-serve_all_example =
    upf_rx-serve_all counters counters-IsPrometheus packets_ip4
      ((reading 1 2, none) ∷ (reading 1 2, none) ∷ []) no_metrics (omega (arith, scraped_twice))

abbrev echoed : EchoCalls
echoed = record {
  serialize_failure = none;
  local_failure = none;
  remote_failure = none;
  dial_failure = none;
  write_failure = none;
  read_failure = none;
  gtp_layer = some (record { message_type = 2; gtp_teid = 0 });
  elapsed_time = 1;
}

-- The response to the second request has another TEID.
abbrev echoes : Answers
echoes peer sequence_number =
    if sequence_number == 1
    then record echoed { gtp_layer = some (record { message_type = 2; gtp_teid = 7 }) }
    else echoed

abbrev manager : GtpPathManager
manager = record { manager_address = "10.0.3.1:2152"; peers = ("a", 3) ∷ []; check_interval = 10 }

sequence-add_gtp_path_example :
    lookup "gnb"
      (gtp_run kept_order
        (tick echoes ∷ tick echoes ∷ done ∷ tick echoes ∷ [])
        (add_gtp_path "gnb" manager)).peers
    ≡ some 1
unfolding lookup send_echo
sequence-add_gtp_path_example =
    sequence-add_gtp_path kept_order (tick echoes ∷ tick echoes ∷ done ∷ tick echoes ∷ []) "gnb"
      manager (refl, tt)
