-- ===== src/Core/Metrics.antt =====
-- RegisterMetrics and GatherMetrics of cmd/core/metrics.go and the handler of
-- cmd/api/rest/handler.go that calls it. The counters of the Prometheus client are a parameter.
pub mod Scrapes
use eupf.Base.{
  ℕ, zero, suc, ◌+◌, ◌*◌, ◌/◌, ◌%◌, ◌^◌, ◌<◌, ◌≡◌, ltb, if◌then◌else◌, String, List, [], ◌∷◌,
  string_eq,
}
use eupf.Base.Table.{Table, insert, get_or}
use eupf.Ebpf.Stats.{
  UpfCounters, RouteStat, Reading, RouteReading, UpfXdpActionStatistic, get_upf_ext_stat_delta,
  get_upf_route_stat_delta, get_aborted, get_drop, get_pass, get_tx, get_redirect,
}
use eupf.Core.Connection.{PfcpConnection, get_session_count, get_association_count}

-- A whole number in the units of `unit`, to the nearest, and to the even one of two that are as near.
abbrev pub round_to : ℕ → ℕ → ℕ
round_to unit n =
    let q = n / unit in
    let r = n % unit in
    if ltb (2 * r) unit
    then q * unit
    else if ltb unit (2 * r)
    then (q + 1) * unit
    else (q + q % 2) * unit

-- The unit doubles until 53 bits hold the number; eleven times are enough for a uint64.
unfoldable pub float_from : ℕ → ℕ → ℕ → ℕ
float_from zero unit n = round_to unit n
float_from (suc fuel) unit n =
    let further = float_from fuel (unit * 2) n in
    if ltb (n / unit) (2 ^ 53) then round_to unit n else further

-- float64(n) of a uint64: a number is given by its value.
unfoldable pub float64 : ℕ → ℕ
unfolding float_from
float64 n = float_from 11 1 n

-- prometheus.Counter: what Add makes of a counter, and what a scrape reads of it.
pub record Prometheus : Type 1 where
  pub Counter : Type 0
  pub new_counter : Counter
  pub add : ℕ → Counter → Counter
  pub value : Counter → ℕ

-- A counter starts at 0, and holds whole numbers below 2^53, the exact ones of a float64, exactly.
pub record IsPrometheus (p : Prometheus) : Type 0 where
  pub value-new : p.value p.new_counter ≡ 0
  pub value-add :
      (x : ℕ) (c : p.Counter) → p.value c + x < 2 ^ 53 → p.value (p.add x c) ≡ p.value c + x

module _ (prometheus : Prometheus) where
  open prometheus use {Counter, new_counter, add}

  -- A counter for each label.
  abbrev pub CounterVec : Type 0
  CounterVec = Table String Counter

  pub record Metrics : Type 0 where
    pub upf_rx : CounterVec
    pub upf_route : CounterVec

  -- `vec.WithLabelValues(label).Add(float64(x))` for one label after another; a label's first use
  -- makes its counter.
  unfoldable pub add_values : List (String × ℕ) → CounterVec → CounterVec
  unfolding insert get_or float64
  add_values [] vec = vec
  add_values ((label, x) ∷ values) vec =
      add_values values (insert label (add (float64 x) (get_or new_counter label vec)) vec)

abbrev pub packet_values : UpfCounters → List (String × ℕ)
packet_values c =
    ("arp", c.rx_arp)
    ∷ ("icmp", c.rx_icmp)
    ∷ ("icmp6", c.rx_icmp6)
    ∷ ("ip4", c.rx_ip4)
    ∷ ("ip6", c.rx_ip6)
    ∷ ("tcp", c.rx_tcp)
    ∷ ("udp", c.rx_udp)
    ∷ ("other", c.rx_other)
    ∷ ("gtp-echo", c.rx_gtp_echo)
    ∷ ("gtp-pdu", c.rx_gtp_pdu)
    ∷ ("gtp-other", c.rx_gtp_other)
    ∷ ("gtp-unexp", c.rx_gtp_unexp)
    ∷ []

abbrev pub route_values : RouteStat → List (String × ℕ)
route_values r =
    ("ip4-cache", r.fib_lookup_ip4_cache)
    ∷ ("ip4-ok", r.fib_lookup_ip4_ok)
    ∷ ("ip4-error-drop", r.fib_lookup_ip4_error_drop)
    ∷ ("ip4-error-pass", r.fib_lookup_ip4_error_pass)
    ∷ ("ip6-cache", r.fib_lookup_ip6_cache)
    ∷ ("ip6-ok", r.fib_lookup_ip6_ok)
    ∷ ("ip6-error-drop", r.fib_lookup_ip6_error_drop)
    ∷ ("ip6-error-pass", r.fib_lookup_ip6_error_pass)
    ∷ []

module _ (prometheus : Prometheus) where
  -- GatherMetrics. Its parameter is a copy of the caller's statistics, which the second part is.
  unfoldable pub gather_metrics :
      Reading
      → RouteReading
      → UpfXdpActionStatistic
      → Metrics prometheus
      → Metrics prometheus × UpfXdpActionStatistic
  unfolding get_upf_ext_stat_delta get_upf_route_stat_delta add_values
  gather_metrics reading route_reading stats metrics =
      let (rx_packet_counters, stats1) = get_upf_ext_stat_delta reading stats in
      let (route_stats, stats2) = get_upf_route_stat_delta route_reading stats1 in
      (
        record {
          upf_rx = add_values prometheus (packet_values rx_packet_counters) metrics.upf_rx;
          upf_route = add_values prometheus (route_values route_stats) metrics.upf_route;
        },
        stats2,
      )

  -- The handler of "/metrics": GatherMetrics(*h.ForwardPlaneStats). The caller's statistics stay.
  unfoldable pub serve_metrics :
      Reading → RouteReading → UpfXdpActionStatistic → Metrics prometheus → Metrics prometheus
  unfolding gather_metrics
  serve_metrics reading route_reading forward_plane_stats metrics =
      (gather_metrics reading route_reading forward_plane_stats metrics).0

-- RegisterMetrics: the collectors and what their functions return, for a reading at each.
unfoldable pub registered_metrics :
    {Plane : Type 0} → (String → Reading) → PfcpConnection Plane → List (String × ℕ)
unfolding get_aborted get_drop get_pass get_tx get_redirect get_session_count get_association_count
    float64
registered_metrics reading conn =
    ("upf_xdp_aborted", float64 (get_aborted (reading "upf_xdp_aborted")))
    ∷ ("upf_xdp_drop", float64 (get_drop (reading "upf_xdp_drop")))
    ∷ ("upf_xdp_pass", float64 (get_pass (reading "upf_xdp_pass")))
    ∷ ("upf_xdp_tx", float64 (get_tx (reading "upf_xdp_tx")))
    ∷ ("upf_xdp_redirect", float64 (get_redirect (reading "upf_xdp_redirect")))
    ∷ ("upf_pfcp_sessions", float64 (get_session_count conn))
    ∷ ("upf_pfcp_associations", float64 (get_association_count conn))
    ∷ []
