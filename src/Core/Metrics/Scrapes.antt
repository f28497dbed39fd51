-- ===== src/Core/Metrics/Scrapes.antt =====
-- What the counters of GatherMetrics hold after a number of scrapes.
use eupf.Base.{
  ℕ, ◌+◌, ◌^◌, ◌<◌, ◌∙◌, ◌*◌, ◌/◌, ◌%◌, ltb, true, subst, ◌≡◌, refl, ap, inl, inr, Bool-cases,
  String, none, some, List, [], ◌∷◌, arith, if◌then◌else◌, string_eq,
}
use eupf.Base.Table.{insert, get_or, lookup-insert}
use eupf.Ebpf.Stats.{
  UpfCounters, zero_counters, delta_counters, Reading, RouteReading, UpfXdpActionStatistic,
  new_statistic, sum_counters, get_upf_ext_stat, get_upf_ext_stat_delta,
}
use eupf.Ebpf.Stats.Wrap.{sub64-zero}
use eupf.Ebpf.Stats.Deltas.{IsTotal, zero-IsTotal, sum_counters-IsTotal}
use eupf.Core.Metrics.{
  Prometheus, IsPrometheus, float64, round_to, CounterVec, Metrics, add_values, packet_values,
  gather_metrics, serve_metrics,
}

-- The packets that upf_rx tells apart, by label and by field of the statistics.
pub data Packets : Type 0 where
  packets_arp packets_icmp packets_icmp6 packets_ip4 packets_ip6 packets_tcp : Packets
  packets_udp packets_other packets_gtp_echo packets_gtp_pdu packets_gtp_other packets_gtp_unexp :
      Packets

abbrev pub label_of : Packets → String
label_of packets_arp = "arp"
label_of packets_icmp = "icmp"
label_of packets_icmp6 = "icmp6"
label_of packets_ip4 = "ip4"
label_of packets_ip6 = "ip6"
label_of packets_tcp = "tcp"
label_of packets_udp = "udp"
label_of packets_other = "other"
label_of packets_gtp_echo = "gtp-echo"
label_of packets_gtp_pdu = "gtp-pdu"
label_of packets_gtp_other = "gtp-other"
label_of packets_gtp_unexp = "gtp-unexp"

abbrev pub count_of : Packets → UpfCounters → ℕ
count_of packets_arp c = c.rx_arp
count_of packets_icmp c = c.rx_icmp
count_of packets_icmp6 c = c.rx_icmp6
count_of packets_ip4 c = c.rx_ip4
count_of packets_ip6 c = c.rx_ip6
count_of packets_tcp c = c.rx_tcp
count_of packets_udp c = c.rx_udp
count_of packets_other c = c.rx_other
count_of packets_gtp_echo c = c.rx_gtp_echo
count_of packets_gtp_pdu c = c.rx_gtp_pdu
count_of packets_gtp_other c = c.rx_gtp_other
count_of packets_gtp_unexp c = c.rx_gtp_unexp

-- What the values under one label add up to.
abbrev under : String → List (String × ℕ) → ℕ
under l [] = 0
under l ((k, x) ∷ values) = (if string_eq.beq k l then x else 0) + under l values

under-packet_values :
    (k : Packets) (c : UpfCounters) → under (label_of k) (packet_values c) ≡ count_of k c
under-packet_values packets_arp c = omega arith
under-packet_values packets_icmp c = omega arith
under-packet_values packets_icmp6 c = omega arith
under-packet_values packets_ip4 c = omega arith
under-packet_values packets_ip6 c = omega arith
under-packet_values packets_tcp c = omega arith
under-packet_values packets_udp c = omega arith
under-packet_values packets_other c = omega arith
under-packet_values packets_gtp_echo c = omega arith
under-packet_values packets_gtp_pdu c = omega arith
under-packet_values packets_gtp_other c = omega arith
under-packet_values packets_gtp_unexp c = omega arith

ltb-true : (m n : ℕ) → m < n → ltb m n ≡ true
ltb-true m n h = ground arith

-- The conversion is exact below 2^53.
pub float64-exact : (n : ℕ) → n < 2 ^ 53 → float64 n ≡ n
unfolding float64
float64-exact n h =
    let fits : ltb (n / 1) (2 ^ 53) ≡ true = ltb-true (n / 1) (2 ^ 53) (omega (arith, h)) in
    let whole : ltb (2 * (n % 1)) 1 ≡ true = ltb-true (2 * (n % 1)) 1 (omega arith) in
    rw (fits, float64) (rw (whole, round_to) (omega arith))

delta-zero : (n : UpfCounters) → IsTotal n → delta_counters zero_counters n ≡ n
unfolding delta_counters
delta-zero n k =
    rw
      (
        sub64-zero n.rx_arp k.0,
        sub64-zero n.rx_icmp k.1,
        sub64-zero n.rx_icmp6 k.2,
        sub64-zero n.rx_ip4 k.3,
        sub64-zero n.rx_ip6 k.4,
        sub64-zero n.rx_tcp k.5,
        sub64-zero n.rx_udp k.6,
        sub64-zero n.rx_other k.7,
        sub64-zero n.rx_gtp_echo k.8,
        sub64-zero n.rx_gtp_pdu k.9,
        sub64-zero n.rx_gtp_other k.10,
        ← k.11,
      )
      refl

module _ (p : Prometheus) (laws : IsPrometheus p) where
  -- What a scrape reads under a label, 0 where it has not been used.
  abbrev pub read : String → CounterVec p → ℕ
  read l vec = p.value (get_or p.new_counter l vec)

  get_or-insert :
      (k l : String) (c : p.Counter) (vec : CounterVec p)
      → get_or p.new_counter l (insert k c vec)
        ≡ (if string_eq.beq k l then c else get_or p.new_counter l vec)
  unfolding get_or
  get_or-insert k l c vec = ground (arith, lookup-insert k l c vec)

  read-insert :
      (k l : String) (x : ℕ) (vec : CounterVec p)
      → read l vec + (if string_eq.beq k l then x else 0) < 2 ^ 53
      → read l (insert k (p.add (float64 x) (get_or p.new_counter k vec)) vec)
        ≡ read l vec + (if string_eq.beq k l then x else 0)
  read-insert k l x vec h =
      let c = get_or p.new_counter k vec in
      ap p.value (get_or-insert k l (p.add (float64 x) c) vec)
      ∙ elim (Bool-cases (string_eq.beq k l)) [
        | inl e ↦
            let here = ap (λ z. read z vec) ((string_eq.beq_iff k l).0 e) in
            let room : read l vec + x < 2 ^ 53 =
              subst (λ b. read l vec + (if b then x else 0) < 2 ^ 53) e h in
            rw e (
              ap (λ y. p.value (p.add y c)) (float64-exact x (omega (arith, room)))
              ∙ laws.value-add x c (omega (arith, here, room))
              ∙ omega (arith, here))
        | inr e ↦ rw e (omega arith)
      ]

  read-add_values :
      (l : String) (values : List (String × ℕ)) (vec : CounterVec p)
      → read l vec + under l values < 2 ^ 53
      → read l (add_values p values vec) ≡ read l vec + under l values
  unfolding add_values
  read-add_values l [] vec h = omega arith
  read-add_values l ((k, x) ∷ values) vec h =
      let one = read-insert k l x vec (omega (arith, h)) in
      let rest =
        read-add_values l values (insert k (p.add (float64 x) (get_or p.new_counter k vec)) vec)
          (omega (arith, h, one)) in
      omega (arith, one, rest)

  -- One scrape counts all that the reading reports.
  serve_metrics-rx :
      (r : Reading) (q : RouteReading) (m : Metrics p)
      → (serve_metrics p r q new_statistic m).upf_rx
        ≡ add_values p (packet_values (get_upf_ext_stat r)) m.upf_rx
  unfolding serve_metrics gather_metrics get_upf_ext_stat get_upf_ext_stat_delta
  serve_metrics-rx none q m = refl
  serve_metrics-rx (some ss) q m =
      ap (λ c. add_values p (packet_values c) m.upf_rx)
        (delta-zero (sum_counters zero_counters ss)
          (sum_counters-IsTotal zero_counters ss zero-IsTotal))

  -- Requests for "/metrics", one after another.
  abbrev pub serve_all :
      List (Reading × RouteReading) → UpfXdpActionStatistic → Metrics p → Metrics p
  serve_all [] stats m = m
  serve_all ((r, q) ∷ scrapes) stats m = serve_all scrapes stats (serve_metrics p r q stats m)

-- All readings together, also those that an earlier scrape has counted.
abbrev pub reported : Packets → List (Reading × RouteReading) → ℕ
reported k [] = 0
reported k ((r, q) ∷ scrapes) = count_of k (get_upf_ext_stat r) + reported k scrapes

module _ (p : Prometheus) (laws : IsPrometheus p) where
  -- With counters that add whole numbers below 2^53 exactly: since GatherMetrics gets a copy of the
  -- statistics, its readings are never remembered. After any scrapes, the counter of upf_rx for any
  -- kind of packets has grown by the sum of the totals that all the readings report for them, not by
  -- what came in between them, as long as what it would hold stays below 2^53.
  pub upf_rx-serve_all :
      (k : Packets) (scrapes : List (Reading × RouteReading)) (m : Metrics p)
      → read p laws (label_of k) m.upf_rx + reported k scrapes < 2 ^ 53
      → read p laws (label_of k) (serve_all p laws scrapes new_statistic m).upf_rx
        ≡ read p laws (label_of k) m.upf_rx + reported k scrapes
  upf_rx-serve_all k [] m h = omega arith
  upf_rx-serve_all k ((r, q) ∷ scrapes) m h =
      let m1 = serve_metrics p r q new_statistic m in
      let counted = under-packet_values k (get_upf_ext_stat r) in
      let one =
        ap (read p laws (label_of k)) (serve_metrics-rx p laws r q m)
        ∙ read-add_values p laws (label_of k) (packet_values (get_upf_ext_stat r)) m.upf_rx
            (omega (arith, h, counted)) in
      let rest = upf_rx-serve_all k scrapes m1 (omega (arith, h, counted, one)) in
      omega (arith, counted, one, rest)
