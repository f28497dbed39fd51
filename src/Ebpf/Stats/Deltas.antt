-- ===== src/Ebpf/Stats/Deltas.antt =====
-- cmd/ebpf/stats.go: the differences that GetUpfExtStatDelta returns add up.
use eupf.Base.{◌^◌, ◌<◌, ◌≡◌, refl, none, some, List, [], ◌∷◌, arith}
use eupf.Ebpf.Stats.{
  UpfCounters, zero_counters, add_counters, delta_counters, UpfStatistic, Reading,
  UpfXdpActionStatistic, sum_counters, get_upf_ext_stat, get_upf_ext_stat_delta,
}
use eupf.Ebpf.Stats.Wrap.{add64-sub64, add64-lt, add64-zero}

-- Counters within uint64, without the field that Add and Delta leave out.
abbrev pub IsTotal : UpfCounters → Type 0
IsTotal c =
    (c.rx_arp < 2 ^ 64)
    × (c.rx_icmp < 2 ^ 64)
    × (c.rx_icmp6 < 2 ^ 64)
    × (c.rx_ip4 < 2 ^ 64)
    × (c.rx_ip6 < 2 ^ 64)
    × (c.rx_tcp < 2 ^ 64)
    × (c.rx_udp < 2 ^ 64)
    × (c.rx_other < 2 ^ 64)
    × (c.rx_gtp_echo < 2 ^ 64)
    × (c.rx_gtp_pdu < 2 ^ 64)
    × (c.rx_gtp_other < 2 ^ 64)
    × (c.rx_gtp_unexp ≡ 0)

add-delta : (p n : UpfCounters) → IsTotal p → IsTotal n → add_counters p (delta_counters p n) ≡ n
unfolding add_counters delta_counters
add-delta p n h k =
    rw
      (
        add64-sub64 p.rx_arp n.rx_arp h.0 k.0,
        add64-sub64 p.rx_icmp n.rx_icmp h.1 k.1,
        add64-sub64 p.rx_icmp6 n.rx_icmp6 h.2 k.2,
        add64-sub64 p.rx_ip4 n.rx_ip4 h.3 k.3,
        add64-sub64 p.rx_ip6 n.rx_ip6 h.4 k.4,
        add64-sub64 p.rx_tcp n.rx_tcp h.5 k.5,
        add64-sub64 p.rx_udp n.rx_udp h.6 k.6,
        add64-sub64 p.rx_other n.rx_other h.7 k.7,
        add64-sub64 p.rx_gtp_echo n.rx_gtp_echo h.8 k.8,
        add64-sub64 p.rx_gtp_pdu n.rx_gtp_pdu h.9 k.9,
        add64-sub64 p.rx_gtp_other n.rx_gtp_other h.10 k.10,
        h.11,
        ← k.11,
      )
      refl

add_counters-IsTotal : (a b : UpfCounters) → a.rx_gtp_unexp ≡ 0 → IsTotal (add_counters a b)
unfolding add_counters
add_counters-IsTotal a b h = (
  add64-lt a.rx_arp b.rx_arp,
  add64-lt a.rx_icmp b.rx_icmp,
  add64-lt a.rx_icmp6 b.rx_icmp6,
  add64-lt a.rx_ip4 b.rx_ip4,
  add64-lt a.rx_ip6 b.rx_ip6,
  add64-lt a.rx_tcp b.rx_tcp,
  add64-lt a.rx_udp b.rx_udp,
  add64-lt a.rx_other b.rx_other,
  add64-lt a.rx_gtp_echo b.rx_gtp_echo,
  add64-lt a.rx_gtp_pdu b.rx_gtp_pdu,
  add64-lt a.rx_gtp_other b.rx_gtp_other,
  h,
)

pub zero-IsTotal : IsTotal zero_counters
zero-IsTotal = (
  omega arith,
  omega arith,
  omega arith,
  omega arith,
  omega arith,
  omega arith,
  omega arith,
  omega arith,
  omega arith,
  omega arith,
  omega arith,
  refl,
)

pub sum_counters-IsTotal :
    (c : UpfCounters) (ss : List UpfStatistic) → IsTotal c → IsTotal (sum_counters c ss)
unfolding get_upf_ext_stat_delta
sum_counters-IsTotal c [] h = h
sum_counters-IsTotal c (s ∷ ss) h =
    sum_counters-IsTotal (add_counters c s.upf_counters) ss
      (add_counters-IsTotal c s.upf_counters h.11)

-- The differences that one reading after another gives, added to a total.
abbrev pub count : UpfCounters → List Reading → UpfXdpActionStatistic → UpfCounters
count total [] stat = total
count total (r ∷ rs) stat =
    let (delta, stat1) = get_upf_ext_stat_delta r stat in count (add_counters total delta) rs stat1

-- What the last reading that succeeds reports, and `c` where none does.
abbrev pub latest : UpfCounters → List Reading → UpfCounters
latest c [] = c
latest c (none ∷ rs) = latest c rs
latest c (some ss ∷ rs) = latest (get_upf_ext_stat (some ss)) rs

add-zero : (p : UpfCounters) → IsTotal p → add_counters p zero_counters ≡ p
unfolding add_counters
add-zero p h =
    rw
      (
        add64-zero p.rx_arp h.0,
        add64-zero p.rx_icmp h.1,
        add64-zero p.rx_icmp6 h.2,
        add64-zero p.rx_ip4 h.3,
        add64-zero p.rx_ip6 h.4,
        add64-zero p.rx_tcp h.5,
        add64-zero p.rx_udp h.6,
        add64-zero p.rx_other h.7,
        add64-zero p.rx_gtp_echo h.8,
        add64-zero p.rx_gtp_pdu h.9,
        add64-zero p.rx_gtp_other h.10,
      )
      refl

pub count-latest :
    (rs : List Reading) (stat : UpfXdpActionStatistic)
    → IsTotal stat.upf_counters_previous
    → count stat.upf_counters_previous rs stat ≡ latest stat.upf_counters_previous rs
unfolding get_upf_ext_stat_delta get_upf_ext_stat
count-latest [] stat h = refl
count-latest (none ∷ rs) stat h =
    rw (add-zero stat.upf_counters_previous h) (count-latest rs stat h)
count-latest (some ss ∷ rs) stat h =
    let n = sum_counters zero_counters ss in
    let k = sum_counters-IsTotal zero_counters ss zero-IsTotal in
    rw (add-delta stat.upf_counters_previous n h k)
      (count-latest rs (record stat { upf_counters_previous = n }) k)
