-- ===== src/Ebpf/Stats/Routes.antt =====
-- cmd/ebpf/stats.go: the differences that GetUpfRouteStatDelta returns add up, and so do those of
-- GetUpfExtStatDelta.
use eupf.Base.{◌^◌, ◌<◌, ◌≡◌, refl, none, some, List, [], ◌∷◌, arith}
use eupf.Ebpf.Stats.{
  RouteStat, zero_route_stat, add_route_stat, delta_route_stat, RouteReading, UpfXdpActionStatistic,
  new_statistic, sum_routes, get_upf_route_stat, get_upf_route_stat_delta, zero_counters, Reading,
}
use eupf.Ebpf.Stats.Wrap.{add64-sub64, add64-lt, add64-zero}
use eupf.Ebpf.Stats.Deltas.{count, latest, count-latest, zero-IsTotal}

abbrev pub IsRoute : RouteStat → Type 0
IsRoute c =
    (c.fib_lookup_ip4_cache < 2 ^ 64)
    × (c.fib_lookup_ip4_ok < 2 ^ 64)
    × (c.fib_lookup_ip4_error_drop < 2 ^ 64)
    × (c.fib_lookup_ip4_error_pass < 2 ^ 64)
    × (c.fib_lookup_ip6_cache < 2 ^ 64)
    × (c.fib_lookup_ip6_ok < 2 ^ 64)
    × (c.fib_lookup_ip6_error_drop < 2 ^ 64)
    × (c.fib_lookup_ip6_error_pass < 2 ^ 64)

add-delta_route :
    (p n : RouteStat) → IsRoute p → IsRoute n → add_route_stat p (delta_route_stat p n) ≡ n
unfolding add_route_stat delta_route_stat
add-delta_route p n h k =
    rw
      (
        add64-sub64 p.fib_lookup_ip4_cache n.fib_lookup_ip4_cache h.0 k.0,
        add64-sub64 p.fib_lookup_ip4_ok n.fib_lookup_ip4_ok h.1 k.1,
        add64-sub64 p.fib_lookup_ip4_error_drop n.fib_lookup_ip4_error_drop h.2 k.2,
        add64-sub64 p.fib_lookup_ip4_error_pass n.fib_lookup_ip4_error_pass h.3 k.3,
        add64-sub64 p.fib_lookup_ip6_cache n.fib_lookup_ip6_cache h.4 k.4,
        add64-sub64 p.fib_lookup_ip6_ok n.fib_lookup_ip6_ok h.5 k.5,
        add64-sub64 p.fib_lookup_ip6_error_drop n.fib_lookup_ip6_error_drop h.6 k.6,
        add64-sub64 p.fib_lookup_ip6_error_pass n.fib_lookup_ip6_error_pass h.7 k.7,
      )
      refl

add-zero_route : (p : RouteStat) → IsRoute p → add_route_stat p zero_route_stat ≡ p
unfolding add_route_stat
add-zero_route p h =
    rw
      (
        add64-zero p.fib_lookup_ip4_cache h.0,
        add64-zero p.fib_lookup_ip4_ok h.1,
        add64-zero p.fib_lookup_ip4_error_drop h.2,
        add64-zero p.fib_lookup_ip4_error_pass h.3,
        add64-zero p.fib_lookup_ip6_cache h.4,
        add64-zero p.fib_lookup_ip6_ok h.5,
        add64-zero p.fib_lookup_ip6_error_drop h.6,
        add64-zero p.fib_lookup_ip6_error_pass h.7,
      )
      refl

add_route_stat-IsRoute : (a b : RouteStat) → IsRoute (add_route_stat a b)
unfolding add_route_stat
add_route_stat-IsRoute a b = (
  add64-lt a.fib_lookup_ip4_cache b.fib_lookup_ip4_cache,
  add64-lt a.fib_lookup_ip4_ok b.fib_lookup_ip4_ok,
  add64-lt a.fib_lookup_ip4_error_drop b.fib_lookup_ip4_error_drop,
  add64-lt a.fib_lookup_ip4_error_pass b.fib_lookup_ip4_error_pass,
  add64-lt a.fib_lookup_ip6_cache b.fib_lookup_ip6_cache,
  add64-lt a.fib_lookup_ip6_ok b.fib_lookup_ip6_ok,
  add64-lt a.fib_lookup_ip6_error_drop b.fib_lookup_ip6_error_drop,
  add64-lt a.fib_lookup_ip6_error_pass b.fib_lookup_ip6_error_pass,
)

zero-IsRoute : IsRoute zero_route_stat
zero-IsRoute = (
  omega arith,
  omega arith,
  omega arith,
  omega arith,
  omega arith,
  omega arith,
  omega arith,
  omega arith,
)

sum_routes-IsRoute : (c : RouteStat) (ss : List RouteStat) → IsRoute c → IsRoute (sum_routes c ss)
unfolding get_upf_route_stat_delta
sum_routes-IsRoute c [] h = h
sum_routes-IsRoute c (s ∷ ss) h =
    sum_routes-IsRoute (add_route_stat c s) ss (add_route_stat-IsRoute c s)

-- The differences that one reading after another gives, added to a total.
abbrev pub count_routes : RouteStat → List RouteReading → UpfXdpActionStatistic → RouteStat
count_routes total [] stat = total
count_routes total (r ∷ rs) stat =
    let (delta, stat1) = get_upf_route_stat_delta r stat in
    count_routes (add_route_stat total delta) rs stat1

-- What the last reading that succeeds reports, and `c` where none does.
abbrev pub latest_route : RouteStat → List RouteReading → RouteStat
latest_route c [] = c
latest_route c (none ∷ rs) = latest_route c rs
latest_route c (some ss ∷ rs) = latest_route (get_upf_route_stat (some ss)) rs

count_routes-latest :
    (rs : List RouteReading) (stat : UpfXdpActionStatistic)
    → IsRoute stat.upf_route_previous
    → count_routes stat.upf_route_previous rs stat ≡ latest_route stat.upf_route_previous rs
unfolding get_upf_route_stat_delta get_upf_route_stat
count_routes-latest [] stat h = refl
count_routes-latest (none ∷ rs) stat h =
    rw (add-zero_route stat.upf_route_previous h) (count_routes-latest rs stat h)
count_routes-latest (some ss ∷ rs) stat h =
    let n = sum_routes zero_route_stat ss in
    let k = sum_routes-IsRoute zero_route_stat ss zero-IsRoute in
    rw (add-delta_route stat.upf_route_previous n h k)
      (count_routes-latest rs (record stat { upf_route_previous = n }) k)

-- From a new UpfXdpActionStatistic on, the differences that successive calls of GetUpfExtStatDelta
-- return, added by UpfCounters.Add, make up what GetUpfExtStat reports of the last reading that
-- did not fail, for any readings, also where counters wrap at 2^64; and the same holds of
-- GetUpfRouteStatDelta and GetUpfRouteStat.
pub deltas-latest :
    (rs : List Reading) (qs : List RouteReading)
    → (count zero_counters rs new_statistic ≡ latest zero_counters rs)
      × (count_routes zero_route_stat qs new_statistic ≡ latest_route zero_route_stat qs)
deltas-latest rs qs =
    (count-latest rs new_statistic zero-IsTotal, count_routes-latest qs new_statistic zero-IsRoute)
