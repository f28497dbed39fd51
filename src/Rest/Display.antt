-- ===== src/Rest/Display.antt =====
-- cmd/api/rest/stats.go and config.go: what the statistics and configuration handlers show and
-- change. A reading of the per-CPU maps is an argument.
use eupf.Base.{ℕ, Option, none, some, String}
use eupf.Base.Outcome.{Outcome, ok, err, panic, other}
use eupf.Ebpf.Stats.{
  UpfCounters, RouteStat, Reading, RouteReading, get_aborted, get_drop, get_pass, get_tx,
  get_redirect, get_upf_ext_stat, get_upf_route_stat,
}
use eupf.Config.{UpfConfig}
use eupf.Rest.{HttpReply, answers, fails}

pub record XdpStats : Type 0 where
  pub aborted : ℕ
  pub dropped : ℕ
  pub passed : ℕ
  pub transmitted : ℕ
  pub redirected : ℕ

-- displayXdpStatistics; each getter reads the map again.
unfoldable pub display_xdp_statistics :
    Reading → Reading → Reading → Reading → Reading → HttpReply XdpStats
unfolding get_aborted get_drop get_pass get_tx get_redirect
display_xdp_statistics r1 r2 r3 r4 r5 = answers 200 (record {
  aborted = get_aborted r1;
  dropped = get_drop r2;
  passed = get_pass r3;
  transmitted = get_tx r4;
  redirected = get_redirect r5;
})

-- displayPacketStats: PacketStats has the fields of UpfCounters.
unfoldable pub display_packet_stats : Reading → HttpReply UpfCounters
unfolding get_upf_ext_stat
display_packet_stats r = answers 200 (get_upf_ext_stat r)

-- displayRouteStats: RouteStats has the fields of IpEntrypointRouteStat.
unfoldable pub display_route_stats : RouteReading → HttpReply RouteStat
unfolding get_upf_route_stat
display_route_stats r = answers 200 (get_upf_route_stat r)

unfoldable pub display_config : UpfConfig → HttpReply UpfConfig
display_config cfg = answers 200 cfg

-- zerolog: ParseLevel, and the name of a level.
pub record Levels : Type 1 where
  pub Level : Type 0
  pub parse_level : String → Option Level
  pub level_name : Level → String

-- SetLoggerLevel, on config.Conf and the global level.
unfoldable pub set_logger_level :
    (levels : Levels)
    → String
    → UpfConfig × levels.Level
    → Outcome (Unit {0}) × (UpfConfig × levels.Level)
set_logger_level levels String.[] (conf, level) = (err (other 0), (conf, level))
set_logger_level levels logging_level (conf, level) = elim (levels.parse_level logging_level) [
  | none ↦ (err (other 1), (conf, level))
  | some loglvl ↦ (ok tt, (record conf { logging_level = levels.level_name loglvl }, loglvl))
]

abbrev pub edited : {S : Type 0} → Outcome (Unit {0}) × S → HttpReply (Unit {0}) × S
edited (ok _, s) = (answers 200 tt, s)
edited (err e, s) = (fails 400, s)
edited (panic, s) = (fails 400, s)

-- editConfig with SetConfig: h.Cfg is &config.Conf, which is replaced before the level is set.
unfoldable pub edit_config :
    (levels : Levels)
    → Option UpfConfig
    → UpfConfig × levels.Level
    → HttpReply (Unit {0}) × (UpfConfig × levels.Level)
unfolding set_logger_level
edit_config levels none s = (fails 400, s)
edit_config levels (some conf) (old, level) =
    edited (set_logger_level levels conf.logging_level (conf, level))
