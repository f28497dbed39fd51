-- ===== src/Tests/Startup.antt =====
-- A system whose calls succeed, and what main brings up on it.
use eupf.Base.{ℕ, refl, true, false, none, [], ◌∷◌, String, string_eq, arith}
use eupf.Base.Outcome.{ok, pure}
use eupf.Base.Table.{Table, get_or, lookup}
use eupf.Base.MapOrder.{kept_order}
use eupf.Base.Text.{codes}
use eupf.Ebpf.Load.{MapSpec, EntrypointMaps, Cilium}
use eupf.Ebpf.Load.Pools.{IsCilium}
use eupf.Config.{UpfConfig}
use eupf.Startup.{System, uint32_of_address, main}
use eupf.Startup.Capacity.{IsSystem, Answers, Ready, Roomy, IsIp4, main-Roomy}
use eupf.Tests.Libraries.{bits, bits-IsBitmap}

abbrev map_spec : String → MapSpec
map_spec name = record {
  spec_name = name;
  map_type = 2;
  key_size = 4;
  value_size = 16;
  max_entries = 1;
  flags = 0;
}

abbrev entrypoint : Table String MapSpec
entrypoint =
    ("qer_map", map_spec "qer_map")
    ∷ ("far_map", map_spec "far_map")
    ∷ ("urr_map", map_spec "urr_map")
    ∷ ("pdr_map_teid_ip4", map_spec "pdr_map_teid_ip4")
    ∷ []

abbrev made_or : Table String MapSpec → String → MapSpec
made_or made name = get_or (map_spec name) name made

abbrev entrypoint_maps : Table String MapSpec → EntrypointMaps MapSpec
entrypoint_maps made = record {
  qer_handle = made_or made "qer_map";
  far_handle = made_or made "far_map";
  pdr_downlink_ip4_handle = made_or made "pdr_map_downlink_ip4";
  pdr_downlink_ip6_handle = made_or made "pdr_map_downlink_ip6";
  pdr_teid_ip4_handle = made_or made "pdr_map_teid_ip4";
  urr_handle = made_or made "urr_map";
}

-- A handle is the spec of its map; the state counts the maps.
abbrev kernel : Cilium
kernel = record {
  World = ℕ;
  Handle = MapSpec;
  mkdir_all = pure tt;
  load_ip_entrypoint = pure entrypoint;
  new_map = λ spec w. (ok spec, w);
  load_and_assign = λ spec made w. (ok (entrypoint_maps made), w);
  map_info = λ h w. (ok h, w);
  unpin = λ h. pure tt;
  close = λ h. pure tt;
  close_objects = λ maps. pure tt;
  bind_map = λ h. pure tt;
}

kernel-IsCilium : IsCilium kernel ⊥
unfolding get_or lookup
kernel-IsCilium = record {
  entries = λ h. h.max_entries;
  mkdir-gives = λ w. tt;
  spec-HasPools = λ w. (λ e. ground (arith, e), λ e. ground (arith, e), λ e. ground (arith, e));
  new_map-entries = λ spec w. refl;
  assign-Replaced =
      λ spec made w. (λ h e. ground (arith, e), λ h e. ground (arith, e), λ h e. ground (arith, e));
  info-entries = λ h w. refl;
}

abbrev system : System
system = record {
  cilium = kernel;
  increase_resource_limits = pure tt;
  set_global_config = λ n3 n9. pure tt;
  attach_xdp = λ mode iface. pure tt;
  listen_udp = λ addr. pure (10 ∷ 0 ∷ 0 ∷ 1 ∷ []);
  now = pure 7;
}

system-IsSystem : IsSystem system ⊥
system-IsSystem = record {
  cilium-IsCilium = kernel-IsCilium;
  limits-gives = λ w. tt;
  config-gives = λ n3 n9 w. tt;
  attach-gives = λ mode iface w. tt;
  listen-gives = λ addr w. tt;
  now-gives = λ w. tt;
}

abbrev conf : UpfConfig
conf = record {
  interface_name = "lo" ∷ [];
  xdp_attach_mode = "native";
  api_address = ":8080";
  pfcp_address = "10.0.0.1:8805";
  pfcp_node_id = "upf";
  pfcp_remote_node = "smf" ∷ [];
  association_setup_timeout = 5;
  metrics_address = ":9090";
  n3_address = codes "10.0.3.1";
  n9_address = codes "10.0.9.1";
  gtp_peer = "gnb" ∷ [];
  gtp_echo_interval = 10;
  qer_map_size = 0;
  far_map_size = 0;
  urr_map_size = 0;
  pdr_map_size = 0;
  max_sessions = 3;
  heartbeat_retries = 3;
  heartbeat_interval = 5;
  heartbeat_timeout = 5;
  logging_level = "info";
  ueip_pool = "";
  fteid_pool = 2;
  feature_ueip = false;
  feature_ftup = true;
}

n3-IsIp4 : IsIp4 (codes "10.0.3.1")
unfolding uint32_of_address
n3-IsIp4 = (16973834, refl)

n9-IsIp4 : IsIp4 (codes "10.0.9.1")
unfolding uint32_of_address
n9-IsIp4 = (17367050, refl)

main-Roomy_example :
    Answers ⊥
      (Ready system bits kept_order ⊥ system-IsSystem
        (Roomy system bits kept_order ⊥ system-IsSystem bits-IsBitmap conf)
        conf)
      (main system bits kept_order (λ c. none) "10.0.3.1:2152" (λ s. none) 3 conf 0)
main-Roomy_example =
    main-Roomy system bits kept_order ⊥ system-IsSystem bits-IsBitmap (λ c. none) "10.0.3.1:2152"
      (λ s. none) conf 0 refl n3-IsIp4 n9-IsIp4 (omega arith) (refl, refl, refl, omega arith)
