-- ===== src/Startup.antt =====
-- cmd/main.go with cmd/config/startup.go: what the program does from its configuration to the start
-- of its goroutines. A log.Fatal is an error, whose text is dropped, and so is what runs afterwards.
pub mod Capacity
use eupf.Base.{ℕ, ◌*◌, ◌++◌, Option, none, some, List, [], ◌∷◌, String, string_eq, if◌then◌else◌}
use eupf.Base.Outcome.{
  Outcome, ok, err, panic, Error, M, pure, lift, crash, bind_with, ◌>>=◌, ◌>>◌, for_each,
}
use eupf.Base.Text.{Text}
use eupf.Base.MapOrder.{MapOrder}
use eupf.Ebpf.Types.{Bytes}
use eupf.Ebpf.Kernel.{RoaringBitmap}
use eupf.Ebpf.Load.{
  MapSizes, new_bpf_objects, set_pdr_map_size, set_far_map_size, set_qer_map_size, set_urr_map_size,
  Cilium, Loaded, load,
}
use eupf.Ebpf.Stats.{UpfXdpActionStatistic, new_statistic}
use eupf.Service.ResourceManager.{ResourceManager, IpGenerator, new_resource_manager}
use eupf.Core.ParseIp.{parse_ip, to4}
use eupf.Core.Rules.{little_endian_uint32}
use eupf.Core.Connection.{PfcpConnection, Setup, new_pfcp_connection}
use eupf.Core.GtpPaths.{GtpPathManager, new_gtp_path_manager, add_gtp_path}
use eupf.Config.{UpfConfig, validate}

pub data XdpAttachMode : Type 0 where
  generic_mode driver_mode offload_mode : XdpAttachMode

-- StringToXDPAttachMode.
unfoldable pub string_to_xdp_attach_mode : String → XdpAttachMode
string_to_xdp_attach_mode mode =
    if string_eq.beq mode "generic"
    then generic_mode
    else if string_eq.beq mode "native"
    then driver_mode
    else if string_eq.beq mode "offload"
    then offload_mode
    else generic_mode

-- `binary.LittleEndian.Uint32(net.ParseIP(s).To4())`; To4 of nil and of an IPv6 address is nil.
unfoldable pub uint32_of_address : Text → Outcome ℕ
unfolding parse_ip to4 little_endian_uint32
uint32_of_address s = elim (parse_ip s) [
  | none ↦ panic
  | some ip ↦ elim (to4 ip) [ none ↦ panic | some ip4 ↦ little_endian_uint32 ip4 ]
]

-- The calls of main besides those of Load: the resource limit, GlobalConfig.Set with the N3 and N9
-- addresses, InterfaceByName with AttachXDP, ResolveUDPAddr with ListenUDP, and the clock.
pub record System : Type 1 where
  pub cilium : Cilium
  pub increase_resource_limits : M cilium.World (Unit {0})
  pub set_global_config : ℕ → ℕ → M cilium.World (Unit {0})
  pub attach_xdp : XdpAttachMode → String → M cilium.World (Unit {0})
  pub listen_udp : String → M cilium.World Bytes
  pub now : M cilium.World ℕ

module _ (sys : System) (bitmaps : RoaringBitmap) (order : MapOrder) where
  open sys use {cilium, increase_resource_limits, set_global_config, attach_xdp, listen_udp, now}

  abbrev pub Objects : Type 0
  Objects = Loaded cilium bitmaps order

  -- What the goroutines work on.
  pub record Started : Type 0 where
    pub pfcp_conn : PfcpConnection Objects
    pub forward_plane_stats : UpfXdpActionStatistic
    pub gtp_path_manager : GtpPathManager

  -- The sizes that main sets on the new BpfObjects.
  unfoldable pub map_sizes : UpfConfig → MapSizes
  unfolding new_bpf_objects set_pdr_map_size set_far_map_size set_qer_map_size set_urr_map_size
  map_sizes conf = set_urr_map_size conf.urr_map_size (
      set_qer_map_size conf.qer_map_size
        (set_far_map_size conf.far_map_size (set_pdr_map_size conf.pdr_map_size new_bpf_objects)))

  -- The error of NewResourceManager is only logged, and its nil result used.
  abbrev pub or_nil : Outcome ResourceManager → Option ResourceManager
  or_nil (ok r) = some r
  or_nil (err e) = none
  or_nil panic = none

  abbrev pub setup_of : UpfConfig → Bytes → ℕ → Setup
  setup_of conf local_address start_time = record {
    own_node_id = conf.pfcp_node_id;
    local_address = local_address;
    n3_ip = conf.n3_address;
    n9_ip = conf.n9_address;
    start_time = start_time;
    setup_ftup = conf.feature_ftup;
    setup_ueip = conf.feature_ueip;
  }

  abbrev pub add_gtp_paths : List String → GtpPathManager → GtpPathManager
  add_gtp_paths [] m = m
  add_gtp_paths (peer ∷ peers) m = add_gtp_paths peers (add_gtp_path peer m)

  -- `local_gtp` is config.Conf.N3Address+":2152".
  abbrev pub started : UpfConfig → String → PfcpConnection Objects → Started
  started conf local_gtp conn = record {
    pfcp_conn = record conn { nodes = conf.pfcp_remote_node };
    forward_plane_stats = new_statistic;
    gtp_path_manager =
        add_gtp_paths conf.gtp_peer (new_gtp_path_manager local_gtp conf.gtp_echo_interval);
  }

  -- The part of main after NewResourceManager.
  unfoldable pub connect_and_start :
      UpfConfig → String → Option ResourceManager → Objects → M cilium.World Started
  unfolding new_pfcp_connection new_gtp_path_manager add_gtp_path
  connect_and_start conf local_gtp resources objects =
      listen_udp conf.pfcp_address >>= λ local_address. now >>= λ start_time.
      lift (new_pfcp_connection (setup_of conf local_address start_time) objects resources)
      >>= λ conn. pure (started conf local_gtp conn)

  -- From IncreaseResourceLimits to the attached interfaces.
  unfoldable pub prepare : UpfConfig → M cilium.World Objects
  unfolding map_sizes load uint32_of_address for_each string_to_xdp_attach_mode
  prepare conf =
      increase_resource_limits
      >> (load cilium bitmaps order (map_sizes conf) >>= λ objects.
          lift (uint32_of_address conf.n3_address) >>= λ n3.
          lift (uint32_of_address conf.n9_address) >>= λ n9.
          set_global_config n3 n9
          >> (for_each (attach_xdp (string_to_xdp_attach_mode conf.xdp_attach_mode))
                conf.interface_name
              >> pure objects))

  -- From NewResourceManager on; none where it does not return.
  abbrev pub with_objects :
      String
      → IpGenerator
      → ℕ
      → UpfConfig
      → Outcome Objects × cilium.World
      → Option (Outcome Started × cilium.World)
  with_objects local_gtp generate fuel conf (ok objects, w) =
      elim (new_resource_manager generate fuel conf.ueip_pool conf.fteid_pool) [
        | none ↦ none
        | some resources ↦ some (connect_and_start conf local_gtp (or_nil resources) objects w)
      ]
  with_objects local_gtp generate fuel conf (err e, w) = some (err e, w)
  with_objects local_gtp generate fuel conf (panic, w) = some (panic, w)

  -- main with config.Init, which ends the program where the configuration is not valid.
  abbrev pub run_main :
      String
      → IpGenerator
      → ℕ
      → Outcome (Unit {0}) × UpfConfig
      → cilium.World
      → Option (Outcome Started × cilium.World)
  run_main local_gtp generate fuel (ok _, conf) w =
      with_objects local_gtp generate fuel conf (prepare conf w)
  run_main local_gtp generate fuel (err e, conf) w = some (err e, w)
  run_main local_gtp generate fuel (panic, conf) w = some (panic, w)

  unfoldable pub main :
      (UpfConfig → Option Error)
      → String
      → IpGenerator
      → ℕ
      → UpfConfig
      → cilium.World
      → Option (Outcome Started × cilium.World)
  unfolding validate prepare connect_and_start new_resource_manager
  main validate_struct local_gtp generate fuel conf w =
      run_main local_gtp generate fuel (validate validate_struct conf) w
