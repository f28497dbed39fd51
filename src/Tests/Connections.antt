-- ===== src/Tests/Connections.antt =====
-- A connection with one peer and the messages of a session's life.
use eupf.Base.{ℕ, true, none, some, [], ◌∷◌}
use eupf.Base.MapOrder.{kept_order}
use eupf.Ebpf.Controller.{ForwardingPlaneController}
use eupf.Ebpf.Objects.{BpfObjects, bpf_controller}
use eupf.Core.Ie.{
  FarIe, QerIe, PdrIe, ChildIe, RuleIes, Fteid, type_source_interface, type_create_far,
  type_create_pdr, type_fteid,
}
use eupf.Core.Session.{Session}
use eupf.Core.Connection.{PfcpConnection, new_node_association}
use eupf.Core.Handlers.Establishment.{EstablishmentRequest, handle_session_establishment_request}
use eupf.Core.Handlers.Modification.{ModificationRequest}
use eupf.Core.Handlers.Deletion.{DeletionRequest}
use eupf.Core.Handlers.Association.{SetupRequest, SetupResponse, handle_association_setup_request}
use eupf.Core.Handlers.Dispatch.{Config}
use eupf.Tests.Libraries.{libraries, objects}

abbrev pub plane : ForwardingPlaneController
plane = bpf_controller libraries

abbrev pub conf : Config
conf = record { heartbeat_timeout = 5; feature_ueip = true }

abbrev pub start : PfcpConnection (BpfObjects libraries)
start = record {
  plane = objects;
  node_associations = [];
  resource_manager = some (record {
    ipam = some (record { free_ips = (10 ∷ 60 ∷ 0 ∷ 1 ∷ []) ∷ []; busy_ips = [] });
    fteidm = some (record { free_teids = 1 ∷ 2 ∷ 3 ∷ []; busy_teids = [] });
  });
  conn_node_id = "upf";
  node_addr_v4 = 10 ∷ 0 ∷ 0 ∷ 1 ∷ [];
  n3_address = 10 ∷ 0 ∷ 3 ∷ 1 ∷ [];
  n9_address = 10 ∷ 0 ∷ 9 ∷ 1 ∷ [];
  recovery_timestamp = 7;
  features_octets = 16 ∷ 1 ∷ 4 ∷ [];
  schedulers = [];
  heartbeats = [];
  nodes = [];
}

abbrev pub no_rules : RuleIes
no_rules = record {
  create_fars = [];
  update_fars = [];
  remove_fars = [];
  create_qers = [];
  update_qers = [];
  remove_qers = [];
  create_urrs = [];
  update_urrs = [];
  remove_urrs = [];
  create_pdrs = [];
  update_pdrs = [];
  remove_pdrs = [];
  create_bar = none;
  update_bar = none;
  remove_bar = none;
}

abbrev pub child : ℕ → ChildIe
child t = record {
  ie_type = t;
  ie_outer_header_creation = none;
  ie_transport_level_marking = none;
  ie_fteid = none;
  ie_ue_ip_address = none;
  ie_urr_id = none;
  ie_qer_id = none;
  ie_source_interface = none;
  ie_sdf_filter = none;
  ie_network_instance = none;
  ie_redirect_information = none;
  ie_header_enrichment = none;
}

abbrev pub far : ℕ → FarIe
far id = record {
  far_type = type_create_far;
  far_id = some id;
  apply_action = some (2 ∷ 0 ∷ []);
  forwarding_parameters = none;
  update_forwarding_parameters = none;
  child_ies = [];
  duplicating_parameters = none;
  far_bar_id = none;
}

abbrev pub qer : ℕ → QerIe
qer id = record {
  qer_id = some id;
  gate_status_dl = some 0;
  gate_status_ul = some 0;
  mbr_dl = some 1000;
  mbr_ul = some 1000;
  qfi = some 9;
}

abbrev pub choose : Fteid
choose = record {
  fteid_teid = 0;
  has_ch = true;
  has_ch_id = true;
  choose_id = 1;
  fteid_ipv4_address = [];
  fteid_ipv6_address = [];
}

-- An uplink PDR for which the UPF chooses the tunnel id.
abbrev pub uplink : ℕ → ℕ → PdrIe
uplink id far_id = record {
  pdr_type = type_create_pdr;
  ie_pdr_id = some id;
  outer_header_removal = some 0;
  pdr_far_id = some far_id;
  pdr_qer_id = none;
  create_pdr = some [];
  update_pdr = none;
  pdi = some (
      record (child type_source_interface) { ie_source_interface = some 0 }
      ∷ record (child type_fteid) { ie_fteid = some choose }
      ∷ []);
  sdf_filter = none;
  pdr_urr_id = none;
  pdr_bar_id = none;
  pdr_child_ies = [];
}

abbrev pub setup : SetupRequest
setup = record {
  setup_sequence = 1;
  setup_node_id = some (some "smf");
  setup_recovery_time_stamp = some (some 3);
}

abbrev pub setup_reply : SetupResponse
setup_reply = record {
  reply_node_id = some (some "smf");
  reply_cause = none;
  reply_cp_function_features = none;
}

abbrev pub establishment : EstablishmentRequest
establishment = record {
  est_sequence = 2;
  est_node_id = some (some "smf");
  est_cp_fseid = some (some 100);
  est_rules = record no_rules {
    create_fars = far 1 ∷ [];
    create_qers = qer 1 ∷ [];
    create_pdrs = uplink 1 1 ∷ [];
  };
}

abbrev pub modification : ModificationRequest
modification = record {
  mod_sequence = 3;
  mod_seid = 2;
  mod_cp_fseid = none;
  mod_rules = record no_rules { create_fars = far 2 ∷ []; remove_fars = far 1 ∷ [] };
}

abbrev pub deletion : DeletionRequest
deletion = record { del_sequence = 4; del_seid = 2 }

-- The peer has set its association up.
abbrev pub associated : PfcpConnection (BpfObjects libraries)
associated = (handle_association_setup_request 5 setup "smf" start).1

-- The peer has established a session.
abbrev pub established : PfcpConnection (BpfObjects libraries)
established =
    (handle_session_establishment_request plane kept_order true establishment "smf" associated).1

-- The session of the peer, and a connection that holds only it.
abbrev pub held : Session
held = record { local_seid = 2; remote_seid = 100; pdrs = []; fars = []; qers = []; urrs = [] }

abbrev pub holding : PfcpConnection (BpfObjects libraries)
holding = record start {
  node_associations =
      (
        "smf",
        record (new_node_association "smf" "smf") {
          next_session_id = 2;
          sessions = (2, held) ∷ [];
        },
      )
      ∷ [];
}
