-- ===== src/Core/Connection.antt =====
-- The state of cmd/core/pfcp_connection.go and cmd/core/node_association.go, and PFCP responses.
use eupf.Base.{
  ℕ, ◌+◌, ◌%◌, ◌^◌, Bool, String, List, [], ◌∷◌, Option, none, some, if◌then◌else◌, string_eq,
  nat_eq, length,
}
use eupf.Base.Outcome.{Outcome, ok, err, Error, bad_ip}
use eupf.Base.Text.{Text}
use eupf.Core.ParseIp.{parse_ip}
use eupf.Base.Table.{Table, lookup, insert}
use eupf.Base.Table.Total.{total}
use eupf.Base.MapOrder.{MapOrder}
use eupf.Ebpf.Types.{Bytes}
use eupf.Core.Session.{Session}
use eupf.Core.Work.{UsageReport}
use eupf.Service.ResourceManager.{ResourceManager, release_ip, release_teid}

-- The causes that causeToString names.
pub data Cause : Type 0 where
  request_accepted request_rejected session_context_not_found mandatory_ie_missing : Cause
  conditional_ie_missing invalid_length mandatory_ie_incorrect : Cause
  invalid_forwarding_policy invalid_fteid_allocation_option : Cause
  no_established_pfcp_association rule_creation_modification_failure : Cause
  pfcp_entity_in_congestion no_resources_available service_not_supported : Cause
  system_failure redirection_requested : Cause

-- An address that the UPF chose: a UE address, or a TEID at the N3 address.
pub data Chosen : Type 0 where
  ue_ip : Bytes → Chosen
  fteid : ℕ → Bytes → Chosen

pub record CreatedPdr : Type 0 where
  pub created_pdr_id : ℕ
  pub chosen : Chosen

-- A session response: the SEID of its header, and its IEs.
pub record SessionResponse : Type 0 where
  pub seid : ℕ
  pub sequence : ℕ
  pub node_id : Option String
  pub cause : Cause
  pub fseid : Option (ℕ × Bytes)
  pub created : List CreatedPdr
  pub usage_reports : List UsageReport

pub record AssociationResponse : Type 0 where
  pub assoc_sequence : ℕ
  pub assoc_cause : Cause
  pub assoc_node_id : Option String
  pub recovery_time_stamp : Option ℕ
  pub up_function_features : List ℕ

pub data Response : Type 0 where
  heartbeat_response : ℕ → ℕ → Response
  association_setup_response association_update_response : AssociationResponse → Response
  session_establishment_response session_deletion_response : SessionResponse → Response
  session_modification_response : SessionResponse → Response

-- What a PfcpFunc returns: (message.Message, error).
pub record Reply : Type 0 where
  pub response : Option Response
  pub failure : Option Error

abbrev pub respond : Response → Reply
respond r = record { response = some r; failure = none }

abbrev pub no_reply : Reply
no_reply = record { response = none; failure = none }

abbrev pub fail_with : Error → Reply
fail_with e = record { response = none; failure = some e }

pub record NodeAssociation : Type 0 where
  pub association_id : String
  pub addr : String
  pub next_session_id : ℕ
  pub next_sequence_id : ℕ
  pub sessions : Table ℕ Session

unfoldable pub new_node_association : String → String → NodeAssociation
new_node_association remote_node_id addr = record {
  association_id = remote_node_id;
  addr = addr;
  next_session_id = 1;
  next_sequence_id = 1;
  sessions = [];
}

-- NewLocalSEID, on a uint64.
unfoldable pub new_local_seid : NodeAssociation → ℕ × NodeAssociation
new_local_seid a =
    let next = (a.next_session_id + 1) % 2 ^ 64 in (next, record a { next_session_id = next })

-- NewSequenceID, on a uint32.
unfoldable pub new_sequence_id : NodeAssociation → ℕ × NodeAssociation
new_sequence_id a =
    let next = (a.next_sequence_id + 1) % 2 ^ 32 in (next, record a { next_sequence_id = next })

-- `schedulers` are the addresses for which a ScheduleHeartbeat goroutine was started, and
-- `heartbeats` the sequence numbers handed to the HeartbeatChannel of an association.
pub record PfcpConnection (Plane : Type 0) : Type 0 where
  pub plane : Plane
  pub node_associations : Table String NodeAssociation
  pub resource_manager : Option ResourceManager
  pub conn_node_id : String
  pub node_addr_v4 : Bytes
  pub n3_address : Bytes
  pub n9_address : Bytes
  pub recovery_timestamp : ℕ
  pub features_octets : List ℕ
  pub schedulers : List String
  pub heartbeats : List (String × ℕ)
  pub nodes : List String

module _ {Plane : Type 0} where
  unfoldable pub get_association : String → PfcpConnection Plane → Option NodeAssociation
  get_association assoc_addr c = lookup assoc_addr c.node_associations

  abbrev pub put_association :
      String → NodeAssociation → PfcpConnection Plane → PfcpConnection Plane
  put_association addr a c = record c { node_associations = insert addr a c.node_associations }

  unfoldable pub get_session_count : PfcpConnection Plane → ℕ
  get_session_count c = total (λ a. length a.sessions) c.node_associations

  unfoldable pub get_association_count : PfcpConnection Plane → ℕ
  get_association_count c = length c.node_associations

abbrev pub release_session_ip : ℕ → ResourceManager → ResourceManager
release_session_ip se_id r = elim r.ipam [
  | none ↦ r
  | some i ↦ record r { ipam = some (release_ip se_id i) }
]

abbrev pub release_session_teid : MapOrder → ℕ → ResourceManager → ResourceManager
release_session_teid o se_id r = elim r.fteidm [
  | none ↦ r
  | some f ↦ record r { fteidm = some (release_teid o se_id f) }
]

-- ReleaseResources.
unfoldable pub release_resources : MapOrder → ℕ → Option ResourceManager → Option ResourceManager
unfolding release_ip release_teid
release_resources o se_id none = none
release_resources o se_id (some r) =
    some (release_session_teid o se_id (release_session_ip se_id r))

-- setBit for a bit that is not set.
abbrev set_feature : Bool → ℕ → ℕ
set_feature feature bit = if feature then bit else 0

-- The feature octets of NewPfcpConnection: EMPU, and FTUP and UEIP as configured.
unfoldable pub features : Bool → Bool → List ℕ
features feature_ftup feature_ueip =
    set_feature feature_ftup 16 ∷ 1 ∷ set_feature feature_ueip 4 ∷ []

-- The addresses that the configuration gives NewPfcpConnection, and its clock.
pub record Setup : Type 0 where
  pub own_node_id : String
  pub local_address : Bytes
  pub n3_ip : Text
  pub n9_ip : Text
  pub start_time : ℕ
  pub setup_ftup : Bool
  pub setup_ueip : Bool

module _ {Plane : Type 0} where
  abbrev connect :
      Setup
      → Plane
      → Option ResourceManager
      → Option Bytes
      → Option Bytes
      → Outcome (PfcpConnection Plane)
  connect conf plane resources (some n3) (some n9) = ok (record {
    plane = plane;
    node_associations = [];
    resource_manager = resources;
    conn_node_id = conf.own_node_id;
    node_addr_v4 = conf.local_address;
    n3_address = n3;
    n9_address = n9;
    recovery_timestamp = conf.start_time;
    features_octets = features conf.setup_ftup conf.setup_ueip;
    schedulers = [];
    heartbeats = [];
    nodes = [];
  })
  connect conf plane resources none _ = err bad_ip
  connect conf plane resources (some _) none = err bad_ip

  -- NewPfcpConnection, once its UDP socket is open.
  unfoldable pub new_pfcp_connection :
      Setup → Plane → Option ResourceManager → Outcome (PfcpConnection Plane)
  unfolding features parse_ip
  new_pfcp_connection conf plane resources =
      connect conf plane resources (parse_ip conf.n3_ip) (parse_ip conf.n9_ip)

  abbrev missing_nodes : PfcpConnection Plane → List String → List String
  missing_nodes c [] = []
  missing_nodes c (n ∷ ns) =
      let rest = missing_nodes c ns in
      elim (lookup n c.node_associations) [ none ↦ n ∷ rest | some _ ↦ rest ]

  -- RefreshAssociations: the nodes that get an Association Setup Request.
  unfoldable pub refresh_associations : PfcpConnection Plane → List String
  refresh_associations c = missing_nodes c c.nodes
