-- ===== src/Core/Requests.antt =====
-- The requests that the UPF sends of its own accord: newIeNodeID of cmd/core/pfcp_handlers.go,
-- SendHeartbeatRequest of cmd/core/pfcp_hearbeat.go and sendAssociationSetupRequest of
-- cmd/core/pfcp_connection.go. A request is its fields; where it goes is the address of the peer,
-- and resolving the address or sending may fail, which is only logged.
use eupf.Base.{ℕ, String, none, some, List, [], ◌∷◌}
use eupf.Base.Text.{Text}
use eupf.Core.ParseIp.{parse_ip, to4}
use eupf.Core.Connection.{PfcpConnection, refresh_associations}

pub data NodeIdIe : Type 0 where
  node_id_ipv4 node_id_ipv6 node_id_fqdn : Text → NodeIdIe

unfoldable pub new_ie_node_id : Text → NodeIdIe
unfolding parse_ip to4
new_ie_node_id node_id = elim (parse_ip node_id) [
  | none ↦ node_id_fqdn node_id
  | some ip ↦ elim (to4 ip) [ none ↦ node_id_ipv6 node_id | some _ ↦ node_id_ipv4 node_id ]
]

pub data Request : Type 0 where
  heartbeat_request : ℕ → ℕ → Request
  association_setup_request : ℕ → NodeIdIe → ℕ → List ℕ → Request

-- A request and the address that it is for.
abbrev pub Outgoing : Type 0
Outgoing = String × Request

module _ {Plane : Type 0} where
  unfoldable pub send_heartbeat_request : PfcpConnection Plane → ℕ → String → Outgoing
  send_heartbeat_request conn sequence_id association_addr =
      (association_addr, heartbeat_request sequence_id conn.recovery_timestamp)

  -- `node_id` is the text of the connection's node id.
  unfoldable pub send_association_setup_request : PfcpConnection Plane → Text → String → Outgoing
  unfolding new_ie_node_id
  send_association_setup_request conn node_id association_addr = (
    association_addr,
    association_setup_request 0 (new_ie_node_id node_id) conn.recovery_timestamp
        conn.features_octets,
  )

  abbrev pub send_to_all : PfcpConnection Plane → Text → List String → List Outgoing
  send_to_all conn node_id [] = []
  send_to_all conn node_id (n ∷ ns) =
      send_association_setup_request conn node_id n ∷ send_to_all conn node_id ns

  -- RefreshAssociations with what it sends.
  unfoldable pub refresh_requests : PfcpConnection Plane → Text → List Outgoing
  unfolding refresh_associations send_association_setup_request
  refresh_requests conn node_id = send_to_all conn node_id (refresh_associations conn)
