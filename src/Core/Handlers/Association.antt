-- ===== src/Core/Handlers/Association.antt =====
-- The association handlers of cmd/core/pfcp_handlers.go and the heartbeat handlers of
-- cmd/core/pfcp_hearbeat.go. A handler that holds associationMutex is one step.
use eupf.Base.{ℕ, String, [], ◌∷◌, ◌++◌, Option, none, some, string_eq, if◌then◌else◌, ◌==◌}
use eupf.Base.Outcome.{Outcome, ok, err, panic, M, invalid_ie}
use eupf.Base.Table.{lookup}
use eupf.Core.Connection.{
  PfcpConnection, NodeAssociation, AssociationResponse, Reply, Cause, respond, no_reply, fail_with,
  heartbeat_response, association_setup_response, association_update_response, request_accepted,
  mandatory_ie_missing, mandatory_ie_incorrect, no_established_pfcp_association,
  new_node_association, put_association, get_association,
}
use eupf.Core.Handlers.Establishment.{Field}

pub record SetupRequest : Type 0 where
  pub setup_sequence : ℕ
  pub setup_node_id : Field String
  pub setup_recovery_time_stamp : Field ℕ

pub record UpdateRequest : Type 0 where
  pub update_sequence : ℕ
  pub update_node_id : Field String

pub record SetupResponse : Type 0 where
  pub reply_node_id : Field String
  pub reply_cause : Field Cause
  pub reply_cp_function_features : Field ℕ

abbrev pub cause_only : ℕ → Cause → AssociationResponse
cause_only sequence cause = record {
  assoc_sequence = sequence;
  assoc_cause = cause;
  assoc_node_id = none;
  recovery_time_stamp = none;
  up_function_features = [];
}

abbrev setup_answer : ℕ → Cause → Reply
setup_answer sequence cause = respond (association_setup_response (cause_only sequence cause))

abbrev update_answer : ℕ → Cause → Reply
update_answer sequence cause = respond (association_update_response (cause_only sequence cause))

-- The checks of an Association Setup Response: the remote node id, a reply that ends the
-- handler, or an error.
abbrev check_features : String → Field ℕ → Outcome (Option String)
check_features node_id none = ok none
check_features node_id (some none) = err invalid_ie
check_features node_id (some (some _)) = ok (some node_id)

abbrev check_cause : String → Field Cause → Field ℕ → Outcome (Option String)
check_cause node_id none _ = ok none
check_cause node_id (some none) _ = err invalid_ie
check_cause node_id (some (some request_accepted)) features = check_features node_id features
check_cause node_id (some (some _)) _ = ok none

abbrev pub check_response : Field String → Field Cause → Field ℕ → Outcome (Option String)
check_response none _ _ = ok none
check_response (some none) _ _ = err invalid_ie
check_response (some (some node_id)) cause features = check_cause node_id cause features

module _ {Plane : Type 0} where
  -- `go remoteNode.ScheduleHeartbeat(conn)`, unless heartbeats are turned off.
  abbrev pub schedule : ℕ → String → PfcpConnection Plane → PfcpConnection Plane
  schedule heartbeat_timeout addr c =
      if heartbeat_timeout == 0 then c else record c { schedulers = addr ∷ c.schedulers }

  -- An association that exists is kept, with its sessions.
  abbrev pub associate :
      ℕ → String → String → Option NodeAssociation → PfcpConnection Plane → PfcpConnection Plane
  associate heartbeat_timeout remote_node_id addr (some _) c = c
  associate heartbeat_timeout remote_node_id addr none c =
      schedule heartbeat_timeout addr
        (put_association addr (new_node_association remote_node_id addr) c)

  abbrev pub setup_with : ℕ → String → ℕ → Field String → Field ℕ → M (PfcpConnection Plane) Reply
  setup_with hb addr sequence (some (some remote_node_id)) (some (some _)) c = (
    ok (
        respond (
          association_setup_response (record {
            assoc_sequence = sequence;
            assoc_cause = request_accepted;
            assoc_node_id = some c.conn_node_id;
            recovery_time_stamp = some c.recovery_timestamp;
            up_function_features = c.features_octets;
          }))),
    associate hb remote_node_id addr (lookup addr c.node_associations) c,
  )
  setup_with hb addr sequence none _ c = (ok (setup_answer sequence mandatory_ie_missing), c)
  setup_with hb addr sequence (some none) _ c =
      (ok (setup_answer sequence mandatory_ie_incorrect), c)
  setup_with hb addr sequence (some (some _)) none c =
      (ok (setup_answer sequence mandatory_ie_missing), c)
  setup_with hb addr sequence (some (some _)) (some none) c =
      (ok (setup_answer sequence mandatory_ie_incorrect), c)

  -- HandlePfcpAssociationSetupRequest.
  unfoldable pub handle_association_setup_request :
      ℕ → SetupRequest → String → M (PfcpConnection Plane) Reply
  unfolding new_node_association
  handle_association_setup_request heartbeat_timeout req addr =
      setup_with heartbeat_timeout addr req.setup_sequence req.setup_node_id
        req.setup_recovery_time_stamp

  abbrev pub update_of : ℕ → Option NodeAssociation → M (PfcpConnection Plane) Reply
  update_of sequence none c = (ok (update_answer sequence no_established_pfcp_association), c)
  update_of sequence (some _) c = (
    ok (
        respond (
          association_update_response (record (cause_only sequence request_accepted) {
            assoc_node_id = some c.conn_node_id;
          }))),
    c,
  )

  abbrev pub update_with : String → ℕ → Field String → M (PfcpConnection Plane) Reply
  update_with addr sequence none c = (ok (update_answer sequence mandatory_ie_missing), c)
  update_with addr sequence (some none) c = (ok (update_answer sequence mandatory_ie_incorrect), c)
  update_with addr sequence (some (some _)) c =
      update_of sequence (lookup addr c.node_associations) c

  -- HandlePfcpAssociationUpdateRequest.
  unfoldable pub handle_association_update_request :
      UpdateRequest → String → M (PfcpConnection Plane) Reply
  handle_association_update_request req addr =
      update_with addr req.update_sequence req.update_node_id

  abbrev pub accept : ℕ → String → Outcome (Option String) → M (PfcpConnection Plane) Reply
  accept hb addr (ok none) c = (ok no_reply, c)
  accept hb addr (ok (some node_id)) c =
      (ok no_reply, associate hb node_id addr (lookup addr c.node_associations) c)
  accept hb addr (err e) c = (ok (fail_with e), c)
  accept hb addr panic c = (panic, c)

  -- HandlePfcpAssociationSetupResponse.
  unfoldable pub handle_association_setup_response :
      ℕ → SetupResponse → String → M (PfcpConnection Plane) Reply
  unfolding new_node_association
  handle_association_setup_response heartbeat_timeout res addr =
      accept heartbeat_timeout addr
        (check_response res.reply_node_id res.reply_cause res.reply_cp_function_features)

  -- HandlePfcpHeartbeatRequest, given what the timestamp's accessor answers.
  unfoldable pub handle_heartbeat_request : ℕ → Outcome ℕ → M (PfcpConnection Plane) Reply
  handle_heartbeat_request sequence (ok _) c =
      (ok (respond (heartbeat_response sequence c.recovery_timestamp)), c)
  handle_heartbeat_request sequence (err e) c = (ok (fail_with e), c)
  handle_heartbeat_request sequence panic c = (panic, c)

  abbrev pub hand_heartbeat :
      String → ℕ → Option NodeAssociation → PfcpConnection Plane → PfcpConnection Plane
  hand_heartbeat addr sequence none c = c
  hand_heartbeat addr sequence (some _) c = record c {
    heartbeats = c.heartbeats ++ ((addr, sequence) ∷ []);
  }

  -- HandlePfcpHeartbeatResponse: the scheduler of the association gets the sequence number.
  unfoldable pub handle_heartbeat_response : ℕ → Outcome ℕ → String → M (PfcpConnection Plane) Reply
  unfolding get_association
  handle_heartbeat_response sequence (ok _) addr c =
      (ok no_reply, hand_heartbeat addr sequence (get_association addr c) c)
  handle_heartbeat_response sequence (err e) addr c = (ok (fail_with e), c)
  handle_heartbeat_response sequence panic addr c = (panic, c)
