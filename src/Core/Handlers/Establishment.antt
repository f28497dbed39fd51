-- ===== src/Core/Handlers/Establishment.antt =====
-- HandlePfcpSessionEstablishmentRequest of cmd/core/pfcp_session_handlers.go.
use eupf.Base.{ℕ, Bool, String, [], Option, none, some, string_eq, nat_eq}
use eupf.Base.Outcome.{Outcome, ok, err, panic, M, Error, mandatory_ie_missing}
use eupf.Base.Table.{lookup, insert}
use eupf.Base.MapOrder.{MapOrder}
use eupf.Ebpf.Controller.{ForwardingPlaneController}
use eupf.Core.Session.{new_session}
use eupf.Core.Ie.{RuleIes}
use eupf.Core.Work.{Work, start_work}
use eupf.Core.Connection.{
  PfcpConnection, NodeAssociation, SessionResponse, Reply, Cause, respond,
  session_establishment_response, request_accepted, request_rejected,
  no_established_pfcp_association, rule_creation_modification_failure, new_local_seid,
  put_association,
}
use eupf.Core.Handlers.Apply.{create_rules, process_created_pdrs}

-- An IE that a request may lack, and that may not decode.
abbrev pub Field : Type 0 → Type 0
Field A = Option (Option A)

pub record EstablishmentRequest : Type 0 where
  pub est_sequence : ℕ
  pub est_node_id : Field String
  pub est_cp_fseid : Field ℕ
  pub est_rules : RuleIes

-- validateRequest, which gives the control plane's SEID.
unfoldable pub validate_request : Field String → Field ℕ → Outcome ℕ
validate_request (some (some _)) (some (some seid)) = ok seid
validate_request _ _ = err mandatory_ie_missing

-- convertErrorToIeCause.
unfoldable pub convert_error_to_ie_cause : Error → Cause
convert_error_to_ie_cause Error.mandatory_ie_missing = Cause.mandatory_ie_missing
convert_error_to_ie_cause Error.no_established_association = no_established_pfcp_association
convert_error_to_ie_cause _ = request_rejected

abbrev pub bare_response : ℕ → ℕ → Option String → Cause → SessionResponse
bare_response seid sequence node_id cause = record {
  seid = seid;
  sequence = sequence;
  node_id = node_id;
  cause = cause;
  fseid = none;
  created = [];
  usage_reports = [];
}

module _ (plane : ForwardingPlaneController) (o : MapOrder) (feature_ueip : Bool) where
  open plane use {Plane}

  abbrev C : Type 0
  C = PfcpConnection Plane

  abbrev reject : EstablishmentRequest → ℕ → Cause → C → Reply
  reject req seid cause c = respond (
      session_establishment_response
        (bare_response seid req.est_sequence (some c.conn_node_id) cause))

  -- The plane and the resource manager keep what the rules did before one failed.
  abbrev after_work : Work Plane → C → C
  after_work w c = record c { plane = w.plane; resource_manager = w.resources }

  abbrev pub finish :
      EstablishmentRequest
      → String
      → ℕ
      → ℕ
      → NodeAssociation
      → C
      → Outcome (Unit {0}) × Work Plane
      → Outcome Reply × C
  finish req addr remote_seid local_seid a c (ok _, w) = (
    ok (
        respond (
          session_establishment_response (record {
            seid = remote_seid;
            sequence = req.est_sequence;
            node_id = some c.conn_node_id;
            cause = request_accepted;
            fseid = some (local_seid, c.node_addr_v4);
            created = process_created_pdrs c.n3_address w.created_pdrs;
            usage_reports = [];
          }))),
    put_association addr (record a { sessions = insert local_seid w.session a.sessions })
        (after_work w c),
  )
  finish req addr remote_seid local_seid a c (err e, w) = (
    ok (reject req remote_seid rule_creation_modification_failure c),
    put_association addr a (after_work w c),
  )
  finish req addr remote_seid local_seid a c (panic, w) =
      (panic, put_association addr a (after_work w c))

  abbrev pub establish :
      EstablishmentRequest → String → ℕ → ℕ × NodeAssociation → C → Outcome Reply × C
  establish req addr remote_seid (local_seid, a) c = finish req addr remote_seid local_seid a c (
      create_rules plane o feature_ueip req.est_rules
        (start_work c.plane (new_session local_seid remote_seid) c.resource_manager))

  abbrev pub with_association :
      EstablishmentRequest → String → ℕ → Option NodeAssociation → M C Reply
  with_association req addr remote_seid none c =
      (ok (reject req 0 no_established_pfcp_association c), c)
  with_association req addr remote_seid (some a) c =
      establish req addr remote_seid (new_local_seid a) c

  abbrev pub with_valid : EstablishmentRequest → String → Outcome ℕ → M C Reply
  with_valid req addr (ok remote_seid) c =
      with_association req addr remote_seid (lookup addr c.node_associations) c
  with_valid req addr (err e) c = (ok (reject req 0 (convert_error_to_ie_cause e) c), c)
  with_valid req addr panic c = (panic, c)

  unfoldable pub handle_session_establishment_request : EstablishmentRequest → String → M C Reply
  unfolding validate_request convert_error_to_ie_cause new_local_seid new_session
  handle_session_establishment_request req addr =
      with_valid req addr (validate_request req.est_node_id req.est_cp_fseid)
