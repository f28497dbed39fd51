-- ===== src/Core/Handlers/Modification.antt =====
-- HandlePfcpSessionModificationRequest of cmd/core/pfcp_session_handlers.go.
use eupf.Base.{ℕ, Bool, String, Option, none, some, string_eq, nat_eq}
use eupf.Base.Outcome.{Outcome, ok, err, panic, M}
use eupf.Base.Table.{lookup, insert}
use eupf.Base.MapOrder.{MapOrder}
use eupf.Ebpf.Controller.{ForwardingPlaneController}
use eupf.Core.Session.{Session}
use eupf.Core.Ie.{RuleIes}
use eupf.Core.Work.{Work, start_work}
use eupf.Core.Connection.{
  PfcpConnection, NodeAssociation, SessionResponse, Reply, respond, session_modification_response,
  request_accepted, session_context_not_found, no_established_pfcp_association,
  rule_creation_modification_failure, put_association,
}
use eupf.Core.Handlers.Apply.{change_rules, process_created_pdrs}
use eupf.Core.Handlers.Establishment.{Field, bare_response}

pub record ModificationRequest : Type 0 where
  pub mod_sequence : ℕ
  pub mod_seid : ℕ
  pub mod_cp_fseid : Field ℕ
  pub mod_rules : RuleIes

-- A new CP F-SEID that decodes replaces the session's.
unfoldable pub with_cp_fseid : Field ℕ → Session → Session
with_cp_fseid (some (some seid)) s = record s { remote_seid = seid }
with_cp_fseid _ s = s

module _ (plane : ForwardingPlaneController) (o : MapOrder) (feature_ueip : Bool) where
  open plane use {Plane}

  abbrev C : Type 0
  C = PfcpConnection Plane

  abbrev answer : SessionResponse → Reply
  answer r = respond (session_modification_response r)

  -- The handler works on the stored session itself: its changes stay when a rule fails.
  abbrev pub store : ModificationRequest → String → NodeAssociation → Work Plane → C → C
  store req addr a w c =
      put_association addr (record a { sessions = insert req.mod_seid w.session a.sessions })
        (record c { plane = w.plane; resource_manager = w.resources })

  abbrev pub finish :
      ModificationRequest
      → String
      → NodeAssociation
      → C
      → Outcome (Unit {0}) × Work Plane
      → Outcome Reply × C
  finish req addr a c (ok _, w) = (
    ok (
        answer (record {
          seid = w.session.remote_seid;
          sequence = req.mod_sequence;
          node_id = none;
          cause = request_accepted;
          fseid = none;
          created = process_created_pdrs c.n3_address w.created_pdrs;
          usage_reports = w.removed_urrs;
        })),
    store req addr a w c,
  )
  finish req addr a c (err e, w) = (
    ok (
        answer (
          bare_response w.session.remote_seid req.mod_sequence none
            rule_creation_modification_failure)),
    store req addr a w c,
  )
  finish req addr a c (panic, w) = (panic, store req addr a w c)

  abbrev pub with_session :
      ModificationRequest → String → NodeAssociation → Option Session → M C Reply
  with_session req addr a none c =
      (ok (answer (bare_response 0 req.mod_sequence none session_context_not_found)), c)
  with_session req addr a (some s) c = finish req addr a c (
      change_rules plane o feature_ueip req.mod_rules
        (start_work c.plane (with_cp_fseid req.mod_cp_fseid s) c.resource_manager))

  abbrev pub with_association : ModificationRequest → String → Option NodeAssociation → M C Reply
  with_association req addr none c = (
    ok (answer (bare_response req.mod_seid req.mod_sequence none no_established_pfcp_association)),
    c,
  )
  with_association req addr (some a) c = with_session req addr a (lookup req.mod_seid a.sessions) c

  unfoldable pub handle_session_modification_request : ModificationRequest → String → M C Reply
  unfolding with_cp_fseid
  handle_session_modification_request req addr c =
      with_association req addr (lookup addr c.node_associations) c
