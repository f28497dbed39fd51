-- ===== src/Core/Handlers/Effects.antt =====
-- How a step of the connection of cmd/core/pfcp_connection.go shows in the sessions of all peers.
pub mod Established
pub mod Answered
pub mod Deleted
pub mod Modified
pub mod Associated
pub mod Counts
pub mod Returns
pub mod Leases
pub mod Failed
pub mod Crashed
pub mod Replies
use eupf.Base.{
  ℕ, suc, ◌+◌, ◌%◌, ◌^◌, ◌≤◌, ◌<◌, ◌≡◌, ◌≢◌, refl, ◌∙◌, Bool, true, false, ◌&&◌, Option, none, some,
  String, List, [], ◌∷◌, nat_eq, string_eq, arith, inl, inr, Option-cases, if◌then◌else◌, ◌==◌,
  ==_iff,
}
use eupf.Base.Outcome.{Outcome, ok, err, panic}
use eupf.Base.Table.{
  Table, lookup, insert, remove, lookup-insert, lookup-remove, lookup-insert_self,
}
use eupf.Base.MapOrder.{MapOrder}
use eupf.Ebpf.Controller.{ForwardingPlaneController}
use eupf.Core.Session.{Session, new_session}
use eupf.Core.Work.{Work, start_work}
use eupf.Core.Connection.{
  PfcpConnection, NodeAssociation, new_local_seid, put_association, Reply, Response, Cause,
  request_accepted, session_establishment_response, session_modification_response,
  session_deletion_response,
}
use eupf.Ebpf.Types.{Bytes}

-- The session of a peer.
abbrev pub sessions_of : Option NodeAssociation → Table ℕ Session
sessions_of none = []
sessions_of (some a) = a.sessions

abbrev pub find_session : {Plane : Type 0} → String → ℕ → PfcpConnection Plane → Option Session
find_session peer id c = lookup id (sessions_of (lookup peer c.node_associations))

abbrev pub response_cause : Option Response → Option Cause
response_cause (some (session_establishment_response r)) = some r.cause
response_cause (some (session_modification_response r)) = some r.cause
response_cause (some (session_deletion_response r)) = some r.cause
response_cause _ = none

-- The cause of a session response, if a handler returns one.
abbrev pub cause_of : Outcome Reply → Option Cause
cause_of (ok r) = response_cause r.response
cause_of _ = none

abbrev pub is_accepted : Option Cause → Bool
is_accepted (some request_accepted) = true
is_accepted _ = false

abbrev pub response_fseid : Option Response → Option (ℕ × Bytes)
response_fseid (some (session_establishment_response r)) = r.fseid
response_fseid _ = none

-- The F-SEID under which an establishment answers that it keeps the session.
abbrev pub fseid_of : Outcome Reply → Option (ℕ × Bytes)
fseid_of (ok r) = response_fseid r.response
fseid_of _ = none

module _ {Plane : Type 0} where
  pub find_session-put :
      (peer : String) (id : ℕ) (addr : String) (a : NodeAssociation) (c : PfcpConnection Plane)
      → find_session peer id (put_association addr a c)
        ≡ (if string_eq.beq addr peer then lookup id a.sessions else find_session peer id c)
  unfolding lookup
  find_session-put peer id addr a c = ground (arith, lookup-insert addr peer a c.node_associations)
