-- ===== src/Core/Handlers/Effects/Deleted.antt =====
-- HandlePfcpSessionDeletionRequest of cmd/core/pfcp_session_handlers.go and the sessions of all
-- peers.
use eupf.Base.{
  ℕ, ◌≡◌, refl, Bool, ◌&&◌, Option, none, some, String, nat_eq, string_eq, arith, if◌then◌else◌,
  ◌==◌,
}
use eupf.Base.Outcome.{Outcome, ok, err, panic}
use eupf.Base.Table.{lookup, remove, lookup-remove}
use eupf.Base.MapOrder.{MapOrder}
use eupf.Ebpf.Controller.{ForwardingPlaneController}
use eupf.Core.Session.{Session}
use eupf.Core.Work.{Work, start_work}
use eupf.Core.Connection.{PfcpConnection, NodeAssociation}
use eupf.Core.Handlers.Effects.{find_session, find_session-put, cause_of, is_accepted}
use eupf.Core.Handlers.Deletion.{
  DeletionRequest, handle_session_deletion_request, delete_rules, finish, with_session,
  with_association,
}

module _ (plane : ForwardingPlaneController) (o : MapOrder) (feature_ueip : Bool) where
  open plane use {Plane}

  finish-effect :
      (req : DeletionRequest) (addr : String) (a : NodeAssociation) (s : Session)
      (c : PfcpConnection Plane) (x : Outcome (Unit {0}) × Work Plane) (peer : String) (id : ℕ)
      → lookup addr c.node_associations ≡ some a
      → find_session peer id (finish plane o feature_ueip req addr a s c x).1 ≡ (
          if is_accepted (cause_of (finish plane o feature_ueip req addr a s c x).0)
            && (string_eq.beq addr peer && (req.del_seid == id))
          then none
          else find_session peer id c)
  finish-effect req addr a s c (ok _, w) peer id found = ground (
    arith,
    find_session-put peer id addr (record a { sessions = remove req.del_seid a.sessions }) c,
    lookup-remove req.del_seid id a.sessions,
    string_eq.beq_iff addr peer,
  )
  finish-effect req addr a s c (err e, w) peer id found = refl
  finish-effect req addr a s c (panic, w) peer id found = refl

  session-effect :
      (req : DeletionRequest) (addr : String) (a : NodeAssociation) (s : Option Session)
      (c : PfcpConnection Plane) (peer : String) (id : ℕ)
      → lookup addr c.node_associations ≡ some a
      → find_session peer id (with_session plane o feature_ueip req addr a s c).1 ≡ (
          if is_accepted (cause_of (with_session plane o feature_ueip req addr a s c).0)
            && (string_eq.beq addr peer && (req.del_seid == id))
          then none
          else find_session peer id c)
  unfolding handle_session_deletion_request
  session-effect req addr a none c peer id found = refl
  session-effect req addr a (some s) c peer id found =
      finish-effect req addr a s c
        (delete_rules plane o feature_ueip s (start_work c.plane s c.resource_manager)) peer id
        found

  association-effect :
      (req : DeletionRequest) (addr : String) (a : Option NodeAssociation)
      (c : PfcpConnection Plane) (peer : String) (id : ℕ)
      → lookup addr c.node_associations ≡ a
      → find_session peer id (with_association plane o feature_ueip req addr a c).1 ≡ (
          if is_accepted (cause_of (with_association plane o feature_ueip req addr a c).0)
            && (string_eq.beq addr peer && (req.del_seid == id))
          then none
          else find_session peer id c)
  unfolding handle_session_deletion_request
  association-effect req addr none c peer id found = refl
  association-effect req addr (some a) c peer id found =
      session-effect req addr a (lookup req.del_seid a.sessions) c peer id found

  -- After a Session Deletion Request, on every branch of the handler: when the answer accepts it,
  -- the session under the request's SEID is gone from the association of the sender, and every
  -- other session of every peer is what it was; otherwise no session changes.
  pub deletion-effect :
      (req : DeletionRequest) (addr : String) (c : PfcpConnection Plane) (peer : String) (id : ℕ)
      → find_session peer id (handle_session_deletion_request plane o feature_ueip req addr c).1 ≡ (
          if is_accepted
              (cause_of (handle_session_deletion_request plane o feature_ueip req addr c).0)
            && (string_eq.beq addr peer && (req.del_seid == id))
          then none
          else find_session peer id c)
  unfolding handle_session_deletion_request
  deletion-effect req addr c peer id =
      association-effect req addr (lookup addr c.node_associations) c peer id refl
