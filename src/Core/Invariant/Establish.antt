-- ===== src/Core/Invariant/Establish.antt =====
-- HandlePfcpSessionEstablishmentRequest of cmd/core/pfcp_session_handlers.go and the invariant of
-- the connection.
use eupf.Base.{
  ℕ, suc, ◌+◌, ◌^◌, ◌≤◌, ◌<◌, ◌≡◌, refl, Bool, Option, none, some, String, nat_eq, string_eq, arith,
}
use eupf.Base.Outcome.{Outcome, ok, err, panic}
use eupf.Base.Table.{lookup}
use eupf.Base.MapOrder.{MapOrder}
use eupf.Ebpf.Controller.{ForwardingPlaneController}
use eupf.Core.Session.{new_session}
use eupf.Core.Work.{Work, start_work}
use eupf.Core.Connection.{PfcpConnection, NodeAssociation, new_local_seid}
use eupf.Core.PdrContext.Seid.{seid_of}
use eupf.Core.Handlers.Apply.Seid.{create_rules-seid}
use eupf.Core.Handlers.Establishment.{
  EstablishmentRequest, handle_session_establishment_request, validate_request, with_valid,
  with_association, finish,
}
use eupf.Core.Invariant.{
  IsValid, IsAssociation, put-IsAssociation, put-AreAssociations, suc-AreAssociations,
  lookup-IsAssociation, new_local_seid-IsAssociation,
}

module _ (plane : ForwardingPlaneController) (o : MapOrder) (feature_ueip : Bool) where
  open plane use {Plane}

  finish-IsValid :
      (n : ℕ) (req : EstablishmentRequest) (addr : String) (remote_seid local_seid : ℕ)
      (a : NodeAssociation) (c : PfcpConnection Plane) (x : Outcome (Unit {0}) × Work Plane)
      → IsValid n c
      → IsAssociation n addr a
      → local_seid ≤ a.next_session_id
      → seid_of x.1 ≡ local_seid
      → IsValid n (finish plane o feature_ueip req addr remote_seid local_seid a c x).1
  finish-IsValid n req addr remote_seid local_seid a c (ok _, w) h k small kept =
      put-AreAssociations n addr _ c.node_associations h
        (put-IsAssociation n addr a local_seid w.session k (kept, small))
  finish-IsValid n req addr remote_seid local_seid a c (err e, w) h k small kept =
      put-AreAssociations n addr a c.node_associations h k
  finish-IsValid n req addr remote_seid local_seid a c (panic, w) h k small kept =
      put-AreAssociations n addr a c.node_associations h k

  establish-IsValid :
      (n : ℕ) (req : EstablishmentRequest) (addr : String) (remote_seid : ℕ)
      (found : Option NodeAssociation) (c : PfcpConnection Plane)
      → lookup addr c.node_associations ≡ found
      → n + 1 < 2 ^ 64
      → IsValid n c
      → IsValid (suc n) (with_association plane o feature_ueip req addr remote_seid found c).1
  unfolding handle_session_establishment_request
  establish-IsValid n req addr remote_seid none c found small h =
      suc-AreAssociations n c.node_associations h
  establish-IsValid n req addr remote_seid (some a) c found small h =
      let k = lookup-IsAssociation n addr a c.node_associations h found in
      finish-IsValid (suc n) req addr remote_seid (new_local_seid a).0 (new_local_seid a).1 c _
        (suc-AreAssociations n c.node_associations h)
        (new_local_seid-IsAssociation n addr a small k) (omega arith)
        ((create_rules-seid plane o feature_ueip req.est_rules).at
          (start_work c.plane (new_session (new_local_seid a).0 remote_seid) c.resource_manager))

  with_valid-IsValid :
      (n : ℕ) (req : EstablishmentRequest) (addr : String) (v : Outcome ℕ)
      (c : PfcpConnection Plane)
      → n + 1 < 2 ^ 64
      → IsValid n c
      → IsValid (suc n) (with_valid plane o feature_ueip req addr v c).1
  unfolding handle_session_establishment_request
  with_valid-IsValid n req addr (ok remote_seid) c small h =
      establish-IsValid n req addr remote_seid (lookup addr c.node_associations) c refl small h
  with_valid-IsValid n req addr (err e) c small h = suc-AreAssociations n c.node_associations h
  with_valid-IsValid n req addr panic c small h = suc-AreAssociations n c.node_associations h

  pub handle_session_establishment_request-IsValid :
      (n : ℕ) (req : EstablishmentRequest) (addr : String) (c : PfcpConnection Plane)
      → n + 1 < 2 ^ 64
      → IsValid n c
      → IsValid (suc n) (handle_session_establishment_request plane o feature_ueip req addr c).1
  unfolding handle_session_establishment_request
  handle_session_establishment_request-IsValid n req addr c small h =
      with_valid-IsValid n req addr (validate_request req.est_node_id req.est_cp_fseid) c small h
