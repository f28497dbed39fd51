-- ===== src/Core/Handlers/Effects/Answered.antt =====
-- What HandlePfcpSessionEstablishmentRequest of cmd/core/pfcp_session_handlers.go answers when it
-- accepts a request.
use eupf.Base.{
  ℕ, ◌≡◌, refl, ◌∙◌, sym, ap, Bool, true, Option, none, some, String, nat_eq, string_eq, arith,
}
use eupf.Base.Outcome.{Outcome, ok, err, panic}
use eupf.Base.Table.{lookup}
use eupf.Base.MapOrder.{MapOrder}
use eupf.Ebpf.Controller.{ForwardingPlaneController}
use eupf.Core.Session.{Session, new_session}
use eupf.Core.Work.{Work, start_work}
use eupf.Core.Connection.{PfcpConnection, NodeAssociation, new_local_seid}
use eupf.Core.Handlers.Effects.{find_session, cause_of, is_accepted, fseid_of}
use eupf.Core.Handlers.Apply.Seid.{create_rules-seid}
use eupf.Core.Handlers.Establishment.{
  EstablishmentRequest, handle_session_establishment_request, validate_request, with_valid,
  with_association, finish,
}
use eupf.Core.Handlers.Effects.Established.{
  next_seid, cp_seid, made, establishment-effect, convert_error_to_ie_cause-rejects,
}

module _ (plane : ForwardingPlaneController) (o : MapOrder) (feature_ueip : Bool) where
  open plane use {Plane}

  finish-fseid :
      (req : EstablishmentRequest) (addr : String) (remote_seid local_seid : ℕ)
      (a : NodeAssociation) (c : PfcpConnection Plane) (x : Outcome (Unit {0}) × Work Plane)
      → is_accepted (cause_of (finish plane o feature_ueip req addr remote_seid local_seid a c x).0)
        ≡ true
      → fseid_of (finish plane o feature_ueip req addr remote_seid local_seid a c x).0
        ≡ some (local_seid, c.node_addr_v4)
  finish-fseid req addr remote_seid local_seid a c (ok _, w) accepted = refl
  finish-fseid req addr remote_seid local_seid a c (err e, w) accepted = ground (arith, accepted)
  finish-fseid req addr remote_seid local_seid a c (panic, w) accepted = ground (arith, accepted)

  association-fseid :
      (req : EstablishmentRequest) (addr : String) (remote_seid : ℕ) (a : Option NodeAssociation)
      (c : PfcpConnection Plane)
      → is_accepted (cause_of (with_association plane o feature_ueip req addr remote_seid a c).0)
        ≡ true
      → fseid_of (with_association plane o feature_ueip req addr remote_seid a c).0
        ≡ some (next_seid a, c.node_addr_v4)
  unfolding handle_session_establishment_request
  association-fseid req addr remote_seid none c accepted = ground (arith, accepted)
  association-fseid req addr remote_seid (some a) c accepted =
      finish-fseid req addr remote_seid (new_local_seid a).0 (new_local_seid a).1 c
        (made plane o feature_ueip req remote_seid (new_local_seid a).0 c) accepted

  valid-fseid :
      (req : EstablishmentRequest) (addr : String) (v : Outcome ℕ) (c : PfcpConnection Plane)
      → is_accepted (cause_of (with_valid plane o feature_ueip req addr v c).0) ≡ true
      → fseid_of (with_valid plane o feature_ueip req addr v c).0
        ≡ some (next_seid (lookup addr c.node_associations), c.node_addr_v4)
  unfolding handle_session_establishment_request
  valid-fseid req addr (ok remote_seid) c accepted =
      association-fseid req addr remote_seid (lookup addr c.node_associations) c accepted
  valid-fseid req addr (err e) c accepted =
      ground (arith, accepted, convert_error_to_ie_cause-rejects e)
  valid-fseid req addr panic c accepted = ground (arith, accepted)

  -- A Session Establishment Response that accepts the request names the UPF's address and a local
  -- SEID under which the sender's association now has a session, whose own SEID it is.
  pub establishment-answers :
      (req : EstablishmentRequest) (addr : String) (c : PfcpConnection Plane)
      → is_accepted
          (cause_of (handle_session_establishment_request plane o feature_ueip req addr c).0)
        ≡ true
      → (s : Session) × (fseid_of
            (handle_session_establishment_request plane o feature_ueip req addr c).0
          ≡ some (s.local_seid, c.node_addr_v4))
        × (find_session addr s.local_seid
              (handle_session_establishment_request plane o feature_ueip req addr c).1
            ≡ some s)
  unfolding handle_session_establishment_request
  establishment-answers req addr c accepted =
      let v = validate_request req.est_node_id req.est_cp_fseid in
      let next = next_seid (lookup addr c.node_associations) in
      let kept =
        (create_rules-seid plane o feature_ueip req.est_rules).at
          (start_work c.plane (new_session next (cp_seid v)) c.resource_manager) in
      let s = (made plane o feature_ueip req (cp_seid v) next c).1.session in
      (
        s,
        valid-fseid req addr v c accepted ∙ ap (λ i. some (i, c.node_addr_v4)) (sym kept),
        ground (
          arith,
          kept,
          accepted,
          establishment-effect plane o feature_ueip req addr c addr s.local_seid,
          string_eq.beq_iff addr addr,
        ),
      )
