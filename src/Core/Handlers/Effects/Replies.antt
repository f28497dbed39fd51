-- ===== src/Core/Handlers/Effects/Replies.antt =====
-- The Session Establishment Requests that cmd/core/pfcp_session_handlers.go answers.
use eupf.Base.{ℕ, ◌≡◌, ◌≢◌, refl, Bool, false, Option, none, some, String, string_eq, nat_eq, arith}
use eupf.Base.Outcome.{Outcome, ok, err, panic}
use eupf.Base.Outcome.Safe.{Calm, any_of}
use eupf.Base.Table.{lookup}
use eupf.Base.MapOrder.{MapOrder}
use eupf.Ebpf.Controller.{ForwardingPlaneController}
use eupf.Core.Display.Sources.{some_lack}
use eupf.Core.Rules.Crashes.{bad_far}
use eupf.Core.Session.{new_session}
use eupf.Core.Work.{Work, start_work}
use eupf.Core.Connection.{PfcpConnection, NodeAssociation, Reply, new_local_seid}
use eupf.Core.PdrContext.Returns.{Creates}
use eupf.Core.Handlers.Apply.Returns.{create_rules-Sound}
use eupf.Core.Handlers.Establishment.{
  EstablishmentRequest, handle_session_establishment_request, validate_request, finish,
  with_association, with_valid,
}

-- The handler returns an answer.
abbrev pub Replies : {Plane : Type 0} → Outcome Reply × PfcpConnection Plane → Type 0
Replies x = (reply : Reply) × (x.0 ≡ ok reply)

module _ (plane : ForwardingPlaneController) (o : MapOrder) (feature_ueip : Bool)
    (creates : Creates plane) where
  open plane use {Plane}

  finish-Replies :
      (req : EstablishmentRequest) (addr : String) (remote_seid local_seid : ℕ)
      (a : NodeAssociation) (c : PfcpConnection Plane) (x : Outcome (Unit {0}) × Work Plane)
      → Calm (λ _. Unit {0}) x
      → Replies (finish plane o feature_ueip req addr remote_seid local_seid a c x)
  finish-Replies req addr remote_seid local_seid a c (ok _, w) h = (_, refl)
  finish-Replies req addr remote_seid local_seid a c (err e, w) h = (_, refl)
  finish-Replies req addr remote_seid local_seid a c (panic, w) h = absurd h

  association-Replies :
      (req : EstablishmentRequest) (addr : String) (remote_seid : ℕ) (a : Option NodeAssociation)
      (c : PfcpConnection Plane)
      → some_lack req.est_rules.create_pdrs ≡ false
      → any_of bad_far req.est_rules.create_fars ≡ false
      → Replies (with_association plane o feature_ueip req addr remote_seid a c)
  association-Replies req addr remote_seid none c sources fars = (_, refl)
  association-Replies req addr remote_seid (some a) c sources fars =
      finish-Replies req addr remote_seid (new_local_seid a).0 (new_local_seid a).1 c _ (
        (create_rules-Sound plane o feature_ueip creates req.est_rules sources fars).safe
          (start_work c.plane (new_session (new_local_seid a).0 remote_seid) c.resource_manager) tt)

  valid-Replies :
      (req : EstablishmentRequest) (addr : String) (v : Outcome ℕ) (c : PfcpConnection Plane)
      → v ≢ panic
      → some_lack req.est_rules.create_pdrs ≡ false
      → any_of bad_far req.est_rules.create_fars ≡ false
      → Replies (with_valid plane o feature_ueip req addr v c)
  valid-Replies req addr (ok seid) c n sources fars =
      association-Replies req addr seid (lookup addr c.node_associations) c sources fars
  valid-Replies req addr (err e) c n sources fars = (_, refl)
  valid-Replies req addr panic c n sources fars = absurd (n refl)

  validate_request-returns :
      (n : Option (Option String)) (f : Option (Option ℕ)) → validate_request n f ≢ panic
  unfolding validate_request
  validate_request-returns (some (some n)) (some (some f)) e = ground (arith, e)
  validate_request-returns n f e = ground (arith, e)

  -- With a plane whose methods that create rules do not panic: a Session Establishment Request
  -- gets an answer, whether it is accepted or not, if every PDI of its Create PDRs has a Source
  -- Interface, every Apply Action of its Create FARs has a byte, and the outer headers of their
  -- Forwarding Parameters decode, an IPv4 address in them with at least four bytes.
  pub establishment-Replies :
      (req : EstablishmentRequest) (addr : String) (c : PfcpConnection Plane)
      → some_lack req.est_rules.create_pdrs ≡ false
      → any_of bad_far req.est_rules.create_fars ≡ false
      → Replies (handle_session_establishment_request plane o feature_ueip req addr c)
  unfolding handle_session_establishment_request
  establishment-Replies req addr c sources fars =
      valid-Replies req addr (validate_request req.est_node_id req.est_cp_fseid) c
        (validate_request-returns req.est_node_id req.est_cp_fseid) sources fars
