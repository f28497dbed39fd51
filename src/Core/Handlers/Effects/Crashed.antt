-- ===== src/Core/Handlers/Effects/Crashed.antt =====
-- The session requests on which the handlers of cmd/core/pfcp_session_handlers.go crash while they
-- print them.
use eupf.Base.{ℕ, ◌≡◌, refl, Bool, true, ◌||◌, some, String, string_eq, nat_eq}
use eupf.Base.Outcome.{ok, panic}
use eupf.Base.Table.{lookup, insert}
use eupf.Base.MapOrder.{MapOrder}
use eupf.Ebpf.Controller.{ForwardingPlaneController}
use eupf.Core.Session.{Session}
use eupf.Core.Ie.{RuleIes}
use eupf.Core.Display.{print_session_establishment_request, print_session_modification_request}
use eupf.Core.Display.Sources.{
  some_lack, establishment-CrashesIf, modification-CrashesIf, CrashesIf-panics,
}
use eupf.Core.Work.{Work}
use eupf.Core.Connection.{PfcpConnection, NodeAssociation, new_local_seid, put_association}
use eupf.Core.Handlers.Apply.{create_rules, change_rules}
use eupf.Core.Handlers.Establishment.{
  EstablishmentRequest, handle_session_establishment_request, validate_request,
}
use eupf.Core.Handlers.Modification.{
  ModificationRequest, handle_session_modification_request, with_cp_fseid,
}

module _ (plane : ForwardingPlaneController) (o : MapOrder) (feature_ueip : Bool) where
  open plane use {Plane}

  create_rules-crash :
      (r : RuleIes) (w : Work Plane)
      → some_lack r.create_pdrs ≡ true
      → create_rules plane o feature_ueip r w ≡ (panic, w)
  unfolding create_rules
  create_rules-crash r w h =
      let e =
        CrashesIf-panics (some_lack r.create_pdrs) (print_session_establishment_request r)
          (establishment-CrashesIf r) h in
      rw (e, create_rules) refl

  change_rules-crash :
      (r : RuleIes) (w : Work Plane)
      → (some_lack r.create_pdrs || (some_lack r.update_pdrs || some_lack r.remove_pdrs)) ≡ true
      → change_rules plane o feature_ueip r w ≡ (panic, w)
  unfolding change_rules
  change_rules-crash r w h =
      let e =
        CrashesIf-panics _ (print_session_modification_request r) (modification-CrashesIf r) h in
      rw (e, change_rules) refl

  -- A Session Establishment Request that is complete and comes from an associated peer, and in
  -- which some Create PDR has a PDI without a Source Interface, crashes the handler before a rule
  -- reaches the forwarding plane: of the connection only the peer's SEID counter has moved.
  pub establishment-crash :
      (req : EstablishmentRequest) (addr : String) (c : PfcpConnection Plane) (a : NodeAssociation)
      (seid : ℕ)
      → lookup addr c.node_associations ≡ some a
      → validate_request req.est_node_id req.est_cp_fseid ≡ ok seid
      → some_lack req.est_rules.create_pdrs ≡ true
      → handle_session_establishment_request plane o feature_ueip req addr c
        ≡ (panic, put_association addr (new_local_seid a).1 c)
  unfolding handle_session_establishment_request
  establishment-crash req addr c a seid found valid h =
      rw (valid, handle_session_establishment_request)
        (rw (found, handle_session_establishment_request)
          (rw (create_rules-crash req.est_rules _ h, handle_session_establishment_request) refl))

  -- A Session Modification Request for a session of an associated peer, in which a Create, Update
  -- or Remove PDR has a PDI without a Source Interface, crashes the handler before a rule changes:
  -- of the connection only the session's remote SEID may have changed, to the request's CP F-SEID.
  pub modification-crash :
      (req : ModificationRequest) (addr : String) (c : PfcpConnection Plane) (a : NodeAssociation)
      (s : Session)
      → lookup addr c.node_associations ≡ some a
      → lookup req.mod_seid a.sessions ≡ some s
      → (some_lack req.mod_rules.create_pdrs
          || (some_lack req.mod_rules.update_pdrs || some_lack req.mod_rules.remove_pdrs))
        ≡ true
      → handle_session_modification_request plane o feature_ueip req addr c ≡ (
        panic,
        put_association addr
            (record a {
              sessions = insert req.mod_seid (with_cp_fseid req.mod_cp_fseid s) a.sessions;
            })
            c,
      )
  unfolding handle_session_modification_request
  modification-crash req addr c a s found here h =
      rw (found, handle_session_modification_request)
        (rw (here, handle_session_modification_request)
          (rw (change_rules-crash req.mod_rules _ h, handle_session_modification_request) refl))
