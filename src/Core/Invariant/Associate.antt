-- ===== src/Core/Invariant/Associate.antt =====
-- The association handlers of cmd/core/pfcp_handlers.go and the invariant of the connection.
use eupf.Base.{
  ℕ, suc, Bool, true, false, Option, none, some, String, nat_eq, string_eq, if◌then◌else◌, ◌==◌,
}
use eupf.Base.Outcome.{Outcome, ok, err, panic}
use eupf.Base.Table.{lookup}
use eupf.Core.Connection.{PfcpConnection, NodeAssociation, new_node_association}
use eupf.Core.Handlers.Establishment.{Field}
use eupf.Core.Handlers.Association.{
  SetupRequest, SetupResponse, handle_association_setup_request, handle_association_setup_response,
  associate, setup_with, accept, check_response,
}
use eupf.Core.Invariant.{IsValid, put-AreAssociations, suc-AreAssociations, new-IsAssociation}

module _ {Plane : Type 0} where
  schedule_lem :
      (b : Bool) (c d : PfcpConnection Plane) (n : ℕ)
      → IsValid n c
      → IsValid n d
      → IsValid n (if b then c else d)
  schedule_lem true c d n h k = h
  schedule_lem false c d n h k = k

  associate-IsValid :
      (n hb : ℕ) (node_id addr : String) (found : Option NodeAssociation) (c : PfcpConnection Plane)
      → IsValid n c
      → IsValid (suc n) (associate hb node_id addr found c)
  unfolding handle_association_setup_request
  associate-IsValid n hb node_id addr (some _) c h = suc-AreAssociations n c.node_associations h
  associate-IsValid n hb node_id addr none c h =
      let k =
        put-AreAssociations (suc n) addr (new_node_association node_id addr) c.node_associations
          (suc-AreAssociations n c.node_associations h) (new-IsAssociation n node_id addr) in
      schedule_lem (hb == 0) _ _ (suc n) k k

  setup_with-IsValid :
      (n hb : ℕ) (addr : String) (sequence : ℕ) (node_id : Field String) (ts : Field ℕ)
      (c : PfcpConnection Plane)
      → IsValid n c
      → IsValid (suc n) (setup_with hb addr sequence node_id ts c).1
  unfolding handle_association_setup_request
  setup_with-IsValid n hb addr sequence (some (some node_id)) (some (some _)) c h =
      associate-IsValid n hb node_id addr (lookup addr c.node_associations) c h
  setup_with-IsValid n hb addr sequence none _ c h = suc-AreAssociations n c.node_associations h
  setup_with-IsValid n hb addr sequence (some none) _ c h =
      suc-AreAssociations n c.node_associations h
  setup_with-IsValid n hb addr sequence (some (some _)) none c h =
      suc-AreAssociations n c.node_associations h
  setup_with-IsValid n hb addr sequence (some (some _)) (some none) c h =
      suc-AreAssociations n c.node_associations h

  pub handle_association_setup_request-IsValid :
      (n hb : ℕ) (req : SetupRequest) (addr : String) (c : PfcpConnection Plane)
      → IsValid n c
      → IsValid (suc n) (handle_association_setup_request hb req addr c).1
  unfolding handle_association_setup_request
  handle_association_setup_request-IsValid n hb req addr c h =
      setup_with-IsValid n hb addr req.setup_sequence req.setup_node_id
        req.setup_recovery_time_stamp c h

  accept-IsValid :
      (n hb : ℕ) (addr : String) (x : Outcome (Option String)) (c : PfcpConnection Plane)
      → IsValid n c
      → IsValid (suc n) (accept hb addr x c).1
  unfolding handle_association_setup_response
  accept-IsValid n hb addr (ok none) c h = suc-AreAssociations n c.node_associations h
  accept-IsValid n hb addr (ok (some node_id)) c h =
      associate-IsValid n hb node_id addr (lookup addr c.node_associations) c h
  accept-IsValid n hb addr (err e) c h = suc-AreAssociations n c.node_associations h
  accept-IsValid n hb addr panic c h = suc-AreAssociations n c.node_associations h

  pub handle_association_setup_response-IsValid :
      (n hb : ℕ) (res : SetupResponse) (addr : String) (c : PfcpConnection Plane)
      → IsValid n c
      → IsValid (suc n) (handle_association_setup_response hb res addr c).1
  unfolding handle_association_setup_response
  handle_association_setup_response-IsValid n hb res addr c h =
      accept-IsValid n hb addr
        (check_response res.reply_node_id res.reply_cause res.reply_cp_function_features) c h
