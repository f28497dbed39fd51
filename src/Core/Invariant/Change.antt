-- ===== src/Core/Invariant/Change.antt =====
-- The handlers of cmd/core/pfcp_session_handlers.go that modify and delete a session, and
-- the invariant of the connection.
use eupf.Base.{ℕ, ◌≡◌, refl, ◌∙◌, Bool, Option, none, some, String, nat_eq, string_eq}
use eupf.Base.Outcome.{Outcome, ok, err, panic}
use eupf.Base.Table.{lookup}
use eupf.Base.Table.Entries.{All-lookup}
use eupf.Base.MapOrder.{MapOrder}
use eupf.Ebpf.Controller.{ForwardingPlaneController}
use eupf.Core.Session.{Session}
use eupf.Core.Work.{Work, start_work}
use eupf.Core.Connection.{PfcpConnection, NodeAssociation}
use eupf.Core.Handlers.Apply.Seid.{change_rules-seid}
use eupf.Core.Handlers.Modification.{
  ModificationRequest, handle_session_modification_request, with_cp_fseid,
}
use eupf.Core.Handlers.Modification as Modification
use eupf.Core.Handlers.Deletion.{DeletionRequest, handle_session_deletion_request, delete_rules}
use eupf.Core.Handlers.Deletion as Deletion
use eupf.Core.Handlers.Establishment.{Field}
use eupf.Core.Invariant.{
  IsValid, IsAssociation, SessionEntry, put-IsAssociation, remove-IsAssociation,
  put-AreAssociations, lookup-IsAssociation,
}

with_cp_fseid-seid : (f : Field ℕ) (s : Session) → (with_cp_fseid f s).local_seid ≡ s.local_seid
unfolding with_cp_fseid
with_cp_fseid-seid (some (some seid)) s = refl
with_cp_fseid-seid (some none) s = refl
with_cp_fseid-seid none s = refl

module _ (plane : ForwardingPlaneController) (o : MapOrder) (feature_ueip : Bool) where
  open plane use {Plane}

  store-IsValid :
      (n : ℕ) (req : ModificationRequest) (addr : String) (a : NodeAssociation)
      (c : PfcpConnection Plane) (x : Outcome (Unit {0}) × Work Plane)
      → IsValid n c
      → IsAssociation n addr a
      → SessionEntry a.next_session_id (req.mod_seid, x.1.session)
      → IsValid n (Modification.finish plane o feature_ueip req addr a c x).1
  store-IsValid n req addr a c (ok _, w) h k e =
      put-AreAssociations n addr _ c.node_associations h
        (put-IsAssociation n addr a req.mod_seid w.session k e)
  store-IsValid n req addr a c (err _, w) h k e =
      put-AreAssociations n addr _ c.node_associations h
        (put-IsAssociation n addr a req.mod_seid w.session k e)
  store-IsValid n req addr a c (panic, w) h k e =
      put-AreAssociations n addr _ c.node_associations h
        (put-IsAssociation n addr a req.mod_seid w.session k e)

  modify_session-IsValid :
      (n : ℕ) (req : ModificationRequest) (addr : String) (a : NodeAssociation)
      (found : Option Session) (c : PfcpConnection Plane)
      → IsValid n c
      → IsAssociation n addr a
      → lookup req.mod_seid a.sessions ≡ found
      → IsValid n (Modification.with_session plane o feature_ueip req addr a found c).1
  unfolding handle_session_modification_request
  modify_session-IsValid n req addr a none c h k found = h
  modify_session-IsValid n req addr a (some s) c h k found =
      let e =
        All-lookup (SessionEntry a.next_session_id) req.mod_seid s a.sessions k.entries found in
      store-IsValid n req addr a c _ h k (
        (change_rules-seid plane o feature_ueip req.mod_rules).at
              (start_work c.plane (with_cp_fseid req.mod_cp_fseid s) c.resource_manager)
            ∙ with_cp_fseid-seid req.mod_cp_fseid s
            ∙ e.0,
        e.1,
      )

  modify_association-IsValid :
      (n : ℕ) (req : ModificationRequest) (addr : String) (found : Option NodeAssociation)
      (c : PfcpConnection Plane)
      → IsValid n c
      → lookup addr c.node_associations ≡ found
      → IsValid n (Modification.with_association plane o feature_ueip req addr found c).1
  unfolding handle_session_modification_request
  modify_association-IsValid n req addr none c h found = h
  modify_association-IsValid n req addr (some a) c h found =
      modify_session-IsValid n req addr a (lookup req.mod_seid a.sessions) c h
        (lookup-IsAssociation n addr a c.node_associations h found) refl

  pub handle_session_modification_request-IsValid :
      (n : ℕ) (req : ModificationRequest) (addr : String) (c : PfcpConnection Plane)
      → IsValid n c
      → IsValid n (handle_session_modification_request plane o feature_ueip req addr c).1
  unfolding handle_session_modification_request
  handle_session_modification_request-IsValid n req addr c h =
      modify_association-IsValid n req addr (lookup addr c.node_associations) c h refl

  delete-IsValid :
      (n : ℕ) (req : DeletionRequest) (addr : String) (a : NodeAssociation) (s : Session)
      (c : PfcpConnection Plane) (x : Outcome (Unit {0}) × Work Plane)
      → IsValid n c
      → IsAssociation n addr a
      → IsValid n (Deletion.finish plane o feature_ueip req addr a s c x).1
  delete-IsValid n req addr a s c (ok _, w) h k =
      put-AreAssociations n addr _ c.node_associations h
        (remove-IsAssociation n addr a req.del_seid k)
  delete-IsValid n req addr a s c (err _, w) h k = h
  delete-IsValid n req addr a s c (panic, w) h k = h

  delete_session-IsValid :
      (n : ℕ) (req : DeletionRequest) (addr : String) (a : NodeAssociation) (found : Option Session)
      (c : PfcpConnection Plane)
      → IsValid n c
      → IsAssociation n addr a
      → IsValid n (Deletion.with_session plane o feature_ueip req addr a found c).1
  unfolding handle_session_deletion_request
  delete_session-IsValid n req addr a none c h k = h
  delete_session-IsValid n req addr a (some s) c h k =
      delete-IsValid n req addr a s c
        (delete_rules plane o feature_ueip s (start_work c.plane s c.resource_manager)) h k

  delete_association-IsValid :
      (n : ℕ) (req : DeletionRequest) (addr : String) (found : Option NodeAssociation)
      (c : PfcpConnection Plane)
      → IsValid n c
      → lookup addr c.node_associations ≡ found
      → IsValid n (Deletion.with_association plane o feature_ueip req addr found c).1
  unfolding handle_session_deletion_request
  delete_association-IsValid n req addr none c h found = h
  delete_association-IsValid n req addr (some a) c h found =
      delete_session-IsValid n req addr a (lookup req.del_seid a.sessions) c h
        (lookup-IsAssociation n addr a c.node_associations h found)

  pub handle_session_deletion_request-IsValid :
      (n : ℕ) (req : DeletionRequest) (addr : String) (c : PfcpConnection Plane)
      → IsValid n c
      → IsValid n (handle_session_deletion_request plane o feature_ueip req addr c).1
  unfolding handle_session_deletion_request
  handle_session_deletion_request-IsValid n req addr c h =
      delete_association-IsValid n req addr (lookup addr c.node_associations) c h refl
