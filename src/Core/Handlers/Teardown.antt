-- ===== src/Core/Handlers/Teardown.antt =====
-- DeleteAssociation and DeleteSession of cmd/core/pfcp_connection.go, which the heartbeat's end
-- calls. Errors are dropped; URRs, addresses and the resource manager's ids are not touched, but
-- for the tunnel ids that deletePDR returns.
use eupf.Base.{numbered, [], ℕ, Bool, String, Option, none, some, string_eq, nat_eq}
use eupf.Base.Outcome.{Outcome, M, ignore, for_each, ◌>>◌, crash, modify}
use eupf.Base.Table.{remove}
use eupf.Base.MapOrder.{MapOrder, branch}
use eupf.Ebpf.Controller.{ForwardingPlaneController}
use eupf.Core.Session.{Session, SpdrInfo, SfarInfo, SqerInfo}
use eupf.Core.Work.{Work, start_work, on_plane}
use eupf.Core.PdrContext.{delete_pdr}
use eupf.Core.Connection.{PfcpConnection, NodeAssociation, get_association}

module _ (plane : ForwardingPlaneController) (o : MapOrder) (feature_ueip : Bool) where
  open plane use {Plane}

  abbrev C : Type 0
  C = PfcpConnection Plane

  abbrev W : Type 0
  W = Work Plane

  abbrev pub drop_far : ℕ × SfarInfo → M W (Unit {0})
  drop_far (id, far) = ignore (on_plane (plane.delete_far far.far_global_id))

  abbrev pub drop_qer : ℕ × SqerInfo → M W (Unit {0})
  drop_qer (id, qer) = ignore (on_plane (plane.delete_qer qer.qer_global_id))

  -- Each PDR with its place among the ranges.
  abbrev pub drop_pdr : ℕ × (ℕ × SpdrInfo) → M W (Unit {0})
  drop_pdr (i, (id, pdr)) = ignore (delete_pdr plane (branch i (branch 3 o)) feature_ueip pdr)

  unfoldable pub drop_rules : Session → M W (Unit {0})
  unfolding delete_pdr
  drop_rules s = do
    for_each drop_far ((branch 0 o).visit [] ℕ SfarInfo s.fars)
    for_each drop_qer ((branch 1 o).visit [] ℕ SqerInfo s.qers)
    for_each drop_pdr (numbered 0 ((branch 2 o).visit [] ℕ SpdrInfo s.pdrs))

  abbrev pub keep_work : C → Outcome (Unit {0}) × W → Outcome (Unit {0}) × C
  keep_work c (r, w) = (r, record c { plane = w.plane; resource_manager = w.resources })

  unfoldable pub delete_session : Session → M C (Unit {0})
  unfolding drop_rules
  delete_session s c = keep_work c (drop_rules s (start_work c.plane s c.resource_manager))

module _ (plane : ForwardingPlaneController) (o : MapOrder) (feature_ueip : Bool) where
  open plane use {Plane}

  abbrev pub delete_entry : ℕ × (ℕ × Session) → M (PfcpConnection Plane) (Unit {0})
  delete_entry (i, (id, s)) = delete_session plane (branch i (branch 1 o)) feature_ueip s

  abbrev pub delete_found : String → Option NodeAssociation → M (PfcpConnection Plane) (Unit {0})
  delete_found addr none = crash
  delete_found addr (some a) = do
    for_each delete_entry (numbered 0 ((branch 0 o).visit [] ℕ Session a.sessions))
    modify (λ c. record c { node_associations = remove addr c.node_associations })

  -- An address without an association is a nil dereference.
  unfoldable pub delete_association : String → M (PfcpConnection Plane) (Unit {0})
  unfolding delete_session get_association
  delete_association addr c = delete_found addr (get_association addr c) c
