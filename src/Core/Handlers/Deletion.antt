-- ===== src/Core/Handlers/Deletion.antt =====
-- HandlePfcpSessionDeletionRequest of cmd/core/pfcp_session_handlers.go.
use eupf.Base.{numbered, ℕ, Bool, String, [], ◌∷◌, ◌++◌, Option, none, some, string_eq, nat_eq}
use eupf.Base.Outcome.{Outcome, ok, err, panic, M, modify, ignore, for_each, ◌>>=◌, ◌>>◌}
use eupf.Base.Table.{lookup, remove}
use eupf.Base.MapOrder.{MapOrder, branch}
use eupf.Ebpf.Controller.{ForwardingPlaneController}
use eupf.Core.Session.{Session, SpdrInfo, SfarInfo, SqerInfo, SurrInfo}
use eupf.Core.Work.{Work, start_work, on_plane}
use eupf.Core.PdrContext.{delete_pdr}
use eupf.Core.Connection.{
  PfcpConnection, NodeAssociation, SessionResponse, Reply, respond, session_deletion_response,
  request_accepted, session_context_not_found, no_established_pfcp_association,
  rule_creation_modification_failure, put_association, release_resources,
}
use eupf.Core.Handlers.Apply.{report}
use eupf.Core.Handlers.Establishment.{bare_response}

pub record DeletionRequest : Type 0 where
  pub del_sequence : ℕ
  pub del_seid : ℕ

module _ (plane : ForwardingPlaneController) (o : MapOrder) (feature_ueip : Bool) where
  open plane use {Plane}

  abbrev C : Type 0
  C = PfcpConnection Plane

  abbrev W : Type 0
  W = Work Plane

  abbrev pub delete_far_of : ℕ × SfarInfo → M W (Unit {0})
  delete_far_of (id, far) = on_plane (plane.delete_far far.far_global_id)

  abbrev pub delete_qer_of : ℕ × SqerInfo → M W (Unit {0})
  delete_qer_of (id, qer) = on_plane (plane.delete_qer qer.qer_global_id)

  -- Each PDR with its place among the ranges.
  abbrev pub delete_pdr_of : ℕ × (ℕ × SpdrInfo) → M W (Unit {0})
  delete_pdr_of (i, (id, pdr)) = delete_pdr plane (branch i (branch 4 o)) feature_ueip pdr

  -- A URR that cannot be deleted is logged and passed over.
  abbrev pub delete_urr_of : ℕ × SurrInfo → M W (Unit {0})
  delete_urr_of (id, urr) = ignore (do
    urr_info ← on_plane (plane.delete_urr urr.urr_global_id)
    modify (λ w. record w { removed_urrs = w.removed_urrs ++ (report id urr urr_info ∷ []) }))

  -- The four loops; the first PDR, FAR or QER that fails ends them.
  unfoldable pub delete_rules : Session → M W (Unit {0})
  unfolding delete_pdr
  delete_rules s = do
    for_each delete_pdr_of (numbered 0 ((branch 0 o).visit [] ℕ SpdrInfo s.pdrs))
    for_each delete_far_of ((branch 1 o).visit [] ℕ SfarInfo s.fars)
    for_each delete_qer_of ((branch 2 o).visit [] ℕ SqerInfo s.qers)
    for_each delete_urr_of ((branch 3 o).visit [] ℕ SurrInfo s.urrs)

  abbrev answer : SessionResponse → Reply
  answer r = respond (session_deletion_response r)

  -- A failure is returned beside a response; the session stays.
  abbrev pub finish :
      DeletionRequest
      → String
      → NodeAssociation
      → Session
      → C
      → Outcome (Unit {0}) × W
      → Outcome Reply × C
  finish req addr a s c (ok _, w) = (
    ok (
        answer (record {
          seid = s.remote_seid;
          sequence = req.del_sequence;
          node_id = none;
          cause = request_accepted;
          fseid = none;
          created = [];
          usage_reports = w.removed_urrs;
        })),
    put_association addr (record a { sessions = remove req.del_seid a.sessions })
        (record c {
          plane = w.plane;
          resource_manager = release_resources (branch 5 o) req.del_seid w.resources;
        }),
  )
  finish req addr a s c (err e, w) = (
    ok (record {
      response = some (
          session_deletion_response
            (bare_response 0 req.del_sequence none rule_creation_modification_failure));
      failure = some e;
    }),
    record c { plane = w.plane; resource_manager = w.resources },
  )
  finish req addr a s c (panic, w) =
      (panic, record c { plane = w.plane; resource_manager = w.resources })

  abbrev pub with_session : DeletionRequest → String → NodeAssociation → Option Session → M C Reply
  with_session req addr a none c =
      (ok (answer (bare_response 0 req.del_sequence none session_context_not_found)), c)
  with_session req addr a (some s) c =
      finish req addr a s c (delete_rules s (start_work c.plane s c.resource_manager))

  abbrev pub with_association : DeletionRequest → String → Option NodeAssociation → M C Reply
  with_association req addr none c =
      (ok (answer (bare_response 0 req.del_sequence none no_established_pfcp_association)), c)
  with_association req addr (some a) c = with_session req addr a (lookup req.del_seid a.sessions) c

  unfoldable pub handle_session_deletion_request : DeletionRequest → String → M C Reply
  handle_session_deletion_request req addr c =
      with_association req addr (lookup addr c.node_associations) c
