-- ===== src/Core/Handlers/Apply.antt =====
-- The loops over the rule IEs in the two handlers of cmd/core/pfcp_session_handlers.go that create
-- and change rules; nothing is rolled back when one of them fails.
pub mod Seid
pub mod Missing
pub mod Ledger
pub mod FarSteps
pub mod Returns
use eupf.Base.{
  numbered, ℕ, ◌+◌, ◌%◌, ◌^◌, Bool, Option, none, some, List, [], ◌∷◌, ◌++◌, nat_eq, if◌then◌else◌,
}
use eupf.Base.Outcome.{
  Outcome, ok, err, panic, M, pure, throw, lift, modify, gets, zoom, put_back, ◌>>=◌, ◌>>◌,
  bind_with, for_each, invalid_ie, pdr_id_missing, qer_id_missing, urr_id_missing,
}
use eupf.Base.Table.{lookup}
use eupf.Base.MapOrder.{MapOrder, branch}
use eupf.Ebpf.Types.{Bytes, zero_far_info, zero_qer_info, zero_urr_info, UrrInfo}
use eupf.Ebpf.Controller.{ForwardingPlaneController}
use eupf.Core.Ie.{FarIe, QerIe, UrrIe, PdrIe, RuleIes, or_zero}
use eupf.Core.Display.{print_session_establishment_request, print_session_modification_request}
use eupf.Core.Rules.{compose_far_info, update_qer, update_urr}
use eupf.Core.Session.{Session, SpdrInfo, SfarInfo, SurrInfo, zero_spdr_info}
use eupf.Core.Session as Session
use eupf.Core.Work.{Work, UsageReport, on_plane, on_session, take_from_session}
use eupf.Core.PdrContext.{extract_pdr, apply_pdr, delete_pdr}
use eupf.Core.Connection.{CreatedPdr, ue_ip, fteid}

abbrev pub report : ℕ → SurrInfo → UrrInfo → UsageReport
report id urr info = record {
  report_urr_id = id;
  urseqn = (urr.report_seq_number + 1) % 2 ^ 32;
  total_volume = (info.uplink_volume + info.downlink_volume) % 2 ^ 64;
  uplink_volume = info.uplink_volume;
  downlink_volume = info.downlink_volume;
}

module _ (plane : ForwardingPlaneController) (o : MapOrder) (feature_ueip : Bool) where
  open plane use {Plane}

  abbrev W : Type 0
  W = Work Plane

  unfoldable pub create_far : FarIe → M W (Unit {0})
  unfolding compose_far_info Session.new_far
  create_far far = do
    far_info ← lift (compose_far_info far zero_far_info)
    internal_id ← on_plane (plane.new_far far_info)
    on_session (Session.new_far (or_zero far.far_id) internal_id far_info)

  abbrev pub update_far_of : FarIe → Option ℕ → M W (Unit {0})
  update_far_of far none = throw invalid_ie
  update_far_of far (some id) = do
    old ← gets (λ w. Session.get_far id w.session)
    far_info ← lift (compose_far_info far old.far_info)
    on_session (Session.update_far id far_info)
    on_plane (plane.update_far old.far_global_id far_info)

  unfoldable pub update_far : FarIe → M W (Unit {0})
  unfolding compose_far_info Session.update_far
  update_far far = update_far_of far far.far_id

  unfoldable pub remove_far : FarIe → M W (Unit {0})
  unfolding Session.remove_far
  remove_far far = do
    old ← take_from_session (Session.remove_far (or_zero far.far_id))
    on_plane (plane.delete_far old.far_global_id)

  abbrev create_qer_of : QerIe → Option ℕ → M W (Unit {0})
  create_qer_of qer none = throw qer_id_missing
  create_qer_of qer (some id) = do
    let qer_info = update_qer qer zero_qer_info
    internal_id ← on_plane (plane.new_qer qer_info)
    on_session (Session.new_qer id internal_id qer_info)

  unfoldable pub create_qer : QerIe → M W (Unit {0})
  unfolding update_qer Session.new_qer
  create_qer qer = create_qer_of qer qer.qer_id

  abbrev update_qer_of : QerIe → Option ℕ → M W (Unit {0})
  update_qer_of qer none = throw qer_id_missing
  update_qer_of qer (some id) = do
    old ← gets (λ w. Session.get_qer id w.session)
    let qer_info = update_qer qer old.qer_info
    on_session (Session.update_qer id qer_info)
    on_plane (plane.update_qer old.qer_global_id qer_info)

  unfoldable pub change_qer : QerIe → M W (Unit {0})
  unfolding update_qer Session.update_qer
  change_qer qer = update_qer_of qer qer.qer_id

  abbrev remove_qer_of : Option ℕ → M W (Unit {0})
  remove_qer_of none = throw qer_id_missing
  remove_qer_of (some id) = do
    old ← take_from_session (Session.remove_qer id)
    on_plane (plane.delete_qer old.qer_global_id)

  unfoldable pub remove_qer : QerIe → M W (Unit {0})
  unfolding Session.remove_qer
  remove_qer qer = remove_qer_of qer.qer_id

  abbrev create_urr_of : UrrIe → Option ℕ → M W (Unit {0})
  create_urr_of urr none = throw urr_id_missing
  create_urr_of urr (some id) = do
    let urr_info = update_urr urr zero_urr_info
    internal_id ← on_plane (plane.new_urr urr_info)
    on_session (Session.new_urr id internal_id urr_info)

  unfoldable pub create_urr : UrrIe → M W (Unit {0})
  unfolding update_urr Session.new_urr
  create_urr urr = create_urr_of urr urr.urr_id

  abbrev update_urr_of : UrrIe → Option ℕ → M W (Unit {0})
  update_urr_of urr none = throw urr_id_missing
  update_urr_of urr (some id) = do
    old ← gets (λ w. Session.get_urr id w.session)
    let urr_info = update_urr urr old.urr_info
    on_session (Session.update_urr id urr_info)
    on_plane (plane.update_urr old.urr_global_id urr_info)

  unfoldable pub change_urr : UrrIe → M W (Unit {0})
  unfolding update_urr Session.update_urr
  change_urr urr = update_urr_of urr urr.urr_id

  abbrev remove_urr_of : Option ℕ → M W (Unit {0})
  remove_urr_of none = throw urr_id_missing
  remove_urr_of (some id) = do
    old ← take_from_session (Session.remove_urr id)
    urr_info ← on_plane (plane.delete_urr old.urr_global_id)
    modify (λ w. record w { removed_urrs = w.removed_urrs ++ (report id old urr_info ∷ []) })

  unfoldable pub remove_urr : UrrIe → M W (Unit {0})
  unfolding Session.remove_urr
  remove_urr urr = remove_urr_of urr.urr_id

  abbrev create_pdr_of : PdrIe → Option ℕ → M W (Unit {0})
  create_pdr_of pdr none = throw pdr_id_missing
  create_pdr_of pdr (some id) = do
    info ← extract_pdr plane o feature_ueip pdr (record zero_spdr_info { pdr_id = id })
    on_session (Session.put_pdr info.pdr_id info)
    apply_pdr plane o feature_ueip info
    modify (λ w. record w { created_pdrs = w.created_pdrs ++ (info ∷ []) })

  unfoldable pub create_pdr : PdrIe → M W (Unit {0})
  unfolding extract_pdr apply_pdr Session.put_pdr
  create_pdr pdr = create_pdr_of pdr pdr.ie_pdr_id

  abbrev update_pdr_of : PdrIe → Option ℕ → M W (Unit {0})
  update_pdr_of pdr none = throw pdr_id_missing
  update_pdr_of pdr (some id) = do
    old ← gets (λ w. Session.get_pdr id w.session)
    info ← extract_pdr plane o feature_ueip pdr old
    on_session (Session.put_pdr id info)
    apply_pdr plane o feature_ueip info

  unfoldable pub update_pdr : PdrIe → M W (Unit {0})
  unfolding extract_pdr apply_pdr Session.put_pdr Session.get_pdr
  update_pdr pdr = update_pdr_of pdr pdr.ie_pdr_id

  -- A PDR that the session does not have is passed over.
  abbrev remove_pdr_of : ℕ → Option SpdrInfo → M W (Unit {0})
  remove_pdr_of id none = pure tt
  remove_pdr_of id (some _) = do
    old ← take_from_session (Session.remove_pdr id)
    delete_pdr plane o feature_ueip old

  unfoldable pub remove_pdr : PdrIe → M W (Unit {0})
  unfolding delete_pdr Session.remove_pdr
  remove_pdr pdr =
      gets (λ w. lookup (or_zero pdr.ie_pdr_id) w.session.pdrs)
      >>= remove_pdr_of (or_zero pdr.ie_pdr_id)

module _ (plane : ForwardingPlaneController) (o : MapOrder) (feature_ueip : Bool) where
  open plane use {Plane}

  -- The establishment handler's printing of the request and its closure. What is printed goes to
  -- the log; a crash of the printing is one of the handler.
  unfoldable pub create_rules : RuleIes → M (Work Plane) (Unit {0})
  unfolding print_session_establishment_request
  create_rules r = do
    printed ← lift (print_session_establishment_request r)
    for_each (create_far plane o feature_ueip) r.create_fars
    for_each (create_qer plane o feature_ueip) r.create_qers
    for_each (create_urr plane o feature_ueip) r.create_urrs
    for_each (create_pdr plane o feature_ueip) r.create_pdrs

  -- Each PDR with its place among the ranges.
  abbrev pub remove_pdr_at : ℕ × PdrIe → M (Work Plane) (Unit {0})
  remove_pdr_at (i, pdr) = remove_pdr plane (branch i o) feature_ueip pdr

  -- The modification handler's printing of the request and its closure.
  unfoldable pub change_rules : RuleIes → M (Work Plane) (Unit {0})
  unfolding print_session_modification_request
  change_rules r = do
    printed ← lift (print_session_modification_request r)
    for_each (create_far plane o feature_ueip) r.create_fars
    for_each (update_far plane o feature_ueip) r.update_fars
    for_each (remove_far plane o feature_ueip) r.remove_fars
    for_each (create_qer plane o feature_ueip) r.create_qers
    for_each (change_qer plane o feature_ueip) r.update_qers
    for_each (remove_qer plane o feature_ueip) r.remove_qers
    for_each (create_urr plane o feature_ueip) r.create_urrs
    for_each (change_urr plane o feature_ueip) r.update_urrs
    for_each (remove_urr plane o feature_ueip) r.remove_urrs
    for_each (create_pdr plane o feature_ueip) r.create_pdrs
    for_each (update_pdr plane o feature_ueip) r.update_pdrs
    for_each remove_pdr_at (numbered 0 r.remove_pdrs)

abbrev created_at : Bytes → ℕ → ℕ → Option Bytes → Option Bytes → List CreatedPdr
created_at n3_address id teid (some ip4) _ = record { created_pdr_id = id; chosen = ue_ip ip4 } ∷ []
created_at n3_address id teid none (some _) = []
created_at n3_address id teid none none =
    record { created_pdr_id = id; chosen = fteid teid n3_address } ∷ []

-- processCreatedPDRs.
unfoldable pub process_created_pdrs : Bytes → List SpdrInfo → List CreatedPdr
process_created_pdrs n3_address [] = []
process_created_pdrs n3_address (p ∷ ps) =
    (if p.allocated then created_at n3_address (p.pdr_id % 65536) p.teid p.ipv4 p.ipv6 else [])
    ++ process_created_pdrs n3_address ps
