-- ===== src/Core/Handlers/Apply/Seid.antt =====
-- No rule of a request changes the SEID under which the UPF keeps the session.
use eupf.Base.{ℕ, Bool, Option, none, some}
use eupf.Base.Outcome.Fixes.{Fixes, fixes_rules}
use eupf.Base.MapOrder.{MapOrder, branch}
use eupf.Ebpf.Controller.{ForwardingPlaneController}
use eupf.Core.Session.{SpdrInfo}
use eupf.Core.Ie.{FarIe, QerIe, UrrIe, PdrIe, RuleIes}
use eupf.Core.PdrContext.Seid.{extract_pdr-seid, apply_pdr-seid, delete_pdr-seid}
use eupf.Core.PdrContext.Seid.{seid_of}
use eupf.Core.Handlers.Apply.{
  create_far, update_far, remove_far, create_qer, change_qer, remove_qer, create_urr, change_urr,
  remove_urr, create_pdr, update_pdr, remove_pdr, remove_pdr_at, create_rules, change_rules,
  update_far_of, create_qer_of, update_qer_of, remove_qer_of, create_urr_of, update_urr_of,
  remove_urr_of, create_pdr_of, update_pdr_of, remove_pdr_of,
}

module _ (plane : ForwardingPlaneController) (o : MapOrder) (feature_ueip : Bool) where
  open plane use {Plane}

  create_far-seid : (far : FarIe) → Fixes seid_of (create_far plane o feature_ueip far)
  unfolding create_far
  create_far-seid far = search fixes_rules

  update_far-of_seid :
      (far : FarIe) (id : Option ℕ) → Fixes seid_of (update_far_of plane o feature_ueip far id)
  unfolding update_far
  update_far-of_seid far none = search fixes_rules
  update_far-of_seid far (some id) = search fixes_rules

  update_far-seid : (far : FarIe) → Fixes seid_of (update_far plane o feature_ueip far)
  unfolding update_far
  update_far-seid far = update_far-of_seid far far.far_id

  remove_far-seid : (far : FarIe) → Fixes seid_of (remove_far plane o feature_ueip far)
  unfolding remove_far
  remove_far-seid far = search fixes_rules

  create_qer-of_seid :
      (qer : QerIe) (id : Option ℕ) → Fixes seid_of (create_qer_of plane o feature_ueip qer id)
  unfolding create_qer
  create_qer-of_seid qer none = search fixes_rules
  create_qer-of_seid qer (some id) = search fixes_rules

  create_qer-seid : (qer : QerIe) → Fixes seid_of (create_qer plane o feature_ueip qer)
  unfolding create_qer
  create_qer-seid qer = create_qer-of_seid qer qer.qer_id

  update_qer-of_seid :
      (qer : QerIe) (id : Option ℕ) → Fixes seid_of (update_qer_of plane o feature_ueip qer id)
  unfolding change_qer
  update_qer-of_seid qer none = search fixes_rules
  update_qer-of_seid qer (some id) = search fixes_rules

  change_qer-seid : (qer : QerIe) → Fixes seid_of (change_qer plane o feature_ueip qer)
  unfolding change_qer
  change_qer-seid qer = update_qer-of_seid qer qer.qer_id

  remove_qer-of_seid : (id : Option ℕ) → Fixes seid_of (remove_qer_of plane o feature_ueip id)
  unfolding remove_qer
  remove_qer-of_seid none = search fixes_rules
  remove_qer-of_seid (some id) = search fixes_rules

  remove_qer-seid : (qer : QerIe) → Fixes seid_of (remove_qer plane o feature_ueip qer)
  unfolding remove_qer
  remove_qer-seid qer = remove_qer-of_seid qer.qer_id

  create_urr-of_seid :
      (urr : UrrIe) (id : Option ℕ) → Fixes seid_of (create_urr_of plane o feature_ueip urr id)
  unfolding create_urr
  create_urr-of_seid urr none = search fixes_rules
  create_urr-of_seid urr (some id) = search fixes_rules

  create_urr-seid : (urr : UrrIe) → Fixes seid_of (create_urr plane o feature_ueip urr)
  unfolding create_urr
  create_urr-seid urr = create_urr-of_seid urr urr.urr_id

  update_urr-of_seid :
      (urr : UrrIe) (id : Option ℕ) → Fixes seid_of (update_urr_of plane o feature_ueip urr id)
  unfolding change_urr
  update_urr-of_seid urr none = search fixes_rules
  update_urr-of_seid urr (some id) = search fixes_rules

  change_urr-seid : (urr : UrrIe) → Fixes seid_of (change_urr plane o feature_ueip urr)
  unfolding change_urr
  change_urr-seid urr = update_urr-of_seid urr urr.urr_id

  remove_urr-of_seid : (id : Option ℕ) → Fixes seid_of (remove_urr_of plane o feature_ueip id)
  unfolding remove_urr
  remove_urr-of_seid none = search fixes_rules
  remove_urr-of_seid (some id) = search fixes_rules

  remove_urr-seid : (urr : UrrIe) → Fixes seid_of (remove_urr plane o feature_ueip urr)
  unfolding remove_urr
  remove_urr-seid urr = remove_urr-of_seid urr.urr_id

  create_pdr-of_seid :
      (pdr : PdrIe) (id : Option ℕ) → Fixes seid_of (create_pdr_of plane o feature_ueip pdr id)
  unfolding create_pdr
  create_pdr-of_seid pdr none = search fixes_rules
  create_pdr-of_seid pdr (some id) = search (extract_pdr-seid, apply_pdr-seid, fixes_rules)

  create_pdr-seid : (pdr : PdrIe) → Fixes seid_of (create_pdr plane o feature_ueip pdr)
  unfolding create_pdr
  create_pdr-seid pdr = create_pdr-of_seid pdr pdr.ie_pdr_id

  update_pdr-of_seid :
      (pdr : PdrIe) (id : Option ℕ) → Fixes seid_of (update_pdr_of plane o feature_ueip pdr id)
  unfolding update_pdr
  update_pdr-of_seid pdr none = search fixes_rules
  update_pdr-of_seid pdr (some id) = search (extract_pdr-seid, apply_pdr-seid, fixes_rules)

  update_pdr-seid : (pdr : PdrIe) → Fixes seid_of (update_pdr plane o feature_ueip pdr)
  unfolding update_pdr
  update_pdr-seid pdr = update_pdr-of_seid pdr pdr.ie_pdr_id

  remove_pdr-of_seid :
      (id : ℕ) (old : Option SpdrInfo) → Fixes seid_of (remove_pdr_of plane o feature_ueip id old)
  unfolding remove_pdr
  remove_pdr-of_seid id none = search fixes_rules
  remove_pdr-of_seid id (some _) = search (delete_pdr-seid, fixes_rules)

  remove_pdr-seid : (pdr : PdrIe) → Fixes seid_of (remove_pdr plane o feature_ueip pdr)
  unfolding remove_pdr
  remove_pdr-seid pdr = search (remove_pdr-of_seid, fixes_rules)

module _ (plane : ForwardingPlaneController) (o : MapOrder) (feature_ueip : Bool) where
  open plane use {Plane}

  remove_pdr_at-seid : (x : ℕ × PdrIe) → Fixes seid_of (remove_pdr_at plane o feature_ueip x)
  remove_pdr_at-seid (i, pdr) = remove_pdr-seid plane (branch i o) feature_ueip pdr

  pub create_rules-seid : (r : RuleIes) → Fixes seid_of (create_rules plane o feature_ueip r)
  unfolding create_rules
  create_rules-seid r =
      search (create_far-seid, create_qer-seid, create_urr-seid, create_pdr-seid, fixes_rules) depth
        12

  pub change_rules-seid : (r : RuleIes) → Fixes seid_of (change_rules plane o feature_ueip r)
  unfolding change_rules
  change_rules-seid r =
      search
        (
          create_far-seid, create_qer-seid, create_urr-seid, create_pdr-seid, update_far-seid,
          remove_far-seid, change_qer-seid, remove_qer-seid, change_urr-seid, remove_urr-seid,
          update_pdr-seid, remove_pdr_at-seid, fixes_rules,
        )
        depth 30
