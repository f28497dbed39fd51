-- ===== src/Core/PdrContext/Seid.antt =====
-- The PDRCreationContext of cmd/core/pdr_creation_context.go leaves the session's own SEID alone.
use eupf.Base.{ℕ, Bool, true, false, ◌&&◌, Option, none, some, List, ◌≡◌, refl, if◌then◌else◌, ◌∙◌}
use eupf.Base.Outcome.{Outcome, ok, err, panic}
use eupf.Base.Outcome.Fixes.{
  Fixes, Fixes-bind, Fixes-if, Fixes-gets, Fixes-pure, Fixes-zoom, fixes_rules,
}
use eupf.Base.MapOrder.{MapOrder}
use eupf.Ebpf.Types.{Bytes}
use eupf.Ebpf.Controller.{ForwardingPlaneController}
use eupf.Core.Session.{SpdrInfo}
use eupf.Core.Work.{Work, on_resources}
use eupf.Core.Ie.{PdrIe, ChildIe, Fteid, UeIpAddress}
use eupf.Core.PdrContext.{
  extract_fteid, extract_ue_ip, extract_pdr, apply_pdr, delete_pdr, choose_fteid, with_ue_ip,
  with_allocated_ip, extract_address, extract_pdi, apply_to, delete_uplink, delete_from, get_ip,
  allocate_fteid, remember, has_ch_v4,
}

abbrev pub seid_of : {Plane : Type 0} → Work Plane → ℕ
seid_of w = w.session.local_seid

module _ (plane : ForwardingPlaneController) (o : MapOrder) (feature_ueip : Bool) where
  open plane use {Plane}

  remember-seid :
      (b : Bool) (w v : Work Plane)
      → seid_of w ≡ seid_of v
      → seid_of (if b then w else v) ≡ seid_of v
  remember-seid true w v h = h
  remember-seid false w v h = refl

  remember_lem :
      (f : Fteid) (teid : ℕ) (w : Work Plane)
      → seid_of (remember plane o feature_ueip f teid w) ≡ seid_of w
  remember_lem f teid w = remember-seid f.has_ch_id _ w refl

  allocate_fteid-seid :
      (f : Fteid) (info : SpdrInfo) → Fixes seid_of (allocate_fteid plane o feature_ueip f info)
  allocate_fteid-seid f info = search (remember_lem, fixes_rules)

  choose_fteid-seid :
      (f : Fteid) (info : SpdrInfo) (c : Option ℕ)
      → Fixes seid_of (choose_fteid plane o feature_ueip f info c)
  choose_fteid-seid f info none = allocate_fteid-seid f info
  choose_fteid-seid f info (some teid) = search fixes_rules

  extract_fteid-seid :
      (f : Option Fteid) (info : SpdrInfo)
      → Fixes seid_of (extract_fteid plane o feature_ueip f info)
  unfolding extract_fteid
  extract_fteid-seid none info = search fixes_rules
  extract_fteid-seid (some f) info =
      Fixes-if seid_of f.has_ch _ _
        (Fixes-bind seid_of _ _ (Fixes-gets seid_of _) (choose_fteid-seid f info))
        (Fixes-pure seid_of _)

  with_ue_ip-seid :
      (info : SpdrInfo) (a b : Option Bytes)
      → Fixes seid_of (with_ue_ip plane o feature_ueip info a b)
  with_ue_ip-seid info (some a) b = search fixes_rules
  with_ue_ip-seid info none (some b) = search fixes_rules
  with_ue_ip-seid info none none = search fixes_rules

  with_allocated_ip-seid :
      (u : UeIpAddress) (info : SpdrInfo) (x : Outcome Bytes × Work Plane)
      → seid_of (with_allocated_ip plane o feature_ueip u info x).1 ≡ seid_of x.1
  with_allocated_ip-seid u info (ok ip, w) =
      (with_ue_ip-seid (record info { allocated = true }) (some ip) u.ue_ipv6_address).at w
  with_allocated_ip-seid u info (err e, w) =
      (with_ue_ip-seid info u.ue_ipv4_address u.ue_ipv6_address).at w
  with_allocated_ip-seid u info (panic, w) = refl

  leased-seid :
      (u : UeIpAddress) (info : SpdrInfo)
      → Fixes seid_of (λ w.
        with_allocated_ip plane o feature_ueip u info
          (on_resources (get_ip w.session.remote_seid) w))
  leased-seid u info = record {
    at = λ w.
        with_allocated_ip-seid u info (on_resources (get_ip w.session.remote_seid) w)
        ∙ (Fixes-zoom seid_of (λ w. w.resources) (λ r w. record w { resources = r })
              (get_ip w.session.remote_seid) (λ t s. refl)).at
            w;
  }

  extract_ue_ip-seid :
      (u : Option UeIpAddress) (info : SpdrInfo)
      → Fixes seid_of (extract_ue_ip plane o feature_ueip u info)
  unfolding extract_ue_ip
  extract_ue_ip-seid none info = search fixes_rules
  extract_ue_ip-seid (some u) info =
      Fixes-if seid_of (feature_ueip && has_ch_v4 u.flags) _ _ (leased-seid u info)
        (with_ue_ip-seid info u.ue_ipv4_address u.ue_ipv6_address)

  extract_address-seid :
      (f u : Option ChildIe) (info : SpdrInfo)
      → Fixes seid_of (extract_address plane o feature_ueip f u info)
  extract_address-seid (some ie) u info = extract_fteid-seid ie.ie_fteid info
  extract_address-seid none (some ie) info = extract_ue_ip-seid ie.ie_ue_ip_address info
  extract_address-seid none none info = search fixes_rules

  extract_pdi-seid :
      (pdr : PdrIe) (info : SpdrInfo) (pdi : Option (List ChildIe))
      → Fixes seid_of (extract_pdi plane o feature_ueip pdr info pdi)
  extract_pdi-seid pdr info none = search fixes_rules
  extract_pdi-seid pdr info (some pdi) = search (extract_address-seid, fixes_rules)

  pub extract_pdr-seid :
      (pdr : PdrIe) (info : SpdrInfo) → Fixes seid_of (extract_pdr plane o feature_ueip pdr info)
  unfolding extract_pdr
  extract_pdr-seid pdr info = search (extract_pdi-seid, fixes_rules)

  apply_to-seid :
      (info : SpdrInfo) (a b : Option Bytes)
      → Fixes seid_of (apply_to plane o feature_ueip info a b)
  apply_to-seid info (some a) b = search fixes_rules
  apply_to-seid info none (some b) = search fixes_rules
  apply_to-seid info none none = search fixes_rules

  pub apply_pdr-seid : (info : SpdrInfo) → Fixes seid_of (apply_pdr plane o feature_ueip info)
  unfolding apply_pdr
  apply_pdr-seid info = apply_to-seid info info.ipv4 info.ipv6

  delete_uplink-seid :
      (teid : ℕ) (c : Option ℕ) → Fixes seid_of (delete_uplink plane o feature_ueip teid c)
  delete_uplink-seid teid (some _) = search fixes_rules
  delete_uplink-seid teid none = search fixes_rules

  delete_from-seid :
      (info : SpdrInfo) (a b : Option Bytes)
      → Fixes seid_of (delete_from plane o feature_ueip info a b)
  delete_from-seid info (some a) b = search fixes_rules
  delete_from-seid info none (some b) = search fixes_rules
  delete_from-seid info none none = search (delete_uplink-seid, fixes_rules)

  pub delete_pdr-seid : (info : SpdrInfo) → Fixes seid_of (delete_pdr plane o feature_ueip info)
  unfolding delete_pdr
  delete_pdr-seid info = search (delete_from-seid, fixes_rules)
