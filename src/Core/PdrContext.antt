-- ===== src/Core/PdrContext.antt =====
-- cmd/core/pdr_creation_context.go and applyPDR of cmd/core/pdr.go.
pub mod Seid
pub mod Choose
pub mod Skips
pub mod Returns
use eupf.Base.{
  ℕ, ◌%◌, ◌/◌, Bool, true, false, ◌&&◌, not, Option, none, some, List, [], ◌∷◌, ◌==◌, if◌then◌else◌,
  nat_eq,
}
use eupf.Base.Outcome.{
  Outcome, ok, err, panic, M, pure, throw, crash, lift, modify, gets, zoom, put_back, ◌>>=◌, ◌>>◌,
  bind_with, invalid_ie, invalid_type, pdi_missing, fteid_missing, ue_ip_missing, manager_is_nil,
  no_resources_available,
}
use eupf.Base.Table.{lookup, insert}
use eupf.Base.MapOrder.{MapOrder}
use eupf.Ebpf.Types.{Bytes, PdrInfo}
use eupf.Ebpf.Controller.{ForwardingPlaneController}
use eupf.Service.ResourceManager.{ResourceManager, allocate_ip, allocate_teid, release_teid}
use eupf.Core.Ie.{
  PdrIe, ChildIe, Fteid, UeIpAddress, find_ie, type_create_pdr, type_update_pdr, type_urr_id,
  type_fteid, type_ue_ip_address,
}
use eupf.Core.Rules.{or_kept}
use eupf.Core.Sdf.{parse_sdf_filter}
use eupf.Core.Session.{Session, SpdrInfo, get_far, get_qer, get_urr}
use eupf.Core.Work.{Work, on_plane, on_resources}

-- The ids of the URRID children that decode.
unfoldable pub urr_ids_of : List ChildIe → List ℕ
urr_ids_of [] = []
urr_ids_of (x ∷ xs) =
    let rest = urr_ids_of xs in
    if x.ie_type == type_urr_id
    then elim x.ie_urr_id [ none ↦ rest | some id ↦ id ∷ rest ]
    else rest

abbrev pub urr_ids_or : Option (List ChildIe) → Outcome (List ℕ)
urr_ids_or none = err invalid_ie
urr_ids_or (some ies) = ok (urr_ids_of ies)

-- GetURRIDs.
unfoldable pub get_urr_ids : PdrIe → Outcome (List ℕ)
unfolding urr_ids_of
get_urr_ids pdr =
    if pdr.pdr_type == type_create_pdr
    then urr_ids_or pdr.create_pdr
    else if pdr.pdr_type == type_update_pdr
    then urr_ids_or pdr.update_pdr
    else err invalid_type

abbrev pub with_far : Session → Option ℕ → PdrInfo → PdrInfo
with_far s none p = p
with_far s (some id) p = record p { far_id = (get_far id s).far_global_id }

abbrev pub with_qer : Session → Option ℕ → PdrInfo → PdrInfo
with_qer s none p = p
with_qer s (some id) p = record p { qer_id = (get_qer id s).qer_global_id }

abbrev pub with_urrs : Session → Outcome (List ℕ) → PdrInfo → PdrInfo
with_urrs s (ok (u ∷ [])) p = record p { urr1_id = (get_urr u s).urr_global_id }
with_urrs s (ok (u ∷ v ∷ _)) p = record p {
  urr1_id = (get_urr u s).urr_global_id;
  urr2_id = (get_urr v s).urr_global_id;
}
with_urrs s _ p = p

-- The ids of the rules that the PDR names become the plane's ids.
unfoldable pub refer : Session → PdrIe → PdrInfo → PdrInfo
unfolding get_urr_ids get_far get_qer get_urr
refer s pdr p = with_urrs s (get_urr_ids pdr) (
    with_qer s pdr.pdr_qer_id (
      with_far s pdr.pdr_far_id (record p {
        outer_header_removal = or_kept pdr.outer_header_removal p.outer_header_removal;
      })))

-- An empty flow description is only logged.
unfoldable pub with_sdf : PdrIe → PdrInfo → Outcome PdrInfo
unfolding parse_sdf_filter
with_sdf pdr p = elim pdr.sdf_filter [
  | none ↦ ok p
  | some [] ↦ ok p
  | some (c ∷ cs) ↦ elim (parse_sdf_filter (c ∷ cs)) [
    | ok f ↦ ok (record p { sdf_filter = some f })
    | err e ↦ err e
    | panic ↦ panic
  ]
]

-- Any failure is reported as missing resources.
abbrev pub refused : {S A : Type 0} → Outcome A × S → Outcome A × S
refused (ok a, s) = (ok a, s)
refused (err e, s) = (err no_resources_available, s)
refused (panic, s) = (panic, s)

-- getFTEID, whose errors extractPDR replaces by its own.
unfoldable pub get_fteid : ℕ → ℕ → M (Option ResourceManager) ℕ
unfolding allocate_teid
get_fteid se_id pdr_id none = (err no_resources_available, none)
get_fteid se_id pdr_id (some r) = elim r.fteidm [
  | none ↦ (err no_resources_available, some r)
  | some f ↦ refused (
      put_back (λ t _. some (record r { fteidm = some t })) (some r) (allocate_teid se_id pdr_id f))
]

-- getIP.
unfoldable pub get_ip : ℕ → M (Option ResourceManager) Bytes
unfolding allocate_ip
get_ip se_id none = (err manager_is_nil, none)
get_ip se_id (some r) = elim r.ipam [
  | none ↦ (err manager_is_nil, some r)
  | some i ↦
      refused (put_back (λ t _. some (record r { ipam = some t })) (some r) (allocate_ip se_id i))
]

-- hasCHV4: flags & (1 << 4).
abbrev pub has_ch_v4 : ℕ → Bool
has_ch_v4 flags = flags / 16 % 2 == 1

module _ (plane : ForwardingPlaneController) (o : MapOrder) (feature_ueip : Bool) where
  open plane use {Plane}

  abbrev W : Type 0
  W = Work Plane

  abbrev remember : Fteid → ℕ → W → W
  remember f teid w =
      if f.has_ch_id then record w { teid_cache = insert f.choose_id teid w.teid_cache } else w

  -- A TEID of the pool; under a CHOOSE ID it is kept for the request's other PDRs.
  abbrev allocate_fteid : Fteid → SpdrInfo → M W SpdrInfo
  allocate_fteid f info = do
    se_id ← gets (λ w. w.session.remote_seid)
    teid ← on_resources (get_fteid se_id info.pdr_id)
    modify (remember f teid)
    pure (record info { teid = teid; allocated = true })

  abbrev choose_fteid : Fteid → SpdrInfo → Option ℕ → M W SpdrInfo
  choose_fteid f info none = allocate_fteid f info
  choose_fteid f info (some teid) = pure (record info { teid = teid; allocated = true })

  abbrev cached : Fteid → W → Option ℕ
  cached f w = if f.has_ch_id then lookup f.choose_id w.teid_cache else none

  -- The F-TEID branch of extractPDR.
  unfoldable pub extract_fteid : Option Fteid → SpdrInfo → M W SpdrInfo
  unfolding get_fteid
  extract_fteid none info = throw fteid_missing
  extract_fteid (some f) info =
      if f.has_ch
      then gets (cached f) >>= choose_fteid f info
      else pure (record info { teid = f.fteid_teid })

  abbrev with_ue_ip : SpdrInfo → Option Bytes → Option Bytes → M W SpdrInfo
  with_ue_ip info (some ip4) ip6 = pure (record info { ipv4 = some ip4 })
  with_ue_ip info none (some ip6) = pure (record info { ipv6 = some ip6 })
  with_ue_ip info none none = throw ue_ip_missing

  -- Without a free address the code logs and goes on with the IE's own.
  abbrev with_allocated_ip : UeIpAddress → SpdrInfo → Outcome Bytes × W → Outcome SpdrInfo × W
  with_allocated_ip u info (ok ip, w) =
      with_ue_ip (record info { allocated = true }) (some ip) u.ue_ipv6_address w
  with_allocated_ip u info (err e, w) = with_ue_ip info u.ue_ipv4_address u.ue_ipv6_address w
  with_allocated_ip u info (panic, w) = (panic, w)

  -- The UE IP address branch of extractPDR.
  unfoldable pub extract_ue_ip : Option UeIpAddress → SpdrInfo → M W SpdrInfo
  unfolding get_ip
  extract_ue_ip none info = throw ue_ip_missing
  extract_ue_ip (some u) info =
      if feature_ueip && has_ch_v4 u.flags
      then (λ w. with_allocated_ip u info (on_resources (get_ip w.session.remote_seid) w))
      else with_ue_ip info u.ue_ipv4_address u.ue_ipv6_address

  abbrev extract_address : Option ChildIe → Option ChildIe → SpdrInfo → M W SpdrInfo
  extract_address (some ie) _ info = extract_fteid ie.ie_fteid info
  extract_address none (some ie) info = extract_ue_ip ie.ie_ue_ip_address info
  extract_address none none info = pure info

  abbrev extract_pdi : PdrIe → SpdrInfo → Option (List ChildIe) → M W SpdrInfo
  extract_pdi pdr info none = throw pdi_missing
  extract_pdi pdr info (some pdi) = do
    pdr_info ← lift (with_sdf pdr info.pdr_info)
    extract_address (find_ie type_fteid pdi) (find_ie type_ue_ip_address pdi)
        (record info { pdr_info = pdr_info })

  -- extractPDR.
  unfoldable pub extract_pdr : PdrIe → SpdrInfo → M W SpdrInfo
  unfolding extract_fteid extract_ue_ip refer with_sdf find_ie
  extract_pdr pdr info = do
    s ← gets (λ w. w.session)
    extract_pdi pdr (record info { pdr_info = refer s pdr info.pdr_info }) pdr.pdi

  -- applyPDR.
  abbrev apply_to : SpdrInfo → Option Bytes → Option Bytes → M W (Unit {0})
  apply_to info (some ip4) _ = on_plane (plane.put_pdr_downlink ip4 info.pdr_info)
  apply_to info none (some ip6) = on_plane (plane.put_downlink_pdr_ip6 ip6 info.pdr_info)
  apply_to info none none = on_plane (plane.put_pdr_uplink info.teid info.pdr_info)

  unfoldable pub apply_pdr : SpdrInfo → M W (Unit {0})
  apply_pdr info = apply_to info info.ipv4 info.ipv6

  -- `TEIDCache[uint8(Teid)]` keeps a second delete of an uplink PDR from the kernel map.
  abbrev pub delete_uplink : ℕ → Option ℕ → M W (Unit {0})
  delete_uplink teid (some _) = pure tt
  delete_uplink teid none = do
    on_plane (plane.delete_pdr_uplink teid)
    modify (λ w. record w { teid_cache = insert (teid % 256) 0 w.teid_cache })

  abbrev pub delete_from : SpdrInfo → Option Bytes → Option Bytes → M W (Unit {0})
  delete_from info (some ip4) _ = on_plane (plane.delete_pdr_downlink ip4)
  delete_from info none (some ip6) = on_plane (plane.delete_downlink_pdr_ip6 ip6)
  delete_from info none none =
      gets (λ w. lookup (info.teid % 256) w.teid_cache) >>= delete_uplink info.teid

  abbrev pub release_session_teids :
      ℕ → Option ResourceManager → Outcome (Unit {0}) × Option ResourceManager
  release_session_teids se_id none = (panic, none)
  release_session_teids se_id (some r) = elim r.fteidm [
    | none ↦ (panic, some r)
    | some f ↦ (ok tt, some (record r { fteidm = some (release_teid o se_id f) }))
  ]

  -- deletePDR.
  unfoldable pub delete_pdr : SpdrInfo → M W (Unit {0})
  unfolding release_teid
  delete_pdr info = do
    delete_from info info.ipv4 info.ipv6
    se_id ← gets (λ w. w.session.remote_seid)
    if info.teid == 0 then pure tt else on_resources (release_session_teids se_id)
