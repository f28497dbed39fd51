-- ===== src/Ebpf/Objects.antt =====
-- BpfObjects of cmd/ebpf/objects.go with its methods of cmd/ebpf/pdr.go: the controller that
-- keeps ids and kernel maps. The mutexes guard single calls of the trackers, which are steps here.
pub mod Far
pub mod FarPool
use eupf.Base.{ℕ, ◌≡◌, Option, none, some}
use eupf.Base.Outcome.{
  Outcome, ok, err, M, pure, ◌>>=◌, ◌>>◌, bind_with, modify, or_fail, lookup_failed,
}
use eupf.Ebpf.Types.{
  Bytes, PdrInfo, FarInfo, QerInfo, UrrInfo, IpEntrypointPdrInfo, zero_far_info, zero_qer_info,
  zero_urr_info,
}
use eupf.Ebpf.Kernel.{KernelMap, RoaringBitmap}
use eupf.Ebpf.IdTracker.{IdTracker, get_next, release, new_id_tracker}
use eupf.Ebpf.Pdr.{pdr_to_store}
use eupf.Ebpf.Controller.{ForwardingPlaneController}

-- The libraries behind the tables.
pub record Libraries : Type 1 where
  pub bitmaps : RoaringBitmap
  pub far_maps : KernelMap ℕ FarInfo
  pub qer_maps : KernelMap ℕ QerInfo
  pub urr_maps : KernelMap ℕ UrrInfo
  pub teid_maps : KernelMap ℕ IpEntrypointPdrInfo
  pub ip4_maps : KernelMap Bytes IpEntrypointPdrInfo
  pub ip6_maps : KernelMap Bytes IpEntrypointPdrInfo

module _ (lib : Libraries) where
  open lib use {bitmaps, far_maps, qer_maps, urr_maps, teid_maps, ip4_maps, ip6_maps}

  pub record BpfObjects : Type 0 where
    pub far_map : far_maps.Map
    pub qer_map : qer_maps.Map
    pub urr_map : urr_maps.Map
    pub pdr_map_teid_ip4 : teid_maps.Map
    pub pdr_map_downlink_ip4 : ip4_maps.Map
    pub pdr_map_downlink_ip6 : ip6_maps.Map
    pub far_id_tracker : IdTracker bitmaps.Bitmap
    pub qer_id_tracker : IdTracker bitmaps.Bitmap
    pub urr_id_tracker : IdTracker bitmaps.Bitmap

  -- One map or tracker of the objects, as the state of a step.
  abbrev on_far_map : {A : Type 0} → M far_maps.Map A → M BpfObjects A
  on_far_map m s = let (r, x) = m s.far_map in (r, record s { far_map = x })

  abbrev on_qer_map : {A : Type 0} → M qer_maps.Map A → M BpfObjects A
  on_qer_map m s = let (r, x) = m s.qer_map in (r, record s { qer_map = x })

  abbrev on_urr_map : {A : Type 0} → M urr_maps.Map A → M BpfObjects A
  on_urr_map m s = let (r, x) = m s.urr_map in (r, record s { urr_map = x })

  abbrev on_teid_map : {A : Type 0} → M teid_maps.Map A → M BpfObjects A
  on_teid_map m s = let (r, x) = m s.pdr_map_teid_ip4 in (r, record s { pdr_map_teid_ip4 = x })

  abbrev on_ip4_map : {A : Type 0} → M ip4_maps.Map A → M BpfObjects A
  on_ip4_map m s =
      let (r, x) = m s.pdr_map_downlink_ip4 in (r, record s { pdr_map_downlink_ip4 = x })

  abbrev on_ip6_map : {A : Type 0} → M ip6_maps.Map A → M BpfObjects A
  on_ip6_map m s =
      let (r, x) = m s.pdr_map_downlink_ip6 in (r, record s { pdr_map_downlink_ip6 = x })

  unfoldable pub get_next_far : M BpfObjects ℕ
  get_next_far s =
      let (r, t) = get_next bitmaps s.far_id_tracker in (r, record s { far_id_tracker = t })

  unfoldable pub get_next_qer : M BpfObjects ℕ
  get_next_qer s =
      let (r, t) = get_next bitmaps s.qer_id_tracker in (r, record s { qer_id_tracker = t })

  unfoldable pub get_next_urr : M BpfObjects ℕ
  get_next_urr s =
      let (r, t) = get_next bitmaps s.urr_id_tracker in (r, record s { urr_id_tracker = t })

  unfoldable pub release_far : ℕ → M BpfObjects (Unit {0})
  release_far id = modify (λ s. record s { far_id_tracker = release bitmaps id s.far_id_tracker })

  unfoldable pub release_qer : ℕ → M BpfObjects (Unit {0})
  release_qer id = modify (λ s. record s { qer_id_tracker = release bitmaps id s.qer_id_tracker })

  unfoldable pub release_urr : ℕ → M BpfObjects (Unit {0})
  release_urr id = modify (λ s. record s { urr_id_tracker = release bitmaps id s.urr_id_tracker })

  unfoldable pub new_far : FarInfo → M BpfObjects ℕ
  unfolding get_next_far
  new_far far_info = do
    internal_id ← get_next_far
    on_far_map (far_maps.map_put internal_id far_info)
    pure internal_id

  unfoldable pub update_far : ℕ → FarInfo → M BpfObjects (Unit {0})
  update_far id far_info = on_far_map (far_maps.map_update_exist id far_info)

  unfoldable pub delete_far : ℕ → M BpfObjects (Unit {0})
  unfolding release_far
  delete_far id = do release_far id; on_far_map (far_maps.map_update_exist id zero_far_info)

  unfoldable pub new_qer : QerInfo → M BpfObjects ℕ
  unfolding get_next_qer
  new_qer qer_info = do
    internal_id ← get_next_qer
    on_qer_map (qer_maps.map_put internal_id qer_info)
    pure internal_id

  unfoldable pub update_qer : ℕ → QerInfo → M BpfObjects (Unit {0})
  update_qer id qer_info = on_qer_map (qer_maps.map_update_exist id qer_info)

  unfoldable pub delete_qer : ℕ → M BpfObjects (Unit {0})
  unfolding release_qer
  delete_qer id = do release_qer id; on_qer_map (qer_maps.map_update_exist id zero_qer_info)

  unfoldable pub new_urr : UrrInfo → M BpfObjects ℕ
  unfolding get_next_urr
  new_urr urr_info = do
    internal_id ← get_next_urr
    on_urr_map (urr_maps.map_put internal_id urr_info)
    pure internal_id

  unfoldable pub update_urr : ℕ → UrrInfo → M BpfObjects (Unit {0})
  update_urr id urr_info = on_urr_map (urr_maps.map_update_exist id urr_info)

  -- The volumes are read before the id is given back.
  unfoldable pub delete_urr : ℕ → M BpfObjects UrrInfo
  unfolding release_urr
  delete_urr id = do
    urr_info ← on_urr_map (λ m. (or_fail lookup_failed (urr_maps.map_lookup id m), m))
    release_urr id
    on_urr_map (urr_maps.map_update_exist id zero_urr_info)
    pure urr_info

  unfoldable pub put_pdr_uplink : ℕ → PdrInfo → M BpfObjects (Unit {0})
  put_pdr_uplink teid p =
      on_teid_map (λ m. teid_maps.map_put teid (pdr_to_store (teid_maps.map_lookup teid m) p) m)

  unfoldable pub put_pdr_downlink : Bytes → PdrInfo → M BpfObjects (Unit {0})
  put_pdr_downlink ip p =
      on_ip4_map (λ m. ip4_maps.map_put ip (pdr_to_store (ip4_maps.map_lookup ip m) p) m)

  unfoldable pub update_pdr_uplink : ℕ → PdrInfo → M BpfObjects (Unit {0})
  update_pdr_uplink teid p =
      on_teid_map
        (λ m. teid_maps.map_update_exist teid (pdr_to_store (teid_maps.map_lookup teid m) p) m)

  unfoldable pub update_pdr_downlink : Bytes → PdrInfo → M BpfObjects (Unit {0})
  update_pdr_downlink ip p =
      on_ip4_map (λ m. ip4_maps.map_update_exist ip (pdr_to_store (ip4_maps.map_lookup ip m) p) m)

  unfoldable pub delete_pdr_uplink : ℕ → M BpfObjects (Unit {0})
  delete_pdr_uplink teid = on_teid_map (teid_maps.map_delete teid)

  unfoldable pub delete_pdr_downlink : Bytes → M BpfObjects (Unit {0})
  delete_pdr_downlink ip = on_ip4_map (ip4_maps.map_delete ip)

  unfoldable pub put_downlink_pdr_ip6 : Bytes → PdrInfo → M BpfObjects (Unit {0})
  put_downlink_pdr_ip6 ip p =
      on_ip6_map (λ m. ip6_maps.map_put ip (pdr_to_store (ip6_maps.map_lookup ip m) p) m)

  unfoldable pub update_downlink_pdr_ip6 : Bytes → PdrInfo → M BpfObjects (Unit {0})
  update_downlink_pdr_ip6 ip p =
      on_ip6_map (λ m. ip6_maps.map_update_exist ip (pdr_to_store (ip6_maps.map_lookup ip m) p) m)

  unfoldable pub delete_downlink_pdr_ip6 : Bytes → M BpfObjects (Unit {0})
  delete_downlink_pdr_ip6 ip = on_ip6_map (ip6_maps.map_delete ip)

  abbrev pub bpf_controller : ForwardingPlaneController
  bpf_controller = record {
    Plane = BpfObjects;
    put_pdr_uplink = put_pdr_uplink;
    put_pdr_downlink = put_pdr_downlink;
    update_pdr_uplink = update_pdr_uplink;
    update_pdr_downlink = update_pdr_downlink;
    delete_pdr_uplink = delete_pdr_uplink;
    delete_pdr_downlink = delete_pdr_downlink;
    put_downlink_pdr_ip6 = put_downlink_pdr_ip6;
    update_downlink_pdr_ip6 = update_downlink_pdr_ip6;
    delete_downlink_pdr_ip6 = delete_downlink_pdr_ip6;
    new_far = new_far;
    update_far = update_far;
    delete_far = delete_far;
    new_qer = new_qer;
    update_qer = update_qer;
    delete_qer = delete_qer;
    new_urr = new_urr;
    update_urr = update_urr;
    delete_urr = delete_urr;
  }
