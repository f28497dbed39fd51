-- ===== src/Ebpf/Load.antt =====
-- cmd/ebpf/objects.go: the sizes of the maps, Load, Close, and the resizing of maps. What it calls
-- of cilium/ebpf and the operating system is a parameter, over the state of the kernel.
pub mod Pools
use eupf.Base.{ℕ, String, Option, none, some, List, [], ◌∷◌, string_eq}
use eupf.Base.Outcome.{
  Outcome, ok, err, panic, Error, M, pure, throw, lift, bind_with, ◌>>=◌, ◌>>◌, crash, zoom, gets,
  modify,
}
use eupf.Base.Table.{Table, lookup, insert}
use eupf.Base.MapOrder.{MapOrder, branch}
use eupf.Ebpf.Kernel.{RoaringBitmap}
use eupf.Ebpf.IdTracker.{IdTracker, new_id_tracker}

-- The sizes in BpfObjects.
pub record MapSizes : Type 0 where
  pub qer_map_size : ℕ
  pub far_map_size : ℕ
  pub pdr_map_size : ℕ
  pub urr_map_size : ℕ

-- NewBpfObjects.
unfoldable pub new_bpf_objects : MapSizes
new_bpf_objects = record {
  qer_map_size = 1024;
  far_map_size = 1024;
  pdr_map_size = 1024;
  urr_map_size = 1024;
}

unfoldable pub set_pdr_map_size : ℕ → MapSizes → MapSizes
set_pdr_map_size n s = record s { pdr_map_size = n }

unfoldable pub set_far_map_size : ℕ → MapSizes → MapSizes
set_far_map_size n s = record s { far_map_size = n }

unfoldable pub set_qer_map_size : ℕ → MapSizes → MapSizes
set_qer_map_size n s = record s { qer_map_size = n }

unfoldable pub set_urr_map_size : ℕ → MapSizes → MapSizes
set_urr_map_size n s = record s { urr_map_size = n }

-- ebpf.MapSpec, and the fields of ebpf.MapInfo that ResizeEbpfMap copies.
pub record MapSpec : Type 0 where
  pub spec_name : String
  pub map_type : ℕ
  pub key_size : ℕ
  pub value_size : ℕ
  pub max_entries : ℕ
  pub flags : ℕ

-- The maps of the generated IpEntrypointObjects that Load and ResizeAllMaps name.
pub record EntrypointMaps (Handle : Type 0) : Type 0 where
  pub qer_handle : Handle
  pub far_handle : Handle
  pub pdr_downlink_ip4_handle : Handle
  pub pdr_downlink_ip6_handle : Handle
  pub pdr_teid_ip4_handle : Handle
  pub urr_handle : Handle

-- `load_and_assign` is CollectionSpec.LoadAndAssign with MapReplacements and PinPath.
pub record Cilium : Type 1 where
  pub World : Type 0
  pub Handle : Type 0
  pub mkdir_all : M World (Unit {0})
  pub load_ip_entrypoint : M World (Table String MapSpec)
  pub new_map : MapSpec → M World Handle
  pub load_and_assign : Table String MapSpec → Table String Handle → M World (EntrypointMaps Handle)
  pub map_info : Handle → M World MapSpec
  pub unpin : Handle → M World (Unit {0})
  pub close : Handle → M World (Unit {0})
  pub close_objects : EntrypointMaps Handle → M World (Unit {0})
  pub bind_map : Handle → M World (Unit {0})

abbrev pub desired_map_sizes : MapSizes → Table String ℕ
desired_map_sizes s =
    ("qer_map", s.qer_map_size)
    ∷ ("far_map", s.far_map_size)
    ∷ ("pdr_map_downlink_ip4", s.pdr_map_size)
    ∷ ("pdr_map_downlink_ip6", s.pdr_map_size)
    ∷ ("pdr_map_teid_ip4", s.pdr_map_size)
    ∷ ("urr_map", s.urr_map_size)
    ∷ []

module _ (lib : Cilium) (bitmaps : RoaringBitmap) (order : MapOrder) where
  open lib use {
    World, Handle, mkdir_all, load_ip_entrypoint, new_map, load_and_assign, map_info, unpin, close,
    close_objects, bind_map,
  }

  -- What Load leaves in BpfObjects.
  pub record Loaded : Type 0 where
    pub maps : EntrypointMaps Handle
    pub far_id_tracker : IdTracker bitmaps.Bitmap
    pub qer_id_tracker : IdTracker bitmaps.Bitmap
    pub urr_id_tracker : IdTracker bitmaps.Bitmap

  -- The loop over desiredMapSizes; a map that the spec lacks is passed over. The spec is changed
  -- in place.
  unfoldable pub create_maps :
      Table String ℕ
      → Table String MapSpec
      → Table String Handle
      → M World (Table String MapSpec × Table String Handle)
  unfolding lookup insert
  create_maps [] spec replacements = pure (spec, replacements)
  create_maps ((map_name, size) ∷ sizes) spec replacements = elim (lookup map_name spec) [
    | none ↦ create_maps sizes spec replacements
    | some spec_map ↦
        let sized = record spec_map { max_entries = size } in
        new_map sized >>= λ m.
        create_maps sizes (insert map_name sized spec) (insert map_name m replacements)
  ]

  abbrev pub close_all : List (String × Handle) → M World (Unit {0})
  close_all [] = pure tt
  close_all ((_, m) ∷ ms) = λ w. close_all ms (close m w).1

  -- LoadAndAssign; where it fails, the maps made for it are closed.
  abbrev pub assign_or_close :
      Table String Handle
      → Outcome (EntrypointMaps Handle) × World
      → Outcome (EntrypointMaps Handle) × World
  assign_or_close replacements (ok maps, w) = (ok maps, w)
  assign_or_close replacements (err e, w) =
      (err e, (close_all ((branch 1 order).visit [] String Handle replacements) w).1)
  assign_or_close replacements (panic, w) = (panic, w)

  unfoldable pub load : MapSizes → M World Loaded
  unfolding create_maps new_id_tracker
  load s =
      mkdir_all
      >> (load_ip_entrypoint >>= λ spec.
          create_maps ((branch 0 order).visit [] String ℕ (desired_map_sizes s)) spec [] >>= λ made.
          (λ w. assign_or_close made.1 (load_and_assign made.0 made.1 w)) >>= λ maps.
          map_info maps.far_handle >>= λ far_info. map_info maps.qer_handle >>= λ qer_info.
          map_info maps.urr_handle >>= λ urr_info. pure (record {
            maps = maps;
            far_id_tracker = new_id_tracker bitmaps far_info.max_entries;
            qer_id_tracker = new_id_tracker bitmaps qer_info.max_entries;
            urr_id_tracker = new_id_tracker bitmaps urr_info.max_entries;
          }))

  -- CloseAllObjects; Close is the one of the loaded objects.
  unfoldable pub close_all_objects : List (M World (Unit {0})) → M World (Unit {0})
  close_all_objects [] = pure tt
  close_all_objects (closer ∷ closers) = closer >> close_all_objects closers

  unfoldable pub close_loaded : EntrypointMaps Handle → M World (Unit {0})
  unfolding close_all_objects
  close_loaded maps = close_all_objects (close_objects maps ∷ [])

  -- `*eMap`, nil after a map could not be made.
  abbrev pub Slot : Type 0
  Slot = Option Handle × World

  abbrev pub on_world : {A : Type 0} → M World A → M Slot A
  on_world m = zoom {S = Slot} {T = World} (λ s. s.1) (λ w s. (s.0, w)) m

  -- NewMapWithOptions, whose results are assigned to `*eMap` and err.
  abbrev pub assigned : Outcome Handle × World → Outcome Handle × Slot
  assigned (ok m, w) = (ok m, (some m, w))
  assigned (err e, w) = (err e, (none, w))
  assigned (panic, w) = (panic, (none, w))

  unfoldable pub resize_ebpf_map : ℕ → M Slot (Unit {0})
  resize_ebpf_map new_size (none, w) = crash (none, w)
  resize_ebpf_map new_size (some old, w) =
      (on_world (map_info old) >>= λ info.
      on_world (unpin old)
      >> (on_world (close old)
          >> ((λ s. assigned (new_map (record info { max_entries = new_size }) s.1)) >>= λ m.
              on_world (bind_map m))))
        (some old, w)

  -- One map of the objects, resized in place; the first failure ends ResizeAllMaps.
  abbrev pub Slots : Type 0
  Slots = EntrypointMaps (Option Handle) × World

  abbrev pub resize_one :
      (EntrypointMaps (Option Handle) → Option Handle)
      → (Option Handle → EntrypointMaps (Option Handle) → EntrypointMaps (Option Handle))
      → ℕ
      → M Slots (Unit {0})
  resize_one get put new_size =
      zoom {S = Slots} {T = Slot} (λ s. (get s.0, s.1)) (λ t s. (put t.0 s.0, t.1))
        (resize_ebpf_map new_size)

  unfoldable pub resize_all_maps : ℕ → ℕ → ℕ → ℕ → M Slots (Unit {0})
  unfolding resize_ebpf_map
  resize_all_maps qer_map_size far_map_size pdr_map_size urr_map_size = do
    resize_one (λ m. m.qer_handle) (λ h m. record m { qer_handle = h }) qer_map_size
    resize_one (λ m. m.far_handle) (λ h m. record m { far_handle = h }) far_map_size
    resize_one (λ m. m.pdr_downlink_ip4_handle) (λ h m. record m { pdr_downlink_ip4_handle = h })
        pdr_map_size
    resize_one (λ m. m.pdr_downlink_ip6_handle) (λ h m. record m { pdr_downlink_ip6_handle = h })
        pdr_map_size
    resize_one (λ m. m.pdr_teid_ip4_handle) (λ h m. record m { pdr_teid_ip4_handle = h })
        pdr_map_size
    resize_one (λ m. m.urr_handle) (λ h m. record m { urr_handle = h }) urr_map_size

  -- LoadAllObjects, for loaders with their objects.
  unfoldable pub load_all_objects : List (M World (Unit {0})) → M World (Unit {0})
  load_all_objects [] = pure tt
  load_all_objects (loader ∷ loaders) = loader >> load_all_objects loaders
