-- ===== src/Startup/Capacity.antt =====
-- The pools of ids that cmd/main.go has set up when it starts its goroutines, from the number of
-- sessions in the configuration on.
use eupf.Base.{
  ℕ, ◌+◌, ◌*◌, ◌^◌, ◌<◌, ◌≡◌, ◌≢◌, refl, Option, none, some, List, [], ◌∷◌, arith, ltb, String, inl,
  inr, Option-cases,
}
use eupf.Base.Outcome.{Outcome, ok, err, panic, Error, M, for_each}
use eupf.Base.Outcome.Gives.{Gives, Gives-bind, Gives-map}
use eupf.Base.Text.{Text}
use eupf.Base.MapOrder.{MapOrder}
use eupf.Ebpf.Types.{Bytes}
use eupf.Ebpf.Kernel.{RoaringBitmap, IsBitmap}
use eupf.Ebpf.IdTracker.{IdTracker, new_id_tracker}
use eupf.Ebpf.IdTracker.Laws.{free-new_id_tracker}
use eupf.Ebpf.Load.{load}
use eupf.Ebpf.Load.Pools.{IsCilium, Sized, load-Sized}
use eupf.Service.ResourceManager.{ResourceManager, IpGenerator, new_resource_manager}
use eupf.Service.Teids.{new_fteidm-ids}
use eupf.Core.ParseIp.{parse_ip}
use eupf.Core.Connection.{Setup, new_pfcp_connection}
use eupf.Config.{UpfConfig, with_defaults, validate}
use eupf.Startup.{
  XdpAttachMode, string_to_xdp_attach_mode, uint32_of_address, System, Objects, Started, map_sizes,
  or_nil, setup_of, started, connect_and_start, prepare, with_objects, main,
}

-- A call that fails gives an `F`.
pub record IsSystem (sys : System) (F : Type 0) : Type 0 where
  pub cilium-IsCilium : IsCilium sys.cilium F
  pub limits-gives :
      (w : sys.cilium.World) → Gives F (λ _. Unit {0}) (sys.increase_resource_limits w)
  pub config-gives :
      (n3 n9 : ℕ) (w : sys.cilium.World) → Gives F (λ _. Unit {0}) (sys.set_global_config n3 n9 w)
  pub attach-gives :
      (mode : XdpAttachMode) (iface : String) (w : sys.cilium.World)
      → Gives F (λ _. Unit {0}) (sys.attach_xdp mode iface w)
  pub listen-gives :
      (addr : String) (w : sys.cilium.World) → Gives F (λ _. Unit {0}) (sys.listen_udp addr w)
  pub now-gives : (w : sys.cilium.World) → Gives F (λ _. Unit {0}) (sys.now w)

-- It returns, and gives a `P` if it succeeds.
abbrev pub Answers : {W A : Type 0} → Type 0 → (A → Type 0) → Option (Outcome A × W) → Type 0
Answers F P none = ⊥
Answers F P (some x) = Gives F P x

-- The text of an IPv4 address, as the tag `ipv4` of the validator wants it.
abbrev pub IsIp4 : Text → Type 0
IsIp4 s = (n : ℕ) × (uint32_of_address s ≡ ok n)

-- What net.ParseIP accepts.
abbrev Parses : Text → Type 0
Parses s = (ip : Bytes) × (parse_ip s ≡ some ip)

IsIp4-Parses : (s : Text) → IsIp4 s → Parses s
unfolding uint32_of_address
IsIp4-Parses s (n, e) = elim (Option-cases (parse_ip s)) [
  | inl f ↦ ground (arith, e, f)
  | inr (ip, f) ↦ (ip, f)
]

-- The sizes of the maps are left open, and twice the sessions is a uint32.
abbrev pub SizesOpen : UpfConfig → Type 0
SizesOpen c =
    (c.far_map_size ≡ 0)
    × (c.qer_map_size ≡ 0)
    × (c.urr_map_size ≡ 0)
    × (c.max_sessions * 2 < 2 ^ 32)

module _ (sys : System) (bitmaps : RoaringBitmap) (order : MapOrder) (F : Type 0)
    (laws : IsSystem sys F) where
  open sys use {cilium}
  open laws use {cilium-IsCilium, limits-gives, config-gives, attach-gives, listen-gives, now-gives}

  for_each-Gives :
      (f : String → M cilium.World (Unit {0})) (xs : List String)
      → ((x : String) (w : cilium.World) → Gives F (λ _. Unit {0}) (f x w))
      → (w : cilium.World) → Gives F (λ _. Unit {0}) (for_each f xs w)
  unfolding for_each
  for_each-Gives f [] h w = tt
  for_each-Gives f (x ∷ xs) h w =
      Gives-bind F _ _ (f x w) _ (h x w) (λ _ v _. for_each-Gives f xs h v)

  prepare-Sized :
      (c : UpfConfig) (w : cilium.World)
      → IsIp4 c.n3_address
      → IsIp4 c.n9_address
      → Gives F
          (Sized cilium bitmaps order F cilium-IsCilium (map_sizes sys bitmaps order c))
          (prepare sys bitmaps order c w)
  unfolding prepare
  prepare-Sized c w (n3, e3) (n9, e9) =
      let S = Sized cilium bitmaps order F cilium-IsCilium (map_sizes sys bitmaps order c) in
      Gives-bind F _ S (sys.increase_resource_limits w) _ (limits-gives w) (λ _ w1 _.
        Gives-bind F S S (load cilium bitmaps order (map_sizes sys bitmaps order c) w1) _
          (load-Sized cilium bitmaps order F cilium-IsCilium (map_sizes sys bitmaps order c) w1)
          (λ objects w2 k.
            rw (e3, e9)
              (Gives-bind F _ S (sys.set_global_config n3 n9 w2) _ (config-gives n3 n9 w2)
                (λ _ w3 _.
                  let attach = sys.attach_xdp (string_to_xdp_attach_mode c.xdp_attach_mode) in
                  Gives-bind F (λ _. Unit {0}) S (for_each attach c.interface_name w3) _
                    (for_each-Gives attach c.interface_name
                      (attach-gives (string_to_xdp_attach_mode c.xdp_attach_mode)) w3)
                    (λ _ w4 _. k)))))

  -- What the goroutines find: the pools, the nodes and no association.
  abbrev pub Ready :
      (Objects sys bitmaps order → Type 0) → UpfConfig → Started sys bitmaps order → Type 0
  Ready P c st =
      P st.pfcp_conn.plane
      × (st.pfcp_conn.nodes ≡ c.pfcp_remote_node)
      × (st.pfcp_conn.node_associations ≡ [])

  connection-Ready :
      (P : Objects sys bitmaps order → Type 0) (c : UpfConfig) (local_gtp : String) (conf : Setup)
      (objects : Objects sys bitmaps order) (resources : Option ResourceManager) (w : cilium.World)
      → P objects
      → Parses conf.n3_ip
      → Parses conf.n9_ip
      → Gives F
          (λ conn. Ready P c (started sys bitmaps order c local_gtp conn))
          (new_pfcp_connection conf objects resources, w)
  unfolding new_pfcp_connection
  connection-Ready P c local_gtp conf objects resources w h (a, e) (b, f) =
      rw (e, f) (h, refl, refl)

  connect-Ready :
      (P : Objects sys bitmaps order → Type 0) (c : UpfConfig) (local_gtp : String)
      (resources : Option ResourceManager) (objects : Objects sys bitmaps order) (w : cilium.World)
      → P objects
      → Parses c.n3_address
      → Parses c.n9_address
      → Gives F (Ready P c) (connect_and_start sys bitmaps order c local_gtp resources objects w)
  unfolding connect_and_start
  connect-Ready P c local_gtp resources objects w h n3 n9 =
      Gives-bind F _ (Ready P c) (sys.listen_udp c.pfcp_address w) _ (listen-gives c.pfcp_address w)
        (λ addr w1 _. Gives-bind F _ (Ready P c) (sys.now w1) _ (now-gives w1) (λ time w2 _.
          let conf = setup_of sys bitmaps order c addr time in
          Gives-bind F (λ conn. Ready P c (started sys bitmaps order c local_gtp conn)) (Ready P c)
            (new_pfcp_connection conf objects resources, w2) _
            (connection-Ready P c local_gtp conf objects resources w2 h n3 n9) (λ conn w3 k. k)))

  -- NewResourceManager returns, with or without an error.
  resources-returns :
      (generate : IpGenerator) (pool : String) (teids : ℕ)
      → teids + 1 < 2 ^ 32
      → new_resource_manager generate (teids + 1) pool teids ≢ none
  unfolding new_resource_manager
  resources-returns generate pool teids h = ground (arith, new_fteidm-ids teids h)

  with_objects-Answers :
      (P : Objects sys bitmaps order → Type 0) (c : UpfConfig) (local_gtp : String)
      (generate : IpGenerator) (x : Outcome (Objects sys bitmaps order) × cilium.World)
      → Gives F P x
      → Parses c.n3_address
      → Parses c.n9_address
      → c.fteid_pool + 1 < 2 ^ 32
      → Answers F
          (Ready P c)
          (with_objects sys bitmaps order local_gtp generate (c.fteid_pool + 1) c x)
  unfolding main
  with_objects-Answers P c local_gtp generate (ok objects, w) h n3 n9 t =
      elim (Option-cases
        (new_resource_manager generate (c.fteid_pool + 1) c.ueip_pool c.fteid_pool)) [
          | inl e ↦ absurd (resources-returns generate c.ueip_pool c.fteid_pool t e)
          | inr (r, e) ↦
              rw (e, Answers, with_objects)
                (connect-Ready P c local_gtp (or_nil sys bitmaps order r) objects w h n3 n9)
        ]
  with_objects-Answers P c local_gtp generate (err e, w) h n3 n9 t = h
  with_objects-Answers P c local_gtp generate (panic, w) h n3 n9 t = h

-- The free ids are the ones below the size.
abbrev pub FreeBelow : (lib : RoaringBitmap) → ℕ → lib.Bitmap → Type 0
FreeBelow lib size bitmap = (i : ℕ) → lib.contains i bitmap ≡ ltb i size

module _ (sys : System) (bitmaps : RoaringBitmap) (order : MapOrder) (F : Type 0)
    (laws : IsSystem sys F) (bitmap_laws : IsBitmap bitmaps) where
  abbrev pub Roomy : UpfConfig → Objects sys bitmaps order → Type 0
  Roomy c objects =
      FreeBelow bitmaps (c.max_sessions * 2) objects.far_id_tracker.bitmap
      × FreeBelow bitmaps c.max_sessions objects.qer_id_tracker.bitmap
      × FreeBelow bitmaps (c.max_sessions * 2) objects.urr_id_tracker.bitmap

  far_size :
      (c : UpfConfig)
      → SizesOpen c
      → (map_sizes sys bitmaps order (with_defaults c)).far_map_size ≡ c.max_sessions * 2
  unfolding map_sizes
  far_size c h = ground (arith, h)

  qer_size :
      (c : UpfConfig)
      → SizesOpen c
      → (map_sizes sys bitmaps order (with_defaults c)).qer_map_size ≡ c.max_sessions
  unfolding map_sizes
  qer_size c h = ground (arith, h)

  urr_size :
      (c : UpfConfig)
      → SizesOpen c
      → (map_sizes sys bitmaps order (with_defaults c)).urr_map_size ≡ c.max_sessions * 2
  unfolding map_sizes
  urr_size c h = ground (arith, h)

  pool-FreeBelow :
      (t : IdTracker bitmaps.Bitmap) (wanted size : ℕ)
      → t ≡ new_id_tracker bitmaps wanted
      → wanted ≡ size
      → FreeBelow bitmaps size t.bitmap
  pool-FreeBelow t wanted size e f = rw (e, f) (free-new_id_tracker bitmaps bitmap_laws size)

  prepare-Roomy :
      (c : UpfConfig) (w : sys.cilium.World)
      → IsIp4 c.n3_address
      → IsIp4 c.n9_address
      → SizesOpen c
      → Gives F (Roomy c) (prepare sys bitmaps order (with_defaults c) w)
  prepare-Roomy c w n3 n9 h =
      Gives-map F _ (Roomy c) (prepare sys bitmaps order (with_defaults c) w)
        (λ o k. (
          pool-FreeBelow o.far_id_tracker _ (c.max_sessions * 2) k.0 (far_size c h),
          pool-FreeBelow o.qer_id_tracker _ c.max_sessions k.1 (qer_size c h),
          pool-FreeBelow o.urr_id_tracker _ (c.max_sessions * 2) k.2 (urr_size c h),
        ))
        (prepare-Sized sys bitmaps order F laws (with_defaults c) w n3 n9)

  -- With a configuration that the validator accepts, IPv4 addresses for N3 and N9, a TEID pool below
  -- 2^32 - 1, no sizes for the FAR, QER and URR maps and a number of sessions whose double is a
  -- uint32, main returns from all that it does before it starts its goroutines. If it succeeds, and
  -- it does where the calls to the kernel and the network do (`F` is what is claimed where one of
  -- them fails), then the ids free for FARs and URRs are those below twice the number of sessions,
  -- the ids free for QERs those below the number of sessions, and the connection has the configured
  -- remote nodes and no association yet.
  pub main-Roomy :
      (validate_struct : UpfConfig → Option Error) (local_gtp : String) (generate : IpGenerator)
      (c : UpfConfig) (w : sys.cilium.World)
      → validate_struct c ≡ none
      → IsIp4 c.n3_address
      → IsIp4 c.n9_address
      → c.fteid_pool + 1 < 2 ^ 32
      → SizesOpen c
      → Answers F (Ready sys bitmaps order F laws (Roomy c) c) (
          main sys bitmaps order validate_struct local_gtp generate
            ((with_defaults c).fteid_pool + 1)
            c
            w)
  unfolding main
  main-Roomy validate_struct local_gtp generate c w v n3 n9 t h =
      rw (v, validate)
        (with_objects-Answers sys bitmaps order F laws (Roomy c) (with_defaults c) local_gtp
          generate (prepare sys bitmaps order (with_defaults c) w) (prepare-Roomy c w n3 n9 h)
          (IsIp4-Parses c.n3_address n3) (IsIp4-Parses c.n9_address n9) (ground (arith, t)))
