-- ===== src/Core/PdrContext/Returns.antt =====
-- What cmd/core/pdr_creation_context.go makes of a PDR, and applyPDR, do not crash.
use eupf.Base.{ℕ, true, ◌&&◌, ◌≡◌, ◌≢◌, refl, Bool, Option, none, some, List, [], ◌∷◌, arith}
use eupf.Base.Text.{Text}
use eupf.Base.Outcome.{put_back, Outcome, ok, err, panic, M}
use eupf.Base.Outcome.Safe.{
  Safe, Calm, Safe-bind, Safe-gets, Safe-pure, Safe-throw, Safe-lift, Safe-modify, Safe-if,
  Safe-zoom,
}
use eupf.Base.Outcome.Yields.{Holds}
use eupf.Base.MapOrder.{MapOrder}
use eupf.Ebpf.Types.{Bytes, PdrInfo, SdfFilter, FarInfo, QerInfo, UrrInfo}
use eupf.Ebpf.Controller.{ForwardingPlaneController}
use eupf.Service.ResourceManager.{ResourceManager, Ipam, Fteidm, allocate_ip, allocate_teid}
use eupf.Core.Ie.{PdrIe, ChildIe, Fteid, UeIpAddress}
use eupf.Core.Sdf.{parse_sdf_filter}
use eupf.Core.Sdf.Bounds.{IsFilter, parse_sdf_filter-IsFilter}
use eupf.Core.Session.{SpdrInfo}
use eupf.Core.Work.{Work, on_plane, on_resources}
use eupf.Core.PdrContext.{
  refused, remember, has_ch_v4, extract_pdr, apply_pdr, apply_to, with_sdf, get_fteid, get_ip,
  choose_fteid, extract_fteid, with_ue_ip, with_allocated_ip, extract_ue_ip, extract_address,
  extract_pdi, refer,
}

-- The plane's methods that create rules return, with or without an error.
pub record Creates (plane : ForwardingPlaneController) : Type 0 where
  pub creates_far : (info : FarInfo) → Safe (λ _. Unit {0}) (plane.new_far info)
  pub creates_qer : (info : QerInfo) → Safe (λ _. Unit {0}) (plane.new_qer info)
  pub creates_urr : (info : UrrInfo) → Safe (λ _. Unit {0}) (plane.new_urr info)
  pub puts_uplink : (teid : ℕ) (p : PdrInfo) → Safe (λ _. Unit {0}) (plane.put_pdr_uplink teid p)
  pub puts_downlink :
      (ip : Bytes) (p : PdrInfo) → Safe (λ _. Unit {0}) (plane.put_pdr_downlink ip p)
  pub puts_downlink_ip6 :
      (ip : Bytes) (p : PdrInfo) → Safe (λ _. Unit {0}) (plane.put_downlink_pdr_ip6 ip p)

parsed-returns :
    (p : PdrInfo) (r : Outcome SdfFilter)
    → Holds IsFilter r
    → elim r [ ok f ↦ ok (record p { sdf_filter = some f }) | err e ↦ err e | panic ↦ panic ]
      ≢ panic
parsed-returns p (ok f) h e = ground (arith, e)
parsed-returns p (err x) h e = ground (arith, e)
parsed-returns p panic h e = absurd h

with_sdf-returns : (pdr : PdrIe) (p : PdrInfo) → with_sdf pdr p ≢ panic
unfolding with_sdf
with_sdf-returns pdr p = at pdr.sdf_filter refl
  where
    at : (t : Option Text) → pdr.sdf_filter ≡ t → with_sdf pdr p ≢ panic
    at none h = rw (h, with_sdf) (λ e. ground (arith, e))
    at (some []) h = rw (h, with_sdf) (λ e. ground (arith, e))
    at (some (c ∷ cs)) h =
        rw (h, with_sdf)
          (parsed-returns p (parse_sdf_filter (c ∷ cs)) (parse_sdf_filter-IsFilter (c ∷ cs)).holds)

module _ {Plane : Type 0} where
  abbrev pub Sound : {A : Type 0} → M (Work Plane) A → Type 0
  Sound m = Safe {S = Work Plane} (λ _. Unit {0}) m

  pub plane-Sound : {A : Type 0} (m : M Plane A) → Safe (λ _. Unit {0}) m → Sound (on_plane m)
  plane-Sound m h =
      Safe-zoom (λ _. Unit {0}) (λ _. Unit {0}) (λ w. w.plane) (λ p w. record w { plane = p }) m
        (λ w i. tt) (λ p w u i. i) h

  resources-Sound :
      {A : Type 0} (m : M (Option ResourceManager) A)
      → Safe (λ _. Unit {0}) m
      → Sound (on_resources m)
  resources-Sound m h =
      Safe-zoom (λ _. Unit {0}) (λ _. Unit {0}) (λ w. w.resources)
        (λ r w. record w { resources = r }) m (λ w i. tt) (λ r w u i. i) h

module _ (plane : ForwardingPlaneController) (o : MapOrder) (feature_ueip : Bool)
    (creates : Creates plane) where
  open plane use {Plane}

  refused-Calm :
      {T A : Type 0} (x : Outcome A × T) → Calm (λ _. Unit {0}) x → Calm (λ _. Unit {0}) (refused x)
  refused-Calm (ok a, t) i = tt
  refused-Calm (err e, t) i = tt
  refused-Calm (panic, t) i = absurd i

  put-Calm :
      {S T A : Type 0} (put : T → S → S) (s : S) (x : Outcome A × T)
      → Calm (λ _. Unit {0}) x
      → Calm (λ _. Unit {0}) (put_back put s x)
  put-Calm put s (ok a, t) i = tt
  put-Calm put s (err e, t) i = tt
  put-Calm put s (panic, t) i = absurd i

  allocate_teid-Calm : (se_id id : ℕ) (f : Fteidm) → Calm (λ _. Unit {0}) (allocate_teid se_id id f)
  unfolding allocate_teid
  allocate_teid-Calm se_id id f = at f.free_teids refl
    where
      at : (ids : List ℕ) → f.free_teids ≡ ids → Calm (λ _. Unit {0}) (allocate_teid se_id id f)
      at [] h = rw (h, allocate_teid) tt
      at (x ∷ xs) h = rw (h, allocate_teid) tt

  allocate_ip-Calm : (se_id : ℕ) (f : Ipam) → Calm (λ _. Unit {0}) (allocate_ip se_id f)
  unfolding allocate_ip
  allocate_ip-Calm se_id f = at f.free_ips refl
    where
      at : (ips : List Bytes) → f.free_ips ≡ ips → Calm (λ _. Unit {0}) (allocate_ip se_id f)
      at [] h = rw (h, allocate_ip) tt
      at (x ∷ xs) h = rw (h, allocate_ip) tt

  get_fteid-Safe : (se_id id : ℕ) → Safe (λ _. Unit {0}) (get_fteid se_id id)
  unfolding get_fteid
  get_fteid-Safe se_id id = record { safe = λ r i. at r }
    where
      pool :
          (r : ResourceManager) (f : Option Fteidm)
          → r.fteidm ≡ f
          → Calm (λ _. Unit {0}) (get_fteid se_id id (some r))
      pool r none h = rw (h, get_fteid) tt
      pool r (some f) h =
          rw (h, get_fteid)
            (refused-Calm
              (put_back (λ t _. some (record r { fteidm = some t })) (some r)
                (allocate_teid se_id id f))
              (put-Calm (λ t _. some (record r { fteidm = some t })) (some r)
                (allocate_teid se_id id f) (allocate_teid-Calm se_id id f)))

      at : (r : Option ResourceManager) → Calm (λ _. Unit {0}) (get_fteid se_id id r)
      at none = tt
      at (some r) = pool r r.fteidm refl

  get_ip-Safe : (se_id : ℕ) → Safe (λ _. Unit {0}) (get_ip se_id)
  unfolding get_ip
  get_ip-Safe se_id = record { safe = λ r i. at r }
    where
      pool :
          (r : ResourceManager) (f : Option Ipam)
          → r.ipam ≡ f
          → Calm (λ _. Unit {0}) (get_ip se_id (some r))
      pool r none h = rw (h, get_ip) tt
      pool r (some f) h =
          rw (h, get_ip)
            (refused-Calm
              (put_back (λ t _. some (record r { ipam = some t })) (some r) (allocate_ip se_id f))
              (put-Calm (λ t _. some (record r { ipam = some t })) (some r) (allocate_ip se_id f)
                (allocate_ip-Calm se_id f)))

      at : (r : Option ResourceManager) → Calm (λ _. Unit {0}) (get_ip se_id r)
      at none = tt
      at (some r) = pool r r.ipam refl

  choose_fteid-Sound :
      (f : Fteid) (info : SpdrInfo) (c : Option ℕ)
      → Sound (choose_fteid plane o feature_ueip f info c)
  choose_fteid-Sound f info (some teid) = Safe-pure (λ _. Unit {0}) _
  choose_fteid-Sound f info none =
      Safe-bind (λ _. Unit {0}) _ _ (Safe-gets (λ _. Unit {0}) _)
        (λ se_id.
          Safe-bind (λ _. Unit {0}) _ _ (resources-Sound _ (get_fteid-Safe se_id info.pdr_id))
            (λ teid.
              Safe-bind (λ _. Unit {0}) _ _
                (Safe-modify (λ _. Unit {0}) (remember plane o feature_ueip f teid) (λ w i. tt))
                (λ u. Safe-pure (λ _. Unit {0}) (record info { teid = teid; allocated = true }))))

  extract_fteid-Sound :
      (f : Option Fteid) (info : SpdrInfo) → Sound (extract_fteid plane o feature_ueip f info)
  unfolding extract_fteid
  extract_fteid-Sound none info = Safe-throw (λ _. Unit {0}) _
  extract_fteid-Sound (some f) info =
      Safe-if (λ _. Unit {0}) f.has_ch _ _
        (Safe-bind (λ _. Unit {0}) _ _ (Safe-gets (λ _. Unit {0}) _) (choose_fteid-Sound f info))
        (Safe-pure (λ _. Unit {0}) _)

  with_ue_ip-Sound :
      (info : SpdrInfo) (a b : Option Bytes) → Sound (with_ue_ip plane o feature_ueip info a b)
  with_ue_ip-Sound info (some a) b = Safe-pure (λ _. Unit {0}) _
  with_ue_ip-Sound info none (some b) = Safe-pure (λ _. Unit {0}) _
  with_ue_ip-Sound info none none = Safe-throw (λ _. Unit {0}) _

  allocated-Calm :
      (u : UeIpAddress) (info : SpdrInfo) (x : Outcome Bytes × Work Plane)
      → Calm (λ _. Unit {0}) x
      → Calm (λ _. Unit {0}) (with_allocated_ip plane o feature_ueip u info x)
  allocated-Calm u info (ok ip, w) i =
      (with_ue_ip-Sound (record info { allocated = true }) (some ip) u.ue_ipv6_address).safe w tt
  allocated-Calm u info (err e, w) i =
      (with_ue_ip-Sound info u.ue_ipv4_address u.ue_ipv6_address).safe w tt
  allocated-Calm u info (panic, w) i = absurd i

  extract_ue_ip-Sound :
      (u : Option UeIpAddress) (info : SpdrInfo) → Sound (extract_ue_ip plane o feature_ueip u info)
  unfolding extract_ue_ip
  extract_ue_ip-Sound none info = Safe-throw (λ _. Unit {0}) _
  extract_ue_ip-Sound (some u) info =
      Safe-if (λ _. Unit {0}) (feature_ueip && has_ch_v4 u.flags) _ _
        (record {
          safe = λ w i.
              allocated-Calm u info (on_resources (get_ip w.session.remote_seid) w)
                ((resources-Sound _ (get_ip-Safe w.session.remote_seid)).safe w tt);
        })
        (with_ue_ip-Sound info u.ue_ipv4_address u.ue_ipv6_address)

  address-Sound :
      (a b : Option ChildIe) (info : SpdrInfo)
      → Sound (extract_address plane o feature_ueip a b info)
  address-Sound (some x) b info = extract_fteid-Sound x.ie_fteid info
  address-Sound none (some x) info = extract_ue_ip-Sound x.ie_ue_ip_address info
  address-Sound none none info = Safe-pure (λ _. Unit {0}) _

  pdi-Sound :
      (pdr : PdrIe) (info : SpdrInfo) (pdi : Option (List ChildIe))
      → Sound (extract_pdi plane o feature_ueip pdr info pdi)
  pdi-Sound pdr info none = Safe-throw (λ _. Unit {0}) _
  pdi-Sound pdr info (some pdi) =
      Safe-bind (λ _. Unit {0}) _ _
        (Safe-lift (λ _. Unit {0}) _ (with_sdf-returns pdr info.pdr_info))
        (λ p. address-Sound _ _ _)

  pub extract_pdr-Sound :
      (pdr : PdrIe) (info : SpdrInfo) → Sound (extract_pdr plane o feature_ueip pdr info)
  unfolding extract_pdr
  extract_pdr-Sound pdr info =
      Safe-bind (λ _. Unit {0}) _ _ (Safe-gets (λ _. Unit {0}) (λ w. w.session))
        (λ s. pdi-Sound pdr (record info { pdr_info = refer s pdr info.pdr_info }) pdr.pdi)

  apply_to-Sound :
      (info : SpdrInfo) (a b : Option Bytes) → Sound (apply_to plane o feature_ueip info a b)
  apply_to-Sound info (some a) b = plane-Sound _ (creates.puts_downlink a info.pdr_info)
  apply_to-Sound info none (some b) = plane-Sound _ (creates.puts_downlink_ip6 b info.pdr_info)
  apply_to-Sound info none none = plane-Sound _ (creates.puts_uplink info.teid info.pdr_info)

  pub apply_pdr-Sound : (info : SpdrInfo) → Sound (apply_pdr plane o feature_ueip info)
  unfolding apply_pdr
  apply_pdr-Sound info = apply_to-Sound info info.ipv4 info.ipv6
