-- ===== src/Core/PdrContext/Skips.antt =====
-- The cache by which deletePDR of cmd/core/pdr_creation_context.go skips tunnel ids that it has
-- deleted.
use eupf.Base.{
  ℕ, ◌%◌, ◌≡◌, refl, ◌∙◌, sym, ap, subst, Bool, true, false, Option, none, some, nat_eq,
  if◌then◌else◌, ◌==◌,
}
use eupf.Base.Outcome.{Outcome, ok, err, panic, M, bind_with, pure, gets, put_back, ◌>>=◌}
use eupf.Base.Outcome.Fixes.{Fixes, fixes_rules}
use eupf.Base.Table.{lookup, insert, lookup-insert_self}
use eupf.Base.MapOrder.{MapOrder}
use eupf.Ebpf.Controller.{ForwardingPlaneController}
use eupf.Service.ResourceManager.{ResourceManager}
use eupf.Core.Session.{SpdrInfo}
use eupf.Core.Work.{Work, on_resources, on_plane}
use eupf.Core.PdrContext.{delete_pdr, delete_from, delete_uplink, release_session_teids}

module _ (plane : ForwardingPlaneController) (o : MapOrder) (feature_ueip : Bool) where
  open plane use {Plane}

  -- After a tunnel id is deleted, its low byte is in the cache.
  abbrev IsNoted : ℕ → Outcome (Unit {0}) × Work Plane → Type 0
  IsNoted teid (ok _, w) = (v : ℕ) × (lookup (teid % 256) w.teid_cache ≡ some v)
  IsNoted teid (err e, w) = Unit
  IsNoted teid (panic, w) = Unit

  put-IsNoted :
      (teid : ℕ) (w : Work Plane) (v : ℕ) (x : Outcome (Unit {0}) × Option ResourceManager)
      → lookup (teid % 256) w.teid_cache ≡ some v
      → IsNoted teid (put_back (λ r w. record w { resources = r }) w x)
  put-IsNoted teid w v (ok _, r) h = (v, h)
  put-IsNoted teid w v (err e, r) h = tt
  put-IsNoted teid w v (panic, r) h = tt

  -- What deletePDR does after the kernel maps.
  abbrev finish : SpdrInfo → M (Work Plane) (Unit {0})
  finish info = gets (λ w. w.session.remote_seid) >>= λ se_id.
      if info.teid == 0
      then pure tt
      else on_resources (release_session_teids plane o feature_ueip se_id)

  finish-IsNoted :
      (teid : ℕ) (b : Bool) (se_id : ℕ) (w : Work Plane) (v : ℕ)
      → lookup (teid % 256) w.teid_cache ≡ some v
      → IsNoted teid (
          (if b then pure tt else on_resources (release_session_teids plane o feature_ueip se_id))
            w)
  finish-IsNoted teid true se_id w v h = (v, h)
  finish-IsNoted teid false se_id w v h =
      put-IsNoted teid w v (release_session_teids plane o feature_ueip se_id w.resources) h

  after-IsNoted :
      (info : SpdrInfo) (x : Outcome (Unit {0}) × Work Plane)
      → IsNoted info.teid x
      → IsNoted info.teid (bind_with (λ _. finish info) x)
  after-IsNoted info (ok _, w) (v, h) =
      finish-IsNoted info.teid (info.teid == 0) w.session.remote_seid w v h
  after-IsNoted info (err e, w) h = tt
  after-IsNoted info (panic, w) h = tt

  cached-IsNoted :
      (teid : ℕ) (x : Outcome (Unit {0}) × Work Plane)
      → IsNoted teid (
          bind_with
            (λ _ w. (ok tt, record w { teid_cache = insert (teid % 256) 0 w.teid_cache }))
            x)
  cached-IsNoted teid (ok _, w) = (0, lookup-insert_self (teid % 256) 0 w.teid_cache)
  cached-IsNoted teid (err e, w) = tt
  cached-IsNoted teid (panic, w) = tt

  delete_uplink-IsNoted :
      (teid : ℕ) (c : Option ℕ) (w : Work Plane)
      → lookup (teid % 256) w.teid_cache ≡ c
      → IsNoted teid (delete_uplink plane o feature_ueip teid c w)
  delete_uplink-IsNoted teid (some v) w h = (v, h)
  delete_uplink-IsNoted teid none w h =
      cached-IsNoted teid (on_plane (plane.delete_pdr_uplink teid) w)

  delete_from-uplink :
      (info : SpdrInfo) (w : Work Plane)
      → (info.ipv4 ≡ none) × (info.ipv6 ≡ none)
      → delete_from plane o feature_ueip info info.ipv4 info.ipv6 w
        ≡ delete_uplink plane o feature_ueip info.teid (lookup (info.teid % 256) w.teid_cache) w
  delete_from-uplink info w (a, b) =
      ap (λ x. delete_from plane o feature_ueip info x info.ipv6 w) a
      ∙ ap (λ y. delete_from plane o feature_ueip info none y w) b

  delete_pdr-IsNoted :
      (info : SpdrInfo) (w : Work Plane)
      → (info.ipv4 ≡ none) × (info.ipv6 ≡ none)
      → IsNoted info.teid (delete_pdr plane o feature_ueip info w)
  unfolding delete_pdr
  delete_pdr-IsNoted info w up =
      after-IsNoted info (delete_from plane o feature_ueip info info.ipv4 info.ipv6 w) (
        subst (IsNoted info.teid) (sym (delete_from-uplink info w up))
          (delete_uplink-IsNoted info.teid (lookup (info.teid % 256) w.teid_cache) w refl))

  finish-Fixes : (info : SpdrInfo) → Fixes (λ w. w.plane) (finish info)
  finish-Fixes info = search fixes_rules

module _ (plane : ForwardingPlaneController) (o p : MapOrder) (feature_ueip : Bool) where
  open plane use {Plane}

  -- Once deletePDR has deleted an uplink PDR without an error, deletePDR in the state that this
  -- left keeps the forwarding plane as it is for every uplink PDR whose tunnel id agrees with the
  -- first one modulo 256.
  pub delete_pdr-skips :
      (info later : SpdrInfo) (w w' : Work Plane)
      → (info.ipv4 ≡ none) × (info.ipv6 ≡ none)
      → (later.ipv4 ≡ none) × (later.ipv6 ≡ none)
      → later.teid % 256 ≡ info.teid % 256
      → delete_pdr plane o feature_ueip info w ≡ (ok tt, w')
      → (delete_pdr plane p feature_ueip later w').1.plane ≡ w'.plane
  unfolding delete_pdr
  delete_pdr-skips info later w w' up up' same first =
      let (v, h) =
        subst (IsNoted plane o feature_ueip info.teid) first
          (delete_pdr-IsNoted plane o feature_ueip info w up) in
      ap (λ x. (bind_with (λ _. finish plane p feature_ueip later) x).1.plane)
        (delete_from-uplink plane p feature_ueip later w' up'
          ∙ ap (λ c. delete_uplink plane p feature_ueip later.teid c w')
              (ap (λ k. lookup k w'.teid_cache) same ∙ h))
      ∙ (finish-Fixes plane p feature_ueip later).at w'
