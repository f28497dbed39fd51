-- ===== src/Core/Handlers/Effects/Leases.antt =====
-- The UE addresses that are held after a Session Deletion Request of
-- cmd/core/pfcp_session_handlers.go.
use eupf.Base.{
  ℕ, ◌≡◌, ◌≢◌, refl, ◌∙◌, ap, Bool, Option, none, some, String, [], nat_eq, string_eq, inl, inr,
  Option-cases,
}
use eupf.Base.Outcome.{Outcome, ok, err, panic}
use eupf.Base.Table.{Table, lookup, lookup-remove_ne}
use eupf.Base.MapOrder.{MapOrder, branch}
use eupf.Ebpf.Controller.{ForwardingPlaneController}
use eupf.Ebpf.Types.{Bytes}
use eupf.Core.Session.{Session}
use eupf.Core.Work.{Work, start_work, on_resources}
use eupf.Core.Connection.{PfcpConnection, NodeAssociation}
use eupf.Base.Outcome.Fixes.{Fixes, Fixes-within, fixes_rules}
use eupf.Service.ResourceManager.{ResourceManager, Ipam, Fteidm, release_ip}
use eupf.Core.Session.{SpdrInfo}
use eupf.Core.Connection.{release_resources, release_session_ip, release_session_teid}
use eupf.Core.PdrContext.{delete_pdr, delete_from, delete_uplink, release_session_teids}
use eupf.Core.Handlers.Deletion.{
  DeletionRequest, handle_session_deletion_request, delete_rules, delete_pdr_of, finish,
  with_session, with_association,
}

abbrev addresses_of : Option Ipam → Table ℕ Bytes
addresses_of none = []
addresses_of (some i) = i.busy_ips

-- The addresses in use, each under the SEID that it was allocated for.
abbrev pub busy_ips_of : Option ResourceManager → Table ℕ Bytes
busy_ips_of none = []
busy_ips_of (some r) = addresses_of r.ipam

abbrev busy_in : {Plane : Type 0} → Work Plane → Table ℕ Bytes
busy_in w = busy_ips_of w.resources

module _ (plane : ForwardingPlaneController) (o : MapOrder) (feature_ueip : Bool) where
  open plane use {Plane}

  released_teids :
      (se_id : ℕ) (r : ResourceManager) (f : Option Fteidm)
      → r.fteidm ≡ f
      → busy_ips_of (release_session_teids plane o feature_ueip se_id (some r)).1
        ≡ busy_ips_of (some r)
  released_teids se_id r none h = rw h refl
  released_teids se_id r (some f) h = rw h refl

  release_teids-Fixes :
      (se_id : ℕ) → Fixes busy_ips_of (release_session_teids plane o feature_ueip se_id)
  release_teids-Fixes se_id = record { at = kept }
    where
      kept :
          (r : Option ResourceManager)
          → busy_ips_of (release_session_teids plane o feature_ueip se_id r).1 ≡ busy_ips_of r
      kept none = refl
      kept (some r) = released_teids se_id r r.fteidm refl

  delete_uplink-Fixes :
      (teid : ℕ) (c : Option ℕ) → Fixes busy_in (delete_uplink plane o feature_ueip teid c)
  delete_uplink-Fixes teid (some _) = search fixes_rules
  delete_uplink-Fixes teid none = search fixes_rules

  delete_from-Fixes :
      (info : SpdrInfo) (a b : Option Bytes)
      → Fixes busy_in (delete_from plane o feature_ueip info a b)
  delete_from-Fixes info (some a) b = search fixes_rules
  delete_from-Fixes info none (some b) = search fixes_rules
  delete_from-Fixes info none none = search (delete_uplink-Fixes, fixes_rules)

  release-Fixes :
      (se_id : ℕ)
      → Fixes
          (busy_in {Plane = Plane})
          (on_resources (release_session_teids plane o feature_ueip se_id))
  release-Fixes se_id =
      Fixes-within (busy_in {Plane = Plane}) busy_ips_of (λ w. w.resources)
        (λ r w. record w { resources = r }) (release_session_teids plane o feature_ueip se_id)
        (λ t s. refl) (λ s. refl) (release_teids-Fixes se_id)

  delete_pdr-Fixes : (info : SpdrInfo) → Fixes busy_in (delete_pdr plane o feature_ueip info)
  unfolding delete_pdr
  delete_pdr-Fixes info = search (delete_from-Fixes, release-Fixes, fixes_rules)

module _ (plane : ForwardingPlaneController) (o : MapOrder) (feature_ueip : Bool) where
  open plane use {Plane}

  delete_pdr_of-Fixes :
      (x : ℕ × (ℕ × SpdrInfo)) → Fixes busy_in (delete_pdr_of plane o feature_ueip x)
  delete_pdr_of-Fixes (i, (id, pdr)) =
      delete_pdr-Fixes plane (branch i (branch 4 o)) feature_ueip pdr

  delete_rules-Fixes : (s : Session) → Fixes busy_in (delete_rules plane o feature_ueip s)
  unfolding delete_rules
  delete_rules-Fixes s = search (delete_pdr_of-Fixes, fixes_rules) depth 12

  released_ips :
      (key se_id : ℕ) (r : ResourceManager) (i : Option Ipam)
      → r.ipam ≡ i
      → se_id ≢ key
      → lookup key (busy_ips_of (some (release_session_ip se_id r)))
        ≡ lookup key (busy_ips_of (some r))
  unfolding release_ip
  released_ips key se_id r none h d = rw h refl
  released_ips key se_id r (some i) h d = elim (Option-cases (lookup se_id i.busy_ips)) [
    | inl e ↦ rw (h, release_ip) (rw (e, release_ip) refl)
    | inr (ip, e) ↦
        rw (h, release_ip) (rw (e, release_ip) (lookup-remove_ne se_id key i.busy_ips d))
  ]

  released_tunnels :
      (places : MapOrder) (se_id : ℕ) (r : ResourceManager) (f : Option Fteidm)
      → r.fteidm ≡ f
      → busy_ips_of (some (release_session_teid places se_id r)) ≡ busy_ips_of (some r)
  released_tunnels places se_id r none h = rw h refl
  released_tunnels places se_id r (some f) h = rw h refl

  release_resources-others :
      (places : MapOrder) (key se_id : ℕ) (r : Option ResourceManager)
      → se_id ≢ key
      → lookup key (busy_ips_of (release_resources places se_id r)) ≡ lookup key (busy_ips_of r)
  unfolding release_resources
  release_resources-others places key se_id none d = refl
  release_resources-others places key se_id (some r) d =
      ap (lookup key) (
        released_tunnels places se_id (release_session_ip se_id r)
          (release_session_ip se_id r).fteidm refl)
      ∙ released_ips key se_id r r.ipam refl d

  finish-leases :
      (req : DeletionRequest) (addr : String) (a : NodeAssociation) (s : Session)
      (c : PfcpConnection Plane) (x : Outcome (Unit {0}) × Work Plane) (key : ℕ)
      → req.del_seid ≢ key
      → busy_in x.1 ≡ busy_ips_of c.resource_manager
      → lookup key (busy_ips_of (finish plane o feature_ueip req addr a s c x).1.resource_manager)
        ≡ lookup key (busy_ips_of c.resource_manager)
  finish-leases req addr a s c (ok _, w) key d h =
      release_resources-others (branch 5 o) key req.del_seid w.resources d ∙ ap (lookup key) h
  finish-leases req addr a s c (err e, w) key d h = ap (lookup key) h
  finish-leases req addr a s c (panic, w) key d h = ap (lookup key) h

  session-leases :
      (req : DeletionRequest) (addr : String) (a : NodeAssociation) (s : Option Session)
      (c : PfcpConnection Plane) (key : ℕ)
      → req.del_seid ≢ key
      → lookup key
          (busy_ips_of (with_session plane o feature_ueip req addr a s c).1.resource_manager)
        ≡ lookup key (busy_ips_of c.resource_manager)
  unfolding handle_session_deletion_request
  session-leases req addr a none c key d = refl
  session-leases req addr a (some s) c key d =
      finish-leases req addr a s c
        (delete_rules plane o feature_ueip s (start_work c.plane s c.resource_manager)) key d
        ((delete_rules-Fixes s).at (start_work c.plane s c.resource_manager))

  association-leases :
      (req : DeletionRequest) (addr : String) (a : Option NodeAssociation)
      (c : PfcpConnection Plane) (key : ℕ)
      → req.del_seid ≢ key
      → lookup key
          (busy_ips_of (with_association plane o feature_ueip req addr a c).1.resource_manager)
        ≡ lookup key (busy_ips_of c.resource_manager)
  unfolding handle_session_deletion_request
  association-leases req addr none c key d = refl
  association-leases req addr (some a) c key d =
      session-leases req addr a (lookup req.del_seid a.sessions) c key d

  -- After a Session Deletion Request, whatever the answer, a UE address that is held under
  -- another SEID than the one in the request is held as before.
  pub deletion-leases :
      (req : DeletionRequest) (addr : String) (c : PfcpConnection Plane) (key : ℕ)
      → req.del_seid ≢ key
      → lookup key (
          busy_ips_of
            (handle_session_deletion_request plane o feature_ueip req addr c).1.resource_manager)
        ≡ lookup key (busy_ips_of c.resource_manager)
  unfolding handle_session_deletion_request
  deletion-leases req addr c key d =
      association-leases req addr (lookup addr c.node_associations) c key d
