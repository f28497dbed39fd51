-- ===== src/Core/Handlers/Effects/Returns.antt =====
-- DeleteAssociation and DeleteSession of cmd/core/pfcp_connection.go return.
use eupf.Base.{
  numbered, [], ℕ, ◌≡◌, refl, Bool, Option, none, some, String, nat_eq, string_eq, ◌==◌,
}
use eupf.Base.Outcome.{Outcome, ok, err, panic, M}
use eupf.Base.Table.{lookup}
use eupf.Base.MapOrder.{MapOrder, branch}
use eupf.Ebpf.Controller.{ForwardingPlaneController}
use eupf.Ebpf.Types.{Bytes}
use eupf.Core.Session.{Session}
use eupf.Core.Work.{Work, start_work, on_resources}
use eupf.Core.Connection.{PfcpConnection, NodeAssociation}
use eupf.Base.Outcome.Safe.{
  Safe, Returns, Done, Calm, Safe-bind, Safe-gets, Safe-pure, Safe-modify, Safe-if, Safe-zoom,
  Returns-ignore, Returns-bind, Returns-for_each, ok_of_Done,
}
use eupf.Service.ResourceManager.{ResourceManager, Fteidm}
use eupf.Core.Session.{SpdrInfo, SfarInfo, SqerInfo}
use eupf.Core.Work.{on_plane}
use eupf.Core.Connection.{get_association}
use eupf.Core.PdrContext.{delete_pdr, delete_from, delete_uplink, release_session_teids}
use eupf.Core.Handlers.Teardown.{
  delete_session, delete_association, delete_found, delete_entry, drop_rules, keep_work,
}

-- The plane's methods that delete return, with or without an error.
pub record Deletes (plane : ForwardingPlaneController) : Type 0 where
  pub deletes_far : (id : ℕ) → Safe (λ _. Unit {0}) (plane.delete_far id)
  pub deletes_qer : (id : ℕ) → Safe (λ _. Unit {0}) (plane.delete_qer id)
  pub deletes_uplink : (teid : ℕ) → Safe (λ _. Unit {0}) (plane.delete_pdr_uplink teid)
  pub deletes_downlink : (ip : Bytes) → Safe (λ _. Unit {0}) (plane.delete_pdr_downlink ip)
  pub deletes_downlink_ip6 : (ip : Bytes) → Safe (λ _. Unit {0}) (plane.delete_downlink_pdr_ip6 ip)

abbrev IsPool : Option Fteidm → Type 0
IsPool none = ⊥
IsPool (some _) = Unit {0}

-- The UPF has a pool of tunnel ids, as NewResourceManager gives it.
abbrev pub HasTeids : Option ResourceManager → Type 0
HasTeids none = ⊥
HasTeids (some r) = IsPool r.fteidm

abbrev HasPool : {Plane : Type 0} → PfcpConnection Plane → Type 0
HasPool c = HasTeids c.resource_manager

abbrev pub CanRelease : {Plane : Type 0} → Work Plane → Type 0
CanRelease w = HasTeids w.resources

module _ (plane : ForwardingPlaneController) (o : MapOrder) (feature_ueip : Bool)
    (deletes : Deletes plane) where
  open plane use {Plane}

  pub plane-Safe :
      {A : Type 0} (m : M Plane A)
      → Safe (λ _. Unit {0}) m
      → Safe (CanRelease {Plane = Plane}) (on_plane m)
  plane-Safe m h =
      Safe-zoom CanRelease (λ _. Unit {0}) (λ w. w.plane) (λ p w. record w { plane = p }) m
        (λ w i. tt) (λ p w u i. i) h

  released-Safe :
      (se_id : ℕ) (r : ResourceManager) (f : Option Fteidm)
      → r.fteidm ≡ f
      → IsPool f
      → Calm HasTeids (release_session_teids plane o feature_ueip se_id (some r))
  released-Safe se_id r none h i = absurd i
  released-Safe se_id r (some f) h i = rw h tt

  release-Safe : (se_id : ℕ) → Safe HasTeids (release_session_teids plane o feature_ueip se_id)
  release-Safe se_id = record { safe = kept }
    where
      kept :
          (r : Option ResourceManager)
          → HasTeids r
          → Calm HasTeids (release_session_teids plane o feature_ueip se_id r)
      kept none i = absurd i
      kept (some r) i = released-Safe se_id r r.fteidm refl i

  resources-Safe :
      (se_id : ℕ)
      → Safe
          (CanRelease {Plane = Plane})
          (on_resources (release_session_teids plane o feature_ueip se_id))
  resources-Safe se_id =
      Safe-zoom CanRelease HasTeids (λ w. w.resources) (λ r w. record w { resources = r })
        (release_session_teids plane o feature_ueip se_id) (λ w i. i) (λ r w j i. j)
        (release-Safe se_id)

  delete_uplink-Safe :
      (teid : ℕ) (c : Option ℕ) → Safe CanRelease (delete_uplink plane o feature_ueip teid c)
  delete_uplink-Safe teid (some _) = Safe-pure CanRelease tt
  delete_uplink-Safe teid none =
      Safe-bind CanRelease _ _ (plane-Safe _ (deletes.deletes_uplink teid))
        (λ _. Safe-modify CanRelease _ (λ w i. i))

  delete_from-Safe :
      (info : SpdrInfo) (a b : Option Bytes)
      → Safe CanRelease (delete_from plane o feature_ueip info a b)
  delete_from-Safe info (some a) b = plane-Safe _ (deletes.deletes_downlink a)
  delete_from-Safe info none (some b) = plane-Safe _ (deletes.deletes_downlink_ip6 b)
  delete_from-Safe info none none =
      Safe-bind CanRelease _ _ (Safe-gets CanRelease _) (delete_uplink-Safe info.teid)

  pub delete_pdr-Safe : (info : SpdrInfo) → Safe CanRelease (delete_pdr plane o feature_ueip info)
  unfolding delete_pdr
  delete_pdr-Safe info = Safe-bind CanRelease _ _ (delete_from-Safe info info.ipv4 info.ipv6) (λ _.
      Safe-bind CanRelease _ _ (Safe-gets CanRelease (λ w. w.session.remote_seid)) (λ se_id.
        Safe-if CanRelease (info.teid == 0) _ _ (Safe-pure CanRelease tt) (resources-Safe se_id)))

module _ (plane : ForwardingPlaneController) (o : MapOrder) (feature_ueip : Bool)
    (deletes : Deletes plane) where
  open plane use {Plane}

  drop_rules-Returns : (s : Session) → Returns CanRelease (drop_rules plane o feature_ueip s)
  unfolding drop_rules
  drop_rules-Returns s =
      Returns-bind CanRelease _ _
        (Returns-for_each CanRelease _ ((branch 0 o).visit [] ℕ SfarInfo s.fars) (λ x.
          Returns-ignore CanRelease _
            (plane-Safe plane o feature_ueip deletes _ (deletes.deletes_far x.1.far_global_id))))
        (λ _.
          Returns-bind CanRelease _ _
            (Returns-for_each CanRelease _ ((branch 1 o).visit [] ℕ SqerInfo s.qers) (λ x.
              Returns-ignore CanRelease _ (
                plane-Safe plane o feature_ueip deletes _ (deletes.deletes_qer x.1.qer_global_id))))
            (λ _.
              Returns-for_each CanRelease _ (numbered 0 ((branch 2 o).visit [] ℕ SpdrInfo s.pdrs))
                (λ x.
                  Returns-ignore CanRelease _
                    (delete_pdr-Safe plane (branch x.0 (branch 3 o)) feature_ueip deletes x.1.1))))

  kept_work-Done :
      (c : PfcpConnection Plane) (x : Outcome (Unit {0}) × Work Plane)
      → Done CanRelease x
      → Done HasPool (keep_work plane o feature_ueip c x)
  kept_work-Done c (ok _, w) i = i
  kept_work-Done c (err e, w) i = absurd i
  kept_work-Done c (panic, w) i = absurd i

  delete_session-Returns : (s : Session) → Returns HasPool (delete_session plane o feature_ueip s)
  unfolding delete_session
  delete_session-Returns s = record {
    returns = λ c i.
        kept_work-Done c
          (drop_rules plane o feature_ueip s (start_work c.plane s c.resource_manager))
          ((drop_rules-Returns s).returns (start_work c.plane s c.resource_manager) i);
  }

module _ (plane : ForwardingPlaneController) (o : MapOrder) (feature_ueip : Bool)
    (deletes : Deletes plane) where
  open plane use {Plane}

  found-Returns :
      (addr : String) (a : NodeAssociation)
      → Returns HasPool (delete_found plane o feature_ueip addr (some a))
  found-Returns addr a =
      Returns-bind HasPool _ _
        (Returns-for_each HasPool (delete_entry plane o feature_ueip)
          (numbered 0 ((branch 0 o).visit [] ℕ Session a.sessions))
          (λ x. delete_session-Returns plane (branch x.0 (branch 1 o)) feature_ueip deletes x.1.1))
        (λ _. record { returns = λ c i. i })

  -- On a UPF that has a pool of tunnel ids, and whose plane's methods that delete do not panic,
  -- DeleteAssociation of an address with an association returns, whatever errors the plane gives.
  pub delete_association-returns :
      (addr : String) (a : NodeAssociation) (c : PfcpConnection Plane)
      → HasTeids c.resource_manager
      → lookup addr c.node_associations ≡ some a
      → (delete_association plane o feature_ueip addr c).0 ≡ ok tt
  unfolding delete_association get_association
  delete_association-returns addr a c pool found =
      rw (found, delete_association, get_association)
        (ok_of_Done HasPool (delete_found plane o feature_ueip addr (some a) c)
          ((found-Returns addr a).returns c pool))
