-- ===== src/Core/Handlers/Effects/Failed.antt =====
-- A Session Deletion Request that fails, from cmd/core/pfcp_session_handlers.go to the handler map
-- of cmd/core/pfcp_handlers.go.
use eupf.Base.{
  ℕ, ◌≡◌, ◌∙◌, refl, sym, subst, Bool, true, false, not, Option, none, some, String, [], nat_eq,
  string_eq, bytes_eq, bytes_beq, arith, ◌==◌, numbered,
}
use eupf.Base.Outcome.{Outcome, ok, err, panic, M, Error}
use eupf.Base.Outcome.Safe.{Safe, Safe-for_each}
use eupf.Base.Outcome.Errs.{Errs, Errs-first, Errs-rest, Errs-for_each, Errs-zoom, error_of_Failed}
use eupf.Base.Table.{lookup}
use eupf.Base.Table.Every.{every_entry-perm, every_entry-numbered, every_entry-lookup}
use eupf.Base.MapOrder.{MapOrder, branch}
use eupf.Ebpf.Controller.{ForwardingPlaneController}
use eupf.Ebpf.Types.{Bytes}
use eupf.Core.Session.{Session, SpdrInfo, SfarInfo, SqerInfo}
use eupf.Core.Work.{Work, start_work, on_plane}
use eupf.Core.Connection.{PfcpConnection, NodeAssociation}
use eupf.Core.PdrContext.{delete_pdr, delete_from}
use eupf.Core.Handlers.Deletion.{
  DeletionRequest, handle_session_deletion_request, delete_rules, delete_pdr_of, delete_far_of,
  delete_qer_of, finish,
}
use eupf.Core.Handlers.Dispatch.{Config, handle, dispatch, sent, datagram, session_deletion_request}
use eupf.Core.Handlers.Effects.Returns.{Deletes, HasTeids, CanRelease, plane-Safe, delete_pdr-Safe}

-- The session has a FAR or a QER, or a PDR for an IPv4 address, that the plane fails to delete in
-- every state.
pub data Undeletable (plane : ForwardingPlaneController) (s : Session) : Type 0 where
  far_stays :
      (id : ℕ) (far : SfarInfo)
      → lookup id s.fars ≡ some far
      → Errs (λ _. Unit {0}) (plane.delete_far far.far_global_id)
      → Undeletable plane s
  qer_stays :
      (id : ℕ) (qer : SqerInfo)
      → lookup id s.qers ≡ some qer
      → Errs (λ _. Unit {0}) (plane.delete_qer qer.qer_global_id)
      → Undeletable plane s
  pdr_stays :
      (id : ℕ) (pdr : SpdrInfo) (ip : Bytes)
      → lookup id s.pdrs ≡ some pdr
      → pdr.ipv4 ≡ some ip
      → Errs (λ _. Unit {0}) (plane.delete_pdr_downlink ip)
      → Undeletable plane s

abbrev is_for : Bytes → SpdrInfo → Bool
is_for ip pdr = elim pdr.ipv4 [ none ↦ false | some a ↦ bytes_beq a ip ]

module _ (plane : ForwardingPlaneController) (o : MapOrder) (feature_ueip : Bool)
    (deletes : Deletes plane) where
  open plane use {Plane}

  plane-Errs :
      {A : Type 0} (m : M Plane A)
      → Errs (λ _. Unit {0}) m
      → Errs (CanRelease {Plane = Plane}) (on_plane m)
  plane-Errs m h =
      Errs-zoom CanRelease (λ _. Unit {0}) (λ w. w.plane) (λ p w. record w { plane = p }) m
        (λ w i. tt) (λ p w u i. i) h

  delete_far-Safe : (x : ℕ × SfarInfo) → Safe CanRelease (delete_far_of plane o feature_ueip x)
  delete_far-Safe x =
      plane-Safe plane o feature_ueip deletes _ (deletes.deletes_far x.1.far_global_id)

  delete_qer-Safe : (x : ℕ × SqerInfo) → Safe CanRelease (delete_qer_of plane o feature_ueip x)
  delete_qer-Safe x =
      plane-Safe plane o feature_ueip deletes _ (deletes.deletes_qer x.1.qer_global_id)

  delete_pdr_of-Safe :
      (x : ℕ × (ℕ × SpdrInfo)) → Safe CanRelease (delete_pdr_of plane o feature_ueip x)
  delete_pdr_of-Safe x = delete_pdr-Safe plane (branch x.0 (branch 4 o)) feature_ueip deletes x.1.1

  delete_from-Errs :
      (info : SpdrInfo) (ip : Bytes) (places : MapOrder) (a : Option Bytes)
      → is_for ip (record info { ipv4 = a }) ≡ true
      → Errs (λ _. Unit {0}) (plane.delete_pdr_downlink ip)
      → Errs CanRelease (delete_from plane places feature_ueip info a info.ipv6)
  delete_from-Errs info ip places none h k = ground (arith, h)
  delete_from-Errs info ip places (some a) h k = plane-Errs (plane.delete_pdr_downlink a) (
      subst (λ b. Errs (λ _. Unit {0}) (plane.delete_pdr_downlink b))
        (sym ((bytes_eq.beq_iff a ip).0 h)) k)

  delete_pdr_of-Errs :
      (ip : Bytes) (x : ℕ × (ℕ × SpdrInfo))
      → is_for ip x.1.1 ≡ true
      → Errs (λ _. Unit {0}) (plane.delete_pdr_downlink ip)
      → Errs CanRelease (delete_pdr_of plane o feature_ueip x)
  unfolding delete_pdr
  delete_pdr_of-Errs ip x h k =
      Errs-first CanRelease _ _ (delete_from-Errs x.1.1 ip (branch x.0 (branch 4 o)) x.1.1.ipv4 h k)

  pdrs-Errs :
      (s : Session) (id : ℕ) (pdr : SpdrInfo) (ip : Bytes)
      → lookup id s.pdrs ≡ some pdr
      → is_for ip pdr ≡ true
      → Errs (λ _. Unit {0}) (plane.delete_pdr_downlink ip)
      → Errs CanRelease (delete_rules plane o feature_ueip s)
  unfolding delete_rules
  pdrs-Errs s id pdr ip found h k = Errs-first CanRelease _ _ (
      Errs-for_each CanRelease (λ x. is_for ip x.1.1) (delete_pdr_of plane o feature_ueip)
        (numbered 0 ((branch 0 o).visit [] ℕ SpdrInfo s.pdrs))
        (every_entry-numbered (λ x. not (is_for ip x.1)) 0 ((branch 0 o).visit [] ℕ SpdrInfo s.pdrs)
          ∙ every_entry-perm (λ x. not (is_for ip x.1))
              ((branch 0 o).visit-perm [] ℕ SpdrInfo s.pdrs)
          ∙ every_entry-lookup (is_for ip) id pdr s.pdrs found h)
        delete_pdr_of-Safe (λ x e. delete_pdr_of-Errs ip x e k))

  fars-Errs :
      (s : Session) (id : ℕ) (far : SfarInfo)
      → lookup id s.fars ≡ some far
      → Errs (λ _. Unit {0}) (plane.delete_far far.far_global_id)
      → Errs CanRelease (delete_rules plane o feature_ueip s)
  unfolding delete_rules
  fars-Errs s id far found k =
      let same = λ (f : SfarInfo). f.far_global_id == far.far_global_id in
      Errs-rest CanRelease _ _ (Safe-for_each CanRelease _ _ delete_pdr_of-Safe) (λ a.
        Errs-first CanRelease _ _ (
          Errs-for_each CanRelease (λ x. same x.1) (delete_far_of plane o feature_ueip)
            ((branch 1 o).visit [] ℕ SfarInfo s.fars)
            (every_entry-perm (λ x. not (same x.1)) ((branch 1 o).visit-perm [] ℕ SfarInfo s.fars)
              ∙ every_entry-lookup same id far s.fars found (ground arith))
            delete_far-Safe
            (λ x e.
              plane-Errs _
                (subst (λ g. Errs (λ _. Unit {0}) (plane.delete_far g)) (ground (arith, e)) k))))

  qers-Errs :
      (s : Session) (id : ℕ) (qer : SqerInfo)
      → lookup id s.qers ≡ some qer
      → Errs (λ _. Unit {0}) (plane.delete_qer qer.qer_global_id)
      → Errs CanRelease (delete_rules plane o feature_ueip s)
  unfolding delete_rules
  qers-Errs s id qer found k =
      let same = λ (f : SqerInfo). f.qer_global_id == qer.qer_global_id in
      Errs-rest CanRelease _ _ (Safe-for_each CanRelease _ _ delete_pdr_of-Safe) (λ a.
        Errs-rest CanRelease _ _ (Safe-for_each CanRelease _ _ delete_far-Safe) (λ b.
          Errs-first CanRelease _ _ (
            Errs-for_each CanRelease (λ x. same x.1) (delete_qer_of plane o feature_ueip)
              ((branch 2 o).visit [] ℕ SqerInfo s.qers)
              (every_entry-perm (λ x. not (same x.1)) ((branch 2 o).visit-perm [] ℕ SqerInfo s.qers)
                ∙ every_entry-lookup same id qer s.qers found (ground arith))
              delete_qer-Safe
              (λ x e.
                plane-Errs _
                  (subst (λ g. Errs (λ _. Unit {0}) (plane.delete_qer g)) (ground (arith, e)) k)))))

  delete_rules-Errs :
      (s : Session) → Undeletable plane s → Errs CanRelease (delete_rules plane o feature_ueip s)
  delete_rules-Errs s (far_stays id far found k) = fars-Errs s id far found k
  delete_rules-Errs s (qer_stays id qer found k) = qers-Errs s id qer found k
  delete_rules-Errs s (pdr_stays id pdr ip found h k) =
      pdrs-Errs s id pdr ip found (rw h ((bytes_eq.beq_iff ip ip).1 refl)) k

module _ (plane : ForwardingPlaneController) (o : MapOrder) (conf : Config) where
  open plane use {Plane}
  open conf use {feature_ueip}

  failed-sent :
      (req : DeletionRequest) (addr : String) (a : NodeAssociation) (s : Session)
      (c : PfcpConnection Plane) (e : Error) (x : Outcome (Unit {0}) × Work Plane)
      → x.0 ≡ err e
      → (sent plane o conf (finish plane o feature_ueip req addr a s c x)).0 ≡ ok none
  failed-sent req addr a s c e (ok _, w) h = ground (arith, h)
  failed-sent req addr a s c e (err _, w) h = refl
  failed-sent req addr a s c e (panic, w) h = ground (arith, h)

  failed-kept :
      (req : DeletionRequest) (addr : String) (a : NodeAssociation) (s : Session)
      (c : PfcpConnection Plane) (e : Error) (x : Outcome (Unit {0}) × Work Plane)
      → x.0 ≡ err e
      → (sent plane o conf (finish plane o feature_ueip req addr a s c x)).1.node_associations
        ≡ c.node_associations
  failed-kept req addr a s c e (ok _, w) h = ground (arith, h)
  failed-kept req addr a s c e (err _, w) h = refl
  failed-kept req addr a s c e (panic, w) h = ground (arith, h)

  -- With a plane whose methods that delete do not panic, and on a UPF with a pool of tunnel ids:
  -- when a session has a FAR or a QER, or a PDR for an IPv4 address, that the plane fails to delete
  -- whatever its state, a peer that asks for the session's deletion gets no answer, and all
  -- associations stay as they are, with the session.
  pub handle-failed_deletion :
      (deletes : Deletes plane) (req : DeletionRequest) (addr : String) (a : NodeAssociation)
      (s : Session) (c : PfcpConnection Plane)
      → HasTeids c.resource_manager
      → lookup addr c.node_associations ≡ some a
      → lookup req.del_seid a.sessions ≡ some s
      → Undeletable plane s
      → ((handle plane o conf (datagram (some (session_deletion_request req)) addr) c).0 ≡ ok none)
        × ((handle plane o conf
              (datagram (some (session_deletion_request req)) addr)
              c).1.node_associations
            ≡ c.node_associations)
  unfolding handle dispatch handle_session_deletion_request
  handle-failed_deletion deletes req addr a s c pool ha hs stays =
      let x = delete_rules plane o feature_ueip s (start_work c.plane s c.resource_manager) in
      let (e, failed) = error_of_Failed CanRelease x (
        (delete_rules-Errs plane o feature_ueip deletes s stays).errs
          (start_work c.plane s c.resource_manager) pool) in
      rw (ha, hs, handle, dispatch, handle_session_deletion_request)
        (failed-sent req addr a s c e x failed, failed-kept req addr a s c e x failed)
