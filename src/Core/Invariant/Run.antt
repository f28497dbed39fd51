-- ===== src/Core/Invariant/Run.antt =====
-- The loop PfcpConnection.Run of cmd/core/pfcp_connection.go and the invariant of the connection.
use eupf.Base.{
  numbered, ℕ, suc, ◌+◌, ◌^◌, ◌<◌, ◌≡◌, refl, sym, subst, Option, none, some, String, [], nat_eq,
  string_eq, arith,
}
use eupf.Base.Outcome.{Outcome, ok, err, panic, M, bind_with}
use eupf.Base.Outcome.Fixes.{Fixes, Fixes-for_each}
use eupf.Base.Table.{Table, lookup, remove}
use eupf.Base.MapOrder.{MapOrder, branch}
use eupf.Ebpf.Controller.{ForwardingPlaneController}
use eupf.Core.Session.{Session}
use eupf.Core.Connection.{PfcpConnection, NodeAssociation, Reply, get_association}
use eupf.Core.Handlers.Teardown.{delete_session, delete_association, delete_found, delete_entry}
use eupf.Core.Handlers.Dispatch.{
  Message, Event, Config, Reaches, start, turn, dispatch, handle, sent, torn_down, datagram,
  heartbeat_failed, heartbeat_request, heartbeat_reply, association_setup_request,
  association_setup_reply, association_update_request, session_establishment_request,
  session_modification_request, session_deletion_request, unhandled,
}
use eupf.Core.Handlers.Association.{
  UpdateRequest, handle_heartbeat_request, handle_heartbeat_response,
  handle_association_update_request, update_with, update_of,
}
use eupf.Core.Handlers.Establishment.{Field}
use eupf.Core.Invariant.{IsValid, AreAssociations, suc-AreAssociations, remove-AreAssociations}
use eupf.Core.Invariant.Establish.{handle_session_establishment_request-IsValid}
use eupf.Core.Invariant.Change.{
  handle_session_modification_request-IsValid, handle_session_deletion_request-IsValid,
}
use eupf.Core.Invariant.Associate.{
  handle_association_setup_request-IsValid, handle_association_setup_response-IsValid,
}

abbrev associations : {Plane : Type 0} → PfcpConnection Plane → Table String NodeAssociation
associations c = c.node_associations

module _ {Plane : Type 0} where
  heartbeat_request-Fixes :
      (sequence : ℕ) (ts : Outcome ℕ)
      → Fixes (associations {Plane = Plane}) (handle_heartbeat_request sequence ts)
  unfolding handle_heartbeat_request
  heartbeat_request-Fixes sequence (ok _) = record { at = λ c. refl }
  heartbeat_request-Fixes sequence (err e) = record { at = λ c. refl }
  heartbeat_request-Fixes sequence panic = record { at = λ c. refl }

  hand_lem :
      (sequence : ℕ) (addr : String) (found : Option NodeAssociation) (c : PfcpConnection Plane)
      → associations (eupf.Core.Handlers.Association.hand_heartbeat addr sequence found c)
        ≡ associations c
  hand_lem sequence addr none c = refl
  hand_lem sequence addr (some _) c = refl

  heartbeat_reply-Fixes :
      (sequence : ℕ) (ts : Outcome ℕ) (addr : String)
      → Fixes (associations {Plane = Plane}) (handle_heartbeat_response sequence ts addr)
  unfolding handle_heartbeat_response
  heartbeat_reply-Fixes sequence (ok _) addr = record {
    at = λ c. hand_lem sequence addr (get_association addr c) c;
  }
  heartbeat_reply-Fixes sequence (err e) addr = record { at = λ c. refl }
  heartbeat_reply-Fixes sequence panic addr = record { at = λ c. refl }

  update_of-Fixes :
      (sequence : ℕ) (found : Option NodeAssociation) (c : PfcpConnection Plane)
      → associations (update_of sequence found c).1 ≡ associations c
  update_of-Fixes sequence none c = refl
  update_of-Fixes sequence (some _) c = refl

  update_with-Fixes :
      (addr : String) (sequence : ℕ) (node_id : Field String)
      → Fixes (associations {Plane = Plane}) (update_with addr sequence node_id)
  update_with-Fixes addr sequence none = record { at = λ c. refl }
  update_with-Fixes addr sequence (some none) = record { at = λ c. refl }
  update_with-Fixes addr sequence (some (some _)) = record {
    at = λ c. update_of-Fixes sequence (lookup addr c.node_associations) c;
  }

  update_request-Fixes :
      (req : UpdateRequest) (addr : String)
      → Fixes (associations {Plane = Plane}) (handle_association_update_request req addr)
  unfolding handle_association_update_request
  update_request-Fixes req addr = update_with-Fixes addr req.update_sequence req.update_node_id

  fixed-IsValid :
      {A : Type 0} (n : ℕ) (m : M (PfcpConnection Plane) A) (c : PfcpConnection Plane)
      → Fixes associations m
      → IsValid n c
      → IsValid (suc n) (m c).1
  fixed-IsValid n m c f h =
      subst (AreAssociations (suc n)) (sym (f.at c)) (suc-AreAssociations n c.node_associations h)

module _ (plane : ForwardingPlaneController) (o : MapOrder) (conf : Config) where
  open plane use {Plane}
  open conf use {heartbeat_timeout, feature_ueip}

  dispatch-IsValid :
      (n : ℕ) (m : Message) (addr : String) (c : PfcpConnection Plane)
      → n + 1 < 2 ^ 64
      → IsValid n c
      → IsValid (suc n) (dispatch plane o conf m addr c).1
  unfolding dispatch
  dispatch-IsValid n (heartbeat_request sequence ts) addr c small h =
      fixed-IsValid n _ c (heartbeat_request-Fixes sequence ts) h
  dispatch-IsValid n (heartbeat_reply sequence ts) addr c small h =
      fixed-IsValid n _ c (heartbeat_reply-Fixes sequence ts addr) h
  dispatch-IsValid n (association_setup_request req) addr c small h =
      handle_association_setup_request-IsValid n heartbeat_timeout req addr c h
  dispatch-IsValid n (association_setup_reply res) addr c small h =
      handle_association_setup_response-IsValid n heartbeat_timeout res addr c h
  dispatch-IsValid n (association_update_request req) addr c small h =
      fixed-IsValid n _ c (update_request-Fixes req addr) h
  dispatch-IsValid n (session_establishment_request req) addr c small h =
      handle_session_establishment_request-IsValid plane o feature_ueip n req addr c small h
  dispatch-IsValid n (session_modification_request req) addr c small h =
      suc-AreAssociations n _
        (handle_session_modification_request-IsValid plane o feature_ueip n req addr c h)
  dispatch-IsValid n (session_deletion_request req) addr c small h =
      suc-AreAssociations n _
        (handle_session_deletion_request-IsValid plane o feature_ueip n req addr c h)
  dispatch-IsValid n unhandled addr c small h = suc-AreAssociations n c.node_associations h

  delete_session-Fixes :
      (places : MapOrder) (s : Session)
      → Fixes associations (delete_session plane places feature_ueip s)
  unfolding delete_session
  delete_session-Fixes places s = record { at = λ c. refl }

  delete_found-IsValid :
      (n : ℕ) (addr : String) (found : Option NodeAssociation) (c : PfcpConnection Plane)
      → IsValid n c
      → IsValid n (delete_found plane o feature_ueip addr found c).1
  delete_found-IsValid n addr none c h = h
  delete_found-IsValid n addr (some a) c h = removed-IsValid n addr c h _ (
      (Fixes-for_each associations (delete_entry plane o feature_ueip)
          (numbered 0 ((branch 0 o).visit [] ℕ Session a.sessions))
          (λ x. delete_session-Fixes (branch x.0 (branch 1 o)) x.1.1)).at
        c)
    where
      removed-IsValid :
          (n : ℕ) (addr : String) (c : PfcpConnection Plane)
          → IsValid n c
          → (x : Outcome (Unit {0}) × PfcpConnection Plane) → associations x.1 ≡ associations c
          → IsValid n
              (bind_with
                (λ _ d. (ok tt, record d { node_associations = remove addr d.node_associations }))
                x).1
      removed-IsValid n addr c h (ok _, d) same =
          remove-AreAssociations n addr d.node_associations (subst (AreAssociations n) (sym same) h)
      removed-IsValid n addr c h (err e, d) same = subst (AreAssociations n) (sym same) h
      removed-IsValid n addr c h (panic, d) same = subst (AreAssociations n) (sym same) h

  delete_association-IsValid :
      (n : ℕ) (addr : String) (c : PfcpConnection Plane)
      → IsValid n c
      → IsValid n (delete_association plane o feature_ueip addr c).1
  unfolding delete_association
  delete_association-IsValid n addr c h = delete_found-IsValid n addr (get_association addr c) c h

  sent_lem : (x : Outcome Reply × PfcpConnection Plane) → (sent plane o conf x).1 ≡ x.1
  sent_lem (ok r, c) = refl
  sent_lem (err e, c) = refl
  sent_lem (panic, c) = refl

  torn_down_lem :
      (x : Outcome (Unit {0}) × PfcpConnection Plane) → (torn_down plane o conf x).1 ≡ x.1
  torn_down_lem (ok r, c) = refl
  torn_down_lem (err e, c) = refl
  torn_down_lem (panic, c) = refl

  handle-IsValid :
      (n : ℕ) (e : Event) (c : PfcpConnection Plane)
      → n + 1 < 2 ^ 64
      → IsValid n c
      → IsValid (suc n) (handle plane o conf e c).1
  unfolding handle
  handle-IsValid n (datagram none addr) c small h = suc-AreAssociations n c.node_associations h
  handle-IsValid n (datagram (some m) addr) c small h =
      subst (IsValid (suc n)) (sym (sent_lem (dispatch plane o conf m addr c)))
        (dispatch-IsValid n m addr c small h)
  handle-IsValid n (heartbeat_failed addr) c small h =
      subst (IsValid (suc n)) (sym (torn_down_lem (delete_association plane o feature_ueip addr c)))
        (suc-AreAssociations n _ (delete_association-IsValid n addr c h))

module _ (plane : ForwardingPlaneController) (conf : Config) where
  open plane use {Plane}

  -- Any connection that the loop reaches in `n` turns, fewer than 2^64, from one without
  -- associations is valid: associations stand under their own addresses, each once, no SEID
  -- counter is above `n`, and sessions stand under their own local SEIDs, each once and none
  -- above the counter.
  pub reached-IsValid :
      (c d : PfcpConnection Plane) (n : ℕ)
      → c.node_associations ≡ []
      → n < 2 ^ 64
      → Reaches plane conf c n d
      → IsValid n d
  reached-IsValid c d n fresh small start = subst (AreAssociations 0) (sym fresh) (tt, tt)
  reached-IsValid c _ _ fresh small (turn {n} {d} o e r) =
      handle-IsValid plane o conf n e d (omega arith) (reached-IsValid c d n fresh (omega arith) r)
