-- ===== src/Core/Handlers/Effects/Associated.antt =====
-- The association handlers of cmd/core/pfcp_handlers.go, and DeleteAssociation of
-- cmd/core/pfcp_connection.go, and the sessions of all peers.
use eupf.Base.{
  numbered, [], ℕ, ◌≡◌, refl, ◌∙◌, Bool, Option, none, some, String, nat_eq, string_eq, arith,
  if◌then◌else◌,
}
use eupf.Base.Outcome.{Outcome, ok, err, panic}
use eupf.Base.Table.{lookup, remove, lookup-remove}
use eupf.Base.MapOrder.{MapOrder, branch}
use eupf.Ebpf.Controller.{ForwardingPlaneController}
use eupf.Core.Session.{Session}
use eupf.Core.Connection.{PfcpConnection, NodeAssociation, put_association}
use eupf.Core.Handlers.Effects.{find_session, find_session-put}
use eupf.Base.Outcome.{for_each, bind_with}
use eupf.Base.Outcome.Fixes.{Fixes-for_each}
use eupf.Core.Connection.{new_node_association, get_association}
use eupf.Core.Handlers.Establishment.{Field}
use eupf.Core.Handlers.Association.{
  SetupRequest, SetupResponse, handle_association_setup_request, handle_association_setup_response,
  associate, schedule, setup_with, accept, check_response,
}
use eupf.Core.Handlers.Teardown.{delete_session, delete_association, delete_found, delete_entry}

module _ {Plane : Type 0} where
  scheduled-sessions :
      (hb : ℕ) (addr : String) (c : PfcpConnection Plane) (peer : String) (id : ℕ)
      → find_session peer id (schedule hb addr c) ≡ find_session peer id c
  scheduled-sessions hb addr c peer id = ground arith

  associate-sessions :
      (hb : ℕ) (node_id addr : String) (a : Option NodeAssociation) (c : PfcpConnection Plane)
      (peer : String) (id : ℕ)
      → lookup addr c.node_associations ≡ a
      → find_session peer id (associate hb node_id addr a c) ≡ find_session peer id c
  unfolding handle_association_setup_request lookup
  associate-sessions hb node_id addr (some _) c peer id found = refl
  associate-sessions hb node_id addr none c peer id found =
      scheduled-sessions hb addr (put_association addr (new_node_association node_id addr) c) peer
        id
      ∙ ground (
        arith,
        found,
        string_eq.beq_iff addr peer,
        find_session-put peer id addr (new_node_association node_id addr) c,
      )

  setup-sessions :
      (hb : ℕ) (addr : String) (sequence : ℕ) (node_id : Field String) (ts : Field ℕ)
      (c : PfcpConnection Plane) (peer : String) (id : ℕ)
      → find_session peer id (setup_with hb addr sequence node_id ts c).1 ≡ find_session peer id c
  unfolding handle_association_setup_request
  setup-sessions hb addr sequence (some (some node_id)) (some (some _)) c peer id =
      associate-sessions hb node_id addr (lookup addr c.node_associations) c peer id refl
  setup-sessions hb addr sequence none _ c peer id = refl
  setup-sessions hb addr sequence (some none) _ c peer id = refl
  setup-sessions hb addr sequence (some (some _)) none c peer id = refl
  setup-sessions hb addr sequence (some (some _)) (some none) c peer id = refl

  accept-sessions :
      (hb : ℕ) (addr : String) (x : Outcome (Option String)) (c : PfcpConnection Plane)
      (peer : String) (id : ℕ)
      → find_session peer id (accept hb addr x c).1 ≡ find_session peer id c
  unfolding handle_association_setup_response
  accept-sessions hb addr (ok none) c peer id = refl
  accept-sessions hb addr (ok (some node_id)) c peer id =
      associate-sessions hb node_id addr (lookup addr c.node_associations) c peer id refl
  accept-sessions hb addr (err e) c peer id = refl
  accept-sessions hb addr panic c peer id = refl

  -- An Association Setup Request and an Association Setup Response, on every branch of their
  -- handlers, change no session of any peer.
  pub association_setup-sessions :
      (hb : ℕ) (req : SetupRequest) (res : SetupResponse) (addr : String) (c : PfcpConnection Plane)
      (peer : String) (id : ℕ)
      → (find_session peer id (handle_association_setup_request hb req addr c).1
          ≡ find_session peer id c)
        × (find_session peer id (handle_association_setup_response hb res addr c).1
            ≡ find_session peer id c)
  unfolding handle_association_setup_request handle_association_setup_response
  association_setup-sessions hb req res addr c peer id = (
    setup-sessions hb addr req.setup_sequence req.setup_node_id req.setup_recovery_time_stamp c peer
        id,
    accept-sessions hb addr
        (check_response res.reply_node_id res.reply_cause res.reply_cp_function_features) c peer id,
  )

module _ (plane : ForwardingPlaneController) (o : MapOrder) (feature_ueip : Bool) where
  open plane use {Plane}

  abbrev removed :
      String → Outcome (Unit {0}) × PfcpConnection Plane → Outcome (Unit {0}) × PfcpConnection Plane
  removed addr =
      bind_with (λ _ d. (ok tt, record d { node_associations = remove addr d.node_associations }))

  removed-sessions :
      (addr : String) (c : PfcpConnection Plane) (x : Outcome (Unit {0}) × PfcpConnection Plane)
      (peer : String) (id : ℕ)
      → x.1.node_associations ≡ c.node_associations
      → (removed addr x).0 ≡ ok tt
      → find_session peer id (removed addr x).1
        ≡ (if string_eq.beq addr peer then none else find_session peer id c)
  unfolding lookup
  removed-sessions addr c (ok _, d) peer id same done =
      ground (arith, lookup-remove addr peer d.node_associations, same)
  removed-sessions addr c (err e, d) peer id same done = ground (arith, done)
  removed-sessions addr c (panic, d) peer id same done = ground (arith, done)

  found-sessions :
      (addr : String) (a : Option NodeAssociation) (c : PfcpConnection Plane) (peer : String)
      (id : ℕ)
      → (delete_found plane o feature_ueip addr a c).0 ≡ ok tt
      → find_session peer id (delete_found plane o feature_ueip addr a c).1
        ≡ (if string_eq.beq addr peer then none else find_session peer id c)
  unfolding delete_session
  found-sessions addr none c peer id done = ground (arith, done)
  found-sessions addr (some a) c peer id done =
      removed-sessions addr c
        (for_each (delete_entry plane o feature_ueip)
          (numbered 0 ((branch 0 o).visit [] ℕ Session a.sessions)) c)
        peer id
        ((Fixes-for_each (λ d. d.node_associations) (delete_entry plane o feature_ueip)
            (numbered 0 ((branch 0 o).visit [] ℕ Session a.sessions))
            (λ x. record { at = λ d. refl })).at
          c)
        done

  -- When DeleteAssociation returns, the association's sessions are gone and every session of
  -- every other peer is what it was.
  pub delete_association-sessions :
      (addr : String) (c : PfcpConnection Plane) (peer : String) (id : ℕ)
      → (delete_association plane o feature_ueip addr c).0 ≡ ok tt
      → find_session peer id (delete_association plane o feature_ueip addr c).1
        ≡ (if string_eq.beq addr peer then none else find_session peer id c)
  unfolding delete_association
  delete_association-sessions addr c peer id done =
      found-sessions addr (get_association addr c) c peer id done
