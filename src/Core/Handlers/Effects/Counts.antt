-- ===== src/Core/Handlers/Effects/Counts.antt =====
-- GetSessionCount of cmd/core/pfcp_connection.go after a session is established or deleted.
use eupf.Base.{
  ℕ, ◌+◌, ◌^◌, ◌<◌, ◌≡◌, refl, ◌∙◌, Bool, Option, none, some, String, nat_eq, string_eq, arith,
  if◌then◌else◌,
}
use eupf.Base.Outcome.{Outcome, ok, err, panic}
use eupf.Base.Table.{Table, lookup, insert, remove}
use eupf.Base.MapOrder.{MapOrder}
use eupf.Ebpf.Controller.{ForwardingPlaneController}
use eupf.Core.Session.{Session}
use eupf.Core.Work.{Work, start_work}
use eupf.Core.Connection.{PfcpConnection, NodeAssociation, new_local_seid, put_association}
use eupf.Core.Handlers.Effects.{cause_of, is_accepted}
use eupf.Base.{length, ap}
use eupf.Base.Table.Total.{length-total, share, total-insert, total-remove, UniqueKeys}
use eupf.Core.Connection.{get_session_count}
use eupf.Core.Invariant.{IsValid, lookup-IsAssociation, above-lookup}
use eupf.Core.Handlers.Deletion.{DeletionRequest, handle_session_deletion_request, delete_rules}
use eupf.Core.Handlers.Deletion as Deletion
use eupf.Core.Handlers.Establishment.{
  EstablishmentRequest, handle_session_establishment_request, validate_request, with_valid,
  with_association, finish,
}
use eupf.Core.Handlers.Effects.Established.{made, convert_error_to_ie_cause-rejects}

abbrev pub counted : Bool → ℕ
counted b = if b then 1 else 0

length-insert_new :
    (id : ℕ) (s : Session) (m : Table ℕ Session)
    → lookup id m ≡ none
    → length (insert id s m) ≡ length m + 1
length-insert_new id s m new =
    let nothing : share (λ _. 1) (lookup id m) ≡ 0 = ap (share (λ _. 1)) new in
    omega
      (arith, nothing, length-total m, length-total (insert id s m), total-insert (λ _. 1) id s m)

length-remove_found :
    (id : ℕ) (s : Session) (m : Table ℕ Session)
    → UniqueKeys m
    → lookup id m ≡ some s
    → length (remove id m) + 1 ≡ length m
length-remove_found id s m u found =
    let there : share (λ _. 1) (lookup id m) ≡ 1 = ap (share (λ _. 1)) found in
    omega (arith, there, length-total m, length-total (remove id m), total-remove (λ _. 1) id m u)

module _ {Plane : Type 0} where
  get_session_count-put :
      (addr : String) (a b : NodeAssociation) (c : PfcpConnection Plane)
      → lookup addr c.node_associations ≡ some a
      → get_session_count (put_association addr b c) + length a.sessions
        ≡ get_session_count c + length b.sessions
  unfolding get_session_count
  get_session_count-put addr a b c found =
      let old : share (λ d. length d.sessions) (lookup addr c.node_associations)
          ≡ length a.sessions =
        ap (share (λ d. length d.sessions)) found in
      omega (arith, old, total-insert (λ d. length d.sessions) addr b c.node_associations)

module _ (plane : ForwardingPlaneController) (o : MapOrder) (feature_ueip : Bool) where
  open plane use {Plane}

  deleted-count :
      (req : DeletionRequest) (addr : String) (a : NodeAssociation) (s : Session)
      (c : PfcpConnection Plane) (x : Outcome (Unit {0}) × Work Plane)
      → lookup addr c.node_associations ≡ some a
      → lookup req.del_seid a.sessions ≡ some s
      → UniqueKeys a.sessions
      → get_session_count (Deletion.finish plane o feature_ueip req addr a s c x).1
          + counted
              (is_accepted (cause_of (Deletion.finish plane o feature_ueip req addr a s c x).0))
        ≡ get_session_count c
  unfolding get_session_count
  deleted-count req addr a s c (ok _, w) ha hs u = omega (
    arith,
    length-remove_found req.del_seid s a.sessions u hs,
    get_session_count-put addr a (record a { sessions = remove req.del_seid a.sessions }) c ha,
  )
  deleted-count req addr a s c (err e, w) ha hs u = omega arith
  deleted-count req addr a s c (panic, w) ha hs u = omega arith

  made-count :
      (req : EstablishmentRequest) (addr : String) (remote_seid id : ℕ) (a b : NodeAssociation)
      (c : PfcpConnection Plane) (x : Outcome (Unit {0}) × Work Plane)
      → lookup addr c.node_associations ≡ some a
      → b.sessions ≡ a.sessions
      → lookup id a.sessions ≡ none
      → get_session_count (finish plane o feature_ueip req addr remote_seid id b c x).1
        ≡ get_session_count c
          + counted
              (is_accepted (cause_of (finish plane o feature_ueip req addr remote_seid id b c x).0))
  unfolding get_session_count
  made-count req addr remote_seid id a b c (ok _, w) ha same new = omega (
    arith,
    length-insert_new id w.session b.sessions (ap (lookup id) same ∙ new),
    ap length same,
    get_session_count-put addr a (record b { sessions = insert id w.session b.sessions }) c ha,
  )
  made-count req addr remote_seid id a b c (err e, w) ha same new =
      omega (arith, ap length same, get_session_count-put addr a b c ha)
  made-count req addr remote_seid id a b c (panic, w) ha same new =
      omega (arith, ap length same, get_session_count-put addr a b c ha)

  session-count :
      (req : DeletionRequest) (addr : String) (a : NodeAssociation) (s : Option Session)
      (c : PfcpConnection Plane)
      → lookup addr c.node_associations ≡ some a
      → lookup req.del_seid a.sessions ≡ s
      → UniqueKeys a.sessions
      → get_session_count (Deletion.with_session plane o feature_ueip req addr a s c).1
          + counted
              (is_accepted (cause_of (Deletion.with_session plane o feature_ueip req addr a s c).0))
        ≡ get_session_count c
  unfolding handle_session_deletion_request
  session-count req addr a none c ha hs u = omega arith
  session-count req addr a (some s) c ha hs u =
      deleted-count req addr a s c
        (delete_rules plane o feature_ueip s (start_work c.plane s c.resource_manager)) ha hs u

  deletion_found-count :
      (n : ℕ) (req : DeletionRequest) (addr : String) (a : Option NodeAssociation)
      (c : PfcpConnection Plane)
      → IsValid n c
      → lookup addr c.node_associations ≡ a
      → get_session_count (Deletion.with_association plane o feature_ueip req addr a c).1
          + counted (
              is_accepted
                (cause_of (Deletion.with_association plane o feature_ueip req addr a c).0))
        ≡ get_session_count c
  unfolding handle_session_deletion_request
  deletion_found-count n req addr none c h ha = omega arith
  deletion_found-count n req addr (some a) c h ha =
      session-count req addr a (lookup req.del_seid a.sessions) c ha refl
        (lookup-IsAssociation n addr a c.node_associations h ha).keys

  establishment_found-count :
      (n : ℕ) (req : EstablishmentRequest) (addr : String) (remote_seid : ℕ)
      (a : Option NodeAssociation) (c : PfcpConnection Plane)
      → n + 1 < 2 ^ 64
      → IsValid n c
      → lookup addr c.node_associations ≡ a
      → get_session_count (with_association plane o feature_ueip req addr remote_seid a c).1
        ≡ get_session_count c
          + counted (
              is_accepted
                (cause_of (with_association plane o feature_ueip req addr remote_seid a c).0))
  unfolding handle_session_establishment_request new_local_seid
  establishment_found-count n req addr remote_seid none c small h ha = omega arith
  establishment_found-count n req addr remote_seid (some a) c small h ha =
      let k = lookup-IsAssociation n addr a c.node_associations h ha in
      made-count req addr remote_seid (new_local_seid a).0 a (new_local_seid a).1 c
        (made plane o feature_ueip req remote_seid (new_local_seid a).0 c) ha refl
        (above-lookup a (new_local_seid a).0 k.entries (omega (arith, k.counted)))

  valid-count :
      (n : ℕ) (req : EstablishmentRequest) (addr : String) (v : Outcome ℕ)
      (c : PfcpConnection Plane)
      → n + 1 < 2 ^ 64
      → IsValid n c
      → get_session_count (with_valid plane o feature_ueip req addr v c).1
        ≡ get_session_count c
          + counted (is_accepted (cause_of (with_valid plane o feature_ueip req addr v c).0))
  unfolding handle_session_establishment_request
  valid-count n req addr (ok remote_seid) c small h =
      establishment_found-count n req addr remote_seid (lookup addr c.node_associations) c small h
        refl
  valid-count n req addr (err e) c small h = ground (arith, convert_error_to_ie_cause-rejects e)
  valid-count n req addr panic c small h = omega arith

  -- In a valid connection with room for one more local SEID, GetSessionCount grows by one when a
  -- Session Establishment Request is accepted, falls by one when a Session Deletion Request is
  -- accepted, and stays the same when either is not.
  pub get_session_count-accepted :
      (n : ℕ) (req : EstablishmentRequest) (del : DeletionRequest) (addr : String)
      (c : PfcpConnection Plane)
      → n + 1 < 2 ^ 64
      → IsValid n c
      → (get_session_count (handle_session_establishment_request plane o feature_ueip req addr c).1
          ≡ get_session_count c
            + counted (
                is_accepted (
                  cause_of
                    (handle_session_establishment_request plane o feature_ueip req addr c).0)))
        × (get_session_count (handle_session_deletion_request plane o feature_ueip del addr c).1
              + counted (
                  is_accepted
                    (cause_of (handle_session_deletion_request plane o feature_ueip del addr c).0))
            ≡ get_session_count c)
  unfolding handle_session_establishment_request handle_session_deletion_request
  get_session_count-accepted n req del addr c small h = (
    valid-count n req addr (validate_request req.est_node_id req.est_cp_fseid) c small h,
    deletion_found-count n del addr (lookup addr c.node_associations) c h refl,
  )
