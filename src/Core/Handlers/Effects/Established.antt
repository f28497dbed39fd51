-- ===== src/Core/Handlers/Effects/Established.antt =====
-- HandlePfcpSessionEstablishmentRequest of cmd/core/pfcp_session_handlers.go and the sessions of
-- all peers.
use eupf.Base.{
  ℕ, ◌+◌, ◌^◌, ◌<◌, ◌≡◌, refl, Bool, false, ◌&&◌, Option, none, some, String, nat_eq, string_eq,
  arith, if◌then◌else◌, ◌==◌,
}
use eupf.Base.Outcome.{
  Outcome, ok, err, panic, Error, mandatory_ie_missing, no_established_association,
}
use eupf.Base.Table.{lookup, insert, lookup-insert}
use eupf.Base.MapOrder.{MapOrder}
use eupf.Ebpf.Controller.{ForwardingPlaneController}
use eupf.Core.Session.{Session, new_session}
use eupf.Core.Work.{Work, start_work}
use eupf.Core.Connection.{PfcpConnection, NodeAssociation, new_local_seid, Reply}
use eupf.Core.Handlers.Effects.{find_session, find_session-put, cause_of, is_accepted}
use eupf.Core.Handlers.Apply.{create_rules}
use eupf.Core.Invariant.{IsValid, lookup-IsAssociation, above-lookup}
use eupf.Core.Handlers.Establishment.{
  EstablishmentRequest, handle_session_establishment_request, validate_request,
  convert_error_to_ie_cause, with_valid, with_association, finish,
}

-- The SEID that the association of a peer gives out next.
abbrev pub next_seid : Option NodeAssociation → ℕ
next_seid none = 0
next_seid (some a) = (new_local_seid a).0

-- The control plane's SEID in a request that is complete.
abbrev pub cp_seid : Outcome ℕ → ℕ
cp_seid (ok seid) = seid
cp_seid _ = 0

pub convert_error_to_ie_cause-rejects :
    (e : Error) → is_accepted (some (convert_error_to_ie_cause e)) ≡ false
unfolding convert_error_to_ie_cause
convert_error_to_ie_cause-rejects mandatory_ie_missing = refl
convert_error_to_ie_cause-rejects no_established_association = refl
convert_error_to_ie_cause-rejects _ = refl

module _ (plane : ForwardingPlaneController) (o : MapOrder) (feature_ueip : Bool) where
  open plane use {Plane}

  -- The session that the rules of a request make.
  abbrev pub made :
      EstablishmentRequest → ℕ → ℕ → PfcpConnection Plane → Outcome (Unit {0}) × Work Plane
  made req remote_seid local_seid c =
      create_rules plane o feature_ueip req.est_rules
        (start_work c.plane (new_session local_seid remote_seid) c.resource_manager)

  finish-effect :
      (req : EstablishmentRequest) (addr : String) (remote_seid local_seid : ℕ)
      (a b : NodeAssociation) (c : PfcpConnection Plane) (x : Outcome (Unit {0}) × Work Plane)
      (peer : String) (id : ℕ)
      → lookup addr c.node_associations ≡ some a
      → b.sessions ≡ a.sessions
      → find_session peer id (finish plane o feature_ueip req addr remote_seid local_seid b c x).1
        ≡ (if is_accepted
                (cause_of (finish plane o feature_ueip req addr remote_seid local_seid b c x).0)
              && (string_eq.beq addr peer && (local_seid == id))
            then some x.1.session
            else find_session peer id c)
  finish-effect req addr remote_seid local_seid a b c (ok _, w) peer id found same = ground (
    arith,
    lookup-insert local_seid id w.session b.sessions,
    string_eq.beq_iff addr peer,
    find_session-put peer id addr (record b { sessions = insert local_seid w.session b.sessions })
        c,
  )
  finish-effect req addr remote_seid local_seid a b c (err e, w) peer id found same =
      ground (arith, string_eq.beq_iff addr peer, find_session-put peer id addr b c)
  finish-effect req addr remote_seid local_seid a b c (panic, w) peer id found same =
      ground (arith, string_eq.beq_iff addr peer, find_session-put peer id addr b c)

  abbrev pub effect :
      EstablishmentRequest
      → String
      → ℕ
      → Option NodeAssociation
      → Outcome Reply
      → PfcpConnection Plane
      → String
      → ℕ
      → Option Session
  effect req addr remote_seid a reply c peer id =
      if is_accepted (cause_of reply) && (string_eq.beq addr peer && (next_seid a == id))
      then some (made req remote_seid (next_seid a) c).1.session
      else find_session peer id c

  association-effect :
      (req : EstablishmentRequest) (addr : String) (remote_seid : ℕ) (a : Option NodeAssociation)
      (c : PfcpConnection Plane) (peer : String) (id : ℕ)
      → lookup addr c.node_associations ≡ a
      → find_session peer id (with_association plane o feature_ueip req addr remote_seid a c).1
        ≡ effect req addr remote_seid a
            (with_association plane o feature_ueip req addr remote_seid a c).0
            c
            peer
            id
  unfolding handle_session_establishment_request
  association-effect req addr remote_seid none c peer id found = refl
  association-effect req addr remote_seid (some a) c peer id found =
      finish-effect req addr remote_seid (new_local_seid a).0 a (new_local_seid a).1 c
        (made req remote_seid (new_local_seid a).0 c) peer id found refl

  valid-effect :
      (req : EstablishmentRequest) (addr : String) (v : Outcome ℕ) (c : PfcpConnection Plane)
      (peer : String) (id : ℕ)
      → find_session peer id (with_valid plane o feature_ueip req addr v c).1
        ≡ effect req addr
            (cp_seid v)
            (lookup addr c.node_associations)
            (with_valid plane o feature_ueip req addr v c).0
            c
            peer
            id
  unfolding handle_session_establishment_request
  valid-effect req addr (ok remote_seid) c peer id =
      association-effect req addr remote_seid (lookup addr c.node_associations) c peer id refl
  valid-effect req addr (err e) c peer id = ground (arith, convert_error_to_ie_cause-rejects e)
  valid-effect req addr panic c peer id = refl

  -- After a Session Establishment Request, on every branch of the handler: when the answer accepts
  -- it, the sender's association has the session that the rules made under the next local SEID,
  -- and every other session of every peer is what it was; otherwise no session changes.
  pub establishment-effect :
      (req : EstablishmentRequest) (addr : String) (c : PfcpConnection Plane) (peer : String)
      (id : ℕ)
      → find_session peer id
          (handle_session_establishment_request plane o feature_ueip req addr c).1
        ≡ effect req addr
            (cp_seid (validate_request req.est_node_id req.est_cp_fseid))
            (lookup addr c.node_associations)
            (handle_session_establishment_request plane o feature_ueip req addr c).0
            c
            peer
            id
  unfolding handle_session_establishment_request
  establishment-effect req addr c peer id =
      valid-effect req addr (validate_request req.est_node_id req.est_cp_fseid) c peer id

  fresh-lookup :
      (n : ℕ) (addr : String) (a : Option NodeAssociation) (c : PfcpConnection Plane)
      → lookup addr c.node_associations ≡ a
      → n + 1 < 2 ^ 64
      → IsValid n c
      → find_session addr (next_seid a) c ≡ none
  unfolding lookup new_local_seid
  fresh-lookup n addr none c found small h = ground (arith, found)
  fresh-lookup n addr (some a) c found small h =
      let k = lookup-IsAssociation n addr a c.node_associations h found in
      ground
        (arith, found, above-lookup a (new_local_seid a).0 k.entries (omega (arith, k.counted)))

  -- In a valid connection that has room for one more local SEID, a Session Establishment Request
  -- leaves every session of every peer in place, unchanged.
  pub establishment-keeps :
      (n : ℕ) (req : EstablishmentRequest) (addr : String) (c : PfcpConnection Plane)
      (peer : String) (id : ℕ) (s : Session)
      → n + 1 < 2 ^ 64
      → IsValid n c
      → find_session peer id c ≡ some s
      → find_session peer id
          (handle_session_establishment_request plane o feature_ueip req addr c).1
        ≡ some s
  establishment-keeps n req addr c peer id s small h here = ground (
    arith,
    establishment-effect req addr c peer id,
    fresh-lookup n addr (lookup addr c.node_associations) c refl small h,
    string_eq.beq_iff addr peer,
  )
