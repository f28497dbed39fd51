-- ===== src/Core/Handlers/Effects/Modified.antt =====
-- HandlePfcpSessionModificationRequest of cmd/core/pfcp_session_handlers.go and the sessions of all
-- peers.
use eupf.Base.{
  ℕ, ◌≡◌, refl, ◌∙◌, Bool, true, false, ◌&&◌, Option, none, some, String, nat_eq, string_eq, arith,
  if◌then◌else◌, ◌==◌,
}
use eupf.Base.Outcome.{Outcome, ok, err, panic}
use eupf.Base.Table.{lookup, insert, lookup-insert}
use eupf.Base.MapOrder.{MapOrder}
use eupf.Ebpf.Controller.{ForwardingPlaneController}
use eupf.Core.Session.{Session}
use eupf.Core.Work.{Work, start_work}
use eupf.Core.Connection.{PfcpConnection, NodeAssociation}
use eupf.Core.Handlers.Effects.{find_session, find_session-put}
use eupf.Core.Handlers.Apply.{change_rules}
use eupf.Core.Handlers.Modification.{
  ModificationRequest, handle_session_modification_request, with_cp_fseid, store, finish,
  with_session, with_association,
}

module _ (plane : ForwardingPlaneController) (o : MapOrder) (feature_ueip : Bool) where
  open plane use {Plane}

  -- The session that the rules leave.
  abbrev changed : ModificationRequest → Session → PfcpConnection Plane → Session
  changed req s c =
      (change_rules plane o feature_ueip req.mod_rules
        (start_work c.plane (with_cp_fseid req.mod_cp_fseid s) c.resource_manager)).1.session

  stored-effect :
      (req : ModificationRequest) (addr : String) (a : NodeAssociation) (c : PfcpConnection Plane)
      (w : Work Plane) (peer : String) (id : ℕ)
      → lookup addr c.node_associations ≡ some a
      → find_session peer id (store plane o feature_ueip req addr a w c) ≡ (
          if string_eq.beq addr peer && (req.mod_seid == id)
          then some w.session
          else find_session peer id c)
  stored-effect req addr a c w peer id found = ground (
    arith,
    lookup-insert req.mod_seid id w.session a.sessions,
    string_eq.beq_iff addr peer,
    find_session-put peer id addr (record a { sessions = insert req.mod_seid w.session a.sessions })
        c,
  )

  finish-effect :
      (req : ModificationRequest) (addr : String) (a : NodeAssociation) (c : PfcpConnection Plane)
      (x : Outcome (Unit {0}) × Work Plane) (peer : String) (id : ℕ)
      → lookup addr c.node_associations ≡ some a
      → find_session peer id (finish plane o feature_ueip req addr a c x).1 ≡ (
          if string_eq.beq addr peer && (req.mod_seid == id)
          then some x.1.session
          else find_session peer id c)
  finish-effect req addr a c (ok _, w) peer id found = stored-effect req addr a c w peer id found
  finish-effect req addr a c (err e, w) peer id found = stored-effect req addr a c w peer id found
  finish-effect req addr a c (panic, w) peer id found = stored-effect req addr a c w peer id found

  -- Other sessions stay, and the request's own becomes what its rules leave.
  abbrev pub then_changed :
      ModificationRequest → Bool → PfcpConnection Plane → Option Session → Option Session
  then_changed req own c none = none
  then_changed req own c (some s) = some (if own then changed req s c else s)

  missing-effect :
      (req : ModificationRequest) (b : Bool) (c : PfcpConnection Plane) (s : Option Session)
      → (b ≡ true → s ≡ none)
      → s ≡ then_changed req b c s
  missing-effect req b c none h = refl
  missing-effect req true c (some s) h = ground (arith, h refl)
  missing-effect req false c (some s) h = refl

  found-effect :
      (req : ModificationRequest) (b : Bool) (c : PfcpConnection Plane) (s : Session)
      (here : Option Session)
      → (b ≡ true → here ≡ some s)
      → (if b then some (changed req s c) else here) ≡ then_changed req b c here
  found-effect req true c s here h = ground (arith, h refl)
  found-effect req false c s none h = refl
  found-effect req false c s (some t) h = refl

  session-effect :
      (req : ModificationRequest) (addr : String) (a : NodeAssociation) (s : Option Session)
      (c : PfcpConnection Plane) (peer : String) (id : ℕ)
      → lookup addr c.node_associations ≡ some a
      → lookup req.mod_seid a.sessions ≡ s
      → find_session peer id (with_session plane o feature_ueip req addr a s c).1
        ≡ then_changed req
            (string_eq.beq addr peer && (req.mod_seid == id))
            c
            (find_session peer id c)
  unfolding handle_session_modification_request
  session-effect req addr a none c peer id found own =
      missing-effect req (string_eq.beq addr peer && (req.mod_seid == id)) c
        (find_session peer id c) (λ here. ground (arith, string_eq.beq_iff addr peer))
  session-effect req addr a (some s) c peer id found own =
      finish-effect req addr a c
        (change_rules plane o feature_ueip req.mod_rules
          (start_work c.plane (with_cp_fseid req.mod_cp_fseid s) c.resource_manager))
        peer id found
      ∙ found-effect req (string_eq.beq addr peer && (req.mod_seid == id)) c s
          (find_session peer id c) (λ here. ground (arith, string_eq.beq_iff addr peer))

  association-effect :
      (req : ModificationRequest) (addr : String) (a : Option NodeAssociation)
      (c : PfcpConnection Plane) (peer : String) (id : ℕ)
      → lookup addr c.node_associations ≡ a
      → find_session peer id (with_association plane o feature_ueip req addr a c).1
        ≡ then_changed req
            (string_eq.beq addr peer && (req.mod_seid == id))
            c
            (find_session peer id c)
  unfolding handle_session_modification_request lookup
  association-effect req addr none c peer id found =
      missing-effect req (string_eq.beq addr peer && (req.mod_seid == id)) c
        (find_session peer id c) (λ here. ground (arith, string_eq.beq_iff addr peer))
  association-effect req addr (some a) c peer id found =
      session-effect req addr a (lookup req.mod_seid a.sessions) c peer id found refl

  -- After a Session Modification Request, on every branch of the handler, the sessions of all
  -- peers are the ones before it, except that the session under the request's SEID in the
  -- sender's association, if there is one, is what the request's rules left, also when one of
  -- them failed.
  pub modification-effect :
      (req : ModificationRequest) (addr : String) (c : PfcpConnection Plane) (peer : String)
      (id : ℕ)
      → find_session peer id (handle_session_modification_request plane o feature_ueip req addr c).1
        ≡ then_changed req
            (string_eq.beq addr peer && (req.mod_seid == id))
            c
            (find_session peer id c)
  unfolding handle_session_modification_request
  modification-effect req addr c peer id =
      association-effect req addr (lookup addr c.node_associations) c peer id refl
