-- ===== src/Core/Handlers/Dispatch.antt =====
-- PfcpHandlerMap.Handle of cmd/core/pfcp_handlers.go with the handlers that
-- cmd/core/pfcp_connection.go registers, and the events of the loop PfcpConnection.Run.
use eupf.Base.{ℕ, suc, Bool, String, List, [], ◌∷◌, Option, none, some}
use eupf.Base.Outcome.{Outcome, ok, err, panic, M}
use eupf.Base.MapOrder.{MapOrder, branch}
use eupf.Ebpf.Controller.{ForwardingPlaneController}
use eupf.Core.Connection.{PfcpConnection, Response, Reply, no_reply}
use eupf.Core.Handlers.Establishment.{EstablishmentRequest, handle_session_establishment_request}
use eupf.Core.Handlers.Modification.{ModificationRequest, handle_session_modification_request}
use eupf.Core.Handlers.Deletion.{DeletionRequest, handle_session_deletion_request}
use eupf.Core.Handlers.Association.{
  SetupRequest, UpdateRequest, SetupResponse, handle_association_setup_request,
  handle_association_update_request, handle_association_setup_response, handle_heartbeat_request,
  handle_heartbeat_response,
}
use eupf.Core.Handlers.Teardown.{delete_association}

-- A decoded message; `unhandled` is one of a type that is not in the map.
pub data Message : Type 0 where
  heartbeat_request heartbeat_reply : ℕ → Outcome ℕ → Message
  association_setup_request : SetupRequest → Message
  association_setup_reply : SetupResponse → Message
  association_update_request : UpdateRequest → Message
  session_establishment_request : EstablishmentRequest → Message
  session_modification_request : ModificationRequest → Message
  session_deletion_request : DeletionRequest → Message
  unhandled : Message

-- What the loop takes up: a datagram, none if it does not decode, or the end of an association's
-- heartbeats.
pub data Event : Type 0 where
  datagram : Option Message → String → Event
  heartbeat_failed : String → Event

-- The configuration that the handlers read.
pub record Config : Type 0 where
  pub heartbeat_timeout : ℕ
  pub feature_ueip : Bool

-- An error ends the handling before anything is sent.
abbrev pub to_send : Reply → Option Response
to_send r = elim r.failure [ none ↦ r.response | some _ ↦ none ]

module _ (plane : ForwardingPlaneController) (o : MapOrder) (conf : Config) where
  open plane use {Plane}
  open conf use {heartbeat_timeout, feature_ueip}

  abbrev C : Type 0
  C = PfcpConnection Plane

  unfoldable pub dispatch : Message → String → M C Reply
  dispatch (heartbeat_request sequence ts) addr c = handle_heartbeat_request sequence ts c
  dispatch (heartbeat_reply sequence ts) addr c = handle_heartbeat_response sequence ts addr c
  dispatch (association_setup_request req) addr c =
      handle_association_setup_request heartbeat_timeout req addr c
  dispatch (association_setup_reply res) addr c =
      handle_association_setup_response heartbeat_timeout res addr c
  dispatch (association_update_request req) addr c = handle_association_update_request req addr c
  dispatch (session_establishment_request req) addr c =
      handle_session_establishment_request plane o feature_ueip req addr c
  dispatch (session_modification_request req) addr c =
      handle_session_modification_request plane o feature_ueip req addr c
  dispatch (session_deletion_request req) addr c =
      handle_session_deletion_request plane o feature_ueip req addr c
  dispatch unhandled addr c = (ok no_reply, c)

  abbrev pub sent : Outcome Reply × C → Outcome (Option Response) × C
  sent (ok r, c) = (ok (to_send r), c)
  sent (err e, c) = (ok none, c)
  sent (panic, c) = (panic, c)

  abbrev pub torn_down : Outcome (Unit {0}) × C → Outcome (Option Response) × C
  torn_down (ok _, c) = (ok none, c)
  torn_down (err e, c) = (ok none, c)
  torn_down (panic, c) = (panic, c)

  -- One turn of the loop: what it sends, and the connection after it.
  unfoldable pub handle : Event → M C (Option Response)
  handle (datagram none addr) c = (ok none, c)
  handle (datagram (some m) addr) c = sent (dispatch m addr c)
  handle (heartbeat_failed addr) c = torn_down (delete_association plane o feature_ueip addr c)

module _ (plane : ForwardingPlaneController) (conf : Config) where
  open plane use {Plane}

  -- The connection after a sequence of turns; a panic ends it.
  abbrev pub next :
      (PfcpConnection Plane → Outcome (PfcpConnection Plane))
      → Outcome (Option Response) × PfcpConnection Plane
      → Outcome (PfcpConnection Plane)
  next rest (ok _, c) = rest c
  next rest (err e, c) = rest c
  next rest (panic, c) = panic

  unfoldable pub run : MapOrder → List Event → PfcpConnection Plane → Outcome (PfcpConnection Plane)
  run o [] c = ok c
  run o (e ∷ es) c = next (run (branch 1 o) es) (handle plane (branch 0 o) conf e c)

  -- The connections that the loop can be in after a number of turns, each with any orders of its
  -- ranges; a turn that panics counts.
  pub data Reaches (c : PfcpConnection Plane) : ℕ → PfcpConnection Plane → Type 1 where
    start : Reaches c 0 c
    turn :
        {n : ℕ} {d : PfcpConnection Plane} (o : MapOrder) (e : Event)
        → Reaches c n d
        → Reaches c (suc n) (handle plane o conf e d).1
