-- ===== src/Core/Work.antt =====
-- The state that one request of cmd/core/pfcp_session_handlers.go works on: the forwarding plane,
-- the session, the resource manager and the request's PDRCreationContext with its TEID cache.
use eupf.Base.{ℕ, List, [], Option}
use eupf.Base.Outcome.{ok, M, modify, zoom}
use eupf.Base.Table.{Table}
use eupf.Core.Session.{Session, SpdrInfo}
use eupf.Service.ResourceManager.{ResourceManager}

-- A usage report of a removed URR; its trigger is fixed, and its end time is not modelled.
pub record UsageReport : Type 0 where
  pub report_urr_id : ℕ
  pub urseqn : ℕ
  pub total_volume : ℕ
  pub uplink_volume : ℕ
  pub downlink_volume : ℕ

pub record Work (Plane : Type 0) : Type 0 where
  pub plane : Plane
  pub session : Session
  pub resources : Option ResourceManager
  pub teid_cache : Table ℕ ℕ
  pub created_pdrs : List SpdrInfo
  pub removed_urrs : List UsageReport

-- NewPDRCreationContext: the cache is empty.
abbrev pub start_work : {Plane : Type 0} → Plane → Session → Option ResourceManager → Work Plane
start_work plane session resources = record {
  plane = plane;
  session = session;
  resources = resources;
  teid_cache = [];
  created_pdrs = [];
  removed_urrs = [];
}

module _ {Plane : Type 0} where
  abbrev pub on_plane : {A : Type 0} → M Plane A → M (Work Plane) A
  on_plane = zoom (λ w. w.plane) (λ p w. record w { plane = p })

  abbrev pub on_resources : {A : Type 0} → M (Option ResourceManager) A → M (Work Plane) A
  on_resources = zoom (λ w. w.resources) (λ r w. record w { resources = r })

  abbrev pub on_session : (Session → Session) → M (Work Plane) (Unit {0})
  on_session f = modify (λ w. record w { session = f w.session })

  -- A session method that returns a value too.
  abbrev pub take_from_session : {A : Type 0} → (Session → A × Session) → M (Work Plane) A
  take_from_session f w = let (a, s) = f w.session in (ok a, record w { session = s })
