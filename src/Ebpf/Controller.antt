-- ===== src/Ebpf/Controller.antt =====
-- The interface ForwardingPlaneController of cmd/ebpf/pdr.go, which cmd/core drives. A method
-- changes the plane's state, and what it has changed stays changed when it fails.
use eupf.Base.{ℕ}
use eupf.Base.Outcome.{M}
use eupf.Ebpf.Types.{Bytes, PdrInfo, FarInfo, QerInfo, UrrInfo}

pub record ForwardingPlaneController : Type 1 where
  pub Plane : Type 0
  pub put_pdr_uplink : ℕ → PdrInfo → M Plane (Unit {0})
  pub put_pdr_downlink : Bytes → PdrInfo → M Plane (Unit {0})
  pub update_pdr_uplink : ℕ → PdrInfo → M Plane (Unit {0})
  pub update_pdr_downlink : Bytes → PdrInfo → M Plane (Unit {0})
  pub delete_pdr_uplink : ℕ → M Plane (Unit {0})
  pub delete_pdr_downlink : Bytes → M Plane (Unit {0})
  pub put_downlink_pdr_ip6 : Bytes → PdrInfo → M Plane (Unit {0})
  pub update_downlink_pdr_ip6 : Bytes → PdrInfo → M Plane (Unit {0})
  pub delete_downlink_pdr_ip6 : Bytes → M Plane (Unit {0})
  pub new_far : FarInfo → M Plane ℕ
  pub update_far : ℕ → FarInfo → M Plane (Unit {0})
  pub delete_far : ℕ → M Plane (Unit {0})
  pub new_qer : QerInfo → M Plane ℕ
  pub update_qer : ℕ → QerInfo → M Plane (Unit {0})
  pub delete_qer : ℕ → M Plane (Unit {0})
  pub new_urr : UrrInfo → M Plane ℕ
  pub update_urr : ℕ → UrrInfo → M Plane (Unit {0})
  pub delete_urr : ℕ → M Plane UrrInfo
