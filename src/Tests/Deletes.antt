-- ===== src/Tests/Deletes.antt =====
-- The deletions of the concrete forwarding plane do not panic.
use eupf.Base.{
  ℕ, ◌≡◌, refl, arith, Option, none, some, nat_eq, string_eq, bytes_eq, ltb, inl, inr, Bool-cases,
}
use eupf.Base.Outcome.Safe.{Safe, Calm}
use eupf.Base.Table.{lookup}
use eupf.Ebpf.Types.{Bytes, IpEntrypointPdrInfo}
use eupf.Ebpf.Objects.{BpfObjects}
use eupf.Ebpf.Objects as Objects
use eupf.Core.Handlers.Effects.Returns.{Deletes}
use eupf.Tests.Libraries.{libraries}
use eupf.Tests.Connections.{plane}

delete_far-Safe : (id : ℕ) → Safe (λ _. Unit {0}) (Objects.delete_far libraries id)
unfolding Objects.delete_far
delete_far-Safe id = record {
  safe = λ s i. elim (Bool-cases (ltb id 4)) [
    | inl e ↦ rw (e, Objects.delete_far) tt
    | inr e ↦ rw (e, Objects.delete_far) tt
  ];
}

delete_qer-Safe : (id : ℕ) → Safe (λ _. Unit {0}) (Objects.delete_qer libraries id)
unfolding Objects.delete_qer
delete_qer-Safe id = record {
  safe = λ s i. elim (Bool-cases (ltb id 4)) [
    | inl e ↦ rw (e, Objects.delete_qer) tt
    | inr e ↦ rw (e, Objects.delete_qer) tt
  ];
}

delete_pdr_uplink-Safe : (key : ℕ) → Safe (λ _. Unit {0}) (Objects.delete_pdr_uplink libraries key)
unfolding Objects.delete_pdr_uplink
delete_pdr_uplink-Safe key = record { safe = λ s i. at s (lookup key s.pdr_map_teid_ip4) refl }
  where
    at :
        (s : BpfObjects libraries) (found : Option IpEntrypointPdrInfo)
        → lookup key s.pdr_map_teid_ip4 ≡ found
        → Calm (λ _. Unit {0}) (Objects.delete_pdr_uplink libraries key s)
    at s none h = ground (arith, h)
    at s (some v) h = ground (arith, h)

delete_pdr_downlink-Safe :
    (key : Bytes) → Safe (λ _. Unit {0}) (Objects.delete_pdr_downlink libraries key)
unfolding Objects.delete_pdr_downlink
delete_pdr_downlink-Safe key = record {
  safe = λ s i. at s (lookup key s.pdr_map_downlink_ip4) refl;
}
  where
    at :
        (s : BpfObjects libraries) (found : Option IpEntrypointPdrInfo)
        → lookup key s.pdr_map_downlink_ip4 ≡ found
        → Calm (λ _. Unit {0}) (Objects.delete_pdr_downlink libraries key s)
    at s none h = ground (arith, h)
    at s (some v) h = ground (arith, h)

delete_downlink_pdr_ip6-Safe :
    (key : Bytes) → Safe (λ _. Unit {0}) (Objects.delete_downlink_pdr_ip6 libraries key)
unfolding Objects.delete_downlink_pdr_ip6
delete_downlink_pdr_ip6-Safe key = record {
  safe = λ s i. at s (lookup key s.pdr_map_downlink_ip6) refl;
}
  where
    at :
        (s : BpfObjects libraries) (found : Option IpEntrypointPdrInfo)
        → lookup key s.pdr_map_downlink_ip6 ≡ found
        → Calm (λ _. Unit {0}) (Objects.delete_downlink_pdr_ip6 libraries key s)
    at s none h = ground (arith, h)
    at s (some v) h = ground (arith, h)

pub plane-Deletes : Deletes plane
plane-Deletes = record {
  deletes_far = delete_far-Safe;
  deletes_qer = delete_qer-Safe;
  deletes_uplink = delete_pdr_uplink-Safe;
  deletes_downlink = delete_pdr_downlink-Safe;
  deletes_downlink_ip6 = delete_downlink_pdr_ip6-Safe;
}
