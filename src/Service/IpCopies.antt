-- ===== src/Service/IpCopies.antt =====
-- No call of cmd/core/service/resource_manager.go hands one address to two sessions.
use eupf.Base.{
  ℕ, ◌+◌, ◌≤◌, ◌≡◌, ◌≢◌, refl, ap, List, [], ◌∷◌, Option, none, some, arith, nat_eq, bytes_eq, inl,
  inr, Option-cases,
}
use eupf.Base.Table.{lookup}
use eupf.Base.Table.Total.{
  one, count, count-append, total, share, total-insert, total-remove, UniqueKeys, insert-UniqueKeys,
  remove-UniqueKeys,
}
use eupf.Ebpf.Types.{Bytes}
use eupf.Service.ResourceManager.{Ipam, allocate_ip, release_ip}

-- How often an address stands in the pool: free, or held by a session.
pub ip_copies : Bytes → Ipam → ℕ
ip_copies x s = count x s.free_ips + total (one x) s.busy_ips

abbrev pub overwritten_ip : List Bytes → ℕ → Ipam → Option Bytes
overwritten_ip [] key s = none
overwritten_ip (_ ∷ _) key s = lookup key s.busy_ips

allocate_ip-copies :
    (x : Bytes) (key : ℕ) (s : Ipam) (free : List Bytes)
    → s.free_ips ≡ free
    → ip_copies x (allocate_ip key s).1 + share (one x) (overwritten_ip free key s) ≡ ip_copies x s
unfolding allocate_ip ip_copies count
allocate_ip-copies x key s [] e = rw (e, allocate_ip) (omega (arith, ap (count x) e))
allocate_ip-copies x key s (ip ∷ rest) e =
    rw (e, allocate_ip) (omega (arith, total-insert (one x) key ip s.busy_ips))

release_ip-copies :
    (x : Bytes) (key : ℕ) (s : Ipam)
    → UniqueKeys s.busy_ips
    → ip_copies x (release_ip key s) ≡ ip_copies x s
unfolding release_ip ip_copies count
release_ip-copies x key s u = elim (Option-cases (lookup key s.busy_ips)) [
  | inl e ↦ rw (e, release_ip) refl
  | inr (ip, e) ↦
      let moved : share (one x) (lookup key s.busy_ips) ≡ one x ip = rw e refl in
      rw (e, release_ip)
        (omega (
          arith,
          moved,
          count-append x s.free_ips (ip ∷ []),
          total-remove (one x) key s.busy_ips u,
        ))
]

pub data IpCall : Type 0 where
  allocates releases : ℕ → IpCall

unfoldable pub ip_step : Ipam → IpCall → Ipam
ip_step s (allocates key) = (allocate_ip key s).1
ip_step s (releases key) = release_ip key s

unfoldable pub ip_run : Ipam → List IpCall → Ipam
ip_run s [] = s
ip_run s (c ∷ cs) = ip_run (ip_step s c) cs

allocate_ip-UniqueKeys :
    (key : ℕ) (s : Ipam) (free : List Bytes)
    → s.free_ips ≡ free
    → UniqueKeys s.busy_ips
    → UniqueKeys (allocate_ip key s).1.busy_ips
unfolding allocate_ip
allocate_ip-UniqueKeys key s [] e u = rw (e, allocate_ip) u
allocate_ip-UniqueKeys key s (ip ∷ rest) e u =
    rw (e, allocate_ip) (insert-UniqueKeys key ip s.busy_ips u)

release_ip-UniqueKeys :
    (key : ℕ) (s : Ipam) → UniqueKeys s.busy_ips → UniqueKeys (release_ip key s).busy_ips
unfolding release_ip
release_ip-UniqueKeys key s u = elim (Option-cases (lookup key s.busy_ips)) [
  | inl e ↦ rw (e, release_ip) u
  | inr (ip, e) ↦ rw (e, release_ip) (remove-UniqueKeys key s.busy_ips u)
]

-- From an address pool in which no session stands twice among the holders, no sequence of
-- allocations and releases, by whatever sessions, makes a second copy of an address: each stands
-- in the pool, free or held, at most as often as at the start.
pub ip_copies-ip_run-le :
    (x : Bytes) (s : Ipam) (cs : List IpCall)
    → UniqueKeys s.busy_ips
    → ip_copies x (ip_run s cs) ≤ ip_copies x s
unfolding ip_run ip_step
ip_copies-ip_run-le x s [] u = omega arith
ip_copies-ip_run-le x s (allocates key ∷ cs) u = omega (
  arith,
  allocate_ip-copies x key s s.free_ips refl,
  ip_copies-ip_run-le x (allocate_ip key s).1 cs (allocate_ip-UniqueKeys key s s.free_ips refl u),
)
ip_copies-ip_run-le x s (releases key ∷ cs) u = omega (
  arith,
  release_ip-copies x key s u,
  ip_copies-ip_run-le x (release_ip key s) cs (release_ip-UniqueKeys key s u),
)

-- While addresses are free, an allocation for a session that already holds an address loses the
-- held one: it stands once less in the pool, and every other address as often as before.
pub ip_copies-allocate_ip :
    (x old : Bytes) (key : ℕ) (s : Ipam)
    → s.free_ips ≢ []
    → lookup key s.busy_ips ≡ some old
    → ip_copies x (allocate_ip key s).1 + one x old ≡ ip_copies x s
ip_copies-allocate_ip x old key s h e = go s.free_ips refl
  where
    go :
        (free : List Bytes)
        → s.free_ips ≡ free
        → ip_copies x (allocate_ip key s).1 + one x old ≡ ip_copies x s
    go [] f = absurd (h f)
    go (ip ∷ rest) f =
        let lost : share (one x) (lookup key s.busy_ips) ≡ one x old = rw e refl in
        omega (arith, lost, allocate_ip-copies x key s (ip ∷ rest) f)
