-- ===== src/Tests/Service.antt =====
-- Runs of cmd/core/service, and its theorems at them.
use eupf.Base.{ℕ, ◌+◌, ◌-◌, ◌^◌, ◌≤◌, ◌≡◌, refl, arith, [], ◌∷◌, none, some, bytes_eq, nat_eq}
use eupf.Base.Table.{lookup}
use eupf.Base.Table.Total.{one}
use eupf.Base.MapOrder.{kept_order}
use eupf.Ebpf.Types.{Bytes}
use eupf.Service.ResourceManager.{Ipam, Fteidm, allocate_ip, new_fteidm}
use eupf.Service.Teids.{ids_from, new_fteidm-ids, new_fteidm-diverges}
use eupf.Service.IpCopies.{ip_copies, ip_run, ip_copies-ip_run-le, ip_copies-allocate_ip}
use eupf.Service.IpCopies as IpCopies
use eupf.Service.TeidCopies.{teid_copies, teid_run, teid_copies-teid_run-le}
use eupf.Service.TeidCopies as TeidCopies

abbrev address : ℕ → Bytes
address n = 10 ∷ 60 ∷ 0 ∷ n ∷ []

-- One address is free, and session 5 holds another.
abbrev addresses : Ipam
addresses = record { free_ips = address 1 ∷ []; busy_ips = (5, address 2) ∷ [] }

abbrev ids : Fteidm
ids = record { free_teids = 1 ∷ []; busy_teids = (5, (1, 2) ∷ (2, 3) ∷ []) ∷ [] }

new_fteidm-ids_example :
    new_fteidm (3 + 1) 3 ≡ some (record { free_teids = ids_from 1 3; busy_teids = [] })
new_fteidm-ids_example = new_fteidm-ids 3 (omega arith)

new_fteidm-diverges_example : new_fteidm 100 (2 ^ 32 - 1) ≡ none
new_fteidm-diverges_example = new_fteidm-diverges 100

ip_copies-ip_run-le_example :
    ip_copies
      (address 2)
      (ip_run addresses (IpCopies.releases 5 ∷ IpCopies.allocates 6 ∷ IpCopies.allocates 7 ∷ []))
    ≤ ip_copies (address 2) addresses
unfolding lookup
ip_copies-ip_run-le_example =
    ip_copies-ip_run-le (address 2) addresses
      (IpCopies.releases 5 ∷ IpCopies.allocates 6 ∷ IpCopies.allocates 7 ∷ []) (refl, tt)

ip_copies-allocate_ip_example :
    ip_copies (address 2) (allocate_ip 5 addresses).1 + one (address 2) (address 2)
    ≡ ip_copies (address 2) addresses
unfolding lookup
ip_copies-allocate_ip_example =
    ip_copies-allocate_ip (address 2) (address 2) 5 addresses (λ h. ground (arith, h)) refl

teid_copies-teid_run-le_example :
    teid_copies 3 (teid_run kept_order ids (TeidCopies.releases 5 ∷ TeidCopies.allocates 6 1 ∷ []))
    ≤ teid_copies 3 ids
unfolding lookup
teid_copies-teid_run-le_example =
    teid_copies-teid_run-le kept_order 3 ids (TeidCopies.releases 5 ∷ TeidCopies.allocates 6 1 ∷ [])
      (refl, tt)
