-- ===== src/Service/ResourceManager.antt =====
-- ResourceManager, IPAM and FTEIDM of cmd/core/service/resource_manager.go. A method that the code
-- guards by a lock is one step.
use eupf.Base.{
  ℕ, zero, suc, ◌+◌, ◌%◌, ◌^◌, String, List, [], ◌∷◌, ◌++◌, Option, none, some, leb, ◌==◌,
  if◌then◌else◌, nat_eq,
}
use eupf.Base.Outcome.{Outcome, ok, err, other, M, no_free_ip, no_free_teid}
use eupf.Base.Table.{Table, lookup, insert, remove}
use eupf.Base.Table.Total.{values}
use eupf.Base.MapOrder.{MapOrder}
use eupf.Ebpf.Types.{Bytes}

pub record Ipam : Type 0 where
  pub free_ips : List Bytes
  pub busy_ips : Table ℕ Bytes

pub record Fteidm : Type 0 where
  pub free_teids : List ℕ
  pub busy_teids : Table ℕ (Table ℕ ℕ)

-- The pointers may be nil where the code tests them.
pub record ResourceManager : Type 0 where
  pub ipam : Option Ipam
  pub fteidm : Option Fteidm

-- AllocateIP.
unfoldable pub allocate_ip : ℕ → M Ipam Bytes
allocate_ip key s = elim s.free_ips [
  | [] ↦ (err no_free_ip, s)
  | ip ∷ rest ↦ (ok ip, record s { free_ips = rest; busy_ips = insert key ip s.busy_ips })
]

-- ReleaseIP.
unfoldable pub release_ip : ℕ → Ipam → Ipam
release_ip se_id s = elim (lookup se_id s.busy_ips) [
  | none ↦ s
  | some ip ↦ record s { free_ips = s.free_ips ++ (ip ∷ []); busy_ips = remove se_id s.busy_ips }
]

-- `busyTEIDs[seID][pdrID] = teid`, in a new inner map where there is none.
unfoldable pub note_teid : ℕ → ℕ → ℕ → Table ℕ (Table ℕ ℕ) → Table ℕ (Table ℕ ℕ)
note_teid se_id pdr_id teid busy = elim (lookup se_id busy) [
  | none ↦ insert se_id ((pdr_id, teid) ∷ []) busy
  | some pdrs ↦ insert se_id (insert pdr_id teid pdrs) busy
]

-- AllocateTEID.
unfoldable pub allocate_teid : ℕ → ℕ → M Fteidm ℕ
allocate_teid se_id pdr_id s = elim s.free_teids [
  | [] ↦ (err no_free_teid, s)
  | teid ∷ rest ↦ (
    ok teid,
    record s { free_teids = rest; busy_teids = note_teid se_id pdr_id teid s.busy_teids },
  )
]

-- ReleaseTEID, which returns every id of the session.
unfoldable pub release_teid : MapOrder → ℕ → Fteidm → Fteidm
release_teid o se_id s = elim (lookup se_id s.busy_teids) [
  | none ↦ s
  | some teids ↦ record s {
    free_teids = s.free_teids ++ values (o.visit [] ℕ ℕ teids);
    busy_teids = remove se_id s.busy_teids;
  }
]

-- `for teid = 1; teid <= teidRange; teid++` on a uint32; none when the fuel runs out.
unfoldable pub teid_loop : ℕ → ℕ → ℕ → List ℕ → Option (List ℕ)
teid_loop zero teid teid_range free_teids = none
teid_loop (suc fuel) teid teid_range free_teids =
    let rest = teid_loop fuel ((teid + 1) % 2 ^ 32) teid_range (free_teids ++ (teid ∷ [])) in
    if leb teid teid_range then rest else some free_teids

unfoldable pub new_fteidm : ℕ → ℕ → Option Fteidm
new_fteidm fuel teid_range =
    if teid_range == 0
    then some (record { free_teids = []; busy_teids = [] })
    else elim (teid_loop fuel 1 teid_range []) [
      | none ↦ none
      | some teids ↦ some (record { free_teids = teids; busy_teids = [] })
    ]

-- What ipnetgen yields for a range until it ends, or none if it refuses the range.
abbrev pub IpGenerator : Type 0
IpGenerator = String → Option (List Bytes)

abbrev pub skip_first : List Bytes → List Bytes
skip_first [] = []
skip_first (_ ∷ ips) = ips

-- The address pool of NewResourceManager; the zero value where the range is "".
unfoldable pub new_ipam : IpGenerator → String → Option Ipam
new_ipam generate String.[] = some (record { free_ips = []; busy_ips = [] })
new_ipam generate ip_range = elim (generate ip_range) [
  | none ↦ none
  | some ips ↦ some (record { free_ips = skip_first ips; busy_ips = [] })
]

-- NewResourceManager; none where its loop does not end.
unfoldable pub new_resource_manager :
    IpGenerator → ℕ → String → ℕ → Option (Outcome ResourceManager)
unfolding new_ipam new_fteidm
new_resource_manager generate fuel ip_range teid_range = elim (new_ipam generate ip_range) [
  | none ↦ some (err (other 0))
  | some ipam ↦ elim (new_fteidm fuel teid_range) [
    | none ↦ none
    | some fteidm ↦ some (ok (record { ipam = some ipam; fteidm = some fteidm }))
  ]
]
