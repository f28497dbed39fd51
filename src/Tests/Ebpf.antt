-- ===== src/Tests/Ebpf.antt =====
-- Runs of cmd/ebpf, and its theorems at them.
use eupf.Base.{◌≡◌, refl, arith, [], ◌∷◌, none, some}
use eupf.Ebpf.Types.{FarInfo, PdrInfo, SdfFilter, zero_far_info, zero_pdr_info, zero_port_range}
use eupf.Ebpf.IdTracker.{new_id_tracker}
use eupf.Ebpf.IdTracker.Ledger.{run-new-Accounted, Accounted, run, acquire, give_back}
use eupf.Ebpf.Pdr.{pdr_to_store}
use eupf.Ebpf.Pdr.Combine.{
  meaning, expected, found_default, meaning-pdr_to_store, pdr_to_store-sdf_twice,
}
use eupf.Ebpf.Objects.Far.{Allocates, new_far-Allocates}
use eupf.Tests.Libraries.{
  objects-HasFarSize, bits, bits-IsBitmap, array-IsArray, libraries, objects,
}

abbrev buffer : FarInfo
buffer = record zero_far_info { action = 4 }

abbrev filter : SdfFilter
filter = record {
  protocol = 1;
  src_address = record { ip_type = 0; ip = []; mask = [] };
  src_port_range = zero_port_range;
  dst_address = record { ip_type = 1; ip = 10 ∷ 0 ∷ 0 ∷ 1 ∷ []; mask = 255 ∷ 255 ∷ 255 ∷ 255 ∷ [] };
  dst_port_range = zero_port_range;
}

abbrev filtered : PdrInfo
filtered = record zero_pdr_info { far_id = 3; urr1_id = 8; sdf_filter = some filter }

abbrev plain : PdrInfo
plain = record zero_pdr_info { far_id = 2; urr1_id = 7 }

run-new-Accounted_example :
    Accounted bits 4
      (run bits (new_id_tracker bits 4, []) (acquire ∷ acquire ∷ give_back 0 ∷ acquire ∷ []))
run-new-Accounted_example =
    run-new-Accounted bits bits-IsBitmap 4 (acquire ∷ acquire ∷ give_back 0 ∷ acquire ∷ [])

meaning-pdr_to_store_example :
    meaning (pdr_to_store (some (pdr_to_store none plain)) filtered)
    ≡ expected (found_default (some (pdr_to_store none plain))) filtered (some filter)
unfolding pdr_to_store
meaning-pdr_to_store_example =
    meaning-pdr_to_store (some (pdr_to_store none plain)) filtered (λ h. ground (arith, h))

pdr_to_store-sdf_twice_example :
    (meaning (pdr_to_store (some (pdr_to_store none filtered)) filtered)).default_rule
    ≡ some (record { rule_far = 0; rule_qer = 0; rule_removal = 0 })
pdr_to_store-sdf_twice_example = pdr_to_store-sdf_twice filtered filtered filter filter refl refl

new_far-Allocates_example :
    Allocates libraries bits-IsBitmap 4 (array-IsArray FarInfo) buffer objects
new_far-Allocates_example =
    new_far-Allocates libraries bits-IsBitmap 4 (array-IsArray FarInfo) buffer objects
      objects-HasFarSize
