-- ===== src/Ebpf/Pdr.antt =====
-- How cmd/ebpf/pdr.go lays a PDR out for the kernel.
pub mod Copy
pub mod Combine
use eupf.Base.{
  ℕ, zero, suc, ◌-◌, List, [], ◌∷◌, Option, none, some, length, get_or, ◌==◌, if◌then◌else◌,
}
use eupf.Ebpf.Types.{
  Bytes, PdrInfo, SdfFilter, IpWMask, IpAddrWMask, StoredSdfFilter, SdfRules, IpEntrypointPdrInfo,
  zero_16_bytes, zero_sdf_rules, zero_entrypoint_pdr_info,
}

abbrev pub set : Bytes → ℕ → ℕ → Bytes
set [] i v = []
set (x ∷ xs) zero v = v ∷ xs
set (x ∷ xs) (suc i) v = x ∷ set xs i v

-- `for i := 0; i < arrLen; i++ { c[i] = arr[arrLen-1-i] }`, over the rounds left.
unfoldable pub copy_loop : ℕ → ℕ → ℕ → Bytes → Bytes → Bytes
copy_loop zero arr_len i arr c = c
copy_loop (suc rounds) arr_len i arr c =
    copy_loop rounds arr_len (suc i) arr (set c i (get_or arr (arr_len - 1 - i) 0))

-- Other lengths than 4, 16 and 0 leave `arrLen` at 0.
unfoldable pub copy_16_ip : Bytes → Bytes
unfolding copy_loop
copy_16_ip arr =
    if length arr == 4
    then copy_loop 4 4 0 arr zero_16_bytes
    else if length arr == 16
    then copy_loop 16 16 0 arr zero_16_bytes
    else zero_16_bytes

unfoldable pub store_mask : IpWMask → IpAddrWMask
store_mask a = record {
  addr_type = a.ip_type;
  addr_ip = copy_16_ip a.ip;
  addr_mask = copy_16_ip a.mask;
}

-- The SDF half of CombinePdrWithSdf: the filter and the three fields of the rule.
unfoldable pub store_rules : SdfFilter → PdrInfo → SdfRules
store_rules f p = record {
  rules_sdf_filter = record {
    stored_protocol = f.protocol;
    src_addr = store_mask f.src_address;
    src_port = f.src_port_range;
    dst_addr = store_mask f.dst_address;
    dst_port = f.dst_port_range;
  };
  rules_outer_header_removal = p.outer_header_removal;
  rules_far_id = p.far_id;
  rules_qer_id = p.qer_id;
  rules_urr1_id = 0;
  rules_urr2_id = 0;
}

unfoldable pub default_half : Option IpEntrypointPdrInfo → IpEntrypointPdrInfo
default_half none = record zero_entrypoint_pdr_info { sdf_mode = 1 }
default_half (some d) = record zero_entrypoint_pdr_info {
  stored_outer_header_removal = d.stored_outer_header_removal;
  stored_far_id = d.stored_far_id;
  stored_qer_id = d.stored_qer_id;
  sdf_mode = 2;
}

-- The filter is passed beside the PDR, since the callers test that it is there.
unfoldable pub combine_pdr_with_sdf :
    Option IpEntrypointPdrInfo → SdfFilter → PdrInfo → IpEntrypointPdrInfo
unfolding default_half
combine_pdr_with_sdf default_pdr f sdf_pdr = record (default_half default_pdr) {
  sdf_rules = store_rules f sdf_pdr;
}

unfoldable pub to_ip_entrypoint_pdr_info : PdrInfo → IpEntrypointPdrInfo
to_ip_entrypoint_pdr_info p = record zero_entrypoint_pdr_info {
  stored_outer_header_removal = p.outer_header_removal;
  stored_far_id = p.far_id;
  stored_qer_id = p.qer_id;
}

-- PreprocessPdrWithSdf, given what `lookup` answers at the key: none for an error.
unfoldable pub preprocess_pdr_with_sdf :
    Option IpEntrypointPdrInfo → SdfFilter → PdrInfo → IpEntrypointPdrInfo
unfolding combine_pdr_with_sdf
preprocess_pdr_with_sdf found f p = combine_pdr_with_sdf found f p

-- `if pdrInfo.SdfFilter != nil { ... } else { ... }`, shared by the six Put and Update methods.
unfoldable pub pdr_to_store : Option IpEntrypointPdrInfo → PdrInfo → IpEntrypointPdrInfo
unfolding preprocess_pdr_with_sdf to_ip_entrypoint_pdr_info
pdr_to_store found p = elim p.sdf_filter [
  | none ↦ to_ip_entrypoint_pdr_info p
  | some f ↦ preprocess_pdr_with_sdf found f p
]
