-- ===== src/Ebpf/Pdr/Combine.antt =====
-- What a stored PDR means to the kernel program, and how a put changes that meaning.
use eupf.Base.{ℕ, ◌≡◌, ◌≢◌, refl, Option, none, some, arith, false, ◌==◌, if◌then◌else◌}
use eupf.Ebpf.Types.{PdrInfo, SdfFilter, StoredSdfFilter, IpEntrypointPdrInfo}
use eupf.Ebpf.Pdr.{pdr_to_store, store_rules, store_mask}

-- Where a packet goes: the rule of the PDR without a filter, or of the one with.
pub record Rule : Type 0 where
  pub rule_far : ℕ
  pub rule_qer : ℕ
  pub rule_removal : ℕ

pub record Meaning : Type 0 where
  pub default_rule : Option Rule
  pub sdf_rule : Option (StoredSdfFilter × Rule)

-- By `sdf_mode` of cmd/ebpf/xdp/pdr.h.
abbrev pub meaning : IpEntrypointPdrInfo → Meaning
meaning s = record {
  default_rule =
      if s.sdf_mode == 1
      then none
      else some (record {
        rule_far = s.stored_far_id;
        rule_qer = s.stored_qer_id;
        rule_removal = s.stored_outer_header_removal;
      });
  sdf_rule =
      if s.sdf_mode == 0
      then none
      else some (
        s.sdf_rules.rules_sdf_filter,
        record {
          rule_far = s.sdf_rules.rules_far_id;
          rule_qer = s.sdf_rules.rules_qer_id;
          rule_removal = s.sdf_rules.rules_outer_header_removal;
        },
      );
}

abbrev pub found_default : Option IpEntrypointPdrInfo → Option Rule
found_default (some s) = (meaning s).default_rule
found_default none = none

abbrev pub pdr_rule : PdrInfo → Rule
pdr_rule p = record {
  rule_far = p.far_id;
  rule_qer = p.qer_id;
  rule_removal = p.outer_header_removal;
}

-- The filter as the kernel keeps it.
abbrev pub stored : SdfFilter → StoredSdfFilter
stored f = record {
  stored_protocol = f.protocol;
  src_addr = store_mask f.src_address;
  src_port = f.src_port_range;
  dst_addr = store_mask f.dst_address;
  dst_port = f.dst_port_range;
}

-- A PDR without a filter becomes the only rule; one with a filter keeps the default.
abbrev pub expected : Option Rule → PdrInfo → Option SdfFilter → Meaning
expected d p none = record { default_rule = some (pdr_rule p); sdf_rule = none }
expected d p (some f) = record { default_rule = d; sdf_rule = some (stored f, pdr_rule p) }

abbrev pub HasNoBareSdf : Option IpEntrypointPdrInfo → Type 0
HasNoBareSdf (some s) = s.sdf_mode ≢ 1
HasNoBareSdf none = Unit {0}

expected_cases :
    (found : Option IpEntrypointPdrInfo) (p : PdrInfo) (o : Option SdfFilter)
    → HasNoBareSdf found
    → p.sdf_filter ≡ o
    → meaning (pdr_to_store found p) ≡ expected (found_default found) p o
unfolding pdr_to_store store_rules
expected_cases (some s) p none h e = rw (e, pdr_to_store) refl
expected_cases (some s) p (some f) h e =
    let with_default : (s.sdf_mode == 1) ≡ false = ground arith in
    rw (e, pdr_to_store, with_default) refl
expected_cases none p none h e = rw (e, pdr_to_store) refl
expected_cases none p (some f) h e = rw (e, pdr_to_store) refl

-- If the key holds nothing, or an entry that has a default rule, then a put of a PDR without an SDF
-- filter leaves that PDR's rule alone, and a put of one with a filter keeps the default rule (or
-- its absence) and replaces the SDF rule.
pub meaning-pdr_to_store :
    (found : Option IpEntrypointPdrInfo) (p : PdrInfo)
    → HasNoBareSdf found
    → meaning (pdr_to_store found p) ≡ expected (found_default found) p p.sdf_filter
meaning-pdr_to_store found p h = expected_cases found p p.sdf_filter h refl

-- Of two PDRs with SDF filters that are put at a key that holds nothing, the second one makes the
-- stored entry have a default rule, with FAR 0, QER 0 and header removal 0.
pub pdr_to_store-sdf_twice :
    (p q : PdrInfo) (f g : SdfFilter)
    → p.sdf_filter ≡ some f
    → q.sdf_filter ≡ some g
    → (meaning (pdr_to_store (some (pdr_to_store none p)) q)).default_rule
      ≡ some (record { rule_far = 0; rule_qer = 0; rule_removal = 0 })
unfolding pdr_to_store
pdr_to_store-sdf_twice p q f g hp hq = rw (hq, hp, pdr_to_store) refl

-- Whatever entry the key holds and whatever PDR is put, with a filter or without one, the four
-- URR ids of the entry that is stored are 0.
pdr_to_store-urr_ids :
    (found : Option IpEntrypointPdrInfo) (p : PdrInfo)
    → let s = pdr_to_store found p in
      (s.stored_urr1_id ≡ 0)
      × (s.stored_urr2_id ≡ 0)
      × (s.sdf_rules.rules_urr1_id ≡ 0)
      × (s.sdf_rules.rules_urr2_id ≡ 0)
unfolding pdr_to_store store_rules
pdr_to_store-urr_ids (some s) p = ground arith
pdr_to_store-urr_ids none p = ground arith
