-- ===== src/Core/Sdf/Bounds.antt =====
-- What ParseSdfFilter of cmd/core/sdf_filter_parser.go returns for any text.
use eupf.Base.{
  ℕ, zero, suc, ◌≤◌, ◌%◌, ◌-◌, ◌*◌, ◌≡◌, refl, true, ◌||◌, Option, none, some, [], ◌∷◌, arith,
  length, ltb, ◌==◌, if◌then◌else◌, bytes_beq, ◌⊎◌, inl, inr, Bool-cases,
}
use eupf.Base.Outcome.{
  ok, err, bad_port, bad_port_range, bad_mask, bad_ip, mask_after_any, bad_format,
}
use eupf.Base.Outcome.Yields.{
  Yields, Yields-and_then, Yields-if, Yields-ok, Yields-err, yields_rules,
}
use eupf.Base.Text.{Text, codes, cut, split_on, parse_uint}
use eupf.Ebpf.Types.{Bytes, SdfFilter, IpWMask, PortRange}
use eupf.Core.ParseIp.{parse_ip, to4, cidr_mask, mask_ip, mask_bytes, and_bytes}
use eupf.Core.Sdf.{
  parse_protocol, parse_port, port_range, parse_port_parts, parse_port_range, with_mask,
  parse_cidr_ip, Match, is_port_parts, is_port_group, match_words, match_flow, source_address,
  destination_address, optional_ports, sdf_of_match, parse_sdf_filter,
}
use eupf.Core.Sdf.Matches.{PortGroup, HasPorts, Ported, match_words-Ported}

abbrev pub IsRange : PortRange → Type 0
IsRange r = (r.lower_bound ≤ r.upper_bound) × (r.upper_bound ≤ 65535)

-- The mask has the length of the address: none, four or sixteen bytes.
abbrev pub IsMasked : IpWMask → Type 0
IsMasked a = (a.ip_type ≤ 2) × (length a.mask ≡ length a.ip)

abbrev pub IsFilter : SdfFilter → Type 0
IsFilter f =
    (f.protocol ≤ 4)
    × IsMasked f.src_address
    × IsRange f.src_port_range
    × IsMasked f.dst_address
    × IsRange f.dst_port_range

parse_protocol-le : (p : Text) → Yields (λ n. n ≤ 4) (parse_protocol p)
unfolding parse_protocol
parse_protocol-le p = search (yields_rules, arith)

port_of-le :
    (o : Option ℕ)
    → Yields
        (λ n. n ≤ 65535)
        (elim o [
          | none ↦ err bad_port
          | some port64 ↦ if ltb 65535 port64 then err bad_port else ok (port64 % 65536)
        ])
port_of-le none = Yields-err _ bad_port
port_of-le (some n) =
    Yields-if _ (ltb 65535 n) _ _ (Yields-err _ bad_port) (Yields-ok _ _ (omega arith))

parse_port-le : (s : Text) → Yields (λ n. n ≤ 65535) (parse_port s)
unfolding parse_port
parse_port-le s = port_of-le (parse_uint s)

port_range-IsRange : (p q : ℕ) → p ≤ 65535 → q ≤ 65535 → Yields IsRange (port_range p q)
port_range-IsRange p q h k = elim (Bool-cases (ltb q p)) [
  | inl e ↦ rw e (Yields-err IsRange bad_port_range)
  | inr e ↦ rw e (Yields-ok IsRange _ (ground arith, k))
]

parse_port_parts-IsRange :
    (x : Text × Option Text) → is_port_parts x ≡ true → Yields IsRange (parse_port_parts x)
parse_port_parts-IsRange (l, none) h = rw h (
    Yields-and_then _ IsRange (parse_port l) _ (parse_port-le l)
      (λ p e. port_range-IsRange p p e e))
parse_port_parts-IsRange (l, some u) h = rw h (
    Yields-and_then _ IsRange (parse_port l) _ (parse_port-le l) (λ p e.
      Yields-and_then _ IsRange (parse_port u) _ (parse_port-le u)
        (λ q f. port_range-IsRange p q e f)))

optional_ports-IsRange : (s : Text) → PortGroup s → Yields IsRange (optional_ports s)
unfolding parse_port_range is_port_group
optional_ports-IsRange [] h = Yields-ok IsRange _ (omega arith, omega arith)
optional_ports-IsRange (c ∷ cs) h = parse_port_parts-IsRange (cut b'-' (c ∷ cs)) h

length-mask_bytes : (n ones : ℕ) → length (mask_bytes n ones) ≡ n
length-mask_bytes zero ones = refl
length-mask_bytes (suc n) ones = omega (arith, length-mask_bytes n (ones - 8))

length-and_bytes :
    (ip mask : Bytes) → length ip ≡ length mask → length (and_bytes ip mask) ≡ length mask
length-and_bytes [] [] h = refl
length-and_bytes [] (m ∷ mask) h = ground (arith, h)
length-and_bytes (a ∷ ip) [] h = ground (arith, h)
length-and_bytes (a ∷ ip) (m ∷ mask) h = omega (arith, length-and_bytes ip mask (omega (arith, h)))

length-cidr_mask_full : (n : ℕ) → length (cidr_mask (8 * n) n) ≡ n
unfolding cidr_mask
length-cidr_mask_full n = ground (arith, length-mask_bytes n (8 * n))

length-mask_ip :
    (ip mask : Bytes)
    → (length mask ≡ length ip) ⊎ (length mask ≡ 0)
    → length mask ≡ length (mask_ip ip mask)
unfolding mask_ip
length-mask_ip ip mask h = ground (arith, h, length-and_bytes ip mask)

length-cidr_mask : (n ones : ℕ) → (length (cidr_mask ones n) ≡ n) ⊎ (length (cidr_mask ones n) ≡ 0)
unfolding cidr_mask
length-cidr_mask n ones = ground (arith, length-mask_bytes n ones)

with_mask-IsMasked :
    (t : ℕ) (ip : Bytes) (mask : Text) → t ≤ 2 → Yields IsMasked (with_mask t ip mask)
unfolding parse_cidr_ip
with_mask-IsMasked t ip [] h = Yields-ok IsMasked _ (h, length-cidr_mask_full (length ip))
with_mask-IsMasked t ip (c ∷ cs) h = parsed (parse_uint (c ∷ cs))
  where
    parsed :
        (o : Option ℕ)
        → Yields IsMasked (elim o [
          | none ↦ err bad_mask
          | some ones ↦
              let mask = cidr_mask ones (length ip) in
              ok (record { ip_type = t; ip = mask_ip ip mask; mask = mask })
        ])
    parsed none = Yields-err IsMasked bad_mask
    parsed (some ones) =
        Yields-ok IsMasked _
          (h, length-mask_ip ip (cidr_mask ones (length ip)) (length-cidr_mask (length ip) ones))

addressed-IsMasked :
    (o : Option Bytes) (ip : Bytes) (mask : Text)
    → Yields IsMasked (elim o [ none ↦ with_mask 2 ip mask | some ip4 ↦ with_mask 1 ip4 mask ])
addressed-IsMasked none ip mask = with_mask-IsMasked 2 ip mask (omega arith)
addressed-IsMasked (some ip4) ip mask = with_mask-IsMasked 1 ip4 mask (omega arith)

parse_cidr_ip-IsMasked : (ip mask : Text) → Yields IsMasked (parse_cidr_ip ip mask)
unfolding parse_cidr_ip
parse_cidr_ip-IsMasked ip mask = parsed (parse_ip ip)
  where
    parsed :
        (o : Option Bytes)
        → Yields IsMasked (elim o [
          | none ↦ err bad_ip
          | some b ↦ elim (to4 b) [ none ↦ with_mask 2 b mask | some ip4 ↦ with_mask 1 ip4 mask ]
        ])
    parsed none = Yields-err IsMasked bad_ip
    parsed (some b) = addressed-IsMasked (to4 b) b mask

source-IsMasked : (m : Match) → Yields IsMasked (source_address m)
source-IsMasked m =
    Yields-if IsMasked (bytes_beq m.src (codes "any")) _ _
      (Yields-if IsMasked (length m.src_mask == 0) _ _ (Yields-ok IsMasked _ (omega arith, refl))
        (Yields-err IsMasked mask_after_any))
      (parse_cidr_ip-IsMasked m.src m.src_mask)

destination-IsMasked : (m : Match) → Yields IsMasked (destination_address m)
destination-IsMasked m =
    Yields-if IsMasked (bytes_beq m.dst (codes "assigned") || bytes_beq m.dst (codes "any")) _ _
      (Yields-ok IsMasked _ (omega arith, refl)) (parse_cidr_ip-IsMasked m.dst m.dst_mask)

sdf_of_match-IsFilter : (m : Match) → HasPorts m → Yields IsFilter (sdf_of_match m)
unfolding sdf_of_match
sdf_of_match-IsFilter m h =
    Yields-and_then _ IsFilter (parse_protocol m.protocol) _ (parse_protocol-le m.protocol) (λ p a.
      Yields-and_then _ IsFilter (source_address m) _ (source-IsMasked m) (λ s b.
        Yields-and_then _ IsFilter (optional_ports m.src_port) _
          (optional_ports-IsRange m.src_port h.0)
          (λ r c.
            Yields-and_then _ IsFilter (destination_address m) _ (destination-IsMasked m) (λ d e.
              Yields-and_then _ IsFilter (optional_ports m.dst_port) _
                (optional_ports-IsRange m.dst_port h.1)
                (λ q f. Yields-ok IsFilter _ (a, b, c, e, f))))))

found-IsFilter :
    (o : Option Match)
    → Ported o
    → Yields IsFilter (elim o [ none ↦ err bad_format | some m ↦ sdf_of_match m ])
found-IsFilter none h = Yields-err IsFilter bad_format
found-IsFilter (some m) h = sdf_of_match-IsFilter m h

-- ParseSdfFilter does not panic on any flow description. A filter that it returns has a protocol
-- of 0 to 4, source and destination ports in order and at most 65535, and addresses of type 0, 1
-- or 2 whose masks have as many bytes as they have.
pub parse_sdf_filter-IsFilter : (s : Text) → Yields IsFilter (parse_sdf_filter s)
unfolding parse_sdf_filter match_flow
parse_sdf_filter-IsFilter s =
    found-IsFilter (match_words (split_on b' ' s)) (match_words-Ported (split_on b' ' s))
