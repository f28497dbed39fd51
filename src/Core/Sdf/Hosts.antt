-- ===== src/Core/Sdf/Hosts.antt =====
-- ParseCidrIp of cmd/core/sdf_filter_parser.go on printed addresses.
use eupf.Base.{
  ℕ, zero, suc, ◌≤◌, ◌≡◌, refl, true, Option, some, List, [], ◌∷◌, ◌++◌, arith, length, ◌⊎◌, inl,
  inr,
}
use eupf.Base.Outcome.{ok}
use eupf.Base.Text.{Text, is_number, decimal, parse_uint}
use eupf.Base.Text.Digits.{
  digits, decimal-digits, NoZero, digits-NoZero, Begun, digits-Begun, is_number-digits,
  parse_uint-digits,
}
use eupf.Base.Text.Split.{split_on-first, split_on-last, Lacks}
use eupf.Ebpf.Types.{Bytes}
use eupf.Core.ParseIp.{
  ip4_field, all_of, parse_ip4, parse_ip_from, parse_ip, to4, cidr_mask, mask_ip,
}
use eupf.Core.Sdf.{parse_cidr_ip, with_mask}
use eupf.Core.Sdf.Flow.{address, network, IsHost, dotted, host_address}
use eupf.Core.Sdf.Words.{digits-Lacks}

ip4_field-number :
    (n : ℕ) (cs : Text)
    → is_number cs ≡ true
    → decimal 0 cs ≡ n
    → n ≤ 255
    → (length cs ≡ 1) ⊎ NoZero cs
    → ip4_field cs ≡ some n
unfolding ip4_field is_number
ip4_field-number n [] h k l z = ground (arith, h)
ip4_field-number n (c ∷ cs) h k l z = ground (arith, h, k, l, z)

ip4_field-digits : (n : ℕ) → n ≤ 255 → ip4_field (digits 3 n) ≡ some n
unfolding digits
ip4_field-digits zero h =
    ip4_field-number 0 (digits 3 0) (is_number-digits 2 0 (omega arith))
      (decimal-digits 3 0 (omega arith)) h (inl refl)
ip4_field-digits (suc n) h =
    ip4_field-number (suc n) (digits 3 (suc n)) (is_number-digits 2 (suc n) (omega (arith, h)))
      (decimal-digits 3 (suc n) (omega (arith, h))) h
      (inr (digits-NoZero 3 (suc n) (omega arith) (omega (arith, h))))

-- The first dot decides that it is an IPv4 address.
parse_ip_from-dot :
    (s w rest : Text)
    → Lacks b'.' w
    → Lacks b':' w
    → parse_ip_from s (w ++ (b'.' ∷ rest)) ≡ parse_ip4 s
unfolding parse_ip_from
parse_ip_from-dot s [] rest h k = refl
parse_ip_from-dot s (c ∷ w) rest h k = rw (h.0, k.0) (parse_ip_from-dot s w rest h.1 k.1)

all_of-first :
    (f : Text → Option ℕ) (w : Text) (ws : List Text) (x : ℕ) (xs : List ℕ)
    → f w ≡ some x
    → all_of f ws ≡ some xs
    → all_of f (w ∷ ws) ≡ some (x ∷ xs)
all_of-first f w ws x xs h k = ground (arith, h, k)

four_fields :
    (a b c d : ℕ)
    → IsHost (address a b c d)
    → all_of ip4_field (digits 3 a ∷ digits 3 b ∷ digits 3 c ∷ digits 3 d ∷ [])
      ≡ some (a ∷ b ∷ c ∷ d ∷ [])
four_fields a b c d h =
    all_of-first ip4_field (digits 3 a) (digits 3 b ∷ digits 3 c ∷ digits 3 d ∷ []) a
      (b ∷ c ∷ d ∷ []) (ip4_field-digits a h.0)
      (all_of-first ip4_field (digits 3 b) (digits 3 c ∷ digits 3 d ∷ []) b (c ∷ d ∷ [])
        (ip4_field-digits b h.1)
        (all_of-first ip4_field (digits 3 c) (digits 3 d ∷ []) c (d ∷ []) (ip4_field-digits c h.2)
          (all_of-first ip4_field (digits 3 d) [] d [] (ip4_field-digits d h.3) refl)))

parse_ip-dotted :
    (a b c d : ℕ)
    → IsHost (address a b c d)
    → parse_ip (dotted a b c d)
      ≡ some (0 ∷ 0 ∷ 0 ∷ 0 ∷ 0 ∷ 0 ∷ 0 ∷ 0 ∷ 0 ∷ 0 ∷ 255 ∷ 255 ∷ a ∷ b ∷ c ∷ d ∷ [])
unfolding parse_ip parse_ip4
parse_ip-dotted a b c d h =
    rw
      (
        parse_ip_from-dot (dotted a b c d) (digits 3 a) _ (digits-Lacks b'.' 3 a refl)
            (digits-Lacks b':' 3 a refl),
        split_on-first b'.' (digits 3 a)
            (digits 3 b ++ (b'.' ∷ (digits 3 c ++ (b'.' ∷ digits 3 d))))
            (digits-Lacks b'.' 3 a refl),
        split_on-first b'.' (digits 3 b) (digits 3 c ++ (b'.' ∷ digits 3 d))
            (digits-Lacks b'.' 3 b refl),
        split_on-first b'.' (digits 3 c) (digits 3 d) (digits-Lacks b'.' 3 c refl),
        split_on-last b'.' (digits 3 d) (digits-Lacks b'.' 3 d refl),
        four_fields a b c d h,
      )
      refl

with_mask-number :
    (ip_type n : ℕ) (bs : Bytes) (cs : Text)
    → Begun cs
    → parse_uint cs ≡ some n
    → with_mask ip_type bs cs
      ≡ ok (record {
        ip_type = ip_type;
        ip = mask_ip bs (cidr_mask n (length bs));
        mask = cidr_mask n (length bs);
      })
unfolding parse_cidr_ip
with_mask-number ip_type n bs [] h k = absurd h
with_mask-number ip_type n bs (c ∷ cs) h k = rw (k, with_mask) refl

-- An address that is written out.
pub parse_cidr_ip-address :
    (a b c d : ℕ)
    → IsHost (address a b c d)
    → parse_cidr_ip (dotted a b c d) [] ≡ ok (host_address (address a b c d))
unfolding parse_cidr_ip to4 cidr_mask
parse_cidr_ip-address a b c d h = rw (parse_ip-dotted a b c d h, parse_cidr_ip) refl

pub parse_cidr_ip-network :
    (a b c d len : ℕ)
    → IsHost (network a b c d len)
    → parse_cidr_ip (dotted a b c d) (digits 2 len) ≡ ok (host_address (network a b c d len))
unfolding parse_cidr_ip to4
parse_cidr_ip-network a b c d len h =
    rw
      (
        parse_cidr_ip,
        parse_ip-dotted a b c d (h.0, h.1, h.2, h.3),
        with_mask-number 1 len (a ∷ b ∷ c ∷ d ∷ []) (digits 2 len)
            (digits-Begun 1 len (omega (arith, h.4)))
            (parse_uint-digits 1 len (omega (arith, h.4)) (omega (arith, h.4))),
      )
      refl
