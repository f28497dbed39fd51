-- ===== src/Core/ParseIp.antt =====
-- What cmd/core/sdf_filter_parser.go uses of Go's package net: ParseIP on digits and dots or on
-- hexadecimal digits and colons, IP.To4, CIDRMask and IP.Mask.
use Prim.Native.Nat.{bit_and}
use eupf.Base.{
  ℕ, zero, suc, ◌+◌, ◌-◌, ◌*◌, ◌/◌, ◌%◌, ◌^◌, ◌&&◌, ◌||◌, not, Option, none, some, List, [], ◌∷◌,
  ◌++◌, leb, ltb, ◌==◌, if◌then◌else◌, length, bytes_beq,
}
use eupf.Base.Text.{Text, is_digit, is_hex_letter, every, is_number, split_on, decimal, extend}
use eupf.Ebpf.Types.{Bytes}

-- A decimal field of an IPv4 address: no leading zero, at most 255.
unfoldable pub ip4_field : Text → Option ℕ
unfolding decimal is_number
ip4_field [] = none
ip4_field (c ∷ cs) =
    if is_number (c ∷ cs) && not (c == b'0' && not (length cs == 0)) && leb (decimal 0 (c ∷ cs)) 255
    then some (decimal 0 (c ∷ cs))
    else none

abbrev pub v4_in_v6_prefix : Bytes
v4_in_v6_prefix = 0 ∷ 0 ∷ 0 ∷ 0 ∷ 0 ∷ 0 ∷ 0 ∷ 0 ∷ 0 ∷ 0 ∷ 255 ∷ 255 ∷ []

abbrev pub all_of : {A : Type 0} → (Text → Option A) → List Text → Option (List A)
all_of f [] = some []
all_of f (w ∷ ws) = elim (f w) [
  | none ↦ none
  | some a ↦ elim (all_of f ws) [ none ↦ none | some as_rest ↦ some (a ∷ as_rest) ]
]

abbrev pub four : Option Bytes → Option Bytes
four none = none
four (some bs) = if length bs == 4 then some (v4_in_v6_prefix ++ bs) else none

unfoldable pub parse_ip4 : Text → Option Bytes
unfolding ip4_field split_on
parse_ip4 s = four (all_of ip4_field (split_on b'.' s))

abbrev pub hex_value : ℕ → ℕ
hex_value c = if is_digit c then c - b'0' else if leb b'a' c then c - 87 else c - 55

unfoldable pub hexadecimal : ℕ → Text → ℕ
hexadecimal acc [] = acc
hexadecimal acc (c ∷ cs) = hexadecimal (acc * 16 + hex_value c) cs

-- One to four hexadecimal digits.
unfoldable pub ip6_field : Text → Option ℕ
unfolding hexadecimal every
ip6_field [] = none
ip6_field (c ∷ cs) =
    if every (λ d. is_digit d || is_hex_letter d) (c ∷ cs) && leb (length cs) 3
    then some (hexadecimal 0 (c ∷ cs))
    else none

-- The text before and after the first "::".
unfoldable pub cut_ellipsis : Text → Text × Option Text
cut_ellipsis [] = ([], none)
cut_ellipsis (c ∷ []) = (c ∷ [], none)
cut_ellipsis (c ∷ d ∷ cs) =
    let rest = cut_ellipsis (d ∷ cs) in
    if c == b':' && d == b':' then ([], some cs) else extend c rest

abbrev pub fields : Text → Option (List ℕ)
fields [] = some []
fields (c ∷ cs) = all_of ip6_field (split_on b':' (c ∷ cs))

unfoldable pub field_bytes : List ℕ → Bytes
field_bytes [] = []
field_bytes (f ∷ fs) = (f / 256) ∷ (f % 256) ∷ field_bytes fs

abbrev pub zeros : ℕ → List ℕ
zeros zero = []
zeros (suc n) = 0 ∷ zeros n

-- "::" stands for at least one field of zeros.
abbrev pub join_fields : Option (List ℕ) → Option (List ℕ) → Option Bytes
join_fields (some l) (some r) =
    if ltb (length l + length r) 8
    then some (field_bytes (l ++ zeros (8 - (length l + length r)) ++ r))
    else none
join_fields (some l) none = none
join_fields none _ = none

abbrev pub eight_fields : Option (List ℕ) → Option Bytes
eight_fields none = none
eight_fields (some fs) = if length fs == 8 then some (field_bytes fs) else none

abbrev pub parse_ip6_parts : Text × Option Text → Option Bytes
parse_ip6_parts (l, none) = eight_fields (fields l)
parse_ip6_parts (l, some r) = join_fields (fields l) (fields r)

unfoldable pub parse_ip6 : Text → Option Bytes
unfolding ip6_field split_on field_bytes cut_ellipsis
parse_ip6 s = parse_ip6_parts (cut_ellipsis s)

-- The first '.' or ':' decides; a text with neither is no address.
unfoldable pub parse_ip_from : Text → Text → Option Bytes
unfolding parse_ip4 parse_ip6
parse_ip_from s [] = none
parse_ip_from s (c ∷ cs) =
    let rest = parse_ip_from s cs in
    if c == b'.' then parse_ip4 s else if c == b':' then parse_ip6 s else rest

unfoldable pub parse_ip : Text → Option Bytes
unfolding parse_ip_from
parse_ip s = parse_ip_from s s

-- IP.To4 of a sixteen-byte address.
unfoldable pub to4 : Bytes → Option Bytes
to4 (a ∷ b ∷ c ∷ d ∷ e ∷ f ∷ g ∷ h ∷ i ∷ j ∷ k ∷ l ∷ rest) =
    if bytes_beq (a ∷ b ∷ c ∷ d ∷ e ∷ f ∷ g ∷ h ∷ i ∷ j ∷ k ∷ l ∷ []) v4_in_v6_prefix
    then some rest
    else none
to4 _ = none

-- The leading `ones` bits of a byte.
abbrev pub mask_byte : ℕ → ℕ
mask_byte ones = if leb 8 ones then 255 else 256 - 2 ^ (8 - ones)

abbrev pub mask_bytes : ℕ → ℕ → Bytes
mask_bytes zero ones = []
mask_bytes (suc n) ones = mask_byte ones ∷ mask_bytes n (ones - 8)

-- net.CIDRMask(ones, 8 * size); nil where `ones` is beyond the width.
unfoldable pub cidr_mask : ℕ → ℕ → Bytes
cidr_mask ones size = if leb ones (8 * size) then mask_bytes size ones else []

abbrev pub and_bytes : Bytes → Bytes → Bytes
and_bytes (a ∷ ip) (m ∷ mask) = bit_and a m ∷ and_bytes ip mask
and_bytes _ _ = []

-- IP.Mask; nil where the lengths differ.
unfoldable pub mask_ip : Bytes → Bytes → Bytes
mask_ip ip mask = if length ip == length mask then and_bytes ip mask else []
