-- ===== src/Ebpf/Pdr/Copy.antt =====
-- Copy16Ip of cmd/ebpf/pdr.go against list reversal.
use mathlib.Core.List.{reverse}
use eupf.Base.{◌≡◌, refl, [], ◌∷◌, ◌++◌, arith, length, ◌==◌, if◌then◌else◌}
use eupf.Ebpf.Types.{Bytes, zero_16_bytes}
use eupf.Ebpf.Pdr.{copy_16_ip}

-- An IPv4 address in the first four bytes.
abbrev zero_12_bytes : Bytes
zero_12_bytes = 0 ∷ 0 ∷ 0 ∷ 0 ∷ 0 ∷ 0 ∷ 0 ∷ 0 ∷ 0 ∷ 0 ∷ 0 ∷ 0 ∷ []

copy_4 : (arr : Bytes) → length arr ≡ 4 → copy_16_ip arr ≡ reverse arr ++ zero_12_bytes
unfolding copy_16_ip
copy_4 (a ∷ b ∷ c ∷ d ∷ []) h = refl
copy_4 _ h = absurd (omega arith)

copy_16 : (arr : Bytes) → length arr ≡ 16 → copy_16_ip arr ≡ reverse arr
unfolding copy_16_ip
copy_16 (a ∷ b ∷ c ∷ d ∷ e ∷ f ∷ g ∷ h ∷ i ∷ j ∷ k ∷ l ∷ m ∷ n ∷ o ∷ p ∷ []) q = refl
copy_16 _ q = absurd (omega arith)

-- Copy16Ip reverses an address of four or sixteen bytes, fills the rest of the sixteen bytes with
-- zeros, and gives sixteen zeros for every other length.
copy_16_ip-reverse :
    (arr : Bytes)
    → copy_16_ip arr ≡ (
        if length arr == 4
        then reverse arr ++ zero_12_bytes
        else if length arr == 16
        then reverse arr
        else zero_16_bytes)
unfolding copy_16_ip
copy_16_ip-reverse arr = ground (arith, copy_4 arr, copy_16 arr)
