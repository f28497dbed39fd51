-- ===== src/Ebpf/Stats/Wrap.antt =====
-- Addition and subtraction of uint64 in cmd/ebpf/stats.go.
use eupf.Base.{ℕ, ◌^◌, ◌<◌, ◌≡◌, arith}
use eupf.Ebpf.Stats.{add64, sub64}

pub add64-sub64 : (a b : ℕ) → a < 2 ^ 64 → b < 2 ^ 64 → add64 a (sub64 b a) ≡ b
add64-sub64 a b h k = omega arith

pub add64-lt : (a b : ℕ) → add64 a b < 2 ^ 64
add64-lt a b = omega arith

pub add64-zero : (a : ℕ) → a < 2 ^ 64 → add64 a 0 ≡ a
add64-zero a h = omega arith

pub sub64-zero : (a : ℕ) → a < 2 ^ 64 → sub64 a 0 ≡ a
sub64-zero a h = omega arith
