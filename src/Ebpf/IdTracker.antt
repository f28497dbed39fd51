-- ===== src/Ebpf/IdTracker.antt =====
-- IdTracker of cmd/ebpf/objects.go: the pool of table ids that no session uses.
pub mod Laws
pub mod Ledger
use eupf.Base.{ℕ, Option, none, some, leb, if◌then◌else◌}
use eupf.Base.Outcome.{Outcome, ok, err, M, pool_is_empty}
use eupf.Ebpf.Kernel.{RoaringBitmap}

pub record IdTracker (Bitmap : Type 0) : Type 0 where
  pub bitmap : Bitmap
  pub max_size : ℕ

module _ (lib : RoaringBitmap) where
  open lib use {Bitmap, new_bitmap, flip, next, bitmap_remove, bitmap_add}

  unfoldable pub new_id_tracker : ℕ → IdTracker Bitmap
  new_id_tracker size = record { bitmap = flip 0 size new_bitmap; max_size = size }

  unfoldable pub get_next : M (IdTracker Bitmap) ℕ
  get_next t = elim (next t.bitmap) [
    | none ↦ (err pool_is_empty, t)
    | some i ↦ (ok i, record t { bitmap = bitmap_remove i t.bitmap })
  ]

  unfoldable pub release : ℕ → IdTracker Bitmap → IdTracker Bitmap
  release id t = if leb t.max_size id then t else record t { bitmap = bitmap_add id t.bitmap }
