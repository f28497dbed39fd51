-- ===== src/Ebpf/IdTracker/Laws.antt =====
-- Which ids the pool of cmd/ebpf/objects.go holds after each call.
use eupf.Base.{
  ℕ, ◌≡◌, refl, ◌⊎◌, inl, inr, true, false, ◌&&◌, arith, ltb, ◌==◌, if◌then◌else◌, Option-cases,
}
use eupf.Base.Outcome.{ok, err, pool_is_empty}
use eupf.Ebpf.Kernel.{RoaringBitmap, IsBitmap}
use eupf.Ebpf.IdTracker.{IdTracker, new_id_tracker, get_next, release}

module _ (lib : RoaringBitmap) (laws : IsBitmap lib) where
  open lib use {Bitmap, contains}
  open laws use {
    contains-new, contains-flip, contains-remove, contains-add, next_none, next_contained,
    next_least,
  }

  -- A new pool of `size` ids offers the ids below `size` and no other.
  pub free-new_id_tracker : (size i : ℕ) → contains i (new_id_tracker lib size).bitmap ≡ ltb i size
  unfolding new_id_tracker
  free-new_id_tracker size i = ground (arith, contains-flip 0 size i lib.new_bitmap, contains-new i)

  abbrev pub Takes : IdTracker Bitmap → Type 0
  Takes t =
      ((get_next lib t ≡ (err pool_is_empty, t)) × ((i : ℕ) → contains i t.bitmap ≡ false))
      ⊎ ((id : ℕ) × (t' : IdTracker Bitmap) × (get_next lib t ≡ (ok id, t'))
          × (contains id t.bitmap ≡ true)
          × ((j : ℕ) → (contains j t.bitmap && ltb j id) ≡ false)
          × (t'.max_size ≡ t.max_size)
          × ((j : ℕ) → contains j t'.bitmap ≡ (if id == j then false else contains j t.bitmap)))

  -- With a bitmap that behaves as documented, GetNext either finds the pool empty, fails and
  -- changes nothing, or takes the least free id out of the pool and leaves the others and the
  -- size.
  pub get_next-Takes : (t : IdTracker Bitmap) → Takes t
  unfolding get_next
  get_next-Takes t = elim (Option-cases (lib.next t.bitmap)) [
    | inl e ↦ inl (rw (e, get_next), next_none t.bitmap e)
    | inr (id, e) ↦ inr (
      id,
      record t { bitmap = lib.bitmap_remove id t.bitmap },
      rw (e, get_next),
      next_contained t.bitmap id e,
      λ j. ground (arith, next_least t.bitmap id e j),
      refl,
      λ j. contains-remove id j t.bitmap,
    )
  ]

  -- With a bitmap that behaves as documented, Release makes an id below the size free, ignores
  -- any other, and leaves the rest of the pool.
  pub free-release :
      (t : IdTracker Bitmap) (id j : ℕ)
      → contains j (release lib id t).bitmap
        ≡ (if ltb id t.max_size && (id == j) then true else contains j t.bitmap)
  unfolding release
  free-release t id j = ground (arith, contains-add id j t.bitmap)

  pub max_size-release : (t : IdTracker Bitmap) (id : ℕ) → (release lib id t).max_size ≡ t.max_size
  unfolding release
  max_size-release t id = ground arith
