-- ===== src/Ebpf/Objects/FarPool.antt =====
-- Which FAR ids BpfObjects of cmd/ebpf offers after NewFar and DeleteFar, on every branch.
use eupf.Base.{ℕ, ◌≡◌, refl, true, false, ◌&&◌, arith, ltb, ◌==◌, if◌then◌else◌, inl, inr}
use eupf.Base.Outcome.{Outcome, ok, err, panic}
use eupf.Ebpf.Types.{FarInfo}
use eupf.Ebpf.Kernel.{IsBitmap, IsArray}
use eupf.Ebpf.IdTracker.Laws.{get_next-Takes, free-release, max_size-release}
use eupf.Ebpf.Objects.{Libraries, BpfObjects, new_far, update_far, delete_far}
use eupf.Ebpf.Objects.Far.{is_free_far, HasFarSize}

module _ (lib : Libraries) (size : ℕ) where
  -- A call of NewFar took an id out of the pool, or it failed and left the pool alone.
  abbrev pub TakesFar : BpfObjects lib → Outcome ℕ × BpfObjects lib → Type 0
  TakesFar s (ok id, t) =
      (is_free_far lib s id ≡ true)
      × ((j : ℕ) → is_free_far lib t j ≡ (if id == j then false else is_free_far lib s j))
      × HasFarSize lib size t
  TakesFar s (err e, t) =
      ((j : ℕ) → is_free_far lib t j ≡ is_free_far lib s j) × HasFarSize lib size t
  TakesFar s (panic, t) = ⊥

module _ (lib : Libraries) (bits : IsBitmap lib.bitmaps) (size : ℕ)
    (slots : IsArray lib.far_maps (λ i. ltb i size)) where
  pub new_far-TakesFar :
      (info : FarInfo) (s : BpfObjects lib)
      → HasFarSize lib size s
      → TakesFar lib size s (new_far lib info s)
  unfolding new_far
  new_far-TakesFar info s h = elim (get_next-Takes lib.bitmaps bits s.far_id_tracker) [
    | inl (e, none_free) ↦ rw (e, TakesFar, new_far) (λ j. refl, h)
    | inr (id, t, e, was_free, least, same_size, left) ↦
        let below : ltb id size ≡ true = ground (arith, h.far_free_below id) in
        let put = slots.array_put id info s.far_map below in
        rw (e, put, TakesFar, new_far)
          (
            was_free,
            left,
            record {
              far_sized = ground (arith, h.far_sized);
              far_free_below = λ i. ground (arith, left i, h.far_free_below i);
            },
          )
  ]

  pub free-delete_far :
      (s : BpfObjects lib) (id j : ℕ)
      → HasFarSize lib size s
      → is_free_far lib (delete_far lib id s).1 j
        ≡ (if ltb id size && (id == j) then true else is_free_far lib s j)
  unfolding delete_far
  free-delete_far s id j h =
      ground (arith, free-release lib.bitmaps bits s.far_id_tracker id j, h.far_sized)

  pub delete_far-HasFarSize :
      (s : BpfObjects lib) (id : ℕ)
      → HasFarSize lib size s
      → HasFarSize lib size (delete_far lib id s).1
  unfolding delete_far
  delete_far-HasFarSize s id h = record {
    far_sized = ground (arith, max_size-release lib.bitmaps bits s.far_id_tracker id, h.far_sized);
    far_free_below = λ i. ground (
      arith,
      free-release lib.bitmaps bits s.far_id_tracker id i,
      h.far_sized,
      h.far_free_below i,
    );
  }

  pub free-update_far :
      (info : FarInfo) (s : BpfObjects lib) (id j : ℕ)
      → is_free_far lib (update_far lib id info s).1 j ≡ is_free_far lib s j
  unfolding update_far
  free-update_far info s id j = refl

  pub update_far-HasFarSize :
      (info : FarInfo) (s : BpfObjects lib) (id : ℕ)
      → HasFarSize lib size s
      → HasFarSize lib size (update_far lib id info s).1
  unfolding update_far
  update_far-HasFarSize info s id h = record {
    far_sized = h.far_sized;
    far_free_below = h.far_free_below;
  }
