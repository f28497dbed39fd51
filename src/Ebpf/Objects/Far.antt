-- ===== src/Ebpf/Objects/Far.antt =====
-- The FAR table of BpfObjects seen as a store of slots: a slot is empty while its id is free.
use eupf.Base.{
  ℕ, ◌<◌, ◌≡◌, refl, Bool, true, false, Option, none, some, arith, ltb, leb, ◌==◌, if◌then◌else◌,
  ◌⊎◌, inl, inr, ◌&&◌,
}
use eupf.Base.Outcome.{ok, err, pool_is_empty}
use eupf.Ebpf.Types.{FarInfo, zero_far_info}
use eupf.Ebpf.Kernel.{IsBitmap, IsArray}
use eupf.Ebpf.IdTracker.Laws.{get_next-Takes, free-release}
use eupf.Ebpf.Objects.{Libraries, BpfObjects, new_far, update_far, delete_far}

module _ (lib : Libraries) where
  abbrev pub is_free_far : BpfObjects lib → ℕ → Bool
  is_free_far s i = lib.bitmaps.contains i s.far_id_tracker.bitmap

  -- The slot of FAR `i`: none while the id is free.
  abbrev pub far_at : BpfObjects lib → ℕ → Option FarInfo
  far_at s i = if is_free_far s i then none else lib.far_maps.map_lookup i s.far_map

  -- The pool has the size of the map and offers no id beyond it.
  pub record HasFarSize (size : ℕ) (s : BpfObjects lib) : Type 0 where
    pub far_sized : s.far_id_tracker.max_size ≡ size
    pub far_free_below : (i : ℕ) → (is_free_far s i && leb size i) ≡ false

module _ (lib : Libraries) (bits : IsBitmap lib.bitmaps) (size : ℕ)
    (slots : IsArray lib.far_maps (λ i. ltb i size)) where
  abbrev pub Allocates : FarInfo → BpfObjects lib → Type 0
  Allocates info s =
      ((new_far lib info s ≡ (err pool_is_empty, s)) × ((i : ℕ) → is_free_far lib s i ≡ false))
      ⊎ ((id : ℕ) × (s' : BpfObjects lib) × (new_far lib info s ≡ (ok id, s'))
          × (far_at lib s id ≡ none)
          × ((j : ℕ) → far_at lib s' j ≡ (if id == j then some info else far_at lib s j))
          × HasFarSize lib size s')

  -- With a bitmap and an array map that behave as documented, on objects whose FAR pool has the
  -- size of the map and offers no id beyond it: NewFar either reports an empty pool and changes
  -- nothing, or fills exactly one slot that was empty, with the given FAR, leaves all other slots
  -- as they are and keeps the pool so.
  pub new_far-Allocates :
      (info : FarInfo) (s : BpfObjects lib) → HasFarSize lib size s → Allocates info s
  unfolding new_far
  new_far-Allocates info s h = elim (get_next-Takes lib.bitmaps bits s.far_id_tracker) [
    | inl (e, none_free) ↦ inl (rw (e, new_far) refl, none_free)
    | inr (id, t, e, was_free, least, same_size, left) ↦
        let below : ltb id size ≡ true = ground (arith, h.far_free_below id) in
        let put = slots.array_put id info s.far_map below in
        let st = slots.array_put_stores id info s.far_map below in
        inr (
          id,
          record s { far_id_tracker = t; far_map = (lib.far_maps.map_put id info s.far_map).1 },
          rw (e, new_far) (rw (put, new_far) refl),
          rw was_free refl,
          (λ j. ground (arith, left j, st.stored, st.others j)),
          record {
            far_sized = ground (arith, h.far_sized);
            far_free_below = λ i. ground (arith, left i, h.far_free_below i);
          },
        )
  ]

  -- With an array map that behaves as documented, UpdateFar of an id below the size overwrites
  -- the slot if it is filled, and leaves the other slots; a slot whose id is free stays empty.
  far_at-update_far :
      (info : FarInfo) (s : BpfObjects lib) (id j : ℕ)
      → id < size
      → far_at lib (update_far lib id info s).1 j
        ≡ (if is_free_far lib s j then none else if id == j then some info else far_at lib s j)
  unfolding update_far
  far_at-update_far info s id j h =
      let st = slots.array_update_stores id info s.far_map (ground arith) in
      ground (arith, st.stored, st.others j)

  -- With a bitmap and an array map that behave as documented and a pool of the size of the map,
  -- DeleteFar of an id below the size empties its slot and leaves the other slots.
  pub far_at-delete_far :
      (s : BpfObjects lib) (id j : ℕ)
      → s.far_id_tracker.max_size ≡ size
      → id < size
      → far_at lib (delete_far lib id s).1 j ≡ (if id == j then none else far_at lib s j)
  unfolding delete_far
  far_at-delete_far s id j m h =
      let st = slots.array_update_stores id zero_far_info s.far_map (ground arith) in
      ground (arith, st.others j, free-release lib.bitmaps bits s.far_id_tracker id j)
