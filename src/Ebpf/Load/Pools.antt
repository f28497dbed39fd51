-- ===== src/Ebpf/Load/Pools.antt =====
-- The pools of ids that Load of cmd/ebpf/objects.go sets up.
use eupf.Base.{
  ℕ, ◌≡◌, ◌≢◌, ◌∙◌, refl, ap, Bool, true, false, not, none, some, [], ◌∷◌, arith, ◌==◌, String,
  string_eq, Option-cases, Bool-cases, inl, inr,
}
use eupf.Base.Outcome.{Outcome, ok, err, panic}
use eupf.Base.Outcome.Gives.{Gives, Gives-bind, Gives-both, Gives-map}
use eupf.Base.Table.{Table, lookup, insert, get_or, lookup-insert}
use eupf.Base.Table.Every.{every_entry, every_entry-perm}
use eupf.Base.MapOrder.{MapOrder, branch}
use eupf.Ebpf.Kernel.{RoaringBitmap}
use eupf.Ebpf.IdTracker.{new_id_tracker}
use eupf.Ebpf.Load.{
  MapSizes, MapSpec, EntrypointMaps, Cilium, desired_map_sizes, Loaded, create_maps,
  assign_or_close, load,
}

abbrev pub Found : {V : Type 0} → String → Table String V → Type 0
Found n m = lookup n m ≢ none

-- The maps of the program that have a pool of ids.
abbrev pub HasPools : Table String MapSpec → Type 0
HasPools spec = Found "far_map" spec × Found "qer_map" spec × Found "urr_map" spec

abbrev pub Replaced : {H : Type 0} → Table String H → EntrypointMaps H → Type 0
Replaced {H} made maps =
    ((h : H) → lookup "far_map" made ≡ some h → maps.far_handle ≡ h)
    × ((h : H) → lookup "qer_map" made ≡ some h → maps.qer_handle ≡ h)
    × ((h : H) → lookup "urr_map" made ≡ some h → maps.urr_handle ≡ h)

-- The documented behaviour of cilium/ebpf: a map has the size that it is made with, Info tells it,
-- LoadAndAssign uses the maps of MapReplacements, and the program that is linked in has the maps
-- that its source declares. A call that fails gives an `F`.
pub record IsCilium (lib : Cilium) (F : Type 0) : Type 0 where
  pub entries : lib.Handle → ℕ
  pub mkdir-gives : (w : lib.World) → Gives F (λ _. Unit {0}) (lib.mkdir_all w)
  pub spec-HasPools : (w : lib.World) → Gives F HasPools (lib.load_ip_entrypoint w)
  pub new_map-entries :
      (spec : MapSpec) (w : lib.World)
      → Gives F (λ h. entries h ≡ spec.max_entries) (lib.new_map spec w)
  pub assign-Replaced :
      (spec : Table String MapSpec) (made : Table String lib.Handle) (w : lib.World)
      → Gives F (Replaced made) (lib.load_and_assign spec made w)
  pub info-entries :
      (h : lib.Handle) (w : lib.World) → Gives F (λ i. i.max_entries ≡ entries h) (lib.map_info h w)

module _ (lib : Cilium) (bitmaps : RoaringBitmap) (order : MapOrder) (F : Type 0)
    (laws : IsCilium lib F) where
  open lib use {World, Handle}
  open laws use {
    entries, mkdir-gives, spec-HasPools, new_map-entries, assign-Replaced, info-entries,
  }

  abbrev sized : (String → ℕ) → Table String ℕ → Bool
  sized want = every_entry (λ p. want p.0 == p.1)

  -- Each map that is made has the size that is wanted for its name.
  abbrev Made : (String → ℕ) → Table String Handle → Type 0
  Made want made = (n : String) (h : Handle) → lookup n made ≡ some h → entries h ≡ want n

  Made-insert :
      (want : String → ℕ) (made : Table String Handle) (n : String) (m : Handle)
      → entries m ≡ want n
      → Made want made
      → Made want (insert n m made)
  Made-insert want made n m e h j k l = elim (Bool-cases (string_eq.beq n j)) [
    | inl b ↦ ground (arith, lookup-insert n j m made, b, l, e, (string_eq.beq_iff n j).0 b)
    | inr b ↦ h j k (ground (arith, lookup-insert n j m made, b, l))
  ]

  create_maps-Made :
      (want : String → ℕ) (sizes : Table String ℕ) (spec : Table String MapSpec)
      (made : Table String Handle) (w : World)
      → sized want sizes ≡ true
      → Made want made
      → Gives F (λ r. Made want r.1) (create_maps lib bitmaps order sizes spec made w)
  unfolding create_maps
  create_maps-Made want [] spec made w s h = h
  create_maps-Made want ((n, size) ∷ sizes) spec made w s h = elim (Option-cases (lookup n spec)) [
    | inl e ↦ rw (e, create_maps) (create_maps-Made want sizes spec made w (ground (arith, s)) h)
    | inr (spec_map, e) ↦
        let new = record spec_map { max_entries = size } in
        rw (e, create_maps)
          (Gives-bind F _ _ (lib.new_map new w) _ (new_map-entries new w) (λ m v k.
            create_maps-Made want sizes (insert n new spec) (insert n m made) v (ground (arith, s))
              (Made-insert want made n m (k ∙ ground (arith, s)) h)))
  ]

  Found-insert :
      {V : Type 0} (n j : String) (v : V) (m : Table String V) → Found n m → Found n (insert j v m)
  Found-insert n j v m h = ground (arith, lookup-insert j n v m, h)

  Found-inserted :
      {V : Type 0} (n j : String) (v : V) (m : Table String V)
      → string_eq.beq n j ≡ true
      → Found n (insert j v m)
  Found-inserted n j v m h =
      ground (arith, lookup-insert j n v m, string_eq.beq_iff n j, string_eq.beq_iff j n, h)

  create_maps-kept :
      (n : String) (sizes : Table String ℕ) (spec : Table String MapSpec)
      (made : Table String Handle) (w : World)
      → Found n made
      → Gives F (λ r. Found n r.1) (create_maps lib bitmaps order sizes spec made w)
  unfolding create_maps
  create_maps-kept n [] spec made w h = h
  create_maps-kept n ((j, size) ∷ sizes) spec made w h = elim (Option-cases (lookup j spec)) [
    | inl e ↦ rw (e, create_maps) (create_maps-kept n sizes spec made w h)
    | inr (spec_map, e) ↦
        let new = record spec_map { max_entries = size } in
        rw (e, create_maps)
          (Gives-bind F _ _ (lib.new_map new w) _ (new_map-entries new w) (λ m v k.
            create_maps-kept n sizes (insert j new spec) (insert j m made) v
              (Found-insert n j m made h)))
  ]

  -- The name is none of those listed.
  abbrev unlisted : String → Table String ℕ → Bool
  unlisted n = every_entry (λ p. not (string_eq.beq n p.0))

  create_maps-Found :
      (n : String) (sizes : Table String ℕ) (spec : Table String MapSpec)
      (made : Table String Handle) (w : World)
      → unlisted n sizes ≡ false
      → Found n spec
      → Gives F (λ r. Found n r.1) (create_maps lib bitmaps order sizes spec made w)
  unfolding create_maps
  create_maps-Found n [] spec made w u h = ground (arith, u)
  create_maps-Found n ((j, size) ∷ sizes) spec made w u h = elim (Option-cases (lookup j spec)) [
    | inl e ↦
        rw (e, create_maps)
          (create_maps-Found n sizes spec made w (ground (arith, u, e, h, string_eq.beq_iff n j)) h)
    | inr (spec_map, e) ↦
        let new = record spec_map { max_entries = size } in
        rw (e, create_maps)
          (Gives-bind F _ _ (lib.new_map new w) _ (new_map-entries new w) (λ m v k.
            elim (Bool-cases (string_eq.beq n j)) [
              | inl b ↦
                  create_maps-kept n sizes (insert j new spec) (insert j m made) v
                    (Found-inserted n j m made b)
              | inr b ↦
                  create_maps-Found n sizes (insert j new spec) (insert j m made) v
                    (ground (arith, u, b)) (Found-insert n j new spec h)
            ]))
  ]

  -- The size that Load wants for a map.
  abbrev want : MapSizes → String → ℕ
  want s n = get_or 0 n (desired_map_sizes s)

  sized-desired :
      (s : MapSizes)
      → sized (want s) ((branch 0 order).visit [] String ℕ (desired_map_sizes s)) ≡ true
  unfolding get_or lookup
  sized-desired s =
      every_entry-perm (λ p. want s p.0 == p.1)
        ((branch 0 order).visit-perm [] String ℕ (desired_map_sizes s))
      ∙ ground arith

  unlisted-desired :
      (n : String) (s : MapSizes)
      → unlisted n (desired_map_sizes s) ≡ false
      → unlisted n ((branch 0 order).visit [] String ℕ (desired_map_sizes s)) ≡ false
  unlisted-desired n s h =
      every_entry-perm (λ p. not (string_eq.beq n p.0))
        ((branch 0 order).visit-perm [] String ℕ (desired_map_sizes s))
      ∙ h

  -- The three maps with a pool are made, in the sizes wanted.
  abbrev Ready : MapSizes → Table String Handle → Type 0
  Ready s made =
      Made (want s) made × Found "far_map" made × Found "qer_map" made × Found "urr_map" made

  made-Ready :
      (s : MapSizes) (spec : Table String MapSpec) (w : World)
      → HasPools spec
      → Gives F
          (λ r. Ready s r.1)
          (create_maps lib bitmaps order
            ((branch 0 order).visit [] String ℕ (desired_map_sizes s))
            spec
            []
            w)
  unfolding lookup
  made-Ready s spec w h =
      let sizes = (branch 0 order).visit [] String ℕ (desired_map_sizes s) in
      let x = create_maps lib bitmaps order sizes spec [] w in
      let m =
        create_maps-Made (want s) sizes spec [] w (sized-desired s) (λ n k e. ground (arith, e)) in
      let f = create_maps-Found "far_map" sizes spec [] w (unlisted-desired "far_map" s refl) h.0 in
      let q = create_maps-Found "qer_map" sizes spec [] w (unlisted-desired "qer_map" s refl) h.1 in
      let u = create_maps-Found "urr_map" sizes spec [] w (unlisted-desired "urr_map" s refl) h.2 in
      Gives-map F _ _ x (λ r k. (k.0.0, k.0.1, k.1.0, k.1.1))
        (Gives-both F _ _ x (Gives-both F _ _ x m f) (Gives-both F _ _ x q u))

  entries-pool :
      (s : MapSizes) (n : String) (made : Table String Handle) (x : Handle)
      → Made (want s) made
      → Found n made
      → ((h : Handle) → lookup n made ≡ some h → x ≡ h)
      → entries x ≡ want s n
  entries-pool s n made x m f r = elim (Option-cases (lookup n made)) [
    | inl e ↦ absurd (f e)
    | inr (h, e) ↦ rw (r h e) (m n h e)
  ]

  assign_or_close-Gives :
      (P : EntrypointMaps Handle → Type 0) (made : Table String Handle)
      (x : Outcome (EntrypointMaps Handle) × World)
      → Gives F P x
      → Gives F P (assign_or_close lib bitmaps order made x)
  assign_or_close-Gives P made (ok maps, w) h = h
  assign_or_close-Gives P made (err e, w) h = h
  assign_or_close-Gives P made (panic, w) h = h

  abbrev pub Sized : MapSizes → Loaded lib bitmaps order → Type 0
  Sized s loaded =
      (loaded.far_id_tracker ≡ new_id_tracker bitmaps s.far_map_size)
      × (loaded.qer_id_tracker ≡ new_id_tracker bitmaps s.qer_map_size)
      × (loaded.urr_id_tracker ≡ new_id_tracker bitmaps s.urr_map_size)

  pub load-Sized : (s : MapSizes) (w : World) → Gives F (Sized s) (load lib bitmaps order s w)
  unfolding load get_or lookup
  load-Sized s w = Gives-bind F _ (Sized s) (lib.mkdir_all w) _ (mkdir-gives w) (λ _ w1 _.
      Gives-bind F HasPools (Sized s) (lib.load_ip_entrypoint w1) _ (spec-HasPools w1) (λ spec w2 h.
        Gives-bind F (λ r. Ready s r.1) (Sized s) _ _ (made-Ready s spec w2 h)
          (λ r w3 k.
            Gives-bind F (Replaced r.1) (Sized s) _ _
              (assign_or_close-Gives (Replaced r.1) r.1 (lib.load_and_assign r.0 r.1 w3)
                (assign-Replaced r.0 r.1 w3))
              (λ maps w4 a.
                Gives-bind F _ (Sized s) (lib.map_info maps.far_handle w4) _
                  (info-entries maps.far_handle w4)
                  (λ f w5 b.
                    Gives-bind F _ (Sized s) (lib.map_info maps.qer_handle w5) _
                      (info-entries maps.qer_handle w5)
                      (λ q w6 c.
                        Gives-bind F _ (Sized s) (lib.map_info maps.urr_handle w6) _
                          (info-entries maps.urr_handle w6)
                          (λ u w7 d. (
                            ap (new_id_tracker bitmaps)
                                (b ∙ entries-pool s "far_map" r.1 maps.far_handle k.0 k.1 a.0),
                            ap (new_id_tracker bitmaps)
                                (c ∙ entries-pool s "qer_map" r.1 maps.qer_handle k.0 k.2 a.1),
                            ap (new_id_tracker bitmaps)
                                (d ∙ entries-pool s "urr_map" r.1 maps.urr_handle k.0 k.3 a.2),
                          ))))))))
