-- ===== src/Core/Handlers/Apply/Missing.antt =====
-- A Remove FAR IE of cmd/core/pfcp_session_handlers.go that names a FAR the session does not have.
use eupf.Base.{ℕ, ◌<◌, ◌≡◌, refl, ◌∙◌, ap, Bool, none, some, nat_eq, ltb}
use eupf.Base.Table.{lookup, get_or}
use eupf.Base.MapOrder.{MapOrder}
use eupf.Ebpf.Kernel.{IsBitmap, IsArray}
use eupf.Ebpf.Objects.{Libraries, BpfObjects, bpf_controller}
use eupf.Ebpf.Objects as Objects
use eupf.Ebpf.Objects.Far.{far_at, far_at-delete_far}
use eupf.Core.Ie.{FarIe, or_zero}
use eupf.Core.Session.{zero_sfar_info, get_far}
use eupf.Core.Session as Session
use eupf.Core.Work.{Work}
use eupf.Core.Handlers.Apply.{remove_far}

module _ (lib : Libraries) (bits : IsBitmap lib.bitmaps) (size : ℕ)
    (slots : IsArray lib.far_maps (λ i. ltb i size)) (o : MapOrder) (feature_ueip : Bool) where
  -- The objects after a FAR is removed are the ones that DeleteFar of its global id leaves.
  remove_far-delete_far :
      (far : FarIe) (w : Work (BpfObjects lib))
      → (remove_far (bpf_controller lib) o feature_ueip far w).1.plane
        ≡ (Objects.delete_far lib (get_far (or_zero far.far_id) w.session).far_global_id w.plane).1
  unfolding remove_far
  remove_far-delete_far far w = refl

  -- On BpfObjects whose bitmap and FAR map behave as documented, with a FAR map of at least one
  -- slot and a pool of its size, removing a FAR that the session does not have empties slot 0.
  pub remove_far-missing :
      (far : FarIe) (w : Work (BpfObjects lib))
      → 0 < size
      → w.plane.far_id_tracker.max_size ≡ size
      → lookup (or_zero far.far_id) w.session.fars ≡ none
      → far_at lib (remove_far (bpf_controller lib) o feature_ueip far w).1.plane 0 ≡ none
  unfolding get_far get_or
  remove_far-missing far w room sized missing =
      ap (λ s. far_at lib s 0) (remove_far-delete_far far w)
      ∙ ap
          (λ f.
            far_at lib
              (Objects.delete_far lib
                (elim f as (λ _. Session.SfarInfo) [
                  | none ↦ zero_sfar_info
                  | some v ↦ v
                ]).far_global_id
                w.plane).1
              0)
          missing
      ∙ far_at-delete_far lib bits size slots w.plane 0 0 sized room
