-- ===== src/Core/Handlers/Apply/FarSteps.antt =====
-- Any Create, Update and Remove FAR IEs of cmd/core/pfcp_session_handlers.go, one after another.
use eupf.Base.{ℕ, ◌≡◌, ◌≢◌, ◌∙◌, refl, subst, Bool, none, List, [], ◌∷◌, ltb, nat_eq}
use eupf.Base.Outcome.{Outcome, ok, err, panic, M, bind_with, for_each}
use eupf.Base.Table.{lookup}
use eupf.Base.MapOrder.{MapOrder}
use eupf.Ebpf.Types.{zero_far_info}
use eupf.Ebpf.Kernel.{IsBitmap, IsArray}
use eupf.Ebpf.Objects.{Libraries, BpfObjects, bpf_controller}
use eupf.Core.Ie.{FarIe, or_zero}
use eupf.Core.Rules.{compose_far_info}
use eupf.Core.Work.{Work}
use eupf.Core.Handlers.Apply.{create_far, update_far, remove_far}
use eupf.Core.Handlers.Apply.Ledger.{
  IsLedger, Kept, Kept-same, create_of-Kept, update_far-Kept, removed-Kept,
}

-- What a request does to FARs.
pub data FarOp : Type 0 where
  creates updates removes : FarIe → FarOp

module _ (lib : Libraries) (bits : IsBitmap lib.bitmaps) (size : ℕ)
    (slots : IsArray lib.far_maps (λ i. ltb i size)) (o : MapOrder) (feature_ueip : Bool) where
  abbrev W : Type 0
  W = Work (BpfObjects lib)

  abbrev pub far_step : FarOp → M W (Unit {0})
  far_step (creates far) = create_far (bpf_controller lib) o feature_ueip far
  far_step (updates far) = update_far (bpf_controller lib) o feature_ueip far
  far_step (removes far) = remove_far (bpf_controller lib) o feature_ueip far

  -- A Create FAR names a FAR that the session does not have, an Update or Remove FAR one that it
  -- has, if it names one.
  abbrev pub Fits : FarOp → W → Type 0
  Fits (creates far) w = lookup (or_zero far.far_id) w.session.fars ≡ none
  Fits (updates far) w = lookup (or_zero far.far_id) w.session.fars ≢ none
  Fits (removes far) w = lookup (or_zero far.far_id) w.session.fars ≢ none

  far_step-Kept :
      (op : FarOp) (w : W) → IsLedger lib size w → Fits op w → Kept lib size w (far_step op w).1
  unfolding create_far update_far remove_far
  far_step-Kept (creates far) w h fits =
      create_of-Kept lib bits size slots o feature_ueip (or_zero far.far_id) w
        (compose_far_info far zero_far_info) h fits
  far_step-Kept (updates far) w h fits =
      update_far-Kept lib bits size slots o feature_ueip far w far.far_id h fits
  far_step-Kept (removes far) w h fits =
      removed-Kept lib bits size slots o feature_ueip (or_zero far.far_id) w h fits

  -- Each IE fits what the ones before it have left.
  abbrev pub AllFit : List FarOp → W → Type 0
  AllFit [] w = Unit
  AllFit (op ∷ ops) w = Fits op w × AllFit ops (far_step op w).1

  go_on-Kept :
      (ops : List FarOp) (w : W) (r : Outcome (Unit {0}) × W)
      → Kept lib size w r.1
      → ((v : W) → IsLedger lib size v → r.1 ≡ v → Kept lib size v (for_each far_step ops v).1)
      → Kept lib size w (bind_with (λ _. for_each far_step ops) r).1
  go_on-Kept ops w (ok u, v) k rest =
      let after = rest v k.0 refl in (after.0, λ x. after.1 x ∙ k.1 x)
  go_on-Kept ops w (err e, v) k rest = k
  go_on-Kept ops w (panic, v) k rest = k

  -- With a bitmap and a FAR map that behave as documented: any Create, Update and Remove FAR IEs,
  -- applied one after another until one fails, where each Create FAR names a FAR that the session
  -- has not, and each Update and Remove FAR one that it has, keep every kernel id where it is
  -- counted once: whether they succeed, fail or panic, the uses of an id in the session and in the
  -- pool are together as many as before, at most one, and only ids of the map are used. So no id is
  -- lost, given to two FARs or freed while it is used.
  pub far_steps-Kept :
      (ops : List FarOp) (w : W)
      → IsLedger lib size w
      → AllFit ops w
      → Kept lib size w (for_each far_step ops w).1
  unfolding for_each
  far_steps-Kept [] w h fits = Kept-same lib size w h
  far_steps-Kept (op ∷ ops) w h fits =
      go_on-Kept ops w (far_step op w) (far_step-Kept op w h fits.0)
        (λ v k e. far_steps-Kept ops v k (subst (AllFit ops) e fits.1))
