-- ===== src/Core/PdrContext/Choose.antt =====
-- The TEID cache of cmd/core/pdr_creation_context.go: the PDRs of one request that name one CHOOSE
-- ID share a tunnel id.
use eupf.Base.{
  ℕ, ◌≡◌, refl, ◌∙◌, subst, sym, ap, Bool, true, Option, none, some, nat_eq, if◌then◌else◌,
}
use eupf.Base.Outcome.{Outcome, ok, err, panic, bind_with, modify, pure, gets, ◌>>=◌, ◌>>◌}
use eupf.Base.Table.{lookup, lookup-insert_self}
use eupf.Base.MapOrder.{MapOrder}
use eupf.Ebpf.Controller.{ForwardingPlaneController}
use eupf.Core.Ie.{Fteid}
use eupf.Core.Session.{SpdrInfo}
use eupf.Core.Work.{Work, on_resources}
use eupf.Core.PdrContext.{extract_fteid, choose_fteid, cached, remember, get_fteid}

module _ (plane : ForwardingPlaneController) (o : MapOrder) (feature_ueip : Bool) where
  open plane use {Plane}

  -- A tunnel id that is given out is in the cache.
  abbrev IsCached : ℕ → Outcome SpdrInfo × Work Plane → Type 0
  IsCached id (ok info, w) = lookup id w.teid_cache ≡ some info.teid
  IsCached id (err e, w) = Unit
  IsCached id (panic, w) = Unit

  allocated-IsCached :
      (f : Fteid) (info : SpdrInfo) (x : Outcome ℕ × Work Plane)
      → f.has_ch_id ≡ true
      → IsCached f.choose_id (
          bind_with
            (λ teid.
              modify (remember plane o feature_ueip f teid)
              >> pure (record info { teid = teid; allocated = true }))
            x)
  allocated-IsCached f info (ok teid, w) h = rw h (lookup-insert_self f.choose_id teid w.teid_cache)
  allocated-IsCached f info (err e, w) h = tt
  allocated-IsCached f info (panic, w) h = tt

  chosen-IsCached :
      (f : Fteid) (info : SpdrInfo) (w : Work Plane) (c : Option ℕ)
      → f.has_ch_id ≡ true
      → lookup f.choose_id w.teid_cache ≡ c
      → IsCached f.choose_id (choose_fteid plane o feature_ueip f info c w)
  chosen-IsCached f info w none h found =
      allocated-IsCached f info (on_resources (get_fteid w.session.remote_seid info.pdr_id) w) h
  chosen-IsCached f info w (some teid) h found = found

  extract_fteid-choose :
      (f : Fteid) (info : SpdrInfo) (w : Work Plane)
      → f.has_ch ≡ true
      → f.has_ch_id ≡ true
      → extract_fteid plane o feature_ueip (some f) info w
        ≡ choose_fteid plane o feature_ueip f info (lookup f.choose_id w.teid_cache) w
  unfolding extract_fteid
  extract_fteid-choose f info w ch h =
      ap
        (λ b.
          (if b
              then gets (cached plane o feature_ueip f) >>= choose_fteid plane o feature_ueip f info
              else pure (record info { teid = f.fteid_teid }))
            w)
        ch
      ∙ ap
          (λ b.
            choose_fteid plane o feature_ueip f info
              (if b then lookup f.choose_id w.teid_cache else none) w)
          h

  extract_fteid-IsCached :
      (f : Fteid) (info : SpdrInfo) (w : Work Plane)
      → f.has_ch ≡ true
      → f.has_ch_id ≡ true
      → IsCached f.choose_id (extract_fteid plane o feature_ueip (some f) info w)
  extract_fteid-IsCached f info w ch h =
      subst (IsCached f.choose_id) (sym (extract_fteid-choose f info w ch h))
        (chosen-IsCached f info w (lookup f.choose_id w.teid_cache) h refl)

  -- When the F-TEID of a PDR with a CHOOSE ID has been chosen, a later F-TEID with the same
  -- CHOOSE ID, looked at in the state that this left, gets the same tunnel id, and that state
  -- does not change.
  pub extract_fteid-shared :
      (f g : Fteid) (info later given : SpdrInfo) (w w' : Work Plane)
      → f.has_ch ≡ true
      → f.has_ch_id ≡ true
      → g.has_ch ≡ true
      → g.has_ch_id ≡ true
      → g.choose_id ≡ f.choose_id
      → extract_fteid plane o feature_ueip (some f) info w ≡ (ok given, w')
      → extract_fteid plane o feature_ueip (some g) later w'
        ≡ (ok (record later { teid = given.teid; allocated = true }), w')
  extract_fteid-shared f g info later given w w' fc fi gc gi same first =
      extract_fteid-choose g later w' gc gi
      ∙ ap (λ c. choose_fteid plane o feature_ueip g later c w')
          (ap (λ id. lookup id w'.teid_cache) same
            ∙ subst (IsCached f.choose_id) first (extract_fteid-IsCached f info w fc fi))
