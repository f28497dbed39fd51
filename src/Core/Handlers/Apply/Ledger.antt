-- ===== src/Core/Handlers/Apply/Ledger.antt =====
-- Where the FAR ids of the kernel are while rule IEs of cmd/core/pfcp_session_handlers.go are
-- applied: in the pool of BpfObjects or in the session.
use eupf.Base.{
  ℕ, ◌+◌, ◌≤◌, ◌<◌, ◌≡◌, ◌≢◌, ◌∙◌, refl, sym, ap, subst, Bool, true, Option, none, some, arith, ltb,
  ◌==◌, if◌then◌else◌, nat_eq, Option-cases, inl, inr,
}
use eupf.Base.Outcome.{Outcome, ok, err, panic, bind_with, put_back, lift, ◌>>=◌, ◌>>◌}
use eupf.Base.Table.{lookup, get_or}
use eupf.Base.Table.Total.{
  one, total, total-insert, total-remove, UniqueKeys, insert-UniqueKeys, remove-UniqueKeys,
}
use eupf.Base.MapOrder.{MapOrder}
use eupf.Ebpf.Types.{FarInfo}
use eupf.Ebpf.Kernel.{IsBitmap, IsArray}
use eupf.Ebpf.Objects.{Libraries, BpfObjects, bpf_controller}
use eupf.Ebpf.Objects as Objects
use eupf.Ebpf.Objects.Far.{is_free_far, HasFarSize}
use eupf.Ebpf.Objects.FarPool.{
  TakesFar, new_far-TakesFar, free-delete_far, delete_far-HasFarSize, free-update_far,
  update_far-HasFarSize,
}
use eupf.Core.Ie.{FarIe, or_zero}
use eupf.Core.Rules.{compose_far_info}
use eupf.Core.Session.{Session, SfarInfo, zero_sfar_info}
use eupf.Core.Session as Session
use eupf.Core.Work.{Work, on_plane, on_session}
use eupf.Core.Handlers.Apply.{update_far, update_far_of}

-- How often the session holds the global id `x`.
abbrev pub held : ℕ → Session → ℕ
held x s = total (λ f. one x f.far_global_id) s.fars

module _ (lib : Libraries) (size : ℕ) where
  -- The id in the pool, and its uses in the session.
  abbrev pub stock : ℕ → Work (BpfObjects lib) → ℕ
  stock x w = held x w.session + (if is_free_far lib w.plane x then 1 else 0)

  -- No id is used twice or used and free, and all that are used lie below the size.
  pub record IsLedger (w : Work (BpfObjects lib)) : Type 0 where
    pub pool_sized : HasFarSize lib size w.plane
    pub unique_fars : UniqueKeys w.session.fars
    pub stock-le : (x : ℕ) → stock x w ≤ 1
    pub held_below : (x : ℕ) → size ≤ x → held x w.session ≡ 0

  abbrev pub Kept : Work (BpfObjects lib) → Work (BpfObjects lib) → Type 0
  Kept w v = IsLedger v × ((x : ℕ) → stock x v ≡ stock x w)

  Kept-of :
      (w v : Work (BpfObjects lib))
      → IsLedger w
      → HasFarSize lib size v.plane
      → UniqueKeys v.session.fars
      → ((x : ℕ) → size ≤ x → held x v.session ≡ 0)
      → ((x : ℕ) → stock x v ≡ stock x w)
      → Kept w v
  Kept-of w v h p u b e = (
    record {
      pool_sized = p;
      unique_fars = u;
      stock-le = λ x. omega (arith, e x, h.stock-le x);
      held_below = b;
    },
    e,
  )

  pub Kept-same : (w : Work (BpfObjects lib)) → IsLedger w → Kept w w
  Kept-same w h = (h, λ x. refl)

module _ (lib : Libraries) (bits : IsBitmap lib.bitmaps) (size : ℕ)
    (slots : IsArray lib.far_maps (λ i. ltb i size)) (o : MapOrder) (feature_ueip : Bool) where
  abbrev W : Type 0
  W = Work (BpfObjects lib)

  -- Session.NewFar after NewFar, on what NewFar gave.
  created-Kept :
      (key : ℕ) (info : FarInfo) (w : W) (r : Outcome ℕ × BpfObjects lib)
      → IsLedger lib size w
      → lookup key w.session.fars ≡ none
      → TakesFar lib size w.plane r
      → Kept lib size w
          (bind_with {S = W} {A = ℕ} {B = Unit {0}}
            (λ id v. (ok tt, record v { session = Session.new_far key id info v.session }))
            (put_back (λ p v. record v { plane = p }) w r)).1
  unfolding Session.new_far
  created-Kept key info w (ok id, p) h missing (was_free, left, sized) =
      let new : SfarInfo = record { far_info = info; far_global_id = id } in
      let added : (x : ℕ)
          → held x (Session.new_far key id info w.session) ≡ held x w.session + one x id =
        λ x.
          ground
            (arith, total-insert (λ f. one x f.far_global_id) key new w.session.fars, missing) in
      Kept-of lib size w (record w { plane = p; session = Session.new_far key id info w.session }) h
        sized (insert-UniqueKeys key new w.session.fars h.unique_fars)
        (λ x b.
          ground (arith, added x, h.held_below x b, h.pool_sized.far_free_below id, was_free, b))
        (λ x. ground (arith, added x, left x, was_free, h.stock-le x))
  created-Kept key info w (err e, p) h missing (left, sized) =
      Kept-of lib size w (record w { plane = p }) h sized h.unique_fars h.held_below
        (λ x. ground (arith, left x))
  created-Kept key info w (panic, p) h missing t = absurd t

  pub create_of-Kept :
      (key : ℕ) (w : W) (r : Outcome FarInfo)
      → IsLedger lib size w
      → lookup key w.session.fars ≡ none
      → Kept lib size w
          ((lift r >>= λ info. on_plane (Objects.new_far lib info) >>= λ id.
              on_session (Session.new_far key id info))
            w).1
  create_of-Kept key w (ok info) h missing =
      created-Kept key info w (Objects.new_far lib info w.plane) h missing
        (new_far-TakesFar lib bits size slots info w.plane h.pool_sized)
  create_of-Kept key w (err e) h missing = Kept-same lib size w h
  create_of-Kept key w panic h missing = Kept-same lib size w h

  -- An update leaves the id in the session and the pool alone.
  updated-Kept :
      (key : ℕ) (info : FarInfo) (w : W)
      → IsLedger lib size w
      → lookup key w.session.fars ≢ none
      → Kept lib size w (record w {
        plane =
            (Objects.update_far lib (Session.get_far key w.session).far_global_id info w.plane).1;
        session = Session.update_far key info w.session;
      })
  unfolding Session.update_far Session.get_far get_or
  updated-Kept key info w h present = elim (Option-cases (lookup key w.session.fars)) [
    | inl e ↦ absurd (present e)
    | inr (old, e) ↦
        let new : SfarInfo = record old { far_info = info } in
        let same : (x : ℕ) → held x (Session.update_far key info w.session) ≡ held x w.session =
          λ x.
            ground (arith, total-insert (λ f. one x f.far_global_id) key new w.session.fars, e) in
        Kept-of lib size w _ h
          (update_far-HasFarSize lib bits size slots info w.plane
            (Session.get_far key w.session).far_global_id h.pool_sized)
          (insert-UniqueKeys key _ w.session.fars h.unique_fars) (λ x b. same x ∙ h.held_below x b)
          (λ x. ground (
            arith,
            same x,
            free-update_far lib bits size slots info w.plane
                (Session.get_far key w.session).far_global_id x,
          ))
  ]

  -- A removal moves the id from the session to the pool.
  pub removed-Kept :
      (key : ℕ) (w : W)
      → IsLedger lib size w
      → lookup key w.session.fars ≢ none
      → Kept lib size w (record w {
        plane = (Objects.delete_far lib (Session.get_far key w.session).far_global_id w.plane).1;
        session = (Session.remove_far key w.session).1;
      })
  unfolding Session.remove_far Session.get_far get_or
  removed-Kept key w h present = elim (Option-cases (lookup key w.session.fars)) [
    | inl e ↦ absurd (present e)
    | inr (old, e) ↦
        let id = old.far_global_id in
        let here : Session.get_far key w.session ≡ old = ground (arith, e) in
        let id_here : (Session.get_far key w.session).far_global_id ≡ id =
          ap (λ f. f.far_global_id) here in
        let left : (x : ℕ)
            → held x (Session.remove_far key w.session).1 + one x id ≡ held x w.session =
          λ x. ground (
            arith,
            total-remove (λ f. one x f.far_global_id) key w.session.fars h.unique_fars,
            e,
          ) in
        let below : id < size = ground (arith, left id, h.held_below id) in
        let freed : (x : ℕ)
            → is_free_far lib (Objects.delete_far lib id w.plane).1 x
              ≡ (if id == x then true else is_free_far lib w.plane x) =
          λ x.
            ground (arith, free-delete_far lib bits size slots w.plane id x h.pool_sized, below) in
        subst
          (λ g. Kept lib size w (record w {
            plane = (Objects.delete_far lib g w.plane).1;
            session = (Session.remove_far key w.session).1;
          }))
          (sym id_here)
          (Kept-of lib size w
            (record w {
              plane = (Objects.delete_far lib id w.plane).1;
              session = (Session.remove_far key w.session).1;
            })
            h (delete_far-HasFarSize lib bits size slots w.plane id h.pool_sized)
            (remove-UniqueKeys key w.session.fars h.unique_fars)
            (λ x b. omega (arith, left x, h.held_below x b))
            (λ x. ground (arith, left x, freed x, h.stock-le x)))
  ]

  update_of-Kept :
      (key : ℕ) (w : W) (r : Outcome FarInfo)
      → IsLedger lib size w
      → lookup key w.session.fars ≢ none
      → Kept lib size w
          ((lift r >>= λ info.
              on_session (Session.update_far key info)
              >> on_plane
                  (Objects.update_far lib (Session.get_far key w.session).far_global_id info))
            w).1
  update_of-Kept key w (ok info) h present = updated-Kept key info w h present
  update_of-Kept key w (err e) h present = Kept-same lib size w h
  update_of-Kept key w panic h present = Kept-same lib size w h

  pub update_far-Kept :
      (far : FarIe) (w : W) (key : Option ℕ)
      → IsLedger lib size w
      → lookup (or_zero key) w.session.fars ≢ none
      → Kept lib size w (update_far_of (bpf_controller lib) o feature_ueip far key w).1
  unfolding compose_far_info Session.update_far update_far
  update_far-Kept far w none h present = Kept-same lib size w h
  update_far-Kept far w (some id) h present =
      update_of-Kept id w (compose_far_info far (Session.get_far id w.session).far_info) h present
