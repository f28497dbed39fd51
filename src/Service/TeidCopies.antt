-- ===== src/Service/TeidCopies.antt =====
-- No call of cmd/core/service/resource_manager.go hands one tunnel id to two sessions.
use eupf.Base.{
  ℕ, ◌+◌, ◌≤◌, ◌≡◌, refl, ap, List, [], ◌∷◌, arith, nat_eq, bytes_eq, inl, inr, Option-cases,
}
use eupf.Base.Table.{Table, lookup, insert}
use eupf.Base.Table.Total.{
  one, count, count-append, total, share, total-insert, total-remove, total-perm, count-values,
  UniqueKeys, insert-UniqueKeys, remove-UniqueKeys, values,
}
use eupf.Base.MapOrder.{MapOrder, branch}
use eupf.Service.ResourceManager.{Fteidm, allocate_teid, note_teid, release_teid}

-- How often a tunnel id stands in the pool: free, or held by a PDR of a session.
pub teid_copies : ℕ → Fteidm → ℕ
teid_copies x s = count x s.free_teids + total (total (one x)) s.busy_teids

note_teid-total :
    (x se_id pdr_id teid : ℕ) (busy : Table ℕ (Table ℕ ℕ))
    → total (total (one x)) (note_teid se_id pdr_id teid busy)
      ≤ total (total (one x)) busy + one x teid
unfolding note_teid total
note_teid-total x se_id pdr_id teid busy = elim (Option-cases (lookup se_id busy)) [
  | inl e ↦
      let nothing : share (total (one x)) (lookup se_id busy) ≡ 0 = rw e refl in
      rw (e, note_teid)
        (omega (arith, nothing, total-insert (total (one x)) se_id ((pdr_id, teid) ∷ []) busy))
  | inr (pdrs, e) ↦
      let old : share (total (one x)) (lookup se_id busy) ≡ total (one x) pdrs = rw e refl in
      rw (e, note_teid)
        (omega (
          arith,
          old,
          total-insert (total (one x)) se_id (insert pdr_id teid pdrs) busy,
          total-insert (one x) pdr_id teid pdrs,
        ))
]

allocate_teid-copies :
    (x se_id pdr_id : ℕ) (s : Fteidm) (free : List ℕ)
    → s.free_teids ≡ free
    → teid_copies x (allocate_teid se_id pdr_id s).1 ≤ teid_copies x s
unfolding allocate_teid teid_copies count
allocate_teid-copies x se_id pdr_id s [] e = rw (e, allocate_teid) (omega (arith, ap (count x) e))
allocate_teid-copies x se_id pdr_id s (teid ∷ rest) e =
    rw (e, allocate_teid) (omega (arith, note_teid-total x se_id pdr_id teid s.busy_teids))

release_teid-copies :
    (o : MapOrder) (x se_id : ℕ) (s : Fteidm)
    → UniqueKeys s.busy_teids
    → teid_copies x (release_teid o se_id s) ≡ teid_copies x s
unfolding release_teid teid_copies
release_teid-copies o x se_id s u = elim (Option-cases (lookup se_id s.busy_teids)) [
  | inl e ↦ rw (e, release_teid) refl
  | inr (teids, e) ↦
      let moved : share (total (one x)) (lookup se_id s.busy_teids) ≡ total (one x) teids =
        rw e refl in
      rw (e, release_teid)
        (omega (
          arith,
          moved,
          count-append x s.free_teids (values (o.visit [] ℕ ℕ teids)),
          count-values x (o.visit [] ℕ ℕ teids),
          total-perm (one x) (o.visit-perm [] ℕ ℕ teids),
          total-remove (total (one x)) se_id s.busy_teids u,
        ))
]

note_teid-UniqueKeys :
    (se_id pdr_id teid : ℕ) (busy : Table ℕ (Table ℕ ℕ))
    → UniqueKeys busy
    → UniqueKeys (note_teid se_id pdr_id teid busy)
unfolding note_teid
note_teid-UniqueKeys se_id pdr_id teid busy u = elim (Option-cases (lookup se_id busy)) [
  | inl e ↦ rw (e, note_teid) (insert-UniqueKeys se_id ((pdr_id, teid) ∷ []) busy u)
  | inr (pdrs, e) ↦ rw (e, note_teid) (insert-UniqueKeys se_id (insert pdr_id teid pdrs) busy u)
]

allocate_teid-UniqueKeys :
    (se_id pdr_id : ℕ) (s : Fteidm) (free : List ℕ)
    → s.free_teids ≡ free
    → UniqueKeys s.busy_teids
    → UniqueKeys (allocate_teid se_id pdr_id s).1.busy_teids
unfolding allocate_teid
allocate_teid-UniqueKeys se_id pdr_id s [] e u = rw (e, allocate_teid) u
allocate_teid-UniqueKeys se_id pdr_id s (teid ∷ rest) e u =
    rw (e, allocate_teid) (note_teid-UniqueKeys se_id pdr_id teid s.busy_teids u)

release_teid-UniqueKeys :
    (o : MapOrder) (se_id : ℕ) (s : Fteidm)
    → UniqueKeys s.busy_teids
    → UniqueKeys (release_teid o se_id s).busy_teids
unfolding release_teid
release_teid-UniqueKeys o se_id s u = elim (Option-cases (lookup se_id s.busy_teids)) [
  | inl e ↦ rw (e, release_teid) u
  | inr (teids, e) ↦ rw (e, release_teid) (remove-UniqueKeys se_id s.busy_teids u)
]

-- The call of a session for a PDR, or the release of all ids of a session.
pub data TeidCall : Type 0 where
  allocates : ℕ → ℕ → TeidCall
  releases : ℕ → TeidCall

unfoldable pub teid_step : MapOrder → Fteidm → TeidCall → Fteidm
teid_step o s (allocates se_id pdr_id) = (allocate_teid se_id pdr_id s).1
teid_step o s (releases se_id) = release_teid o se_id s

unfoldable pub teid_run : MapOrder → Fteidm → List TeidCall → Fteidm
teid_run o s [] = s
teid_run o s (c ∷ cs) = teid_run (branch 1 o) (teid_step (branch 0 o) s c) cs

-- From a pool in which no session stands twice among the holders, no sequence of allocations and
-- releases, by whatever sessions and in whatever order Go ranges over the released map, makes a
-- second copy of a tunnel id: each stands in the pool, free or held, at most as often as at the
-- start.
pub teid_copies-teid_run-le :
    (o : MapOrder) (x : ℕ) (s : Fteidm) (cs : List TeidCall)
    → UniqueKeys s.busy_teids
    → teid_copies x (teid_run o s cs) ≤ teid_copies x s
unfolding teid_run teid_step
teid_copies-teid_run-le o x s [] u = omega arith
teid_copies-teid_run-le o x s (allocates se_id pdr_id ∷ cs) u = omega (
  arith,
  allocate_teid-copies x se_id pdr_id s s.free_teids refl,
  teid_copies-teid_run-le (branch 1 o) x (allocate_teid se_id pdr_id s).1 cs
      (allocate_teid-UniqueKeys se_id pdr_id s s.free_teids refl u),
)
teid_copies-teid_run-le o x s (releases se_id ∷ cs) u = omega (
  arith,
  release_teid-copies (branch 0 o) x se_id s u,
  teid_copies-teid_run-le (branch 1 o) x (release_teid (branch 0 o) se_id s) cs
      (release_teid-UniqueKeys (branch 0 o) se_id s u),
)
