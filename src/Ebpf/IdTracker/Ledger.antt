-- ===== src/Ebpf/IdTracker/Ledger.antt =====
-- The pool against its contract: a ledger of the ids that are handed out and not yet given back.
use eupf.Base.{
  ℕ, ◌<◌, ◌≡◌, refl, inl, inr, Bool, true, false, not, ◌&&◌, List, [], ◌∷◌, arith, ltb, ◌==◌,
  if◌then◌else◌, Bool-cases, All,
}
use eupf.Base.Outcome.{Outcome, ok, err, panic}
use eupf.Ebpf.Kernel.{RoaringBitmap, IsBitmap}
use eupf.Ebpf.IdTracker.Laws.{get_next-Takes, free-release, max_size-release, free-new_id_tracker}
use eupf.Ebpf.IdTracker.{IdTracker, new_id_tracker, get_next, release}

pub data Request : Type 0 where
  acquire : Request
  give_back : ℕ → Request

abbrev pub elem : ℕ → List ℕ → Bool
elem i [] = false
elem i (x ∷ xs) = if x == i then true else elem i xs

abbrev pub without : ℕ → List ℕ → List ℕ
without i [] = []
without i (x ∷ xs) = let rest = without i xs in if x == i then rest else x ∷ rest

abbrev pub Distinct : List ℕ → Type 0
Distinct [] = Unit {0}
Distinct (x ∷ xs) = (elem x xs ≡ false) × Distinct xs

pub elem-without :
    (i j : ℕ) (xs : List ℕ) → elem j (without i xs) ≡ (if i == j then false else elem j xs)
elem-without i j [] = ground arith
elem-without i j (x ∷ xs) = ground (arith, elem-without i j xs)

without-Distinct : (i : ℕ) (xs : List ℕ) → Distinct xs → Distinct (without i xs)
without-Distinct i [] d = tt
without-Distinct i (x ∷ xs) d = ground (arith, elem-without i x xs, without-Distinct i xs d.1)

without-All : (i n : ℕ) (xs : List ℕ) → All (λ x. x < n) xs → All (λ x. x < n) (without i xs)
without-All i n [] a = tt
without-All i n (x ∷ xs) a = ground (arith, without-All i n xs a.1)

lt_of_elem : (i n : ℕ) (xs : List ℕ) → All (λ x. x < n) xs → elem i xs ≡ true → i < n
lt_of_elem i n [] a h = cc
lt_of_elem i n (x ∷ xs) a h = ground (arith, lt_of_elem i n xs a.1)

module _ (lib : RoaringBitmap) where
  open lib use {Bitmap, contains}

  abbrev note : List ℕ → Outcome ℕ × IdTracker Bitmap → IdTracker Bitmap × List ℕ
  note held (ok id, t') = (t', id ∷ held)
  note held (err e, t') = (t', held)
  note held (panic, t') = (t', held)

  -- A client hands back only an id that it holds.
  unfoldable pub step : IdTracker Bitmap × List ℕ → Request → IdTracker Bitmap × List ℕ
  step (t, held) acquire = note held (get_next lib t)
  step (t, held) (give_back id) =
      if elem id held then (release lib id t, without id held) else (t, held)

  unfoldable pub run : IdTracker Bitmap × List ℕ → List Request → IdTracker Bitmap × List ℕ
  run s [] = s
  run s (r ∷ rs) = run (step s r) rs

  -- The free ids are exactly those below the size that nobody holds, and no id is held twice.
  pub record Accounted (size : ℕ) (s : IdTracker Bitmap × List ℕ) : Type 0 where
    pub sized : s.0.max_size ≡ size
    pub free : (i : ℕ) → contains i s.0.bitmap ≡ (ltb i size && not (elem i s.1))
    pub bounded : All (λ i. i < size) s.1
    pub distinct : Distinct s.1

module _ (lib : RoaringBitmap) (laws : IsBitmap lib) where
  open lib use {Bitmap, contains}

  new-Accounted : (size : ℕ) → Accounted lib size (new_id_tracker lib size, [])
  unfolding new_id_tracker
  new-Accounted size = record {
    sized = refl;
    free = λ i. ground (arith, free-new_id_tracker lib laws size i);
    bounded = tt;
    distinct = tt;
  }

  step-Accounted :
      (size : ℕ) (s : IdTracker Bitmap × List ℕ) (r : Request)
      → Accounted lib size s
      → Accounted lib size (step lib s r)
  unfolding step
  step-Accounted size (t, held) acquire a = elim (get_next-Takes lib laws t) [
    | inl (e, none_free) ↦ rw (e, step) a
    | inr (id, t', e, was_free, least, same_size, left) ↦
        rw (e, step)
          (record {
            sized = ground (arith, a.sized);
            free = λ i. ground (arith, left i, a.free i);
            bounded = (ground (arith, a.free id), a.bounded);
            distinct = ground (arith, a.distinct, a.free id);
          })
  ]
  step-Accounted size (t, held) (give_back id) a = elim (Bool-cases (elem id held)) [
    | inl h ↦
        rw (h, step)
          (record {
            sized = ground (arith, a.sized, max_size-release lib laws t id);
            free = λ i. ground (
              arith,
              a.sized,
              lt_of_elem id size held a.bounded h,
              free-release lib laws t id i,
              a.free i,
              elem-without id i held,
            );
            bounded = without-All id size held a.bounded;
            distinct = without-Distinct id held a.distinct;
          })
    | inr h ↦ rw (h, step) a
  ]

  run-Accounted :
      (size : ℕ) (s : IdTracker Bitmap × List ℕ) (rs : List Request)
      → Accounted lib size s
      → Accounted lib size (run lib s rs)
  unfolding run
  run-Accounted size s [] a = a
  run-Accounted size s (r ∷ rs) a = run-Accounted size (step lib s r) rs (step-Accounted size s r a)

  -- With a bitmap that behaves as documented, after any sequence of GetNext and of Release of
  -- held ids on a new tracker of `size` ids, the tracker has this size, the free ids are exactly
  -- those below it that nobody holds, every held id is below it, and no id is held twice.
  pub run-new-Accounted :
      (size : ℕ) (rs : List Request) → Accounted lib size (run lib (new_id_tracker lib size, []) rs)
  run-new-Accounted size rs = run-Accounted size _ rs (new-Accounted size)
