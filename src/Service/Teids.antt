-- ===== src/Service/Teids.antt =====
-- The loop of NewResourceManager that fills the pool of tunnel ids.
use mathlib.Core.List.{append-nil, append_assoc}
use eupf.Base.{
  ℕ, zero, suc, ◌+◌, ◌-◌, ◌%◌, ◌^◌, ◌<◌, ◌≡◌, refl, ◌∙◌, List, [], ◌∷◌, ◌++◌, none, some, arith,
  leb, true, false, ◌==◌, ap,
}
use eupf.Service.ResourceManager.{teid_loop, new_fteidm}

-- `count` ids from `first` on.
abbrev pub ids_from : ℕ → ℕ → List ℕ
ids_from first zero = []
ids_from first (suc count) = first ∷ ids_from (suc first) count

teid_loop-ids :
    (count fuel teid range : ℕ) (acc : List ℕ)
    → teid + count ≡ range + 1
    → range + 1 < 2 ^ 32
    → count < fuel
    → teid_loop fuel teid range acc ≡ some (acc ++ ids_from teid count)
unfolding teid_loop
teid_loop-ids count zero teid range acc e b h = absurd (omega arith)
teid_loop-ids zero (suc fuel) teid range acc e b h =
    let done : leb teid range ≡ false = ground arith in
    rw (done, teid_loop) (rw (append-nil acc) refl)
teid_loop-ids (suc count) (suc fuel) teid range acc e b h =
    let more : leb teid range ≡ true = ground arith in
    let step : (teid + 1) % 2 ^ 32 ≡ suc teid = omega arith in
    rw more (
      rw step (
        teid_loop-ids count fuel (suc teid) range (acc ++ (teid ∷ [])) (omega arith) b (omega arith)
        ∙ ap some (append_assoc acc (teid ∷ []) (ids_from (suc teid) count))))

-- For every range below 2^32 - 1 the constructor ends, after at most `range + 1` tests, with the
-- ids 1 to `range` free, in order, and none in use.
pub new_fteidm-ids :
    (range : ℕ)
    → range + 1 < 2 ^ 32
    → new_fteidm (range + 1) range
      ≡ some (record { free_teids = ids_from 1 range; busy_teids = [] })
unfolding new_fteidm
new_fteidm-ids zero b = refl
new_fteidm-ids (suc n) b =
    let positive : (suc n == 0) ≡ false = ground arith in
    rw positive (
      rw (teid_loop-ids (suc n) (suc n + 1) 1 (suc n) [] (omega arith) b (omega arith), new_fteidm)
        refl)

teid_loop-stuck :
    (fuel teid : ℕ) (acc : List ℕ) → teid < 2 ^ 32 → teid_loop fuel teid (2 ^ 32 - 1) acc ≡ none
unfolding teid_loop
teid_loop-stuck zero teid acc h = refl
teid_loop-stuck (suc fuel) teid acc h =
    let more : leb teid (2 ^ 32 - 1) ≡ true = ground arith in
    rw more (teid_loop-stuck fuel ((teid + 1) % 2 ^ 32) (acc ++ (teid ∷ [])) (omega arith))

-- For the largest range, 2^32 - 1, no fuel is enough for the loop of the constructor.
pub new_fteidm-diverges : (fuel : ℕ) → new_fteidm fuel (2 ^ 32 - 1) ≡ none
unfolding new_fteidm
new_fteidm-diverges fuel = rw (teid_loop-stuck fuel 1 [] (omega arith), new_fteidm) refl
