-- ===== src/Tests/Libraries.antt =====
-- A bitmap and kernel maps of the kind that cmd/ebpf is linked with.
use eupf.Base.{
  ℕ, zero, suc, ◌≤◌, ◌≡◌, refl, Bool, true, false, not, ◌&&◌, Option, none, some, List, [], ◌∷◌,
  arith, leb, ltb, ◌==◌, if◌then◌else◌, nat_eq, bytes_eq, Eq,
}
use eupf.Base.Outcome.{ok, err, lookup_failed}
use eupf.Base.Table.{Table, lookup, insert, remove}
use eupf.Ebpf.Kernel.{RoaringBitmap, IsBitmap, KernelMap, IsArray, Stores}
use eupf.Ebpf.Types.{
  Bytes, FarInfo, QerInfo, UrrInfo, IpEntrypointPdrInfo, zero_far_info, zero_qer_info,
  zero_urr_info,
}
use eupf.Ebpf.IdTracker.{new_id_tracker}
use eupf.Ebpf.Objects.{Libraries, BpfObjects}
use eupf.Ebpf.Objects.Far.{HasFarSize}

-- Bit `i` of a bitmap.
abbrev bit : ℕ → List Bool → Bool
bit i [] = false
bit zero (x ∷ xs) = x
bit (suc i) (x ∷ xs) = bit i xs

abbrev clear : ℕ → List Bool → List Bool
clear i [] = []
clear zero (x ∷ xs) = false ∷ xs
clear (suc i) (x ∷ xs) = x ∷ clear i xs

abbrev mark : ℕ → List Bool → List Bool
mark zero [] = true ∷ []
mark (suc i) [] = false ∷ mark i []
mark zero (x ∷ xs) = true ∷ xs
mark (suc i) (x ∷ xs) = x ∷ mark i xs

abbrev toggle : ℕ → ℕ → List Bool → List Bool
toggle s zero xs = xs
toggle zero (suc e) [] = true ∷ toggle zero e []
toggle zero (suc e) (x ∷ xs) = not x ∷ toggle zero e xs
toggle (suc s) (suc e) [] = false ∷ toggle s e []
toggle (suc s) (suc e) (x ∷ xs) = x ∷ toggle s e xs

abbrev after_zero : Option ℕ → Option ℕ
after_zero none = none
after_zero (some i) = some (suc i)

abbrev pub first : List Bool → Option ℕ
first [] = none
first (true ∷ xs) = some 0
first (false ∷ xs) = after_zero (first xs)

abbrev pub bits : RoaringBitmap
bits = record {
  Bitmap = List Bool;
  new_bitmap = [];
  flip = toggle;
  next = first;
  bitmap_remove = clear;
  bitmap_add = mark;
  contains = bit;
}

bit-toggle :
    (s e i : ℕ) (xs : List Bool)
    → bit i (toggle s e xs) ≡ (if leb s i && ltb i e then not (bit i xs) else bit i xs)
bit-toggle s zero i xs = ground arith
bit-toggle zero (suc e) zero [] = ground arith
bit-toggle zero (suc e) (suc i) [] = ground (arith, bit-toggle zero e i [])
bit-toggle zero (suc e) zero (x ∷ xs) = ground arith
bit-toggle zero (suc e) (suc i) (x ∷ xs) = ground (arith, bit-toggle zero e i xs)
bit-toggle (suc s) (suc e) zero [] = ground arith
bit-toggle (suc s) (suc e) (suc i) [] = ground (arith, bit-toggle s e i [])
bit-toggle (suc s) (suc e) zero (x ∷ xs) = ground arith
bit-toggle (suc s) (suc e) (suc i) (x ∷ xs) = ground (arith, bit-toggle s e i xs)

bit-clear : (i j : ℕ) (xs : List Bool) → bit j (clear i xs) ≡ (if i == j then false else bit j xs)
bit-clear i j [] = ground arith
bit-clear zero zero (x ∷ xs) = refl
bit-clear zero (suc j) (x ∷ xs) = ground arith
bit-clear (suc i) zero (x ∷ xs) = ground arith
bit-clear (suc i) (suc j) (x ∷ xs) = ground (arith, bit-clear i j xs)

bit-mark : (i j : ℕ) (xs : List Bool) → bit j (mark i xs) ≡ (if i == j then true else bit j xs)
bit-mark zero zero [] = refl
bit-mark zero (suc j) [] = ground arith
bit-mark (suc i) zero [] = ground arith
bit-mark (suc i) (suc j) [] = ground (arith, bit-mark i j [])
bit-mark zero zero (x ∷ xs) = refl
bit-mark zero (suc j) (x ∷ xs) = ground arith
bit-mark (suc i) zero (x ∷ xs) = ground arith
bit-mark (suc i) (suc j) (x ∷ xs) = ground (arith, bit-mark i j xs)

first-none : (xs : List Bool) → first xs ≡ none → (i : ℕ) → bit i xs ≡ false
first-none [] h i = refl
first-none (true ∷ xs) h i = ground (arith, h)
first-none (false ∷ xs) h zero = refl
first-none (false ∷ xs) h (suc i) = first-none xs (ground (arith, h)) i

bit-first : (xs : List Bool) (i : ℕ) → first xs ≡ some i → bit i xs ≡ true
bit-first [] i h = ground (arith, h)
bit-first (true ∷ xs) zero h = refl
bit-first (true ∷ xs) (suc i) h = ground (arith, h)
bit-first (false ∷ xs) zero h = ground (arith, h)
bit-first (false ∷ xs) (suc i) h = bit-first xs i (ground (arith, h))

first_least : (xs : List Bool) (i : ℕ) → first xs ≡ some i → (j : ℕ) → bit j xs ≡ true → i ≤ j
first_least [] i h j k = ground (arith, h)
first_least (true ∷ xs) i h j k = ground (arith, h)
first_least (false ∷ xs) zero h j k = omega arith
first_least (false ∷ xs) (suc i) h zero k = ground (arith, k)
first_least (false ∷ xs) (suc i) h (suc j) k =
    omega (arith, first_least xs i (ground (arith, h)) j k)

pub bits-IsBitmap : IsBitmap bits
bits-IsBitmap = record {
  contains-new = λ i. refl;
  contains-flip = bit-toggle;
  contains-remove = bit-clear;
  contains-add = bit-mark;
  next_none = first-none;
  next_contained = bit-first;
  next_least = first_least;
}

-- An array map of four entries.
abbrev pub array : (V : Type 0) → KernelMap ℕ V
array V = record {
  Map = ℕ → V;
  map_lookup = λ k m. if ltb k 4 then some (m k) else none;
  map_put =
      λ k v m. if ltb k 4 then (ok tt, λ j. if k == j then v else m j) else (err lookup_failed, m);
  map_update_exist =
      λ k v m. if ltb k 4 then (ok tt, λ j. if k == j then v else m j) else (err lookup_failed, m);
  map_delete = λ k m. (err lookup_failed, m);
}

array-Stores :
    (V : Type 0) (k : ℕ) (v : V) (m : ℕ → V)
    → ltb k 4 ≡ true
    → Stores (array V) k v m (λ j. if k == j then v else m j)
array-Stores V k v m h = record { stored = ground arith; others = λ j d. ground arith }

pub array-IsArray : (V : Type 0) → IsArray (array V) (λ i. ltb i 4)
array-IsArray V = record {
  array_put = λ k v m h. rw h refl;
  array_put_stores = λ k v m h. rw h (array-Stores V k v m h);
  array_update = λ k v m h. rw h refl;
  array_update_stores = λ k v m h. rw h (array-Stores V k v m h);
}

-- A hash map without a limit.
abbrev pub hash : (K V : Type 0) ⦃e : Eq K⦄ → KernelMap K V
hash K V = record {
  Map = Table K V;
  map_lookup = lookup;
  map_put = λ k v m. (ok tt, insert k v m);
  map_update_exist =
      λ k v m. elim (lookup k m) [ none ↦ (err lookup_failed, m) | some _ ↦ (ok tt, insert k v m) ];
  map_delete =
      λ k m. elim (lookup k m) [ none ↦ (err lookup_failed, m) | some _ ↦ (ok tt, remove k m) ];
}

abbrev pub libraries : Libraries
libraries = record {
  bitmaps = bits;
  far_maps = array FarInfo;
  qer_maps = array QerInfo;
  urr_maps = array UrrInfo;
  teid_maps = hash ℕ IpEntrypointPdrInfo;
  ip4_maps = hash Bytes IpEntrypointPdrInfo;
  ip6_maps = hash Bytes IpEntrypointPdrInfo;
}

-- Empty tables of four slots.
abbrev pub objects : BpfObjects libraries
objects = record {
  far_map = λ _. zero_far_info;
  qer_map = λ _. zero_qer_info;
  urr_map = λ _. zero_urr_info;
  pdr_map_teid_ip4 = [];
  pdr_map_downlink_ip4 = [];
  pdr_map_downlink_ip6 = [];
  far_id_tracker = new_id_tracker bits 4;
  qer_id_tracker = new_id_tracker bits 4;
  urr_id_tracker = new_id_tracker bits 4;
}

pub objects-HasFarSize : HasFarSize libraries 4 objects
unfolding new_id_tracker
objects-HasFarSize = record {
  far_sized = refl;
  far_free_below =
      λ i. ground (arith, bits-IsBitmap.contains-flip 0 4 i [], bits-IsBitmap.contains-new i);
}
