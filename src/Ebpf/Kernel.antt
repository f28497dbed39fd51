-- ===== src/Ebpf/Kernel.antt =====
-- What cmd/ebpf takes from its libraries: the maps of cilium/ebpf and the roaring bitmap. Their
-- operations are parameters; the documented behaviour that the theorems rely on is named here.
use eupf.Base.{
  ℕ, ◌≤◌, ◌≡◌, ◌≢◌, Bool, true, false, not, Option, none, some, leb, ltb, ◌==◌, ◌&&◌, if◌then◌else◌,
}
use eupf.Base.Outcome.{ok, M}

-- *ebpf.Map: Lookup, Put, Update with UpdateExist, Delete.
pub record KernelMap (K V : Type 0) : Type 1 where
  pub Map : Type 0
  pub map_lookup : K → Map → Option V
  pub map_put : K → V → M Map (Unit {0})
  pub map_update_exist : K → V → M Map (Unit {0})
  pub map_delete : K → M Map (Unit {0})

module _ {K V : Type 0} (km : KernelMap K V) where
  open km use {Map, map_lookup, map_put, map_update_exist, map_delete}

  -- `m'` is `m` with `v` at `k`, and the same elsewhere.
  pub record Stores (k : K) (v : V) (m m' : Map) : Type 0 where
    pub stored : map_lookup k m' ≡ some v
    pub others : (j : K) → k ≢ j → map_lookup j m' ≡ map_lookup j m

  -- BPF_MAP_TYPE_ARRAY: every index below the size exists, and no other.
  pub record IsArray (in_range : K → Bool) : Type 0 where
    pub array_put : (k : K) (v : V) (m : Map) → in_range k ≡ true → (map_put k v m).0 ≡ ok tt
    pub array_put_stores :
        (k : K) (v : V) (m : Map) → in_range k ≡ true → Stores k v m (map_put k v m).1
    pub array_update :
        (k : K) (v : V) (m : Map) → in_range k ≡ true → (map_update_exist k v m).0 ≡ ok tt
    pub array_update_stores :
        (k : K) (v : V) (m : Map) → in_range k ≡ true → Stores k v m (map_update_exist k v m).1

  -- BPF_MAP_TYPE_HASH: a put that succeeds stores, one that fails changes nothing.
  pub record IsHash : Type 0 where
    pub hash_put_stores :
        (k : K) (v : V) (m : Map) → (map_put k v m).0 ≡ ok tt → Stores k v m (map_put k v m).1

-- *roaring.Bitmap: NewBitmap, Flip, the least element of Iterator, Remove, Add; `contains` is for
-- statements only.
pub record RoaringBitmap : Type 1 where
  pub Bitmap : Type 0
  pub new_bitmap : Bitmap
  pub flip : ℕ → ℕ → Bitmap → Bitmap
  pub next : Bitmap → Option ℕ
  pub bitmap_remove : ℕ → Bitmap → Bitmap
  pub bitmap_add : ℕ → Bitmap → Bitmap
  pub contains : ℕ → Bitmap → Bool

pub record IsBitmap (lib : RoaringBitmap) : Type 0 where
  pub contains-new : (i : ℕ) → lib.contains i lib.new_bitmap ≡ false
  pub contains-flip :
      (s e i : ℕ) (b : lib.Bitmap)
      → lib.contains i (lib.flip s e b)
        ≡ (if leb s i && ltb i e then not (lib.contains i b) else lib.contains i b)
  pub contains-remove :
      (i j : ℕ) (b : lib.Bitmap)
      → lib.contains j (lib.bitmap_remove i b) ≡ (if i == j then false else lib.contains j b)
  pub contains-add :
      (i j : ℕ) (b : lib.Bitmap)
      → lib.contains j (lib.bitmap_add i b) ≡ (if i == j then true else lib.contains j b)
  pub next_none : (b : lib.Bitmap) → lib.next b ≡ none → (i : ℕ) → lib.contains i b ≡ false
  pub next_contained : (b : lib.Bitmap) (i : ℕ) → lib.next b ≡ some i → lib.contains i b ≡ true
  pub next_least :
      (b : lib.Bitmap) (i : ℕ) → lib.next b ≡ some i → (j : ℕ) → lib.contains j b ≡ true → i ≤ j
