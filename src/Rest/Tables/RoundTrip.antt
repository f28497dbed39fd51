-- ===== src/Rest/Tables/RoundTrip.antt =====
-- What a GET on the FAR or QER table gives after a PUT.
use eupf.Base.{ℕ, ◌^◌, ◌<◌, ◌≡◌, refl, true, false, some, [], ◌∷◌, arith, ltb, ◌==◌, if◌then◌else◌}
use eupf.Base.Text.{Text, is_number, decimal}
use eupf.Base.Text.Digits.{digits, decimal-digits, Begun, digits-Begun, is_number-digits}
use eupf.Ebpf.Kernel.{IsArray}
use eupf.Ebpf.Objects.{Libraries, BpfObjects}
use eupf.Rest.{answers, atoi, to_uint32}
use eupf.Rest.Tables.{
  FarMapElement, QerMapElement, far_of_element, qer_of_element, found_far, found_qer, get_far_value,
  set_far_value, get_qer_value, set_qer_value,
}

atoi-number :
    (n : ℕ) (cs : Text)
    → Begun cs
    → is_number cs ≡ true
    → decimal 0 cs ≡ n
    → n < 2 ^ 63
    → atoi cs ≡ some (false, n)
unfolding atoi
atoi-number n [] h k d b = absurd h
atoi-number n (c ∷ cs) h k d b = ground (arith, h, k, d, b)

atoi-digits : (id : ℕ) → id < 2 ^ 32 → atoi (digits 10 id) ≡ some (false, id)
atoi-digits id h =
    atoi-number id (digits 10 id) (digits-Begun 9 id (omega (arith, h)))
      (is_number-digits 9 id (omega (arith, h))) (decimal-digits 10 id (omega (arith, h)))
      (omega (arith, h))

module _ (lib : Libraries) (size : ℕ) where
  get_far_value-digits :
      (id : ℕ) (s : BpfObjects lib)
      → id < 2 ^ 32
      → get_far_value lib (digits 10 id) s ≡ found_far lib id (lib.far_maps.map_lookup id s.far_map)
  unfolding get_far_value
  get_far_value-digits id s h =
      let e : to_uint32 (false, id) ≡ id = omega (arith, h) in
      rw (get_far_value, atoi-digits id h, e) refl

  get_qer_value-digits :
      (id : ℕ) (s : BpfObjects lib)
      → id < 2 ^ 32
      → get_qer_value lib (digits 10 id) s ≡ found_qer lib id (lib.qer_maps.map_lookup id s.qer_map)
  unfolding get_qer_value
  get_qer_value-digits id s h =
      let e : to_uint32 (false, id) ≡ id = omega (arith, h) in
      rw (get_qer_value, atoi-digits id h, e) refl

  far_round_trip :
      IsArray lib.far_maps (λ i. ltb i size)
      → (e : FarMapElement) (s : BpfObjects lib) → e.far_element_id < size
      → size < 2 ^ 32
      → ((set_far_value lib (some e) s).0 ≡ answers 201 e)
        × ((j : ℕ)
            → j < 2 ^ 32
            → get_far_value lib (digits 10 j) (set_far_value lib (some e) s).1 ≡ (
                if e.far_element_id == j then answers 200 e else get_far_value lib (digits 10 j) s))
  unfolding set_far_value
  far_round_trip slots e s h b =
      let below : ltb e.far_element_id size ≡ true = ground (arith, h) in
      let put = slots.array_put e.far_element_id (far_of_element e) s.far_map below in
      let st = slots.array_put_stores e.far_element_id (far_of_element e) s.far_map below in
      (
        rw put refl,
        λ j k. ground (
          arith,
          get_far_value-digits j (set_far_value lib (some e) s).1 k,
          get_far_value-digits j s k,
          st.stored,
          st.others j,
        ),
      )

  qer_round_trip :
      IsArray lib.qer_maps (λ i. ltb i size)
      → (e : QerMapElement) (s : BpfObjects lib) → e.qer_element_id < size
      → size < 2 ^ 32
      → ((set_qer_value lib (some e) s).0 ≡ answers 201 e)
        × ((j : ℕ)
            → j < 2 ^ 32
            → get_qer_value lib (digits 10 j) (set_qer_value lib (some e) s).1 ≡ (
                if e.qer_element_id == j then answers 200 e else get_qer_value lib (digits 10 j) s))
  unfolding set_qer_value
  qer_round_trip slots e s h b =
      let below : ltb e.qer_element_id size ≡ true = ground (arith, h) in
      let put = slots.array_put e.qer_element_id (qer_of_element e) s.qer_map below in
      let st = slots.array_put_stores e.qer_element_id (qer_of_element e) s.qer_map below in
      (
        rw put refl,
        λ j k. ground (
          arith,
          get_qer_value-digits j (set_qer_value lib (some e) s).1 k,
          get_qer_value-digits j s k,
          st.stored,
          st.others j,
        ),
      )

  -- With FAR and QER maps that are arrays of `size` entries, for ids below the size: a PUT of an
  -- element to the FAR or the QER table, whose id is the one of the body and not of the path, is
  -- answered by 201 and the element, and a GET of the id that a path names in decimal is then
  -- answered by 200 and that very element if it is the id of the body, and as before the PUT for
  -- every other id of a uint32.
  pub get_value-set_value :
      IsArray lib.far_maps (λ i. ltb i size)
      → IsArray lib.qer_maps (λ i. ltb i size)
      → (f : FarMapElement) (q : QerMapElement) (s : BpfObjects lib) → f.far_element_id < size
      → q.qer_element_id < size
      → size < 2 ^ 32
      → ((set_far_value lib (some f) s).0 ≡ answers 201 f)
        × ((j : ℕ)
            → j < 2 ^ 32
            → get_far_value lib (digits 10 j) (set_far_value lib (some f) s).1 ≡ (
                if f.far_element_id == j then answers 200 f else get_far_value lib (digits 10 j) s))
        × ((set_qer_value lib (some q) s).0 ≡ answers 201 q)
        × ((j : ℕ)
            → j < 2 ^ 32
            → get_qer_value lib (digits 10 j) (set_qer_value lib (some q) s).1 ≡ (
                if q.qer_element_id == j then answers 200 q else get_qer_value lib (digits 10 j) s))
  get_value-set_value fars qers f q s a b c =
      let x = far_round_trip fars f s a c in
      let y = qer_round_trip qers q s b c in (x.0, x.1, y.0, y.1)
