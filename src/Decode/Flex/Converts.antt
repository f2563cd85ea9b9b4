-- ===== src/Decode/Flex/Converts.antt =====
-- `flexToJson` of fb_decode.cpp: which JSON a FlexBuffers value becomes, without regard to how deep
-- the recursion goes.
use ob_dump.Base.{
  ℕ, zero, suc, ◌+◌, ◌<◌, ◌≡◌, refl, List, [], ◌∷◌, ◌++◌, append_assoc, append-nil, Bool, true,
  false, Bytes, arith, ◌||◌, ◌∙◌, ap, sym, if◌then◌else◌,
}
use ob_dump.Base.Int.{pos}
use ob_dump.Json.{JsonLib, Number, ArrayLaws}
use ob_dump.Decode.{FlexLib}
use ob_dump.Decode.Hex.{to_hex}
use ob_dump.Decode.Flex.{
  push_all, vector_to_json, set_all, map_to_json, flex_step, flex_at, flex_to_json, IsNested,
}

module _ {F : Type 0} (J : JsonLib F) (X : FlexLib F) where
  open J use {Value}
  open X use {Reference, Vec}

  -- A value that is nested in nothing, and its JSON.
  pub data Plain (r : Reference) : Value → Type 0 where
    null : X.is_null r ≡ true → Plain r J.null
    boolean : X.is_bool r ≡ true → Plain r (J.boolean (X.as_bool r))
    integer : X.is_int r ≡ true → Plain r (J.number (Number.int (X.as_int64 r)))
    unsigned : X.is_uint r ≡ true → Plain r (J.number (Number.int (pos (X.as_uint64 r))))
    float : X.is_float r ≡ true → Plain r (J.number (Number.float64 (X.as_double r)))
    string : X.is_string r ≡ true → Plain r (J.string (X.as_string r))
    blob : X.is_blob r ≡ true → Plain r (J.string (to_hex (X.as_blob r)))

  -- The vector of a value that is one and no map.
  pub data IsVectorOf (r : Reference) : Vec → Type 0 where
    typed : X.is_typed_vector r ≡ true → IsVectorOf r (X.as_typed_vector r)
    fixed : X.is_fixed_typed_vector r ≡ true → IsVectorOf r (X.as_fixed_typed_vector r)
    plain : X.is_vector r ≡ true → IsVectorOf r (X.as_vector r)

  -- Of none of the kinds that the decoder knows.
  abbrev pub known : Reference → Bool
  known r =
      X.is_null r
      || X.is_bool r
      || X.is_int r
      || X.is_uint r
      || X.is_float r
      || X.is_string r
      || X.is_blob r
      || X.is_map r
      || X.is_typed_vector r
      || X.is_fixed_typed_vector r
      || X.is_vector r

  mutual
    -- The JSON of a value.
    pub data Converts : Reference → Value → Type 0 where
      scalar : {r : Reference} {v : Value} → Plain r v → Converts r v
      object :
          {r : Reference} {v : Value}
          → X.is_map r ≡ true
          → Assigned r 0 (X.size (X.keys (X.as_map r))) J.object v
          → Converts r v
      array :
          {r : Reference} {vec : Vec} {v : Value} {vs : List Value}
          → X.is_map r ≡ false
          → IsVectorOf r vec
          → Elements vec 0 (X.size vec) vs
          → (J.is_array v ≡ true) × (J.items v ≡ vs)
          → Converts r v
      absent : {r : Reference} → known r ≡ false → Converts r J.null

    -- The JSON of a vector's values from one of them on.
    pub data Elements : Vec → ℕ → ℕ → List Value → Type 0 where
      nil : {vec : Vec} {i : ℕ} → Elements vec i 0 []
      cons :
          {vec : Vec} {i n : ℕ} {v : Value} {vs : List Value}
          → Converts (X.element vec i) v
          → Elements vec (i + 1) n vs
          → Elements vec i (suc n) (v ∷ vs)

    -- An object with a map's entries assigned from one of them on: each key's value is the JSON of the
    -- value at its place.
    pub data Assigned : Reference → ℕ → ℕ → Value → Value → Type 0 where
      finished : {r : Reference} {i : ℕ} {o : Value} → Assigned r i 0 o o
      entry :
          {r : Reference} {i n : ℕ} {o o' v : Value}
          → Converts (X.element (X.values (X.as_map r)) i) v
          → Assigned r (i + 1) n (J.set o (X.as_key (X.element (X.keys (X.as_map r)) i)) v) o'
          → Assigned r i (suc n) o o'

  if-Converts :
      {r : Reference} {x y : Value} (b : Bool)
      → (b ≡ true → Converts r x)
      → (b ≡ false → Converts r y)
      → Converts r (if b then x else y)
  if-Converts true h k = h refl
  if-Converts false h k = k refl

  module _ (a : ArrayLaws J) (convert : Reference → Value) where
    abbrev element_json : Vec → ℕ → Value
    element_json vec i = convert (X.element vec i)

    -- The values that the loop over a vector pushes.
    abbrev Pushes : Vec → ℕ → ℕ → Type 0
    Pushes vec i n =
        (vs : List Value) × Elements vec i n vs
        × ((arr : Value)
            → J.is_array arr ≡ true
            → (J.is_array (push_all J (element_json vec) n i arr) ≡ true)
              × (J.items (push_all J (element_json vec) n i arr) ≡ J.items arr ++ vs))

    push_all-Pushes :
        (vec : Vec) (i n : ℕ)
        → ((j : ℕ) → j < i + n → Converts (X.element vec j) (element_json vec j))
        → Pushes vec i n
    unfolding push_all
    push_all-Pushes vec i zero h = ([], nil, λ arr k. (k, sym (append-nil (J.items arr))))
    push_all-Pushes vec i (suc n) h =
        let (vs, elements, pushed) = push_all-Pushes vec (i + 1) n (λ j lt. h j (omega arith)) in
        (
          element_json vec i ∷ vs,
          cons (h i (omega arith)) elements,
          λ arr k.
              (let next = J.push_back arr (element_json vec i) in
                let (is_array, items) = pushed next (a.is_array-push_back arr _ k) in
                (
                  is_array,
                  items
                      ∙ ap (λ (l : List Value). l ++ vs) (a.items-push_back arr _ k)
                      ∙ append_assoc (J.items arr) (element_json vec i ∷ []) vs,
                )),
        )

    vector_to_json-Converts :
        {r : Reference} (vec : Vec)
        → X.is_map r ≡ false
        → IsVectorOf r vec
        → ((j : ℕ) → j < X.size vec → Converts (X.element vec j) (element_json vec j))
        → Converts r (vector_to_json J X convert vec)
    unfolding vector_to_json
    vector_to_json-Converts vec m of h =
        let (vs, elements, pushed) =
          push_all-Pushes vec 0 (X.size vec) (λ j lt. h j (omega arith)) in
        let (is_array, items) = pushed J.array a.is_array-array in
        array m of elements (is_array, items ∙ ap (λ (l : List Value). l ++ vs) a.items-array)

    abbrev key_at : Reference → ℕ → Bytes
    key_at r i = X.as_key (X.element (X.keys (X.as_map r)) i)

    abbrev value_at : Reference → ℕ → Value
    value_at r i = convert (X.element (X.values (X.as_map r)) i)

    set_all-Assigned :
        (r : Reference) (i n : ℕ) (o : Value)
        → ((j : ℕ) → j < i + n → Converts (X.element (X.values (X.as_map r)) j) (value_at r j))
        → Assigned r i n o (set_all J X (key_at r) (value_at r) n i o)
    unfolding set_all
    set_all-Assigned r i zero o h = finished
    set_all-Assigned r i (suc n) o h = entry (h i (omega arith)) (
        set_all-Assigned r (i + 1) n (J.set o (key_at r i) (value_at r i))
          (λ j lt. h j (omega arith)))

    map_to_json-Converts :
        (r : Reference)
        → X.is_map r ≡ true
        → ((j : ℕ)
            → j < X.size (X.keys (X.as_map r))
            → Converts (X.element (X.values (X.as_map r)) j) (value_at r j))
        → Converts r (map_to_json J X convert (X.as_map r))
    unfolding map_to_json
    map_to_json-Converts r m h =
        object m
          (set_all-Assigned r 0 (X.size (X.keys (X.as_map r))) J.object (λ j lt. h j (omega arith)))

    flex_step-Converts :
        (n : IsNested J X) (r : Reference)
        → ((c : Reference) → X.depth c < X.depth r → Converts c (convert c))
        → Converts r (flex_step J X convert r)
    unfolding flex_step
    flex_step-Converts n r h =
        if-Converts (X.is_null r) (λ e. scalar (null e))
          λ e1.
            if-Converts (X.is_bool r) (λ e. scalar (boolean e))
              λ e2.
                if-Converts (X.is_int r) (λ e. scalar (integer e))
                  λ e3.
                    if-Converts (X.is_uint r) (λ e. scalar (unsigned e))
                      λ e4.
                        if-Converts (X.is_float r) (λ e. scalar (float e))
                          λ e5.
                            if-Converts (X.is_string r) (λ e. scalar (string e))
                              λ e6.
                                if-Converts (X.is_blob r) (λ e. scalar (blob e))
                                  λ e7.
                                    if-Converts (X.is_map r)
                                      (λ e. map_to_json-Converts r e (λ j lt. h _ (n.map r e j lt)))
                                      λ e8.
                                        if-Converts (X.is_typed_vector r)
                                          (λ e.
                                            vector_to_json-Converts _ e8 (typed e)
                                              (λ j lt. h _ (n.typed r e j lt)))
                                          λ e9.
                                            if-Converts (X.is_fixed_typed_vector r)
                                              (λ e.
                                                vector_to_json-Converts _ e8 (fixed e)
                                                  (λ j lt. h _ (n.fixed r e j lt)))
                                              λ e10.
                                                if-Converts (X.is_vector r)
                                                  (λ e.
                                                    vector_to_json-Converts _ e8 (plain e)
                                                      (λ j lt. h _ (n.plain r e j lt)))
                                                  λ e11. absent (
                                                    rw
                                                      (e1, e2, e3, e4, e5, e6, e7, e8, e9, e10, e11)
                                                      refl)

  flex_at-Converts :
      (a : ArrayLaws J) (n : IsNested J X) (fuel : ℕ) (r : Reference)
      → X.depth r < fuel
      → Converts r (flex_at J X fuel r)
  unfolding flex_at
  flex_at-Converts a n zero r h = absurd (omega arith)
  flex_at-Converts a n (suc fuel) r h =
      flex_step-Converts a (flex_at J X fuel) n r
        (λ c lt. flex_at-Converts a n fuel c (omega arith))

  -- Over a JSON library with the laws of arrays, the conversion of any finite FlexBuffers value ends
  -- with the JSON of the value. A null, a bool, a number and a string become JSON's own, and a blob its
  -- hex digits; a map becomes an object with each key assigned the JSON of its value, in their
  -- order; a vector of any of the three kinds that is no map becomes the array of the JSON of
  -- its values; and what is of no known kind becomes null.
  pub flex_to_json-Converts :
      (a : ArrayLaws J) (n : IsNested J X) (r : Reference) → Converts r (flex_to_json J X r)
  unfolding flex_to_json
  flex_to_json-Converts a n r = flex_at-Converts a n (suc (X.depth r)) r (omega arith)
