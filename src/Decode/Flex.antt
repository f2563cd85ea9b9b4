-- ===== src/Decode/Flex.antt =====
-- `flexToJson` and `flexVectorToJson` of fb_decode.cpp.
pub mod Converts
use ob_dump.Base.{ℕ, zero, suc, ◌+◌, ◌<◌, ◌≡◌, refl, true, Bytes, arith, if◌then◌else◌, if_cong}
use ob_dump.Base.Int.{pos}
use ob_dump.Json.{JsonLib, Number}
use ob_dump.Decode.{FlexLib}
use ob_dump.Decode.Hex.{to_hex}

module _ {F : Type 0} (J : JsonLib F) where
  open J use {Value}

  -- `for (i = …; i < size; ++i) arr.push_back(f(i))`, by the rounds left.
  pub push_all : (ℕ → Value) → ℕ → ℕ → Value → Value
  push_all f zero i arr = arr
  push_all f (suc rounds) i arr = push_all f rounds (i + 1) (J.push_back arr (f i))

module _ {F : Type 0} (J : JsonLib F) (X : FlexLib F) where
  open J use {Value}
  open X use {Reference, Vec, Map}

  vector_to_json : (Reference → Value) → Vec → Value
  vector_to_json convert vec = push_all J (λ i. convert (X.element vec i)) (X.size vec) 0 J.array

  set_all : (ℕ → Bytes) → (ℕ → Value) → ℕ → ℕ → Value → Value
  set_all key f zero i obj = obj
  set_all key f (suc rounds) i obj = set_all key f rounds (i + 1) (J.set obj (key i) (f i))

  map_to_json : (Reference → Value) → Map → Value
  map_to_json convert m =
      set_all (λ i. X.as_key (X.element (X.keys m) i)) (λ i. convert (X.element (X.values m) i))
        (X.size (X.keys m)) 0 J.object

  -- One call of `flexToJson`, whose own calls are `convert`.
  pub flex_step : (Reference → Value) → Reference → Value
  flex_step convert ref =
      if X.is_null ref
      then J.null
      else if X.is_bool ref
      then J.boolean (X.as_bool ref)
      else if X.is_int ref
      then J.number (Number.int (X.as_int64 ref))
      else if X.is_uint ref
      then J.number (Number.int (pos (X.as_uint64 ref)))
      else if X.is_float ref
      then J.number (Number.float64 (X.as_double ref))
      else if X.is_string ref
      then J.string (X.as_string ref)
      else if X.is_blob ref
      then J.string (to_hex (X.as_blob ref))
      else if X.is_map ref
      then map_to_json convert (X.as_map ref)
      else if X.is_typed_vector ref
      then vector_to_json convert (X.as_typed_vector ref)
      else if X.is_fixed_typed_vector ref
      then vector_to_json convert (X.as_fixed_typed_vector ref)
      else if X.is_vector ref
      then vector_to_json convert (X.as_vector ref)
      else J.null

  -- The recursion, by how deep it goes: as deep as the value.
  flex_at : ℕ → Reference → Value
  flex_at zero ref = J.null
  flex_at (suc fuel) ref = flex_step (flex_at fuel) ref

  unfoldable pub flex_to_json : Reference → Value
  unfolding push_all vector_to_json set_all map_to_json flex_step flex_at
  flex_to_json ref = flex_at (suc (X.depth ref)) ref

  abbrev IsShallower : Reference → Vec → ℕ → Type 0
  IsShallower r vec size = (i : ℕ) → i < size → X.depth (X.element vec i) < X.depth r

  -- A FlexBuffers value is a finite tree: the values in it lie less deep than it.
  pub record IsNested : Type 0 where
    pub map :
        (r : Reference)
        → X.is_map r ≡ true
        → IsShallower r (X.values (X.as_map r)) (X.size (X.keys (X.as_map r)))
    pub typed :
        (r : Reference)
        → X.is_typed_vector r ≡ true
        → IsShallower r (X.as_typed_vector r) (X.size (X.as_typed_vector r))
    pub fixed :
        (r : Reference)
        → X.is_fixed_typed_vector r ≡ true
        → IsShallower r (X.as_fixed_typed_vector r) (X.size (X.as_fixed_typed_vector r))
    pub plain :
        (r : Reference)
        → X.is_vector r ≡ true
        → IsShallower r (X.as_vector r) (X.size (X.as_vector r))
