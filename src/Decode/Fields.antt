-- ===== src/Decode/Fields.antt =====
-- The functions of fb_decode.cpp that read one field of a table into the object `out`.
use ob_dump.Base.{
  ℕ, Bool, true, false, not, ◌||◌, Option, none, some, Bytes, codes, ◌++◌, ◌==◌, if◌then◌else◌,
}
use ob_dump.Base.Exec.{
  Result, ok, err, std_exception, parse_error, unknown, runtime_error, ◌>>=◌, ◌>>◌,
}
use ob_dump.Json.{JsonLib}
use ob_dump.Decode.{Scalar, size_of, FlatLib, FlexLib}
use ob_dump.Decode.Hex.{to_hex, hex_as_uuid}
use ob_dump.Decode.Flex.{push_all, flex_to_json}

-- `"corrupt record: " what " '" name "'"`.
abbrev pub corrupt : Bytes → Bytes → Bytes
corrupt what name = codes "corrupt record: " ++ what ++ codes " '" ++ name ++ codes "'"

-- A check whose failure is a `throw`.
abbrev pub require : Bool → Bytes → Result (Unit {0})
require true message = ok tt
require false message = runtime_error message

module _ {F : Type 0} (J : JsonLib F) (B : FlatLib F) (X : FlexLib F) where
  open J use {Value}
  open B use {Table, Verifier, Pointer}

  -- `out[name] = v`, or nothing behind a null pointer.
  abbrev pub assign : Value → Bytes → Value → Result Value
  assign out name v = ok (J.set out name v)

  abbrev pub assign_from : Value → Bytes → Option Pointer → (Pointer → Value) → Result Value
  assign_from out name none f = ok out
  assign_from out name (some p) f = assign out name (f p)

  unfoldable pub decode_bool : Table → Verifier → ℕ → Bytes → Value → Result Value
  decode_bool t v slot name out = if not (B.check_field t slot) then ok out else do
    require (B.verify_field Scalar.uint8 t v slot 1) (corrupt (codes "bad bool field") name)
    assign out name (J.boolean (not (B.get_uint8 t slot == 0)))

  unfoldable pub decode_scalar : Scalar → Table → Verifier → ℕ → Bytes → Value → Result Value
  decode_scalar T t v slot name out = if not (B.check_field t slot) then ok out else do
    require (B.verify_field T t v slot (size_of T)) (corrupt (codes "bad scalar field") name)
    assign out name (J.number (B.get_field T t slot))

  unfoldable pub decode_string : Table → Verifier → ℕ → Bytes → Value → Result Value
  decode_string t v slot name out = if not (B.check_field t slot) then ok out else do
    require (B.verify_offset t v slot) (corrupt (codes "bad string offset") name)
    let str = B.get_pointer t slot
    require (B.verify_string v str) (corrupt (codes "bad string contents") name)
    assign_from out name str (λ p. J.string (B.string_at p))

  -- `try { out[name] = parse(text) } catch (const parse_error&) { out[name] = text }`: anything else
  -- that parse throws is not caught here.
  unfoldable pub json_or_text : Bytes → Result Value
  json_or_text text = elim (J.parse text) [
    | ok v ↦ ok v
    | err e ↦ elim e [
      | parse_error _ ↦ ok (J.string text)
      | std_exception message ↦ err (std_exception message)
      | unknown ↦ err unknown
    ]
  ]

  unfoldable pub assign_json : Value → Bytes → Option Pointer → Result Value
  assign_json out name none = ok out
  assign_json out name (some p) = do v ← json_or_text (B.string_at p); assign out name v

  unfoldable pub decode_string_as_json : Table → Verifier → ℕ → Bytes → Value → Result Value
  decode_string_as_json t v slot name out = if not (B.check_field t slot) then ok out else do
    require (B.verify_offset t v slot) (corrupt (codes "bad string offset") name)
    let str = B.get_pointer t slot
    require (B.verify_string v str) (corrupt (codes "bad string contents") name)
    assign_json out name str

  unfoldable pub bool_array : Pointer → Value
  bool_array p =
      push_all J (λ i. J.boolean (not (B.vector_uint8 p i == 0))) (B.vector_size p) 0 J.array

  unfoldable pub decode_bool_vector : Table → Verifier → ℕ → Bytes → Value → Result Value
  decode_bool_vector t v slot name out = if not (B.check_field t slot) then ok out else do
    require (B.verify_offset t v slot) (corrupt (codes "bad vector offset") name)
    let vec = B.get_pointer t slot
    require (B.verify_vector Scalar.uint8 v vec) (corrupt (codes "bad bool vector") name)
    assign_from out name vec bool_array

  unfoldable pub numeric_array : Scalar → Pointer → Value
  numeric_array T p = push_all J (λ i. J.number (B.vector_get T p i)) (B.vector_size p) 0 J.array

  unfoldable pub decode_numeric_vector :
      Scalar → Table → Verifier → ℕ → Bytes → Value → Result Value
  decode_numeric_vector T t v slot name out = if not (B.check_field t slot) then ok out else do
    require (B.verify_offset t v slot) (corrupt (codes "bad vector offset") name)
    let vec = B.get_pointer t slot
    require (B.verify_vector T v vec) (corrupt (codes "bad vector") name)
    assign_from out name vec (numeric_array T)

  unfoldable pub blob_string : Bool → Pointer → Value
  blob_string as_uuid p =
      let hex = to_hex (B.vector_data p) in J.string (if as_uuid then hex_as_uuid hex else hex)

  unfoldable pub decode_byte_vector_as_blob_string :
      Table → Verifier → ℕ → Bytes → Value → Bool → Result Value
  decode_byte_vector_as_blob_string t v slot name out as_uuid =
      if not (B.check_field t slot) then ok out else do
        require (B.verify_offset t v slot) (corrupt (codes "bad vector offset") name)
        let vec = B.get_pointer t slot
        require (B.verify_vector Scalar.uint8 v vec) (corrupt (codes "bad byte vector") name)
        assign_from out name vec (blob_string as_uuid)

  abbrev pub bad_flex : Bytes → Bytes
  bad_flex name = corrupt (codes "invalid FlexBuffers contents in") name

  unfoldable pub assign_flex : Value → Bytes → Option Pointer → Result Value
  assign_flex out name none = ok out
  assign_flex out name (some p) = do
    require (X.verify_buffer (B.vector_data p)) (bad_flex name)
    assign out name (flex_to_json J X (X.get_root (B.vector_data p)))

  unfoldable pub decode_flex : Table → Verifier → ℕ → Bytes → Value → Result Value
  decode_flex t v slot name out = if not (B.check_field t slot) then ok out else do
    require (B.verify_offset t v slot) (corrupt (codes "bad vector offset") name)
    let vec = B.get_pointer t slot
    require (B.verify_vector Scalar.uint8 v vec) (corrupt (codes "bad Flex byte vector") name)
    assign_flex out name vec

  unfoldable pub string_array : Pointer → Value
  string_array p = push_all J (λ i. J.string (B.vector_string p i)) (B.vector_size p) 0 J.array

  unfoldable pub decode_string_vector : Table → Verifier → ℕ → Bytes → Value → Result Value
  decode_string_vector t v slot name out = if not (B.check_field t slot) then ok out else do
    require (B.verify_offset t v slot) (corrupt (codes "bad vector offset") name)
    let vec = B.get_pointer t slot
    require (not (not (B.verify_offsets v vec) || not (B.verify_vector_of_strings v vec)))
        (corrupt (codes "bad string vector") name)
    assign_from out name vec string_array
