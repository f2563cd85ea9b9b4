-- ===== src/Decode/Object/Wire.antt =====
-- A description of the decoder by tables: how each property is stored, when a stored field is sound,
-- and what it holds.
use mathlib.Core.Option
use ob_dump.Base.{
  ℕ, ◌==◌, Bool, true, false, not, ◌&&◌, ◌||◌, Option, none, some, Bytes, codes, eqb, if◌then◌else◌,
}
use ob_dump.Base.Exec.{Result, ok, err, std_exception, parse_error, unknown, runtime_error, ◌>>=◌}
use ob_dump.Json.{JsonLib}
use ob_dump.Schema.{
  PropertyType, PropertyDef, is_external, uuid, int128, decimal128, bson, json, java_script,
  json_to_native,
}
use ob_dump.Decode.{Scalar, size_of, FlatLib, FlexLib}
use ob_dump.Decode.Flex.{flex_to_json}
use ob_dump.Decode.Fields.{corrupt, bool_array, numeric_array, blob_string, string_array}

-- How a property is stored in a table.
pub data Wire : Type 0 where
  boolean text json_text booleans texts flexible skipped : Wire
  scalar numbers : Scalar → Wire
  blob : Bool → Wire

abbrev pub signed_as : PropertyDef → Scalar → Scalar → Scalar
signed_as p unsigned signed = if p.is_unsigned then unsigned else signed

abbrev pub is_json : PropertyDef → Bool
is_json p =
    is_external p.external_type json
    || is_external p.external_type java_script
    || is_external p.external_type json_to_native

abbrev pub is_blob : PropertyDef → Bool
is_blob p =
    is_external p.external_type int128
    || is_external p.external_type decimal128
    || is_external p.external_type bson

abbrev pub typed_wire : PropertyType → PropertyDef → Wire
typed_wire PropertyType.bool p = boolean
typed_wire PropertyType.byte p = scalar (signed_as p Scalar.uint8 Scalar.int8)
typed_wire PropertyType.short p = scalar (signed_as p Scalar.uint16 Scalar.int16)
typed_wire PropertyType.char p = scalar Scalar.uint16
typed_wire PropertyType.int p = scalar (signed_as p Scalar.uint32 Scalar.int32)
typed_wire PropertyType.long p = scalar (signed_as p Scalar.uint64 Scalar.int64)
typed_wire PropertyType.float p = scalar Scalar.float32
typed_wire PropertyType.double p = scalar Scalar.float64
typed_wire PropertyType.string p = if is_json p then json_text else text
typed_wire PropertyType.date p = scalar (signed_as p Scalar.uint64 Scalar.int64)
typed_wire PropertyType.relation p = scalar (signed_as p Scalar.uint64 Scalar.int64)
typed_wire PropertyType.date_nano p = scalar (signed_as p Scalar.uint64 Scalar.int64)
typed_wire PropertyType.flex p = flexible
typed_wire PropertyType.bool_vector p = booleans
typed_wire PropertyType.byte_vector p =
    if is_external p.external_type uuid
    then blob true
    else if is_blob p
    then blob false
    else numbers (signed_as p Scalar.uint8 Scalar.int8)
typed_wire PropertyType.short_vector p = numbers (signed_as p Scalar.uint16 Scalar.int16)
typed_wire PropertyType.char_vector p = numbers Scalar.uint16
typed_wire PropertyType.int_vector p = numbers (signed_as p Scalar.uint32 Scalar.int32)
typed_wire PropertyType.long_vector p = numbers (signed_as p Scalar.uint64 Scalar.int64)
typed_wire PropertyType.float_vector p = numbers Scalar.float32
typed_wire PropertyType.double_vector p = numbers Scalar.float64
typed_wire PropertyType.string_vector p = texts
typed_wire PropertyType.date_vector p = numbers (signed_as p Scalar.uint64 Scalar.int64)
typed_wire PropertyType.date_nano_vector p = numbers (signed_as p Scalar.uint64 Scalar.int64)
typed_wire PropertyType.unknown p = skipped

abbrev pub wire_of : PropertyDef → Wire
wire_of p = if eqb p.name (codes "id") then skipped else typed_wire p.type p

module _ {F : Type 0} (J : JsonLib F) (B : FlatLib F) (X : FlexLib F) where
  open J use {Value}
  open B use {Table, Verifier, Pointer}

  -- The first check that fails, by its message.
  abbrev pub failing : Bool → Bytes → Option Bytes → Option Bytes
  failing sound message next = if sound then next else some message

  abbrev pub flex_fault : Option Pointer → Option Bytes
  flex_fault none = none
  flex_fault (some p) =
      failing (X.verify_buffer (B.vector_data p)) (codes "invalid FlexBuffers contents in") none

  abbrev pub vector_fault : Bool → Bytes → Table → Verifier → ℕ → Option Bytes → Option Bytes
  vector_fault sound message t v slot next =
      failing (B.verify_offset t v slot) (codes "bad vector offset") (failing sound message next)

  abbrev pub text_fault : Table → Verifier → ℕ → Option Bytes
  text_fault t v slot =
      failing (B.verify_offset t v slot) (codes "bad string offset")
        (failing (B.verify_string v (B.get_pointer t slot)) (codes "bad string contents") none)

  abbrev pub fault : Wire → Table → Verifier → ℕ → Option Bytes
  fault boolean t v slot =
      failing (B.verify_field Scalar.uint8 t v slot 1) (codes "bad bool field") none
  fault (scalar T) t v slot =
      failing (B.verify_field T t v slot (size_of T)) (codes "bad scalar field") none
  fault text t v slot = text_fault t v slot
  fault json_text t v slot = text_fault t v slot
  fault booleans t v slot =
      vector_fault (B.verify_vector Scalar.uint8 v (B.get_pointer t slot)) (codes "bad bool vector")
        t v slot none
  fault (numbers T) t v slot =
      vector_fault (B.verify_vector T v (B.get_pointer t slot)) (codes "bad vector") t v slot none
  fault (blob _) t v slot =
      vector_fault (B.verify_vector Scalar.uint8 v (B.get_pointer t slot)) (codes "bad byte vector")
        t v slot none
  fault flexible t v slot =
      vector_fault (B.verify_vector Scalar.uint8 v (B.get_pointer t slot))
        (codes "bad Flex byte vector") t v slot (flex_fault (B.get_pointer t slot))
  fault texts t v slot =
      vector_fault
        (B.verify_offsets v (B.get_pointer t slot)
          && B.verify_vector_of_strings v (B.get_pointer t slot))
        (codes "bad string vector") t v slot none
  fault skipped t v slot = none

  abbrev pub behind : Option Pointer → (Pointer → Value) → Option Value
  behind o f = Option.map f o

  -- JSON that is kept as text: its value, the text itself where it is malformed, and any other
  -- exception of the parser.
  abbrev pub value_of_text : Result Value → Bytes → Result Value
  value_of_text (ok v) s = ok v
  value_of_text (err (parse_error _)) s = ok (J.string s)
  value_of_text (err (std_exception message)) s = err (std_exception message)
  value_of_text (err unknown) s = err unknown

  abbrev pub json_behind : Option Pointer → Result (Option Value)
  json_behind none = ok none
  json_behind (some p) = do v ← value_of_text (J.parse (B.string_at p)) (B.string_at p); ok (some v)

  -- What a sound field holds.
  abbrev pub content : Wire → Table → ℕ → Result (Option Value)
  content boolean t slot = ok (some (J.boolean (not (B.get_uint8 t slot == 0))))
  content (scalar T) t slot = ok (some (J.number (B.get_field T t slot)))
  content text t slot = ok (behind (B.get_pointer t slot) (λ p. J.string (B.string_at p)))
  content json_text t slot = json_behind (B.get_pointer t slot)
  content booleans t slot = ok (behind (B.get_pointer t slot) (bool_array J B X))
  content (numbers T) t slot = ok (behind (B.get_pointer t slot) (numeric_array J B X T))
  content (blob as_uuid) t slot = ok (behind (B.get_pointer t slot) (blob_string J B X as_uuid))
  content flexible t slot =
      ok (behind (B.get_pointer t slot) (λ p. flex_to_json J X (X.get_root (B.vector_data p))))
  content texts t slot = ok (behind (B.get_pointer t slot) (string_array J B X))
  content skipped t slot = ok none

  -- What the record holds of a property: nothing if it is skipped or absent.
  abbrev pub read : Wire → Table → Verifier → ℕ → Bytes → Result (Option Value)
  read w t v slot name =
      if B.check_field t slot
      then (elim (fault w t v slot) [
        | none ↦ content w t slot
        | some what ↦ runtime_error (corrupt what name)
      ])
      else ok none

  abbrev pub put : Value → Bytes → Option Value → Value
  put out name none = out
  put out name (some v) = J.set out name v

  abbrev pub store : Result (Option Value) → Bytes → Value → Result Value
  store r name out = do o ← r; ok (put out name o)
