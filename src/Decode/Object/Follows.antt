-- ===== src/Decode/Object/Follows.antt =====
-- `decode_property` of fb_decode.cpp follows the tables of how a property is stored.
use ob_dump.Base.{ℕ, ◌≡◌, sym, Bool, true, false, Bytes, codes, arith, eqb, if◌then◌else◌}
use ob_dump.Base.Exec.{Result, ok}
use ob_dump.Json.{JsonLib}
use ob_dump.Schema.{PropertyType, PropertyDef, is_external, uuid}
use ob_dump.Decode.{Scalar, FlatLib, FlexLib, slot_for}
use ob_dump.Decode.Fields.{
  assign_flex, assign_json, json_or_text, decode_bool, decode_scalar, decode_string,
  decode_string_as_json, decode_bool_vector, decode_numeric_vector,
  decode_byte_vector_as_blob_string, decode_flex, decode_string_vector,
}
use ob_dump.Decode.Object.{decode_long, decode_long_vector, decode_typed, decode_property}
use ob_dump.Decode.Object.Wire.{
  Wire, boolean, text, json_text, booleans, texts, flexible, skipped, scalar, numbers, blob,
  signed_as, is_json, is_blob, typed_wire, wire_of, read, store,
}

module _ {F : Type 0} (J : JsonLib F) (B : FlatLib F) (X : FlexLib F) where
  open J use {Value}
  open B use {Table, Verifier, Pointer}

  module _ (t : Table) (v : Verifier) (slot : ℕ) (name : Bytes) (out : Value) where
    follows_bool :
        decode_bool J B X t v slot name out
        ≡ store J B X (read J B X boolean t v slot name) name out
    unfolding decode_bool
    follows_bool = ground arith

    follows_scalar :
        (T : Scalar)
        → decode_scalar J B X T t v slot name out
          ≡ store J B X (read J B X (scalar T) t v slot name) name out
    unfolding decode_scalar
    follows_scalar T = ground arith

    follows_string :
        decode_string J B X t v slot name out ≡ store J B X (read J B X text t v slot name) name out
    unfolding decode_string
    follows_string = ground arith

    follows_flex :
        decode_flex J B X t v slot name out
        ≡ store J B X (read J B X flexible t v slot name) name out
    unfolding decode_flex assign_flex
    follows_flex = ground arith

    follows_json :
        decode_string_as_json J B X t v slot name out
        ≡ store J B X (read J B X json_text t v slot name) name out
    unfolding decode_string_as_json json_or_text assign_json
    follows_json = ground arith

    follows_bools :
        decode_bool_vector J B X t v slot name out
        ≡ store J B X (read J B X booleans t v slot name) name out
    unfolding decode_bool_vector
    follows_bools = ground arith

    follows_numbers :
        (T : Scalar)
        → decode_numeric_vector J B X T t v slot name out
          ≡ store J B X (read J B X (numbers T) t v slot name) name out
    unfolding decode_numeric_vector
    follows_numbers T = ground arith

    follows_blob :
        (as_uuid : Bool)
        → decode_byte_vector_as_blob_string J B X t v slot name out as_uuid
          ≡ store J B X (read J B X (blob as_uuid) t v slot name) name out
    unfolding decode_byte_vector_as_blob_string
    follows_blob as_uuid = ground arith

    follows_strings :
        decode_string_vector J B X t v slot name out
        ≡ store J B X (read J B X texts t v slot name) name out
    unfolding decode_string_vector
    follows_strings = ground arith

  module _ (p : PropertyDef) (t : Table) (v : Verifier) (slot : ℕ) (out : Value) where
    abbrev reads : Wire → Result Value
    reads w = store J B X (read J B X w t v slot p.name) p.name out

    signed_scalar :
        (T S : Scalar)
        → (if p.is_unsigned
            then decode_scalar J B X T t v slot p.name out
            else decode_scalar J B X S t v slot p.name out)
          ≡ reads (scalar (signed_as p T S))
    signed_scalar T S = by_flag p.is_unsigned
      where
        by_flag :
            (b : Bool)
            → (if b
                then decode_scalar J B X T t v slot p.name out
                else decode_scalar J B X S t v slot p.name out)
              ≡ reads (scalar (if b then T else S))
        by_flag true = follows_scalar t v slot p.name out T
        by_flag false = follows_scalar t v slot p.name out S

    signed_numbers :
        (T S : Scalar)
        → (if p.is_unsigned
            then decode_numeric_vector J B X T t v slot p.name out
            else decode_numeric_vector J B X S t v slot p.name out)
          ≡ reads (numbers (signed_as p T S))
    signed_numbers T S = by_flag p.is_unsigned
      where
        by_flag :
            (b : Bool)
            → (if b
                then decode_numeric_vector J B X T t v slot p.name out
                else decode_numeric_vector J B X S t v slot p.name out)
              ≡ reads (numbers (if b then T else S))
        by_flag true = follows_numbers t v slot p.name out T
        by_flag false = follows_numbers t v slot p.name out S

    follows_text :
        decode_typed J B X PropertyType.string p t v slot out
        ≡ reads (typed_wire PropertyType.string p)
    unfolding decode_typed
    follows_text = by_flag (is_json p)
      where
        by_flag :
            (b : Bool)
            → (if b
                then decode_string_as_json J B X t v slot p.name out
                else decode_string J B X t v slot p.name out)
              ≡ reads (if b then json_text else text)
        by_flag true = follows_json t v slot p.name out
        by_flag false = follows_string t v slot p.name out

    follows_bytes :
        decode_typed J B X PropertyType.byte_vector p t v slot out
        ≡ reads (typed_wire PropertyType.byte_vector p)
    unfolding decode_typed
    follows_bytes = by_flags (is_external p.external_type uuid) (is_blob p)
      where
        by_flags :
            (b c : Bool)
            → (if b
                then decode_byte_vector_as_blob_string J B X t v slot p.name out true
                else if c
                then decode_byte_vector_as_blob_string J B X t v slot p.name out false
                else if p.is_unsigned
                then decode_numeric_vector J B X Scalar.uint8 t v slot p.name out
                else decode_numeric_vector J B X Scalar.int8 t v slot p.name out)
              ≡ reads (
                  if b
                  then blob true
                  else if c
                  then blob false
                  else numbers (signed_as p Scalar.uint8 Scalar.int8))
        by_flags true c = follows_blob t v slot p.name out true
        by_flags false true = follows_blob t v slot p.name out false
        by_flags false false = signed_numbers Scalar.uint8 Scalar.int8

    reads-skipped : reads skipped ≡ ok out
    reads-skipped = ground arith

    follows_typed :
        (T : PropertyType) → decode_typed J B X T p t v slot out ≡ reads (typed_wire T p)
    unfolding decode_typed decode_long decode_long_vector
    follows_typed PropertyType.bool = follows_bool t v slot p.name out
    follows_typed PropertyType.byte = signed_scalar Scalar.uint8 Scalar.int8
    follows_typed PropertyType.short = signed_scalar Scalar.uint16 Scalar.int16
    follows_typed PropertyType.char = follows_scalar t v slot p.name out Scalar.uint16
    follows_typed PropertyType.int = signed_scalar Scalar.uint32 Scalar.int32
    follows_typed PropertyType.long = signed_scalar Scalar.uint64 Scalar.int64
    follows_typed PropertyType.float = follows_scalar t v slot p.name out Scalar.float32
    follows_typed PropertyType.double = follows_scalar t v slot p.name out Scalar.float64
    follows_typed PropertyType.string = follows_text
    follows_typed PropertyType.date = signed_scalar Scalar.uint64 Scalar.int64
    follows_typed PropertyType.relation = signed_scalar Scalar.uint64 Scalar.int64
    follows_typed PropertyType.date_nano = signed_scalar Scalar.uint64 Scalar.int64
    follows_typed PropertyType.flex = follows_flex t v slot p.name out
    follows_typed PropertyType.bool_vector = follows_bools t v slot p.name out
    follows_typed PropertyType.byte_vector = follows_bytes
    follows_typed PropertyType.short_vector = signed_numbers Scalar.uint16 Scalar.int16
    follows_typed PropertyType.char_vector = follows_numbers t v slot p.name out Scalar.uint16
    follows_typed PropertyType.int_vector = signed_numbers Scalar.uint32 Scalar.int32
    follows_typed PropertyType.long_vector = signed_numbers Scalar.uint64 Scalar.int64
    follows_typed PropertyType.float_vector = follows_numbers t v slot p.name out Scalar.float32
    follows_typed PropertyType.double_vector = follows_numbers t v slot p.name out Scalar.float64
    follows_typed PropertyType.string_vector = follows_strings t v slot p.name out
    follows_typed PropertyType.date_vector = signed_numbers Scalar.uint64 Scalar.int64
    follows_typed PropertyType.date_nano_vector = signed_numbers Scalar.uint64 Scalar.int64
    follows_typed PropertyType.unknown = sym reads-skipped

  -- The decoder reads every property as the tables say: a property named "id" or of an unknown type is
  -- skipped, an absent field leaves the object as it is, an unsound one ends the record with the
  -- message of its first failing check, and a sound one is assigned under the property's name. Of a
  -- string that holds JSON the value is assigned, or the text if it is malformed; any other exception
  -- of the parser ends the record.
  pub decode_property-read :
      (t : Table) (v : Verifier) (p : PropertyDef) (out : Value)
      → decode_property J B X t v p out
        ≡ store J B X (read J B X (wire_of p) t v (slot_for p.id) p.name) p.name out
  unfolding decode_property
  decode_property-read t v p out = by_name (eqb p.name (codes "id"))
    where
      by_name :
          (b : Bool)
          → (if b then ok out else decode_typed J B X p.type p t v (slot_for p.id) out)
            ≡ reads p t v (slot_for p.id) out (if b then skipped else typed_wire p.type p)
      by_name true = sym (reads-skipped p t v (slot_for p.id) out)
      by_name false = follows_typed p t v (slot_for p.id) out p.type
