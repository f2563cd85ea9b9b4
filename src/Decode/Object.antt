-- ===== src/Decode/Object.antt =====
-- `decodeObject` of fb_decode.cpp: the dispatch on a property's type, and the loop.
pub mod Wire
pub mod Follows
pub mod Contents
use ob_dump.Base.{
  ℕ, List, [], ◌∷◌, Bool, true, false, not, ◌||◌, Bytes, codes, ◌++◌, ◌==◌, eqb, if◌then◌else◌,
}
use ob_dump.Base.Exec.{Result, ok, err, runtime_error, ◌>>=◌, ◌>>◌}
use ob_dump.Json.{JsonLib}
use ob_dump.Schema.{
  PropertyType, PropertyDef, EntityDef, is_external, uuid, int128, decimal128, bson, json,
  java_script, json_to_native,
}
use ob_dump.Decode.{Scalar, FlatLib, FlexLib, slot_for}
use ob_dump.Decode.Fields.{
  require, decode_bool, decode_scalar, decode_string, decode_string_as_json, decode_bool_vector,
  decode_numeric_vector, decode_byte_vector_as_blob_string, decode_flex, decode_string_vector,
}

module _ {F : Type 0} (J : JsonLib F) (B : FlatLib F) (X : FlexLib F) where
  open J use {Value}
  open B use {Table, Verifier}

  -- The shared case of the 64-bit scalars, and that of their vectors.
  decode_long : PropertyDef → Table → Verifier → ℕ → Value → Result Value
  decode_long p t v slot out =
      if p.is_unsigned
      then decode_scalar J B X Scalar.uint64 t v slot p.name out
      else decode_scalar J B X Scalar.int64 t v slot p.name out

  decode_long_vector : PropertyDef → Table → Verifier → ℕ → Value → Result Value
  decode_long_vector p t v slot out =
      if p.is_unsigned
      then decode_numeric_vector J B X Scalar.uint64 t v slot p.name out
      else decode_numeric_vector J B X Scalar.int64 t v slot p.name out

  -- The `switch (prop.type)`.
  decode_typed : PropertyType → PropertyDef → Table → Verifier → ℕ → Value → Result Value
  decode_typed PropertyType.bool p t v slot out = decode_bool J B X t v slot p.name out
  decode_typed PropertyType.byte p t v slot out =
      if p.is_unsigned
      then decode_scalar J B X Scalar.uint8 t v slot p.name out
      else decode_scalar J B X Scalar.int8 t v slot p.name out
  decode_typed PropertyType.short p t v slot out =
      if p.is_unsigned
      then decode_scalar J B X Scalar.uint16 t v slot p.name out
      else decode_scalar J B X Scalar.int16 t v slot p.name out
  decode_typed PropertyType.char p t v slot out =
      decode_scalar J B X Scalar.uint16 t v slot p.name out
  decode_typed PropertyType.int p t v slot out =
      if p.is_unsigned
      then decode_scalar J B X Scalar.uint32 t v slot p.name out
      else decode_scalar J B X Scalar.int32 t v slot p.name out
  decode_typed PropertyType.long p t v slot out = decode_long p t v slot out
  decode_typed PropertyType.date p t v slot out = decode_long p t v slot out
  decode_typed PropertyType.relation p t v slot out = decode_long p t v slot out
  decode_typed PropertyType.date_nano p t v slot out = decode_long p t v slot out
  decode_typed PropertyType.float p t v slot out =
      decode_scalar J B X Scalar.float32 t v slot p.name out
  decode_typed PropertyType.double p t v slot out =
      decode_scalar J B X Scalar.float64 t v slot p.name out
  decode_typed PropertyType.string p t v slot out =
      if is_external p.external_type json
        || is_external p.external_type java_script
        || is_external p.external_type json_to_native
      then decode_string_as_json J B X t v slot p.name out
      else decode_string J B X t v slot p.name out
  decode_typed PropertyType.bool_vector p t v slot out =
      decode_bool_vector J B X t v slot p.name out
  decode_typed PropertyType.byte_vector p t v slot out =
      if is_external p.external_type uuid
      then decode_byte_vector_as_blob_string J B X t v slot p.name out true
      else if is_external p.external_type int128
          || is_external p.external_type decimal128
          || is_external p.external_type bson
      then decode_byte_vector_as_blob_string J B X t v slot p.name out false
      else if p.is_unsigned
      then decode_numeric_vector J B X Scalar.uint8 t v slot p.name out
      else decode_numeric_vector J B X Scalar.int8 t v slot p.name out
  decode_typed PropertyType.short_vector p t v slot out =
      if p.is_unsigned
      then decode_numeric_vector J B X Scalar.uint16 t v slot p.name out
      else decode_numeric_vector J B X Scalar.int16 t v slot p.name out
  decode_typed PropertyType.char_vector p t v slot out =
      decode_numeric_vector J B X Scalar.uint16 t v slot p.name out
  decode_typed PropertyType.int_vector p t v slot out =
      if p.is_unsigned
      then decode_numeric_vector J B X Scalar.uint32 t v slot p.name out
      else decode_numeric_vector J B X Scalar.int32 t v slot p.name out
  decode_typed PropertyType.long_vector p t v slot out = decode_long_vector p t v slot out
  decode_typed PropertyType.date_vector p t v slot out = decode_long_vector p t v slot out
  decode_typed PropertyType.date_nano_vector p t v slot out = decode_long_vector p t v slot out
  decode_typed PropertyType.float_vector p t v slot out =
      decode_numeric_vector J B X Scalar.float32 t v slot p.name out
  decode_typed PropertyType.double_vector p t v slot out =
      decode_numeric_vector J B X Scalar.float64 t v slot p.name out
  decode_typed PropertyType.string_vector p t v slot out =
      decode_string_vector J B X t v slot p.name out
  decode_typed PropertyType.flex p t v slot out = decode_flex J B X t v slot p.name out
  decode_typed PropertyType.unknown p t v slot out = ok out

  -- One round of the loop: "id" comes from the key of the record.
  pub decode_property : Table → Verifier → PropertyDef → Value → Result Value
  decode_property t v p out =
      if eqb p.name (codes "id") then ok out else decode_typed p.type p t v (slot_for p.id) out

  decode_properties : Table → Verifier → List PropertyDef → Value → Result Value
  decode_properties t v [] out = ok out
  decode_properties t v (p ∷ ps) out = do
    out' ← decode_property t v p out
    decode_properties t v ps out'

  abbrev bad_record : Bytes → EntityDef → Bytes
  bad_record what entity =
      codes "corrupt record: " ++ what ++ codes " (entity " ++ entity.name ++ codes ")"

  -- The verifier's own counters end with the call.
  unfoldable pub decode_object : Bytes → EntityDef → Result Value
  unfolding decode_long decode_long_vector decode_typed decode_property decode_properties
  decode_object bytes entity = do
    let v = B.verifier bytes
    require (not (B.verify_root_offset v == 0)) (bad_record (codes "invalid root offset") entity)
    let t = B.get_root bytes
    require (B.verify_table_start t v) (bad_record (codes "invalid vtable") entity)
    decode_properties t v entity.properties J.object
